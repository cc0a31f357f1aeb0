-- ===== src/Host/Steps/Opening.antt =====
-- Making and opening objects are moves.
use crawlbox.Common.{
  ◌≡◌, refl, sym, ap, subst, ◌∙◌, false, Option, none, some, [], Map, Text, lookup, lookup-insert,
  eq_text, eq_text_refl, length, arith, Bool-cases, Option-cases, inl, inr,
}
use crawlbox.Common.Result.{Result, ok, err}
use crawlbox.Paths.{safe_path, path_join}
use crawlbox.Wire.{Entry, Request}
use crawlbox.Host.State.{Object, Host, Io, Node, regular, irregular, is_taken}
use crawlbox.Host.Objects
use crawlbox.Host.Objects.{
  passed, failure, or_else, new_object, add_object, object_id, object_path, open_previous,
  open_node, committed_entry,
}
use crawlbox.Host.Moves.{Move, left, made, opened, unmoved}

open_node-Move :
    (node : Option Node) (known : Map Entry) (p name : Text) (h : Host)
    → h.tree p ≡ node
    → Move h (open_node node known p name h).1
open_node-Move none known p name h e = unmoved h
open_node-Move (some irregular) known p name h e = unmoved h
open_node-Move (some (regular bytes)) known p name h e =
    opened _ p bytes (committed_entry (lookup name known) (length bytes)) e refl

pub open_previous-Move :
    (root : Text) (known : Map Entry) (q : Request) (h : Host)
    → Move h (open_previous root known q h).1
unfolding open_previous
open_previous-Move root known q h = elim (Bool-cases (safe_path q.path)) [
  | inr e ↦ rw e (unmoved h)
  | inl safe ↦ rw safe (elim (Bool-cases (eq_text root [])) [
    | inl e ↦ rw e (unmoved h)
    | inr e ↦ rw e (
        open_node-Move (h.tree (path_join root q.path)) known (path_join root q.path) q.path h refl)
  ])
]

add_object-Move : (io : Io) (h : Host) (temp : Text) → Move h (add_object io h temp).1
unfolding add_object
add_object-Move io h temp = elim (Bool-cases (is_taken h (object_path h temp))) [
  | inl e ↦ rw e (unmoved h)
  | inr fresh ↦ rw fresh (elim (Option-cases io.closing) [
    | inl e ↦ rw e (made (object_id temp) (object_path h temp) fresh refl)
    | inr (x, e) ↦ rw e (left (object_path h temp) fresh refl)
  ])
]

pub new_object-Move : (io : Io) (h : Host) → Move h (new_object io h).1
unfolding new_object
new_object-Move io h = go io.temp refl
  where
    go : (t : Result Text) → io.temp ≡ t → Move h (new_object io h).1
    go (ok temp) e = rw e (add_object-Move io h temp)
    go (err x) e = rw e (unmoved h)

-- The object of a new file is unsealed and its file empty.
pub record IsNew (id : Text) (o : Object) (h : Host) : Type 0 where
  pub found : lookup id h.objects ≡ some o
  pub unsealed : o.sealed ≡ false
  pub blank : lookup o.path h.staged ≡ some []

add_object-IsNew :
    (io : Io) (h : Host) (temp id : Text)
    → (add_object io h temp).0 ≡ ok id
    → (o : Object) × IsNew id o (add_object io h temp).1
unfolding add_object
add_object-IsNew io h temp id e =
    let path = object_path h temp in
    let o : Object = record { path = path; sealed = false; entry = none } in
    (
      o,
      ground (
        arith,
        lookup-insert (object_id temp) id o h.objects,
        lookup-insert path path [] h.staged,
        eq_text_refl id,
        eq_text_refl path,
      ),
    )

pub new_object-IsNew :
    (io : Io) (h : Host) (id : Text)
    → (new_object io h).0 ≡ ok id
    → (o : Object) × IsNew id o (new_object io h).1
unfolding new_object
new_object-IsNew io h id = go io.temp refl
  where
    go :
        (t : Result Text)
        → io.temp ≡ t
        → (new_object io h).0 ≡ ok id
        → (o : Object) × IsNew id o (new_object io h).1
    go (ok temp) e p =
        let same : new_object io h ≡ add_object io h temp = rw e in
        subst (λ x. (o : Object) × IsNew id o x.1) (sym same)
          (add_object-IsNew io h temp id (ap (λ x. x.0) (sym same) ∙ p))
    go (err x) e p = absurd (ground arith)

created-host : (r : Result Text) (h : Host) → (Objects.created (r, h)).1 ≡ h
created-host (ok id) h = refl
created-host (err e) h = refl

pub create-Move : (io : Io) (h : Host) → Move h (Objects.create io h).1
unfolding Objects.create
create-Move io h =
    subst (Move h) (sym (created-host (new_object io h).0 (new_object io h).1))
      (new_object-Move io h)
