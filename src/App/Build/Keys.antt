-- ===== src/App/Build/Keys.antt =====
-- The paths that `build` visits: which they are, and that none stands twice.
use crawlbox.Common.{
  ◌≡◌, refl, ◌∙◌, Bool, true, false, ◌||◌, ◌&&◌, not, Option, none, some, List, [], ◌∷◌, Map, Text,
  eq_text, eq_text_iff, lt_text, lookup, insert, has, lookup-insert, map, any, arith, Bool-cases,
  inl, inr, codes,
}
use crawlbox.Common.Sorting.{sort, insert_by}
use crawlbox.Wire.{Entry}
use crawlbox.Host.Candidate.{is_deleted}
use crawlbox.App.Build.{key, inherit, publish, place}
use crawlbox.App.Build.Listed.{paths_of}
use crawlbox.App.Changes.Exact.{first_at, HasDistinctPaths}

abbrev pub among : Text → List Text → Bool
among p ps = any (λ q. eq_text q p) ps

abbrev pub AreDistinct : List Text → Type 0
AreDistinct [] = Unit
AreDistinct (p ∷ ps) = (among p ps ≡ false) × AreDistinct ps

among-insert_by :
    (p q : Text) (ps : List Text) → among p (insert_by lt_text q ps) ≡ (eq_text q p || among p ps)
unfolding insert_by
among-insert_by p q [] = refl
among-insert_by p q (x ∷ ps) = ground (arith, among-insert_by p q ps)

pub among-sort : (p : Text) (ps : List Text) → among p (sort lt_text ps) ≡ among p ps
unfolding sort
among-sort p [] = refl
among-sort p (q ∷ ps) = ground (arith, among-insert_by p q (sort lt_text ps), among-sort p ps)

insert_by-AreDistinct :
    (q : Text) (ps : List Text)
    → among q ps ≡ false
    → AreDistinct ps
    → AreDistinct (insert_by lt_text q ps)
unfolding insert_by
insert_by-AreDistinct q [] h d = (refl, tt)
insert_by-AreDistinct q (x ∷ ps) h (once, d) = elim (Bool-cases (lt_text x q)) [
  | inl e ↦ rw e (
    ground (arith, among-insert_by x q ps, eq_text_iff x q, eq_text_iff q x),
    insert_by-AreDistinct q ps (ground arith) d,
  )
  | inr e ↦ rw e (h, (once, d))
]

pub sort-AreDistinct : (ps : List Text) → AreDistinct ps → AreDistinct (sort lt_text ps)
unfolding sort
sort-AreDistinct [] d = tt
sort-AreDistinct (p ∷ ps) (once, d) =
    insert_by-AreDistinct p (sort lt_text ps) (among-sort p ps ∙ once) (sort-AreDistinct ps d)

module _ {ℓ} {V : Type ℓ} where
  pub among-keys : (p : Text) (m : Map V) → among p (map key m) ≡ has p m
  unfolding has lookup
  among-keys p [] = refl
  among-keys p ((k, v) ∷ m) = ground (arith, among-keys p m)

  pub has-insert :
      (k p : Text) (v : V) (m : Map V) → has p (insert k v m) ≡ (eq_text k p || has p m)
  unfolding has
  has-insert k p v m = ground (arith, lookup-insert k p v m)

  insert-AreDistinct :
      (k : Text) (v : V) (m : Map V)
      → AreDistinct (map key m)
      → AreDistinct (map key (insert k v m))
  unfolding insert
  insert-AreDistinct k v [] d = (refl, tt)
  insert-AreDistinct k v ((j, w) ∷ m) (once, d) = elim (Bool-cases (eq_text j k)) [
    | inl e ↦ rw e (ground (arith, eq_text_iff j k), d)
    | inr e ↦ rw e (
      ground (
        arith,
        among-keys j m,
        among-keys j (insert k v m),
        has-insert k j v m,
        eq_text_iff j k,
        eq_text_iff k j,
      ),
      insert-AreDistinct k v m d,
    )
  ]

pub has-publish :
    (p : Text) (files paths : Map Text) → has p (publish files paths) ≡ (has p files || has p paths)
unfolding publish has lookup
has-publish p [] paths = refl
has-publish p ((k, v) ∷ files) paths =
    ground (arith, has-publish p files (insert k v paths), has-insert k p v paths)

pub publish-AreDistinct :
    (files paths : Map Text)
    → AreDistinct (map key paths)
    → AreDistinct (map key (publish files paths))
unfolding publish
publish-AreDistinct [] paths d = d
publish-AreDistinct ((k, v) ∷ files) paths d =
    publish-AreDistinct files (insert k v paths) (insert-AreDistinct k v paths d)

pub has-inherit :
    (p previous : Text) (deletes : Map Bool) (old : Map Entry) (paths : Map Text)
    → has p (inherit previous deletes old paths)
      ≡ (has p paths || (has p old && not (is_deleted p deletes)))
unfolding inherit has lookup
has-inherit p previous deletes [] paths = ground arith
has-inherit p previous deletes ((k, e) ∷ old) paths = ground (
  arith,
  eq_text_iff k p,
  has-inherit p previous deletes old paths,
  has-inherit p previous deletes old (insert k (place previous (codes "files") k) paths),
  has-insert k p (place previous (codes "files") k) paths,
)

pub inherit-AreDistinct :
    (previous : Text) (deletes : Map Bool) (old : Map Entry) (paths : Map Text)
    → AreDistinct (map key paths)
    → AreDistinct (map key (inherit previous deletes old paths))
unfolding inherit
inherit-AreDistinct previous deletes [] paths d = d
inherit-AreDistinct previous deletes ((k, e) ∷ old) paths d =
    elim (Bool-cases (is_deleted k deletes)) [
      | inl e ↦ rw e (inherit-AreDistinct previous deletes old paths d)
      | inr e ↦ rw e (
          inherit-AreDistinct previous deletes old
            (insert k (place previous (codes "files") k) paths)
            (insert-AreDistinct k (place previous (codes "files") k) paths d))
    ]

abbrev pub is_some {ℓ} : {A : Type ℓ} → Option A → Bool
is_some none = false
is_some (some a) = true

pub first_at-among : (p : Text) (fs : List Entry) → is_some (first_at p fs) ≡ among p (paths_of fs)
first_at-among p [] = refl
first_at-among p (f ∷ fs) = ground (arith, first_at-among p fs)

pub paths-HasDistinctPaths : (fs : List Entry) → AreDistinct (paths_of fs) → HasDistinctPaths fs
paths-HasDistinctPaths [] d = tt
paths-HasDistinctPaths (f ∷ fs) (once, d) =
    (ground (arith, first_at-among f.path fs), paths-HasDistinctPaths fs d)
