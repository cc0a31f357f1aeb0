-- ===== src/App/Confirm/Entries.antt =====
-- `sameEntries` against the equality of two sets of entries.
use mathlib.Core.List.{Perm}
use mathlib.Core.List.Perm
use crawlbox.Common.{
  suc, ◌≡◌, ◌≢◌, refl, ap, subst, ◌∙◌, true, false, Option, none, some, List, [], ◌∷◌, Map, Text,
  All, eq_text, eq_text_iff, lookup, insert, lookup-insert, length, all, arith, if◌then◌else◌,
  Bool-cases, inl, inr,
}
use crawlbox.Wire.{Entry, eq_entry}
use crawlbox.Host.State.{index_entries}
use crawlbox.App.Confirm.{same_entries, or_zero}
use crawlbox.App.Changes.Exact.{first_at, HasDistinctPaths}

-- In a list with distinct paths, the entry that the index has is the only one.
pub lookup-index_entries :
    (p : Text) (es : List Entry) (m : Map Entry)
    → HasDistinctPaths es
    → lookup p (index_entries es m) ≡ elim (first_at p es) [ none ↦ lookup p m | some e ↦ some e ]
unfolding index_entries
lookup-index_entries p [] m d = refl
lookup-index_entries p (e ∷ es) m (once, d) =
    lookup-index_entries p es (insert e.path e m) d
    ∙ ground (arith, lookup-insert e.path p e m, eq_text_iff e.path p)

-- The list without the first entry of a path.
abbrev without : Text → List Entry → List Entry
without p [] = []
without p (e ∷ es) = let rest = without p es in if eq_text e.path p then es else e ∷ rest

without-perm :
    (e : Entry) (p : Text) (es : List Entry) → first_at p es ≡ some e → Perm es (e ∷ without p es)
without-perm e p [] h = cc
without-perm e p (x ∷ es) h = elim (Bool-cases (eq_text x.path p)) [
  | inl here ↦
      let same : x ≡ e = ground arith in
      rw here (subst (λ y. Perm (x ∷ es) (y ∷ es)) same (Perm.refl (x ∷ es)))
  | inr there ↦
      rw there (
        Perm.trans (Perm.cons x (without-perm e p es (ground arith)))
          (Perm.swap e x (without p es)))
]

length-without :
    (e : Entry) (p : Text) (es : List Entry)
    → first_at p es ≡ some e
    → length es ≡ suc (length (without p es))
length-without e p [] h = cc
length-without e p (x ∷ es) h = ground (arith, length-without e p es)

first_at-without :
    (p q : Text) (es : List Entry) → eq_text p q ≡ false → first_at p (without q es) ≡ first_at p es
first_at-without p q [] h = refl
first_at-without p q (x ∷ es) h =
    ground
      (arith, first_at-without p q es, eq_text_iff p q, eq_text_iff x.path p, eq_text_iff x.path q)

-- As many entries as another list that has each of them are its entries.
perm_of_all :
    (a b : List Entry)
    → length a ≡ length b
    → HasDistinctPaths b
    → All (λ e. first_at e.path a ≡ some e) b
    → Perm a b
perm_of_all [] [] n d h = Perm.refl []
perm_of_all (x ∷ a) [] n d h = absurd (omega (arith, n))
perm_of_all a (e ∷ b) n (once, d) (found, h) = Perm.trans (without-perm e e.path a found) (
    Perm.cons e (
      perm_of_all (without e.path a) b (omega (arith, n, length-without e e.path a found)) d
        (others b once h)))
  where
    others :
        (xs : List Entry)
        → first_at e.path xs ≡ none
        → All (λ x. first_at x.path a ≡ some x) xs
        → All (λ x. first_at x.path (without e.path a) ≡ some x) xs
    others [] once h = tt
    others (x ∷ xs) once (h, hs) =
        let differ : eq_text x.path e.path ≡ false = ground arith in
        (first_at-without x.path e.path a differ ∙ h, others xs (ground arith) hs)

pub eq_entry-eq : (f e : Entry) → eq_entry f e ≡ true → f ≡ e
unfolding eq_entry
eq_entry-eq f e h = ground (arith, eq_text_iff f.path e.path, eq_text_iff f.sha256 e.sha256)

entry_found :
    (a : List Entry) (e : Entry)
    → HasDistinctPaths a
    → e.path ≢ []
    → eq_entry (or_zero (lookup e.path (index_entries a []))) e ≡ true
    → first_at e.path a ≡ some e
unfolding eq_entry lookup
entry_found a e d named h = go (first_at e.path a) refl
  where
    go : (o : Option Entry) → first_at e.path a ≡ o → o ≡ some e
    go none k =
        absurd (named (ground (arith, lookup-index_entries e.path a [] d, eq_text_iff [] e.path)))
    go (some f) k = ap some (eq_entry-eq f e (ground (arith, lookup-index_entries e.path a [] d)))

all_found :
    (a b : List Entry)
    → HasDistinctPaths a
    → All (λ e. e.path ≢ []) b
    → all (λ e. eq_entry (or_zero (lookup e.path (index_entries a []))) e) b ≡ true
    → All (λ e. first_at e.path a ≡ some e) b
all_found a [] d named h = tt
all_found a (e ∷ b) d named h =
    (entry_found a e d named.0 (ground arith), all_found a b d named.1 (ground arith))

-- For two lists that have each path once, and no empty one, `sameEntries` tells that they are the
-- same entries, whatever their order.
pub same_entries-perm :
    (a b : List Entry)
    → HasDistinctPaths a
    → HasDistinctPaths b
    → All (λ e. e.path ≢ []) b
    → same_entries a b ≡ true
    → Perm a b
unfolding same_entries
same_entries-perm a b da db named h =
    perm_of_all a b (ground arith) db (all_found a b da named (ground arith))
