-- ===== src/App/Changes/Exact.antt =====
-- `diff` against what a change list means, path by path.
use crawlbox.Common.{
  select-append, ◌≡◌, refl, ◌∙◌, Option, none, some, List, [], ◌∷◌, ◌++◌, Map, Text, eq_text,
  eq_text_iff, lt_text_irrefl, lt_text_asym, lt_text_ntrans, ap₂, lookup, insert, erase,
  lookup-insert, lookup-erase, map, if◌then◌else◌, select, arith, Bool-cases, inl, inr,
}
use crawlbox.Common.Sorting.{IsSorted, sort-IsSorted, select-sort}
use crawlbox.Wire.{Entry}
use crawlbox.Model.{Change}
use crawlbox.Host.State.{index_entries}
use crawlbox.App.Changes.{
  added_at, modified_at, deleted_at, change_of, diff_new, deletion, by_path, diff,
}

abbrev pub changes_at : Text → List Change → List Change
changes_at p cs = select (λ c. eq_text c.path p) cs

-- The last entry of a path in a list.
abbrev pub entry_at : Text → List Entry → Option Entry
entry_at p es = lookup p (index_entries es [])

-- What happened to a path, from its entries before and after.
abbrev pub happened : Option Entry → Option Entry → List Change
happened none none = []
happened none (some f) = added_at f ∷ []
happened (some b) (some f) = if eq_text b.sha256 f.sha256 then [] else modified_at b f ∷ []
happened (some b) none = deleted_at b ∷ []

-- A map whose keys are the paths of its entries, each once.
abbrev pub IsIndex : Map Entry → Type 0
IsIndex [] = Unit
IsIndex ((k, e) ∷ m) = (e.path ≡ k) × (lookup k m ≡ none) × IsIndex m

-- No path stands twice.
abbrev pub first_at : Text → List Entry → Option Entry
first_at p [] = none
first_at p (e ∷ es) = let rest = first_at p es in if eq_text e.path p then some e else rest

abbrev pub HasDistinctPaths : List Entry → Type 0
HasDistinctPaths [] = Unit
HasDistinctPaths (e ∷ es) = (first_at e.path es ≡ none) × HasDistinctPaths es

IsIndex-insert : (e : Entry) (m : Map Entry) → IsIndex m → IsIndex (insert e.path e m)
unfolding insert lookup
IsIndex-insert e [] i = (refl, refl, tt)
IsIndex-insert e ((k, f) ∷ m) (at, once, i) = elim (Bool-cases (eq_text k e.path)) [
  | inl same ↦ rw same (ground (arith, eq_text_iff k e.path))
  | inr other ↦ rw other (
    at,
    ground (arith, eq_text_iff k e.path, eq_text_iff e.path k, lookup-insert e.path k e m),
    IsIndex-insert e m i,
  )
]

IsIndex-erase : (p : Text) (m : Map Entry) → IsIndex m → IsIndex (erase p m)
unfolding erase
IsIndex-erase p [] i = tt
IsIndex-erase p ((k, f) ∷ m) (at, once, i) = elim (Bool-cases (eq_text k p)) [
  | inl same ↦ rw same (IsIndex-erase p m i)
  | inr other ↦ rw other (
    at,
    ground (arith, eq_text_iff k p, eq_text_iff p k, lookup-erase p k m),
    IsIndex-erase p m i,
  )
]

pub IsIndex-index_entries :
    (es : List Entry) (m : Map Entry) → IsIndex m → IsIndex (index_entries es m)
unfolding index_entries
IsIndex-index_entries [] m i = i
IsIndex-index_entries (e ∷ es) m i =
    IsIndex-index_entries es (insert e.path e m) (IsIndex-insert e m i)

-- The deletions at a path.
abbrev pub deleted_if : Option Entry → List Change
deleted_if none = []
deleted_if (some b) = deleted_at b ∷ []

changes_at-deletions :
    (p : Text) (m : Map Entry) → IsIndex m → changes_at p (map deletion m) ≡ deleted_if (lookup p m)
unfolding lookup
changes_at-deletions p [] i = refl
changes_at-deletions p ((k, e) ∷ m) (at, once, i) =
    ground (arith, eq_text_iff k p, changes_at-deletions p m i)

-- The additions and modifications at a path.
abbrev pub changed_if : Option Entry → Option Entry → List Change
changed_if b none = []
changed_if b (some f) = change_of b f

pub changes_at-change_of :
    (p : Text) (b : Option Entry) (f : Entry)
    → changes_at p (change_of b f) ≡ (if eq_text f.path p then change_of b f else [])
unfolding change_of
changes_at-change_of p none f = ground arith
changes_at-change_of p (some b) f = ground arith

changes_at-diff_new :
    (p : Text) (fs : List Entry) (before : Map Entry)
    → HasDistinctPaths fs
    → changes_at p (diff_new fs before).0 ≡ changed_if (lookup p before) (first_at p fs)
unfolding diff_new
changes_at-diff_new p [] before d = refl
changes_at-diff_new p (f ∷ fs) before (once, d) =
    rw
      (
        select-append (λ c. eq_text c.path p) (change_of (lookup f.path before) f)
            (diff_new fs (erase f.path before)).0,
        changes_at-change_of p (lookup f.path before) f,
        changes_at-diff_new p fs (erase f.path before) d,
        lookup-erase f.path p before,
      )
      (ground (arith, eq_text_iff f.path p))

IsIndex-diff_new :
    (fs : List Entry) (before : Map Entry) → IsIndex before → IsIndex (diff_new fs before).1
unfolding diff_new
IsIndex-diff_new [] before i = i
IsIndex-diff_new (f ∷ fs) before i =
    IsIndex-diff_new fs (erase f.path before) (IsIndex-erase f.path before i)

left-diff_new :
    (p : Text) (fs : List Entry) (before : Map Entry)
    → lookup p (diff_new fs before).1
      ≡ elim (first_at p fs) [ none ↦ lookup p before | some f ↦ none ]
unfolding diff_new
left-diff_new p [] before = refl
left-diff_new p (f ∷ fs) before =
    ground (arith, lookup-erase f.path p before, left-diff_new p fs (erase f.path before))

parts :
    (p : Text) (b f : Option Entry) {l : Option Entry}
    → l ≡ elim f [ none ↦ b | some e ↦ none ]
    → changed_if b f ++ deleted_if l ≡ happened b f
unfolding change_of
parts p none none h = rw h
parts p none (some f) h = rw h
parts p (some b) none h = rw h
parts p (some b) (some f) h = rw h (ground arith)

-- The changes that `diff` lists for a path are what happened to it, whatever the path, for old
-- entries in any order and new entries with distinct paths; and the list is sorted by path.
pub diff_exact :
    (old fresh : List Entry)
    → HasDistinctPaths fresh
    → ((p : Text) → changes_at p (diff old fresh) ≡ happened (entry_at p old) (first_at p fresh))
      × IsSorted by_path (diff old fresh)
unfolding diff
diff_exact old fresh d =
    let before = index_entries old [] in
    let (out, left) = diff_new fresh before in
    (
      λ p.
          select-sort by_path (λ c. eq_text c.path p) (out ++ map deletion left)
            (λ x y ex ey.
              ground (arith, eq_text_iff x.path p, eq_text_iff y.path p, lt_text_irrefl p))
          ∙ select-append (λ c. eq_text c.path p) out (map deletion left)
          ∙ ap₂ ◌++◌ (changes_at-diff_new p fresh before d) (
              changes_at-deletions p left
                (IsIndex-diff_new fresh before (IsIndex-index_entries old [] tt)))
          ∙ parts p (lookup p before) (first_at p fresh) (left-diff_new p fresh before),
      sort-IsSorted by_path (λ a b. lt_text_asym a.path b.path)
          (λ a b c. λ h k. lt_text_ntrans a.path b.path c.path h k) (out ++ map deletion left),
    )
