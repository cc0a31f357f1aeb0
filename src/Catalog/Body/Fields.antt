-- ===== src/Catalog/Body/Fields.antt =====
-- A revision is read back with every field.
use crawlbox.Common.{
  ℕ, zero, ◌≡◌, ◌==◌, ◌⊎◌, inl, inr, refl, ap, ap₂, ◌∙◌, Bool, true, false, ◌||◌, List, [], ◌∷◌,
  Text, eq_text, lookup, codes, map, any, arith, Bool-cases, if◌then◌else◌,
}
use crawlbox.Wire.{Entry}
use crawlbox.Model.{Kind, added, modified, deleted, Change, Revision}
use crawlbox.Catalog.Body.{
  raw_json, entry_body, entry_of, change_body, change_of, kind_text, kind_of, marshal, unmarshal,
  Place, outside, inside, escaped, next, written, is_separator, compact, is_empty,
}

entry_of-entry_body : (e : Entry) → entry_of (entry_body e) ≡ e
unfolding lookup eq_text
entry_of-entry_body e = refl

kind_of-kind_text : (k : Kind) → kind_of (kind_text k) ≡ k
unfolding eq_text
kind_of-kind_text added = refl
kind_of-kind_text modified = refl
kind_of-kind_text deleted = refl

change_of-change_body : (c : Change) → change_of (change_body c) ≡ c
unfolding lookup eq_text
change_of-change_body c = by_texts c.before c.after
  where
    by_texts :
        (b a : Text)
        → change_of (change_body (record c { before = b; after = a }))
          ≡ record c { before = b; after = a }
    by_texts [] [] =
        ap (λ k. record c { kind = k; before = []; after = [] }) (kind_of-kind_text c.kind)
    by_texts [] (y ∷ ys) =
        ap (λ k. record c { kind = k; before = []; after = y ∷ ys }) (kind_of-kind_text c.kind)
    by_texts (x ∷ xs) [] =
        ap (λ k. record c { kind = k; before = x ∷ xs; after = [] }) (kind_of-kind_text c.kind)
    by_texts (x ∷ xs) (y ∷ ys) =
        ap (λ k. record c { kind = k; before = x ∷ xs; after = y ∷ ys }) (kind_of-kind_text c.kind)

map-inverse :
    {A B : Type 0} (f : A → B) (g : B → A)
    → ((x : A) → g (f x) ≡ x)
    → (xs : List A) → map g (map f xs) ≡ xs
map-inverse f g h [] = refl
map-inverse f g h (x ∷ xs) = ap₂ ◌∷◌ (h x) (map-inverse f g h xs)

-- What is left of a revision in its body: everything, with the raw JSON as it was written.
abbrev pub as_stored : Revision → Revision
as_stored r = record r {
  plugin = record r.plugin { config_schema = raw_json r.plugin.config_schema };
  state = raw_json r.state;
  metadata = raw_json r.metadata;
}

-- The same, before the lists of objects are read.
abbrev as_read : Revision → Revision
as_read r = record (as_stored r) {
  files = map entry_of (map entry_body r.files);
  artifacts = map entry_of (map entry_body r.artifacts);
  changes = map change_of (map change_body r.changes);
  artifact_changes = map change_of (map change_body r.artifact_changes);
}

unmarshal-as_read : (r : Revision) → unmarshal (marshal r) ≡ as_read r
unfolding marshal unmarshal lookup eq_text
unmarshal-as_read r = by_omitted r.run r.parent r.tags r.snapshot
  where
    with_omitted : Text → Text → List Text → Text → Revision
    with_omitted run parent tags snapshot = record r {
      run = run;
      parent = parent;
      tags = tags;
      snapshot = snapshot;
    }

    by_omitted :
        (run parent : Text) (tags : List Text) (snapshot : Text)
        → unmarshal (marshal (with_omitted run parent tags snapshot))
          ≡ as_read (with_omitted run parent tags snapshot)
    by_omitted [] [] [] [] = refl
    by_omitted [] [] [] (w ∷ ws) = refl
    by_omitted [] [] (z ∷ zs) [] = refl
    by_omitted [] [] (z ∷ zs) (w ∷ ws) = refl
    by_omitted [] (y ∷ ys) [] [] = refl
    by_omitted [] (y ∷ ys) [] (w ∷ ws) = refl
    by_omitted [] (y ∷ ys) (z ∷ zs) [] = refl
    by_omitted [] (y ∷ ys) (z ∷ zs) (w ∷ ws) = refl
    by_omitted (x ∷ xs) [] [] [] = refl
    by_omitted (x ∷ xs) [] [] (w ∷ ws) = refl
    by_omitted (x ∷ xs) [] (z ∷ zs) [] = refl
    by_omitted (x ∷ xs) [] (z ∷ zs) (w ∷ ws) = refl
    by_omitted (x ∷ xs) (y ∷ ys) [] [] = refl
    by_omitted (x ∷ xs) (y ∷ ys) [] (w ∷ ws) = refl
    by_omitted (x ∷ xs) (y ∷ ys) (z ∷ zs) [] = refl
    by_omitted (x ∷ xs) (y ∷ ys) (z ∷ zs) (w ∷ ws) = refl

-- A revision that is written to its body is read back with every field as it was, but for the raw
-- JSON, which is compact.
pub unmarshal-marshal : (r : Revision) → unmarshal (marshal r) ≡ as_stored r
unmarshal-marshal r =
    unmarshal-as_read r
    ∙ rw
        (
          map-inverse entry_body entry_of entry_of-entry_body r.files,
          map-inverse entry_body entry_of entry_of-entry_body r.artifacts,
          map-inverse change_body change_of change_of-change_body r.changes,
          map-inverse change_body change_of change_of-change_body r.artifact_changes,
        )
        refl

-- A byte that may be left out or escaped: white space, "<", ">", "&", and the first byte of U+2028
-- and of U+2029.
abbrev pub is_rewritten : ℕ → Bool
is_rewritten c =
    c == 32
    || (c == 9 || (c == 10 || (c == 13 || (c == b'<' || (c == b'>' || (c == b'&' || c == 226))))))

written-plain : (p : Place) (c : ℕ) → is_rewritten c ≡ false → written p c ≡ c ∷ []
written-plain outside c h = ground arith
written-plain inside c h = ground arith
written-plain escaped c h = ground arith

is_separator-plain : (c : ℕ) (cs : Text) → is_rewritten c ≡ false → is_separator c cs ≡ false
is_separator-plain c [] h = refl
is_separator-plain c (d ∷ []) h = refl
is_separator-plain c (d ∷ e ∷ rest) h = ground arith

or-both : (a b : Bool) → (a || b) ≡ false → (a ≡ false) × (b ≡ false)
or-both false b h = (refl, h)
or-both true b h = cc

compact-plain : (p : Place) (t : Text) → any is_rewritten t ≡ false → compact zero p t ≡ t
unfolding compact
compact-plain p [] h = refl
compact-plain p (c ∷ cs) h =
    let (here, there) = or-both (is_rewritten c) (any is_rewritten cs) h in
    rw (is_separator-plain c cs here, written-plain p c here, compact-plain (next p c) cs there)
      refl

-- Raw JSON without such bytes stays as it is, and an empty one becomes null.
abbrev pub IsKept : Text → Type 0
IsKept t = (any is_rewritten t ≡ true) ⊎ (raw_json t ≡ (if is_empty t then codes "null" else t))

pub raw_json-IsKept : (t : Text) → IsKept t
unfolding raw_json
raw_json-IsKept [] = inr refl
raw_json-IsKept (c ∷ cs) = elim (Bool-cases (any is_rewritten (c ∷ cs))) [
  | inl some_there ↦ inl some_there
  | inr none_there ↦ inr (compact-plain outside (c ∷ cs) none_there)
]
