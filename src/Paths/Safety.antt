-- ===== src/Paths/Safety.antt =====
-- `SafePath` against its description, and `ValidID` against `SafePath`.
use mathlib.Core.List.{foldl, reverse, reverse-reverse, reverse-cons, append_assoc, append-nil}
use crawlbox.Common.{
  ℕ, ◌≡◌, ◌≢◌, refl, Bool, true, false, ◌&&◌, not, List, [], ◌∷◌, ◌++◌, Text, eq_text, eq_text_iff,
  eq_text_refl, length, leb, ◌==◌, all, Bool-cases, inl, inr, arith,
}
use crawlbox.Common.Splitting.{split, join, cons_head}
use crawlbox.Paths.{
  is_abs, clean_step, clean, has_banned, is_plain, safe_path, is_alnum, is_id_char, valid_id,
}

join-cons_head : (sep c : ℕ) (ps : List Text) → join sep (cons_head c ps) ≡ c ∷ join sep ps
join-cons_head sep c [] = refl
join-cons_head sep c (p ∷ []) = refl
join-cons_head sep c (p ∷ q ∷ ps) = refl

cons_head-ne-nil : (c : ℕ) (ps : List Text) → cons_head c ps ≢ []
cons_head-ne-nil c [] = λ e. cc
cons_head-ne-nil c (p ∷ ps) = λ e. cc

pub split-ne-nil : (sep : ℕ) (s : Text) → split sep s ≢ []
unfolding split
split-ne-nil sep [] e = cc
split-ne-nil sep (c ∷ cs) e = ground (arith, cons_head-ne-nil c (split sep cs))

join-nil_cons : (sep : ℕ) (ps : List Text) → ps ≢ [] → join sep ([] ∷ ps) ≡ sep ∷ join sep ps
join-nil_cons sep [] h = absurd (h refl)
join-nil_cons sep (p ∷ ps) h = refl

-- Joining the parts gives the text back.
pub join-split : (sep : ℕ) (s : Text) → join sep (split sep s) ≡ s
unfolding split
join-split sep [] = refl
join-split sep (c ∷ cs) = elim (Bool-cases (c == sep)) [
  | inl e ↦
      rw (e, join-nil_cons sep (split sep cs) (split-ne-nil sep cs), join-split sep cs)
        (ground arith)
  | inr e ↦ rw (e, join-cons_head sep c (split sep cs), join-split sep cs)
]

step-plain :
    (rooted : Bool) (kept : List Text) (p : Text)
    → is_plain p ≡ true
    → clean_step rooted kept p ≡ p ∷ kept
unfolding clean_step is_plain
step-plain rooted kept p h = ground arith

-- Plain elements are kept.
pub foldl-plain :
    (rooted : Bool) (kept ps : List Text)
    → all is_plain ps ≡ true
    → foldl (clean_step rooted) kept ps ≡ reverse ps ++ kept
foldl-plain rooted kept [] h = refl
foldl-plain rooted kept (p ∷ ps) h =
    let first : is_plain p ≡ true = ground arith in
    let rest : all is_plain ps ≡ true = ground arith in
    rw (
      step-plain rooted kept p first,
      foldl-plain rooted (p ∷ kept) ps rest,
      reverse-cons,
      append_assoc,
    )

-- A text of plain elements does not start with a slash.
plain-is_abs : (p : Text) → all is_plain (split b'/' p) ≡ true → is_abs p ≡ false
unfolding is_abs split is_plain
plain-is_abs [] h = refl
plain-is_abs (c ∷ cs) h = ground (arith, eq_text_iff [] [])

plain-ne-nil : (p : Text) → all is_plain (split b'/' p) ≡ true → p ≢ []
unfolding is_plain split
plain-ne-nil [] h = λ e. ground (arith, eq_text_iff [] [])
plain-ne-nil (c ∷ cs) h = λ e. cc

pub plain-clean : (p : Text) → all is_plain (split b'/' p) ≡ true → clean p ≡ p
unfolding clean
plain-clean [] h = absurd (unfold is_plain split in ground (arith, eq_text_iff [] []))
plain-clean (c ∷ cs) h = rw (
  plain-is_abs (c ∷ cs) h,
  foldl-plain false [] (split b'/' (c ∷ cs)) h,
  append-nil,
  reverse-reverse,
  join-split b'/' (c ∷ cs),
)

-- `SafePath` accepts exactly the texts of at most 4096 bytes with no backslash, NUL, CR or LF
-- whose elements between slashes are neither empty nor dot segments: its other tests follow.
pub safe_path_exact :
    (p : Text)
    → safe_path p ≡ (leb (length p) 4096 && (not (has_banned p) && all is_plain (split b'/' p)))
unfolding safe_path
safe_path_exact p = elim (Bool-cases (all is_plain (split b'/' p))) [
  | inl good ↦
      rw (plain-is_abs p good, plain-clean p good)
        (ground (arith, eq_text_refl p, eq_text_iff p [], plain-ne-nil p good))
  | inr bad ↦ rw bad (ground arith)
]

split-id_chars : (cs : Text) → all is_id_char cs ≡ true → split b'/' cs ≡ cs ∷ []
unfolding split is_id_char
split-id_chars [] h = refl
split-id_chars (c ∷ cs) h = ground (arith, split-id_chars cs)

banned-id_chars : (cs : Text) → all is_id_char cs ≡ true → has_banned cs ≡ false
unfolding has_banned is_id_char
banned-id_chars [] h = refl
banned-id_chars (c ∷ cs) h = ground (arith, banned-id_chars cs)

plain-valid_id : (c : ℕ) (cs : Text) → is_alnum c ≡ true → is_plain (c ∷ cs) ≡ true
unfolding is_plain is_alnum eq_text
plain-valid_id c cs h = ground arith

-- A valid identifier of a source or a revision is a safe path, and one element of it: used as a
-- directory name it names a direct child.
pub valid_id-safe_path :
    (s : Text) → valid_id s ≡ true → (safe_path s ≡ true) × (split b'/' s ≡ s ∷ [])
unfolding valid_id
valid_id-safe_path [] h = cc
valid_id-safe_path (c ∷ cs) h =
    let first : is_alnum c ≡ true = ground arith in
    let chars : all is_id_char (c ∷ cs) ≡ true = unfold is_id_char in ground arith in
    let parts = split-id_chars (c ∷ cs) chars in
    (
      rw
          (
            safe_path_exact (c ∷ cs),
            parts,
            banned-id_chars (c ∷ cs) chars,
            plain-valid_id c cs first,
          )
          (ground arith),
      parts,
    )
