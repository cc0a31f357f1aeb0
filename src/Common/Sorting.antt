-- ===== src/Common/Sorting.antt =====
-- `sort.Strings`, `sort.Slice` and `slices.SortFunc`, as a stable insertion sort. Where the keys
-- differ the result is the only sorted arrangement, whatever the method.
use mathlib.Core.Path.{◌≡◌, refl}
use mathlib.Core.Logic.{inl, inr}
use mathlib.Core.Bool.{Bool, true, false}
use mathlib.Core.List.{List, [], ◌∷◌, Perm}
use mathlib.Core.List.Perm
use crawlbox.Common.Tests.{Bool-cases, if◌then◌else◌}
use crawlbox.Common.Lists.{All, select}
use native.Mathlib.Omega.{arith}

module _ {ℓ} {A : Type ℓ} where
  unfoldable pub insert_by : (A → A → Bool) → A → List A → List A
  insert_by before x [] = x ∷ []
  insert_by before x (y ∷ ys) =
      let rest = insert_by before x ys in if before y x then y ∷ rest else x ∷ y ∷ ys

  unfoldable pub sort : (A → A → Bool) → List A → List A
  unfolding insert_by
  sort before [] = []
  sort before (x ∷ xs) = insert_by before x (sort before xs)

  -- No later element stands before an earlier one.
  abbrev pub IsSorted : (A → A → Bool) → List A → Type ℓ
  IsSorted before [] = Unit
  IsSorted before (x ∷ xs) = All (λ y. before y x ≡ false) xs × IsSorted before xs

  insert_by-perm :
      (before : A → A → Bool) (x : A) (ys : List A) → Perm (insert_by before x ys) (x ∷ ys)
  unfolding insert_by
  insert_by-perm before x [] = Perm.refl (x ∷ [])
  insert_by-perm before x (y ∷ ys) = elim (Bool-cases (before y x)) [
    | inl e ↦ rw e (Perm.trans (Perm.cons y (insert_by-perm before x ys)) (Perm.swap x y ys))
    | inr e ↦ rw e (Perm.refl (x ∷ y ∷ ys))
  ]

  -- The sorted list has the same elements, as often.
  pub sort-perm : (before : A → A → Bool) (xs : List A) → Perm (sort before xs) xs
  unfolding sort
  sort-perm before [] = Perm.refl []
  sort-perm before (x ∷ xs) =
      Perm.trans (insert_by-perm before x (sort before xs)) (Perm.cons x (sort-perm before xs))

  pub All-insert_by {κ} :
      (before : A → A → Bool) (P : A → Type κ) (x : A) (ys : List A)
      → P x
      → All P ys
      → All P (insert_by before x ys)
  unfolding insert_by
  All-insert_by before P x [] px ps = (px, tt)
  All-insert_by before P x (y ∷ ys) px ps = elim (Bool-cases (before y x)) [
    | inl e ↦ rw e (ps.0, All-insert_by before P x ys px ps.1)
    | inr e ↦ rw e (px, ps)
  ]

  pub All-sort {κ} :
      (before : A → A → Bool) (P : A → Type κ) (xs : List A) → All P xs → All P (sort before xs)
  unfolding sort
  All-sort before P [] ps = tt
  All-sort before P (x ∷ xs) ps =
      All-insert_by before P x (sort before xs) ps.0 (All-sort before P xs ps.1)

module _ {ℓ} {A : Type ℓ} (before : A → A → Bool)
    (asym : (x y : A) → before x y ≡ true → before y x ≡ false)
    (ntrans : (x y z : A) → before x y ≡ false → before y z ≡ false → before x z ≡ false) where
  All-weaken :
      (x y : A) (ys : List A)
      → before y x ≡ false
      → All (λ z. before z y ≡ false) ys
      → All (λ z. before z x ≡ false) ys
  All-weaken x y [] h ps = tt
  All-weaken x y (z ∷ zs) h ps = (ntrans z y x ps.0 h, All-weaken x y zs h ps.1)

  insert_by-IsSorted :
      (x : A) (ys : List A) → IsSorted before ys → IsSorted before (insert_by before x ys)
  unfolding insert_by
  insert_by-IsSorted x [] s = (tt, tt)
  insert_by-IsSorted x (y ∷ ys) s = elim (Bool-cases (before y x)) [
    | inl e ↦ rw e (
      All-insert_by before (λ z. before z y ≡ false) x ys (asym y x e) s.0,
      insert_by-IsSorted x ys s.1,
    )
    | inr e ↦ rw e ((e, All-weaken x y ys e s.0), s)
  ]

  pub sort-IsSorted : (xs : List A) → IsSorted before (sort before xs)
  unfolding sort
  sort-IsSorted [] = tt
  sort-IsSorted (x ∷ xs) = insert_by-IsSorted x (sort before xs) (sort-IsSorted xs)

module _ {ℓ} {A : Type ℓ} where
  select-insert_by :
      (before : A → A → Bool) (q : A → Bool) (x : A) (ys : List A)
      → ((y : A) → q x ≡ true → q y ≡ true → before y x ≡ false)
      → select q (insert_by before x ys) ≡ (if q x then x ∷ select q ys else select q ys)
  unfolding insert_by
  select-insert_by before q x [] h = ground arith
  select-insert_by before q x (y ∷ ys) h = ground (arith, h y, select-insert_by before q x ys h)

  -- The sort is stable: it keeps the order of the elements that pass a test, where none of these
  -- is before another.
  pub select-sort :
      (before : A → A → Bool) (q : A → Bool) (xs : List A)
      → ((x y : A) → q x ≡ true → q y ≡ true → before y x ≡ false)
      → select q (sort before xs) ≡ select q xs
  unfolding sort
  select-sort before q [] h = refl
  select-sort before q (x ∷ xs) h =
      ground (arith, select-insert_by before q x (sort before xs) (h x), select-sort before q xs h)
