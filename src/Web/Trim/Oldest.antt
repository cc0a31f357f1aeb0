-- ===== src/Web/Trim/Oldest.antt =====
-- What is left in the cache of downloads.
use crawlbox.Common.{
  ℕ, ◌+◌, ◌-◌, ◌≤◌, ◌≡◌, refl, sym, subst, leb, leb→le, ◌⊎◌, inl, inr, Bool, true, false, ◌||◌, not,
  List, [], ◌∷◌, Text, All, eq_text, if◌then◌else◌, arith,
}
use crawlbox.Common.Sorting.{sort, IsSorted, sort-IsSorted}
use crawlbox.Web.Trim.{
  Item, size_of, files_size, total_size, older, trim_items, keep_item, remove_item,
}

module _ (bound : ℕ) (stuck : Text → Bool) (keep : Text) where
  -- The loop passes over the item.
  abbrev pub is_passed : Item → Bool
  is_passed (id, d) = eq_text id keep || stuck id

  abbrev IsBounded : ℕ → List Item × List Item → Type 0
  IsBounded extra (removed, kept) =
      (extra + total_size kept ≤ bound) ⊎ All (λ it. is_passed it ≡ true) kept

  -- The outcome of the loop for one more item, by the outcomes for the items after it.
  abbrev turn :
      Bool
      → Bool
      → Item
      → List Item
      → List Item × List Item
      → List Item × List Item
      → List Item × List Item
  turn true passed it items skipped removed = ([], it ∷ items)
  turn false true it items skipped removed = keep_item it skipped
  turn false false it items skipped removed = remove_item it removed

  trim_items-turn :
      (total : ℕ) (it : Item) (items : List Item)
      → trim_items bound stuck keep total (it ∷ items)
        ≡ turn
            (leb total bound)
            (is_passed it)
            it
            items
            (trim_items bound stuck keep total items)
            (trim_items bound stuck keep (total - size_of it) items)
  unfolding trim_items
  trim_items-turn total (id, d) items = by_tests (leb total bound) (eq_text id keep) (stuck id)
    where
      by_tests :
          (a b c : Bool)
          → (if a
              then ([], (id, d) ∷ items)
              else if b
              then keep_item (id, d) (trim_items bound stuck keep total items)
              else if c
              then keep_item (id, d) (trim_items bound stuck keep total items)
              else remove_item
                  (id, d)
                  (trim_items bound stuck keep (total - files_size d.files) items))
            ≡ turn a
                (b || c)
                (id, d)
                items
                (trim_items bound stuck keep total items)
                (trim_items bound stuck keep (total - files_size d.files) items)
      by_tests true b c = refl
      by_tests false true c = refl
      by_tests false false true = refl
      by_tests false false false = refl

  keep-IsBounded :
      (extra : ℕ) (it : Item) (x : List Item × List Item)
      → is_passed it ≡ true
      → IsBounded (extra + size_of it) x
      → IsBounded extra (keep_item it x)
  unfolding total_size
  keep-IsBounded extra it (removed, kept) h (inl b) = inl (omega (arith, b))
  keep-IsBounded extra it (removed, kept) h (inr b) = inr (h, b)

  remove-IsBounded :
      (extra : ℕ) (it : Item) (x : List Item × List Item)
      → IsBounded extra x
      → IsBounded extra (remove_item it x)
  remove-IsBounded extra it (removed, kept) b = b

  -- `extra` is the size of the items that were passed over before.
  trim_items-IsBounded :
      (extra total : ℕ) (items : List Item)
      → total ≡ extra + total_size items
      → IsBounded extra (trim_items bound stuck keep total items)
  unfolding trim_items total_size
  trim_items-IsBounded extra total [] h = inr tt
  trim_items-IsBounded extra total (it ∷ items) h =
      subst (IsBounded extra) (sym (trim_items-turn total it items)) (
        by_tests (leb total bound) (is_passed it) refl refl _ _
          (trim_items-IsBounded (extra + size_of it) total items (omega (arith, h)))
          (trim_items-IsBounded extra (total - size_of it) items (omega (arith, h))))
    where
      by_tests :
          (a b : Bool)
          → leb total bound ≡ a
          → is_passed it ≡ b
          → (x y : List Item × List Item) → IsBounded (extra + size_of it) x
          → IsBounded extra y
          → IsBounded extra (turn a b it items x y)
      by_tests true b e f x y k r = inl (omega (arith, leb→le total bound e, h))
      by_tests false true e f x y k r = keep-IsBounded extra it x f k
      by_tests false false e f x y k r = remove-IsBounded extra it y r

  -- What holds of all items holds of those that are kept.
  trim_items-kept :
      (P : Item → Type 0) (total : ℕ) (items : List Item)
      → All P items
      → All P (trim_items bound stuck keep total items).1
  unfolding trim_items
  trim_items-kept P total [] h = tt
  trim_items-kept P total (it ∷ items) (h, hs) =
      subst (λ x. All P x.1) (sym (trim_items-turn total it items))
        (by_tests (leb total bound) (is_passed it) _ _ (trim_items-kept P total items hs)
          (trim_items-kept P (total - size_of it) items hs))
    where
      by_tests :
          (a b : Bool) (x y : List Item × List Item)
          → All P x.1
          → All P y.1
          → All P (turn a b it items x y).1
      by_tests true b x y k r = (h, hs)
      by_tests false true (xr, xk) y k r = (h, k)
      by_tests false false x (yr, yk) k r = r

  -- Every kept item was passed over, or is no older than the removed one.
  abbrev IsYounger : List Item → Item → Type 0
  IsYounger kept r = All (λ k. (is_passed k || not (older k r)) ≡ true) kept

  abbrev IsOldest : List Item × List Item → Type 0
  IsOldest (removed, kept) = All (IsYounger kept) removed

  keep-IsOldest :
      (it : Item) (removed kept : List Item)
      → is_passed it ≡ true
      → All (IsYounger kept) removed
      → All (IsYounger (it ∷ kept)) removed
  keep-IsOldest it [] kept h os = tt
  keep-IsOldest it (r ∷ rs) kept h (o, os) = ((rw h refl, o), keep-IsOldest it rs kept h os)

  younger : (r : Item) (items : List Item) → All (λ y. older y r ≡ false) items → IsYounger items r
  younger r [] h = tt
  younger r (y ∷ ys) (h, hs) = (by_passed (is_passed y), younger r ys hs)
    where
      by_passed : (b : Bool) → (b || not (older y r)) ≡ true
      by_passed true = refl
      by_passed false = rw h refl

  trim_items-IsOldest :
      (total : ℕ) (items : List Item)
      → IsSorted older items
      → IsOldest (trim_items bound stuck keep total items)
  unfolding trim_items
  trim_items-IsOldest total [] s = tt
  trim_items-IsOldest total (it ∷ items) (s, ss) =
      subst IsOldest (sym (trim_items-turn total it items)) (
        by_tests (leb total bound) (is_passed it) refl _ _ (trim_items-IsOldest total items ss)
          (trim_items-IsOldest (total - size_of it) items ss)
          (younger it _ (trim_items-kept (λ y. older y it ≡ false) (total - size_of it) items s)))
    where
      by_tests :
          (a b : Bool)
          → is_passed it ≡ b
          → (x y : List Item × List Item) → IsOldest x
          → IsOldest y
          → IsYounger y.1 it
          → IsOldest (turn a b it items x y)
      by_tests true b f x y k r o = tt
      by_tests false true f (xr, xk) y k r o = keep-IsOldest it xr xk f k
      by_tests false false f x (yr, yk) k r o = (o, r)

  bounded :
      (x : List Item × List Item)
      → IsBounded 0 x
      → (total_size x.1 ≤ bound) ⊎ All (λ it. is_passed it ≡ true) x.1
  bounded (removed, kept) (inl b) = inl (omega (arith, b))
  bounded (removed, kept) (inr b) = inr b

  -- Of the items in the order of their ages, the loop leaves what fits the bound, unless each that
  -- it leaves is the one to keep or could not be removed; and each item that it removes is no
  -- younger than any that it leaves and could have removed.
  pub trim_items-oldest :
      (listed : List Item)
      → let items = sort older listed in
        let (removed, kept) = trim_items bound stuck keep (total_size items) items in
        ((total_size kept ≤ bound) ⊎ All (λ it. is_passed it ≡ true) kept)
        × All (λ r. All (λ k. (is_passed k || not (older k r)) ≡ true) kept) removed
  trim_items-oldest listed =
      let items = sort older listed in
      let x = trim_items bound stuck keep (total_size items) items in
      (
        bounded x (trim_items-IsBounded 0 (total_size items) items (omega arith)),
        trim_items-IsOldest (total_size items) items
            (sort-IsSorted older (λ a b h. ground arith) (λ a b c h k. ground arith) listed),
      )
