-- ===== src/Catalog/History/Listing.antt =====
-- The listings of a source's revisions, and their order.
use mathlib.Core.List.{Perm}
use crawlbox.Common.{
  ℕ, ◌+◌, ◌*◌, ◌<◌, ◌%◌, ◌/◌, ◌==◌, ◌++◌, subst, ◌≡◌, true, false, List, [], ◌∷◌, Text, eq_text_iff,
  lt_text, lt_text-append, lt_text_asym, lt_text_ntrans, lt_text_irrefl, lt_text_total, arith,
}
use crawlbox.Common.Sorting.{sort, sort-perm, IsSorted, sort-IsSorted}
use crawlbox.Common.Result.{ok}
use crawlbox.Model.{Revision}
use crawlbox.Catalog.Db.{Db, Faults}
use crawlbox.Catalog.History.{
  created_text, fraction, row_before, listed_before, revisions, of_source,
}

row_before_asym : (x i y j : Text) → row_before x i y j ≡ true → row_before y j x i ≡ false
unfolding row_before
row_before_asym x i y j h = ground (
  arith,
  eq_text_iff x y,
  eq_text_iff y x,
  lt_text_asym x y,
  lt_text_asym y x,
  lt_text_asym i j,
  lt_text_asym j i,
  lt_text_irrefl x,
)

row_before_ntrans :
    (x i y j z k : Text)
    → row_before x i y j ≡ false
    → row_before y j z k ≡ false
    → row_before x i z k ≡ false
unfolding row_before
row_before_ntrans x i y j z k h l = ground (
  arith,
  eq_text_iff x y,
  eq_text_iff y z,
  eq_text_iff x z,
  lt_text_ntrans z y x,
  lt_text_ntrans k j i,
  lt_text_total x y,
  lt_text_total y z,
  lt_text_asym x y,
  lt_text_asym y z,
  lt_text_asym x z,
  lt_text_irrefl x,
)

module _ (second : ℕ → Text) where
  -- `Revisions` lists every revision of the source, each once and no other, by descending
  -- creation text and, where those are equal, descending identifier.
  pub revisions_listing :
      (fault : Faults) (source : Text) (db : Db) (l : List Revision)
      → revisions second fault source db ≡ ok l
      → Perm l (of_source source db.revisions) × IsSorted (listed_before second) l
  unfolding revisions listed_before
  revisions_listing fault source db l h =
      let rows = of_source source db.revisions in
      let e : sort (listed_before second) rows ≡ l = ground arith in
      subst (λ x. Perm x rows × IsSorted (listed_before second) x) e
        (
          sort-perm (listed_before second) rows,
          sort-IsSorted (listed_before second)
              (λ a b.
                row_before_asym (created_text second a.created_at) a.id
                  (created_text second b.created_at) b.id)
              (λ a b c.
                row_before_ntrans (created_text second a.created_at) a.id
                  (created_text second b.created_at) b.id (created_text second c.created_at) c.id)
              rows,
        )

  text_of_whole : (t : ℕ) → created_text second (t * 1000000000) ≡ second t ++ b'Z' ∷ []
  unfolding created_text
  text_of_whole t =
      let d : t * 1000000000 / 1000000000 ≡ t = omega arith in
      let m : t * 1000000000 % 1000000000 ≡ 0 = omega arith in rw (d, m)

  text_of_part :
      (t n : ℕ)
      → 0 < n
      → n < 1000000000
      → created_text second (t * 1000000000 + n) ≡ second t ++ b'.' ∷ (fraction 9 n ++ b'Z' ∷ [])
  unfolding created_text
  text_of_part t n pos small =
      let d : (t * 1000000000 + n) / 1000000000 ≡ t = omega arith in
      let m : (t * 1000000000 + n) % 1000000000 ≡ n = omega arith in
      let z : (n == 0) ≡ false = ground arith in rw (d, m, z)

  -- A revision of a whole second is listed before every later revision of the same second.
  pub whole_second_first :
      (a b : Revision) (t n : ℕ)
      → 0 < n
      → n < 1000000000
      → a.created_at ≡ t * 1000000000
      → b.created_at ≡ t * 1000000000 + n
      → (a.created_at < b.created_at) × (listed_before second a b ≡ true)
  unfolding listed_before row_before lt_text
  whole_second_first a b t n pos small ea eb =
      (omega arith, rw (ea, eb, text_of_whole t, text_of_part t n pos small, lt_text-append))
