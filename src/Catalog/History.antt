-- ===== src/Catalog/History.antt =====
-- `Commit`, `Revision`, `Revisions` and `RevisionsPage` of internal/catalog/catalog.go.
pub mod Linear
pub mod Reads
pub mod Listing
use crawlbox.Common.{
  ℕ, zero, suc, ◌+◌, ◌/◌, ◌%◌, ◌^◌, ◌==◌, ◌++◌, Bool, false, ◌||◌, ◌&&◌, not, Option, none, some,
  List, [], ◌∷◌, Text, eq_text, lt_text, lookup, insert, codes, if◌then◌else◌, select, take, drop,
  length,
}
use crawlbox.Common.Sorting.{sort}
use crawlbox.Common.Result.{Result, ok, err, new, no_rows, ◌>>=◌, ◌>>◌, fail_if}
use crawlbox.Model.{Revision}
use crawlbox.Catalog.Db.{Db, Faults, statement}
use crawlbox.Catalog.Sources.{insert_or_ignore}
use crawlbox.Catalog.Body.{marshal, unmarshal}

-- `SELECT count(*) FROM revisions WHERE id=?`, as the test that it is above 0
unfoldable pub has_revision : Text → List Revision → Bool
has_revision id [] = false
has_revision id (r ∷ rs) = eq_text r.id id || has_revision id rs

-- `SELECT revision FROM heads WHERE source=?`; `head` stays empty where there is no row
unfoldable pub head_of : Text → Db → Text
unfolding lookup
head_of source db = elim (lookup source db.heads) [ none ↦ [] | some id ↦ id ]

-- The identity check: a source that is known keeps its plugin, an unknown one is added.
unfoldable pub check_identity : Faults → Revision → Db → Result Db
unfolding insert_or_ignore
check_identity fault r db = if eq_text r.plugin.id [] then ok db else do
  statement fault 3
  fail_if
      (elim (lookup r.source db.sources) [
        | none ↦ false
        | some row ↦ not (eq_text row.identity r.plugin.id)
      ])
      (new "historical source identity changed")
  statement fault 4
  ok (record db { sources = insert_or_ignore r.source r.plugin.id db.sources })

-- The revision of a new row is what its body decodes to. `fault 8` is an error of `json.Marshal`,
-- for raw JSON that is not valid.
unfoldable pub commit_new : Faults → Revision → Db → Result Db
unfolding head_of check_identity
commit_new fault r db = do
  statement fault 2
  fail_if (not (eq_text (head_of r.source db) r.parent)) (new "revision parent mismatch")
  checked ← check_identity fault r db
  statement fault 8
  statement fault 5
  statement fault 6
  statement fault 7
  ok (record checked {
    revisions = unmarshal (marshal r) ∷ checked.revisions;
    heads = insert r.source r.id checked.heads;
  })

unfoldable pub commit : Faults → Revision → Db → Result Db
unfolding has_revision commit_new
commit fault r db = do
  statement fault 0
  statement fault 1
  if has_revision r.id db.revisions then (do statement fault 2; ok db) else commit_new fault r db

-- `SELECT body FROM revisions WHERE id=?`
unfoldable pub find_id : Text → List Revision → Option Revision
find_id id [] = none
find_id id (r ∷ rs) = if eq_text r.id id then some r else find_id id rs

-- `SELECT body FROM revisions WHERE source=? AND id=?`
unfoldable pub find_in_source : Text → Text → List Revision → Option Revision
find_in_source source id [] = none
find_in_source source id (r ∷ rs) =
    if eq_text r.source source && eq_text r.id id then some r else find_in_source source id rs

-- `row.Scan`: no row is the error `sql.ErrNoRows`.
abbrev pub scan : Option Revision → Result Revision
scan none = err no_rows
scan (some r) = ok r

-- `SELECT body FROM revisions WHERE id=(SELECT revision FROM heads WHERE source=?)`
unfoldable pub latest_of : Text → Db → Result Revision
unfolding find_id lookup
latest_of source db = elim (lookup source db.heads) [
  | none ↦ err no_rows
  | some h ↦ scan (find_id h db.revisions)
]

unfoldable pub find_revision : Text → Text → Db → Result Revision
unfolding find_in_source
find_revision source id db = scan (find_in_source source id db.revisions)

unfoldable pub revision : Faults → Text → Text → Db → Result Revision
unfolding latest_of find_revision
revision fault source id db = do
  statement fault 0
  if eq_text id (codes "latest") then latest_of source db else find_revision source id db

-- The rows of a source, in the order of the table.
abbrev pub of_source : Text → List Revision → List Revision
of_source source rs = select (λ r. eq_text r.source source) rs

-- The fraction of a second in `time.RFC3339Nano`: up to nine digits, with no zero at the end.
-- `fraction k n` prints the last `k` digits that `n` has.
unfoldable pub fraction : ℕ → ℕ → Text
fraction zero n = []
fraction (suc k) n = if n == 0 then [] else (b'0' + n / 10 ^ k) ∷ fraction k (n % 10 ^ k)

-- Descending order by two texts.
unfoldable pub row_before : Text → Text → Text → Text → Bool
row_before x i y j = lt_text y x || (eq_text x y && lt_text j i)

module _ (second : ℕ → Text) where
  -- `CreatedAt.Format(time.RFC3339Nano)` in UTC, with `second` for the text up to the seconds.
  unfoldable pub created_text : ℕ → Text
  unfolding fraction
  created_text t =
      let nanos = t % 1000000000 in
      second (t / 1000000000) ++ ((if nanos == 0 then [] else b'.' ∷ fraction 9 nanos) ++ b'Z' ∷ [])

  -- `ORDER BY created DESC,id DESC`
  unfoldable pub listed_before : Revision → Revision → Bool
  listed_before a b = row_before (created_text a.created_at) a.id (created_text b.created_at) b.id

  unfoldable pub revisions : Faults → Text → Db → Result (List Revision)
  revisions fault source db = do
    statement fault 0
    statement fault 1
    ok (sort listed_before (of_source source db.revisions))

  -- The page and the total. `limit` and `offset` are not negative: `pagination` has checked them.
  unfoldable pub revisions_page : Faults → Text → ℕ → ℕ → Db → Result (List Revision × ℕ)
  revisions_page fault source limit offset db = do
    statement fault 0
    let total = length (of_source source db.revisions)
    statement fault 1
    statement fault 2
    ok (take limit (drop offset (sort listed_before (of_source source db.revisions))), total)
