-- ===== src/Catalog/Sources.antt =====
-- `Register` of internal/catalog/catalog.go: which source IDs are in use, retired or refused.
pub mod Retirement
use crawlbox.Common.{
  ℕ, ◌+◌, true, false, ◌||◌, not, none, some, [], ◌∷◌, Map, Text, eq_text, lookup, insert, has,
  if◌then◌else◌,
}
use crawlbox.Common.Result.{Result, ok, err, new, ◌>>=◌, ◌>>◌}
use crawlbox.Catalog.Db.{Db, SourceRow, Faults, statement}

-- `UPDATE sources SET retired=1 WHERE id=?`
unfoldable pub set_retired : Text → Map SourceRow → Map SourceRow
set_retired id [] = []
set_retired id ((j, row) ∷ rows) =
    let rest = set_retired id rows in
    if eq_text j id then (j, record row { retired = true }) ∷ rest else (j, row) ∷ rest

-- `INSERT OR IGNORE INTO sources(id,identity)`
unfoldable pub insert_or_ignore : Text → Text → Map SourceRow → Map SourceRow
unfolding has
insert_or_ignore id identity rows =
    if has id rows then rows else insert id (record { identity = identity; retired = false }) rows

-- The loop over the rows that were read: `n` is the number of the next statement.
unfoldable pub check_rows :
    Faults → Map Text → ℕ → Map SourceRow → Map SourceRow → Result (ℕ × Map SourceRow)
check_rows fault identities n [] table = ok (n, table)
check_rows fault identities n ((id, row) ∷ olds) table = elim (lookup id identities) [
  | some v ↦
      if row.retired || not (eq_text v row.identity)
      then err (new "source is retired or changed plugin identity")
      else check_rows fault identities n olds table
  | none ↦ do statement fault n; check_rows fault identities (n + 1) olds (set_retired id table)
]

-- The loop over the configured sources.
unfoldable pub add_rows : Faults → ℕ → Map Text → Map SourceRow → Result (ℕ × Map SourceRow)
add_rows fault n [] table = ok (n, table)
add_rows fault n ((id, v) ∷ identities) table = do
  statement fault n
  add_rows fault (n + 1) identities (insert_or_ignore id v table)

unfoldable pub register : Faults → Map Text → Db → Result Db
register fault identities db = do
  statement fault 0
  statement fault 1
  (n, checked) ← check_rows fault identities 2 db.sources db.sources
  (n', table) ← add_rows fault n identities checked
  statement fault n'
  ok (record db { sources = table })
