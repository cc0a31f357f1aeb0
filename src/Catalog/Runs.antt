-- ===== src/Catalog/Runs.antt =====
-- The runs of internal/catalog/catalog.go: `SaveRun`, `Runs`, `RunCount`, `RunsPage` and
-- `InterruptRuns`.
pub mod Recovery
use crawlbox.Common.{
  ℕ, ◌||◌, ◌&&◌, not, Bool, true, false, Option, none, some, List, [], ◌∷◌, Map, Text, eq_text, has,
  insert, if◌then◌else◌, ltb, ◌==◌, take, drop, length, map, any,
}
use crawlbox.Common.Int.{ℤ, is_neg, to_ℕ}
use crawlbox.Common.Result.{Result, ok, err, new, ◌>>=◌, ◌>>◌, fail_if}
use crawlbox.Model.{Revision, Run, Status, succeeded, interrupted, is_active}
use crawlbox.Catalog.Db.{Db, Faults, statement}

-- `INSERT INTO runs … ON CONFLICT(id) DO UPDATE`: a known run keeps its place, a new one is the
-- newest.
unfoldable pub upsert_run : Run → Map Run → Map Run
upsert_run r rows = if has r.id rows then insert r.id r rows else (r.id, r) ∷ rows

unfoldable pub save_run : Faults → Run → Db → Result Db
unfolding upsert_run
save_run fault r db = do statement fault 0; ok (record db { runs = upsert_run r db.runs })

unfoldable pub run_count : Faults → Db → Result ℕ
run_count fault db = do statement fault 0; ok (length db.runs)

abbrev pub body : Text × Run → Run
body (id, r) = r

unfoldable pub runs_page : Faults → ℤ → ℤ → Db → Result (List Run)
runs_page fault limit offset db = do
  fail_if (is_neg limit || (to_ℕ limit == 0 || (ltb 100 (to_ℕ limit) || is_neg offset)))
      (new "invalid run pagination")
  statement fault 0
  ok (map body (take (to_ℕ limit) (drop (to_ℕ offset) db.runs)))

unfoldable pub runs : Faults → Db → Result (List Run)
unfolding runs_page
runs fault db = runs_page fault (ℤ.pos 100) (ℤ.pos 0) db

-- The `EXISTS` of the first update: some revision was made by this run, for the run's source.
unfoldable pub is_published : Text → Run → List Revision → Bool
is_published id r revisions = any (λ v. eq_text v.run id && eq_text v.source r.source) revisions

unfoldable pub is_succeeded : Status → Bool
is_succeeded succeeded = true
is_succeeded _ = false

-- `coalesce(json_extract(body,'$.finished'),?)`
abbrev pub or_now : Option ℕ → ℕ → ℕ
or_now none now = now
or_now (some t) now = t

-- The first update: a run whose revision is in the catalog has succeeded.
unfoldable pub recover_run : ℕ → List Revision → Text × Run → Text × Run
unfolding is_published is_succeeded
recover_run now revisions (id, r) =
    if not (is_succeeded r.status) && is_published id r revisions
    then (id, record r { status = succeeded; error = []; finished = some (or_now r.finished now) })
    else (id, r)

-- The second update: a run that had not ended is interrupted.
unfoldable pub interrupt_run : ℕ → Text × Run → Text × Run
unfolding is_active
interrupt_run now (id, r) =
    if is_active r.status
    then (id, record r { status = interrupted; finished = some now })
    else (id, r)

unfoldable pub interrupt_runs : Faults → ℕ → Db → Result Db
unfolding recover_run interrupt_run
interrupt_runs fault now db = do
  statement fault 0
  statement fault 1
  let recovered = map (recover_run now db.revisions) db.runs
  statement fault 2
  let settled = map (interrupt_run now) recovered
  statement fault 3
  ok (record db { runs = settled })
