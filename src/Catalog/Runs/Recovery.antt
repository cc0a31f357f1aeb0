-- ===== src/Catalog/Runs/Recovery.antt =====
-- What `InterruptRuns` leaves of the runs of a manager that was stopped.
use crawlbox.Common.{
  ℕ, ◌≡◌, refl, ap, ap₂, true, false, ◌||◌, not, List, [], ◌∷◌, Map, Text, arith, map,
}
use crawlbox.Common.Result.{ok}
use crawlbox.Model.{Revision, Run, is_active}
use crawlbox.Catalog.Db.{Db, Faults}
use crawlbox.Catalog.Runs.{is_published, is_succeeded, recover_run, interrupt_run, interrupt_runs}

-- One row, before and after.
pub record Settled (revisions : List Revision) (old new : Text × Run) : Type 0 where
  pub same_id : new.0 ≡ old.0
  pub ended : is_active new.1.status ≡ false
  pub succeeded :
      is_succeeded new.1.status ≡ (is_succeeded old.1.status || is_published old.0 old.1 revisions)
  pub kept :
      (is_succeeded old.1.status || not (is_published old.0 old.1 revisions)) ≡ true
      → is_active old.1.status ≡ false
      → new ≡ old
  pub same_message : new.1.message ≡ old.1.message

abbrev pub AllSettled : List Revision → Map Run → Map Run → Type 0
AllSettled revisions [] [] = Unit
AllSettled revisions (x ∷ xs) (y ∷ ys) = Settled revisions x y × AllSettled revisions xs ys
AllSettled revisions _ _ = ⊥

settle_run :
    (now : ℕ) (revisions : List Revision) (x : Text × Run)
    → Settled revisions x (interrupt_run now (recover_run now revisions x))
unfolding interrupt_run recover_run is_succeeded
settle_run now revisions (id, r) = ground arith

settle_runs :
    (now : ℕ) (revisions : List Revision) (xs : Map Run)
    → AllSettled revisions xs (map (interrupt_run now) (map (recover_run now revisions) xs))
settle_runs now revisions [] = tt
settle_runs now revisions (x ∷ xs) = (settle_run now revisions x, settle_runs now revisions xs)

-- After `InterruptRuns` no run is active; a run has succeeded exactly if it had, or if its
-- revision is in the catalog; every other run that had ended is as it was; and rows, identifiers
-- and messages are kept.
pub interrupt_runs-settled :
    (fault : Faults) (now : ℕ) (db : Db) {db' : Db}
    → interrupt_runs fault now db ≡ ok db'
    → AllSettled db.revisions db.runs db'.runs
unfolding interrupt_runs
interrupt_runs-settled fault now db h = ground (arith, settle_runs now db.revisions db.runs)

settle_again :
    (now later : ℕ) (revisions : List Revision) (x : Text × Run)
    → let y = interrupt_run now (recover_run now revisions x) in
      interrupt_run later (recover_run later revisions y) ≡ y
unfolding interrupt_run recover_run is_succeeded is_published
settle_again now later revisions (id, r) = ground arith

settle_all_again :
    (now later : ℕ) (revisions : List Revision) (xs : Map Run)
    → let ys = map (interrupt_run now) (map (recover_run now revisions) xs) in
      map (interrupt_run later) (map (recover_run later revisions) ys) ≡ ys
settle_all_again now later revisions [] = refl
settle_all_again now later revisions (x ∷ xs) =
    ap₂ ◌∷◌ (settle_again now later revisions x) (settle_all_again now later revisions xs)

-- A second `InterruptRuns`, at any later time, finds nothing to change.
pub interrupt_runs_idem :
    (fault : Faults) (now later : ℕ) (db db' : Db)
    → interrupt_runs fault now db ≡ ok db'
    → interrupt_runs (λ n. false) later db' ≡ ok db'
unfolding interrupt_runs
interrupt_runs_idem fault now later db db' h =
    let rows : db'.runs ≡ map (interrupt_run now) (map (recover_run now db.revisions) db.runs) =
      ground arith in
    let revs : db'.revisions ≡ db.revisions = ground arith in
    ap (λ rs. ok (record db' { runs = rs }))
      (rw (revs, rows) (settle_all_again now later db.revisions db.runs))
