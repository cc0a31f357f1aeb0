-- ===== src/App/Perform/Outcome.antt =====
-- What a publication leaves (internal/app/app.go), step by step.
use crawlbox.Common.{
  ◌≡◌, refl, sym, ap, subst, ◌∙◌, ◌⊎◌, inl, inr, Bool, true, false, Text, eq_text_refl,
  lookup-insert, arith,
}
use crawlbox.Common.Result.{Error, Result, ok, err, is_ok, fail_if, external, ok-inj}
use crawlbox.Common.Result
use crawlbox.Model.{Revision, Status, snapshotting, committing, succeeded}
use crawlbox.Catalog.Db.{Db, Faults}
use crawlbox.Catalog.History.{commit, has_revision}
use crawlbox.Catalog.History.Linear.{commit_cases}
use crawlbox.Catalog.Runs.{save_run, upsert_run}
use crawlbox.App.Control.{App, begin_publication, is_blocked}
use crawlbox.App.Perform.{
  World, Stage, ◌>>=◌, go_on, lift, update_run, stored, quietly, stage, Io, Draft,
}
use crawlbox.App.Perform.Publication.{
  block, begun, blocked_after, or_block, save_revision, created, with_snapshot, install,
  publish_sealed, publish,
}

bind-outcome :
    {A B : Type 0} (R : Result B × World → Type 0) (m : Stage A) (next : A → Stage B) (w : World)
    → ((e : Error) (v : World) → m w ≡ (err e, v) → R (err e, v))
    → ((a : A) (v : World) → m w ≡ (ok a, v) → R (next a v))
    → R ((m >>= next) w)
bind-outcome {A = A} R m next w early late = after (m w) refl
  where
    after : (x : Result A × World) → m w ≡ x → R (go_on x next)
    after (ok a, v) h = late a v h
    after (err e, v) h = early e v h

-- Two worlds with the same application and the same revisions.
abbrev Agree : World → World → Type 0
Agree w v = (v.app ≡ w.app) × (v.db.revisions ≡ w.db.revisions)

stage-outcome :
    (fault : Faults) (status : Status) (w : World)
    → Agree w (stage fault status w).1
      × ((is_ok (stage fault status w).0 ≡ true) ⊎ (fault 0 ≡ true))
unfolding stage save_run
stage-outcome fault status w = by_fault (fault 0) refl
  where
    v : World
    v = record w { run = record w.run { status = status } }

    saved : Bool → Result (Unit {0}) × World
    saved b =
        stored
          (Result.◌>>◌ (fail_if b (external 0))
            (ok (record v.db { runs = upsert_run v.run v.db.runs })))
          v

    by_fault :
        (b : Bool)
        → fault 0 ≡ b
        → Agree w (saved b).1 × ((is_ok (saved b).0 ≡ true) ⊎ (fault 0 ≡ true))
    by_fault true h = ((refl, refl), inr h)
    by_fault false h = ((refl, refl), inl refl)

block-is_blocked : (source : Text) (a : App) → is_blocked source (block source a) ≡ true
unfolding is_blocked block
block-is_blocked source a =
    ground (arith, lookup-insert source source true a.blocked, eq_text_refl source)

committed_there :
    (fault : Faults) (r : Revision) (db db' : Db)
    → commit fault r db ≡ ok db'
    → has_revision r.id db'.revisions ≡ true
unfolding has_revision
committed_there fault r db db' h = elim (commit_cases fault r db h) [
  | inl (old, same) ↦ subst (λ (x : Db). has_revision r.id x.revisions ≡ true) (sym same) old
  | inr (fresh, at_head, rows, heads) ↦ rw rows (ground (arith, eq_text_refl r.id))
]

module _ (io : Io) (source : Text) (d : Draft) (w : World) where
  abbrev Committed : World → Type 0
  Committed v =
      (v.run.status ≡ succeeded)
      × (v.run.message ≡ d.message)
      × (has_revision d.revision.id v.db.revisions ≡ true)
      × (is_blocked source v.app ≡ is_blocked source w.app)

  abbrev Refused : World → Type 0
  Refused v =
      (v.db.revisions ≡ w.db.revisions) × ((io.fault 3 0 ≡ true) ⊎ (is_blocked source v.app ≡ true))

  abbrev Outcome : Result (Unit {0}) × World → Type 0
  Outcome x = ((is_ok x.0 ≡ true) × Committed x.1) ⊎ ((is_ok x.0 ≡ false) × Refused x.1)

  -- A failing step after which the source is blocked.
  or_block-Refused :
      (m : Stage (Unit {0})) (v : World)
      → ((m v).1.db.revisions ≡ w.db.revisions)
      → (e : Error) (v' : World) → or_block source m v ≡ (err e, v')
      → Outcome (err e, v')
  or_block-Refused m v kept e v' h = after (m v) kept h
    where
      after :
          (x : Result (Unit {0}) × World)
          → (x.1.db.revisions ≡ w.db.revisions)
          → blocked_after source x ≡ (err e, v')
          → Outcome (err e, v')
      after (ok passed, u) kept h = cc
      after (err f, u) kept h =
          let same : record u { app = block source u.app } ≡ v' = ap (λ x. x.1) h in
          inr (
            refl,
            subst (λ (z : World). Refused z) same (kept, inr (block-is_blocked source u.app)),
          )

  -- A step that passed, under `or_block`.
  or_block-passed :
      (m : Stage (Unit {0})) (v v' : World) (done : Unit {0})
      → or_block source m v ≡ (ok done, v')
      → m v ≡ (ok tt, v')
  or_block-passed m v v' done h = after (m v) h
    where
      after :
          (x : Result (Unit {0}) × World) → blocked_after source x ≡ (ok done, v') → x ≡ (ok tt, v')
      after (ok passed, u) h = h
      after (err f, u) h = cc

  -- The last steps, after the commit.
  last-Committed :
      (v : World)
      → Agree w v
      → (db : Db) → commit (io.fault 5) (with_snapshot io.create d.revision) v.db ≡ ok db
      → Outcome (
          (update_run (λ r. record r { status = succeeded; message = d.message }) >>= λ _.
          quietly (install io d))
            (record v { db = db }))
  last-Committed v (same_app, same_rows) db h =
      inl (refl, (refl, refl, committed, ap (is_blocked source) same_app))
    where
      committed : has_revision d.revision.id db.revisions ≡ true
      committed = committed_there (io.fault 5) (with_snapshot io.create d.revision) v.db db h

  commit-Outcome :
      (v : World)
      → Agree w v
      → Outcome (
          (or_block source (save_revision (io.fault 5) (with_snapshot io.create d.revision))
              >>= λ _.
                  update_run (λ r. record r { status = succeeded; message = d.message }) >>= λ _.
                  quietly (install io d))
            v)
  commit-Outcome v (same_app, same_rows) =
      by_commit (commit (io.fault 5) (with_snapshot io.create d.revision) v.db) refl
    where
      by_commit :
          (o : Result Db)
          → commit (io.fault 5) (with_snapshot io.create d.revision) v.db ≡ o
          → Outcome (
              go_on (blocked_after source (stored o v)) (λ _.
                update_run (λ r. record r { status = succeeded; message = d.message }) >>= λ _.
                quietly (install io d)))
      by_commit (ok db) e = last-Committed v (same_app, same_rows) db e
      by_commit (err x) e = inr (refl, (same_rows, inr (block-is_blocked source v.app)))

  -- A failing stage "committing" blocks the source.
  committing-Outcome :
      (v : World)
      → Agree w v
      → Outcome (
          (or_block source (stage (io.fault 4) committing) >>= λ _.
          or_block source (save_revision (io.fault 5) (with_snapshot io.create d.revision)) >>= λ _.
          update_run (λ r. record r { status = succeeded; message = d.message }) >>= λ _.
          quietly (install io d))
            v)
  committing-Outcome v (same_app, same_rows) =
      let m = stage (io.fault 4) committing in
      let (app, rows) = (stage-outcome (io.fault 4) committing v).0 in
      bind-outcome Outcome (or_block source m) _ v (or_block-Refused m v (rows ∙ same_rows))
        λ done u h.
          let at_end = or_block-passed m v u done h in
          commit-Outcome u (subst (λ x. Agree w x.1) at_end (app ∙ same_app, rows ∙ same_rows))

  create-Outcome :
      (v : World)
      → Agree w v
      → Outcome (
          (or_block source (lift (created io.create)) >>= λ _.
          or_block source (stage (io.fault 4) committing) >>= λ _.
          or_block source (save_revision (io.fault 5) (with_snapshot io.create d.revision)) >>= λ _.
          update_run (λ r. record r { status = succeeded; message = d.message }) >>= λ _.
          quietly (install io d))
            v)
  create-Outcome v (same_app, same_rows) =
      let m = lift (created io.create) in
      bind-outcome Outcome (or_block source m) _ v (or_block-Refused m v same_rows) λ done u h.
        committing-Outcome u
          (subst (λ x. Agree w x.1) (or_block-passed m v u done h) (same_app, same_rows))

  publish_sealed-Outcome : (v : World) → Agree w v → Outcome (publish_sealed io source d v)
  unfolding publish_sealed
  publish_sealed-Outcome v (same_app, same_rows) =
      let m = stage (io.fault 3) snapshotting in
      let ((app, rows), saved) = stage-outcome (io.fault 3) snapshotting v in
      bind-outcome Outcome m _ v
        (λ e u h. inr (
          refl,
          (
            subst (λ x. x.1.db.revisions ≡ w.db.revisions) h (rows ∙ same_rows),
            inl (failed_save saved h),
          ),
        ))
        λ done u h. create-Outcome u (subst (λ x. Agree w x.1) h (app ∙ same_app, rows ∙ same_rows))
    where
      failed_save :
          {A : Type 0} {x : Result (Unit {0}) × World} {e : Error} {u : World}
          → ((is_ok x.0 ≡ true) ⊎ A)
          → x ≡ (err e, u)
          → A
      failed_save (inl passed) h = cc
      failed_save (inr a) h = a

pub publish-Outcome :
    (io : Io) (id source : Text) (d : Draft) (w : World) (a : App)
    → begin_publication id w.app ≡ ok a
    → let (o, v) = publish io id source d w in
      ((is_ok o ≡ true)
        × ((v.run.status ≡ succeeded)
            × (v.run.message ≡ d.message)
            × (has_revision d.revision.id v.db.revisions ≡ true)
            × (is_blocked source v.app ≡ is_blocked source a)))
      ⊎ ((is_ok o ≡ false)
          × ((v.db.revisions ≡ w.db.revisions)
              × ((io.fault 3 0 ≡ true) ⊎ (is_blocked source v.app ≡ true))))
unfolding publish
publish-Outcome io id source d w a h = by_begin (begin_publication id w.app) h
  where
    by_begin :
        (o : Result App)
        → o ≡ ok a
        → Outcome io source d
            (record w { app = a })
            (go_on (begun o w) (λ _. publish_sealed io source d))
    by_begin (ok b) e =
        subst
          (λ (x : App).
            Outcome io source d (record w { app = a })
              (publish_sealed io source d (record w { app = x })))
          (sym (ok-inj e))
          (publish_sealed-Outcome io source d (record w { app = a }) (record w { app = a })
            (refl, refl))
    by_begin (err x) e = cc
