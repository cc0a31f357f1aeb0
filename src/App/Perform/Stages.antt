-- ===== src/App/Perform/Stages.antt =====
-- What the steps of a run leave alone (internal/app/app.go).
use crawlbox.Common.{
  Bool, true, false, Option, none, some, List, [], ◌∷◌, Map, Text, eq_text, if◌then◌else◌, codes,
}
use crawlbox.Common.Result.{Error, Result, ok, err, fail_if, external}
use crawlbox.Common.Result
use crawlbox.Wire.{ResultStatus, candidate, no_change}
use crawlbox.Wire
use crawlbox.Model.{Revision, Run, Status, running, validating}
use crawlbox.Model
use crawlbox.Host.State.{Candidate}
use crawlbox.Catalog.Db.{Faults}
use crawlbox.Catalog.Runs.{save_run, upsert_run}
use crawlbox.App.Cache.{Cache}
use crawlbox.App.Confirm.{check}
use crawlbox.Paths.{path_join}
use crawlbox.App.Perform.{
  World, Stage, go_on, ◌>>=◌, done, lift, update_run, stored, save, stage, announce, report, Draft,
}
use crawlbox.App.Perform.Preparation.{
  prepare_previous, collect, draft, prepare, conclude, read_latest, write_tree, ready,
  restore_previous,
}
use crawlbox.App.Perform.Machine.{Plan}

-- A predicate that the steps before the publication do not break.
pub record IsClosed (P : World → Type 0) : Type 0 where
  pub running : (w : World) → P w → P (record w { run = record w.run { status = running } })
  pub validating : (w : World) → P w → P (record w { run = record w.run { status = validating } })
  pub unchanged :
      (w : World) (m : Text)
      → P w
      → P (record w { run = record w.run { status = Model.no_change; message = m } })
  pub progress : (w : World) (m : Text) → P w → P (record w { run = record w.run { progress = m } })
  pub saved : (w : World) (rows : Map Run) → P w → P (record w { db = record w.db { runs = rows } })
  pub cached : (w : World) (cache : Cache) → P w → P (record w { cache = cache })

module _ (P : World → Type 0) where
  abbrev pub Keeps : {A : Type 0} → Stage A → Type 0
  Keeps m = (w : World) → P w → P (m w).1

  pub bind-Keeps :
      {A B : Type 0} (m : Stage A) (next : A → Stage B)
      → Keeps m
      → ((a : A) → Keeps (next a))
      → Keeps (m >>= next)
  bind-Keeps {A = A} m next k l w h = after (m w) (k w h)
    where
      after : (x : Result A × World) → P x.1 → P (go_on x next).1
      after (ok a, v) h = l a v h
      after (err e, v) h = h

  -- What holds after an early return, and after what follows, holds after both.
  pub bind-leaves :
      {A B : Type 0} (R : Result B × World → Type 0) (m : Stage A) (next : A → Stage B)
      → Keeps m
      → ((e : Error) (w : World) → P w → R (err e, w))
      → ((a : A) (w : World) → P w → R (next a w))
      → (w : World) → P w
      → R ((m >>= next) w)
  bind-leaves {A = A} R m next k early late w h = after (m w) (k w h)
    where
      after : (x : Result A × World) → P x.1 → R (go_on x next)
      after (ok a, v) h = late a v h
      after (err e, v) h = early e v h

  if-Keeps :
      {A : Type 0} (b : Bool) (m n : Stage A) → Keeps m → Keeps n → Keeps (if b then m else n)
  if-Keeps true m n k l = k
  if-Keeps false m n k l = l

  module _ (closed : IsClosed P) where
    pub save-Keeps : (fault : Faults) → Keeps (save fault)
    unfolding save_run
    save-Keeps fault w h = by_fault (fault 0)
      where
        by_fault :
            (b : Bool)
            → P
                (stored
                  (Result.◌>>◌
                    (fail_if b (external 0))
                    (ok (record w.db { runs = upsert_run w.run w.db.runs })))
                  w).1
        by_fault true = h
        by_fault false = closed.saved w (upsert_run w.run w.db.runs) h

    pub stage-Keeps :
        (fault : Faults) (status : Status)
        → ((w : World) → P w → P (record w { run = record w.run { status = status } }))
        → Keeps (stage fault status)
    unfolding stage
    stage-Keeps fault status entered w h = save-Keeps fault _ (entered w h)

    progress-Keeps : (m : Text) → Keeps (update_run (λ r. record r { progress = m }))
    progress-Keeps m w h = closed.progress w m h

    announce-Keeps : (rows : List (Faults × Text)) → Keeps (announce rows)
    unfolding announce
    announce-Keeps [] w h = h
    announce-Keeps ((fault, m) ∷ rows) w h =
        announce-Keeps rows _ (save-Keeps fault _ (progress-Keeps m w h))

    report-Keeps : (rows : List (Option Faults × Text)) → Keeps (report rows)
    unfolding report
    report-Keeps [] w h = h
    report-Keeps ((none, m) ∷ rows) w h = report-Keeps rows _ (progress-Keeps m w h)
    report-Keeps ((some fault, m) ∷ rows) w h =
        report-Keeps rows _ (save-Keeps fault _ (progress-Keeps m w h))

    module _ (p : Plan) where
      restore_previous-Keeps :
          (prev : Revision)
          → Keeps (restore_previous p.sha256 p.unmarshal p.execute p.data_dir p.io p.loaded prev)
      unfolding restore_previous
      restore_previous-Keeps prev =
          bind-Keeps (lift _) _ (λ w h. h)
            λ _.
              bind-Keeps (announce p.io.prepared) _ (announce-Keeps p.io.prepared)
                (λ _ w h. closed.cached w _ h)

      prepare_previous-Keeps :
          (prev : Revision)
          → Keeps (prepare_previous p.sha256 p.unmarshal p.execute p.data_dir p.io p.loaded prev)
      unfolding prepare_previous
      prepare_previous-Keeps prev =
          if-Keeps (eq_text prev.id []) (done [])
            (restore_previous p.sha256 p.unmarshal p.execute p.data_dir p.io p.loaded prev)
            (λ w h. h) (restore_previous-Keeps prev)

      collect-Keeps :
          (prev : Revision) (previous objects : Text)
          → Keeps (
              collect p.sha256 p.unmarshal p.execute p.data_dir p.io p.loaded prev previous objects)
      unfolding collect
      collect-Keeps prev previous objects =
          bind-Keeps (announce p.io.launching) _ (announce-Keeps p.io.launching)
            λ _. bind-Keeps (report p.io.reports) _ (report-Keeps p.io.reports) (λ _ w h. h)

      pub draft-leaves :
          (R : Result (Option Draft) × World → Type 0) (prev : Revision) (previous dir : Text)
          (c : Candidate) (result : Wire.Result)
          → ((e : Error) (w : World) → P w → R (err e, w))
          → ((d : Draft) (w : World) → P w → R (ok (some d), w))
          → (w : World) → P w
          → R (
              draft p.sha256 p.unmarshal p.execute p.data_dir p.io p.loaded prev previous dir c
                result w)
      unfolding draft
      draft-leaves R prev previous dir c result early late =
          let tree =
            write_tree p.sha256 p.unmarshal p.execute p.data_dir p.io p.loaded prev previous dir
              c in
          let last =
            ready p.sha256 p.unmarshal p.execute p.data_dir p.io p.loaded prev dir result in
          bind-leaves R (stage (p.io.fault 2) validating) (λ _. lift tree >>= last)
            (stage-Keeps (p.io.fault 2) validating closed.validating) early
            λ _. bind-leaves R (lift tree) last (λ w h. h) early (λ built w h. late _ w h)

      pub conclude-Keeps :
          (prev : Revision) (previous dir : Text) (c : Candidate) (result : Wire.Result)
          (status : ResultStatus)
          → Keeps (
              conclude p.sha256 p.unmarshal p.execute p.data_dir p.io p.loaded prev previous dir c
                result status)
      conclude-Keeps prev previous dir c result no_change w h = closed.unchanged w result.message h
      conclude-Keeps prev previous dir c result candidate w h =
          draft-leaves (λ x. P x.1) prev previous dir c result (λ e v k. k) (λ d v k. k) w h

      -- What holds after an early return, and after the last step, holds after `prepare`.
      pub prepare-leaves :
          (R : Result (Option Draft) × World → Type 0)
          → ((e : Error) (w : World) → P w → R (err e, w))
          → ((prev : Revision) (previous dir : Text) (c : Candidate) (result : Wire.Result)
                (w : World)
              → P w
              → R (
                  conclude p.sha256 p.unmarshal p.execute p.data_dir p.io p.loaded prev previous dir
                    c result result.status w))
          → (w : World) → P w
          → R (prepare p.sha256 p.unmarshal p.execute p.data_dir p.io p.loaded w)
      unfolding prepare
      prepare-leaves R early late =
          bind-leaves R (stage (p.io.fault 0) running) _
            (stage-Keeps (p.io.fault 0) running closed.running) early
            λ _. bind-leaves R (announce p.io.starting) _ (announce-Keeps p.io.starting) early λ _.
              bind-leaves R (read_latest p.sha256 p.unmarshal p.execute p.data_dir p.io p.loaded) _
                (λ w h. h) early
                λ prev.
                  bind-leaves R
                    (prepare_previous p.sha256 p.unmarshal p.execute p.data_dir p.io p.loaded prev)
                    _ (prepare_previous-Keeps prev) early
                    λ previous.
                      bind-leaves R (lift p.io.temp_dir) _ (λ w h. h) early
                        λ dir.
                          bind-leaves R (lift (check p.io.objects_dir)) _ (λ w h. h) early
                            λ _.
                              bind-leaves R
                                (collect p.sha256 p.unmarshal p.execute p.data_dir p.io p.loaded
                                  prev previous (path_join dir (codes "objects")))
                                _ (collect-Keeps prev previous (path_join dir (codes "objects")))
                                early λ x. late prev previous dir x.0 x.1

      pub prepare-Keeps : Keeps (prepare p.sha256 p.unmarshal p.execute p.data_dir p.io p.loaded)
      prepare-Keeps =
          prepare-leaves (λ x. P x.1) (λ e w h. h)
            λ prev previous dir c result. conclude-Keeps prev previous dir c result result.status
