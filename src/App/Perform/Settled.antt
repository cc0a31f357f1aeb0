-- ===== src/App/Perform/Settled.antt =====
-- How the record of a run ends (internal/app/app.go).
use crawlbox.Common.{
  ℕ, ◌≤◌, ◌≡◌, refl, subst, Bool, true, false, Option, none, some, List, [], ◌∷◌, Text, arith,
}
use crawlbox.Common.Result.{Error, Result, ok, err}
use crawlbox.Model.{Run, Status, snapshotting, committing}
use crawlbox.App.Perform.{World, Stage, Draft, stage, lift, stored}
use crawlbox.Catalog.Db.{Db, Faults}
use crawlbox.Catalog.History.{commit}
use crawlbox.Catalog.Runs.{save_run}
use crawlbox.App.Perform.Machine.{
  Plan, Task, waiting, prepared, finishing, finished, released, Move, goes, happens, commits,
  after_prepare, after_publish, advance, move, moves, without_slot,
}
use crawlbox.App.Control.{Ended, App, begin_publication, seal}
use crawlbox.App.Perform.Publication.{
  publish, publish_sealed, begun, or_block, blocked_after, created, save_revision, with_snapshot,
}
use crawlbox.App.Perform.Preparation.{prepare, conclude}
use crawlbox.Wire.{ResultStatus, candidate, no_change}
use crawlbox.Wire
use crawlbox.Host.State.{Candidate}
use crawlbox.Model.{Revision}
use crawlbox.App.Perform.Finish.{finish, run_context, is_success, keeps_message}
use crawlbox.App.Perform.Ending.{turns, moves-remaining, ended}
use crawlbox.App.Perform.Stages.{
  IsClosed, Keeps, prepare-leaves, draft-leaves, bind-leaves, stage-Keeps,
}
use crawlbox.App.Perform.Concluded.{IsSettled, concluded-IsSettled}

-- What the run's record is on its way to that.
abbrev IsDue : ℕ → Task → Run → Type 0
IsDue now waiting r = is_success r.status ≡ false
IsDue now (prepared d) r = is_success r.status ≡ false
IsDue now (finishing none) r = keeps_message r.status ≡ true
IsDue now (finishing (some e)) r = is_success r.status ≡ false
IsDue now finished r = IsSettled now r
IsDue now released r = IsSettled now r

abbrev IsDueAt : ℕ → Task × World → Type 0
IsDueAt now (t, w) = IsDue now t w.run

-- A run that is not yet recorded as succeeded.
abbrev IsOpen : World → Type 0
IsOpen w = is_success w.run.status ≡ false

IsOpen-IsClosed : IsClosed IsOpen
IsOpen-IsClosed = record {
  running = λ w h. refl;
  validating = λ w h. refl;
  unchanged = λ w m h. refl;
  progress = λ w m h. h;
  saved = λ w rows h. h;
  cached = λ w cache h. h;
}

begun-IsOpen : (o : Result App) (w : World) → IsOpen w → IsOpen (begun o w).1
begun-IsOpen (ok a) w h = h
begun-IsOpen (err e) w h = h

or_block-IsOpen :
    (source : Text) (m : Stage (Unit {0})) → Keeps IsOpen m → Keeps IsOpen (or_block source m)
or_block-IsOpen source m k w h = after (m w) (k w h)
  where
    after : (x : Result (Unit {0}) × World) → IsOpen x.1 → IsOpen (blocked_after source x).1
    after (ok passed, v) h = h
    after (err e, v) h = h

saved-IsOpen : (o : Result Db) (w : World) → IsOpen w → IsOpen (stored o w).1
saved-IsOpen (ok db) w h = h
saved-IsOpen (err e) w h = h

module _ (p : Plan) where
  prepare-IsDue :
      (w : World)
      → IsOpen w
      → IsDueAt p.io.finished
          (after_prepare (prepare p.sha256 p.unmarshal p.execute p.data_dir p.io p.loaded w))
  prepare-IsDue =
      prepare-leaves IsOpen IsOpen-IsClosed p (λ x. IsDueAt p.io.finished (after_prepare x))
        (λ e w h. h)
        λ prev previous dir c result. by_status prev previous dir c result result.status
    where
      by_status :
          (prev : Revision) (previous dir : Text) (c : Candidate) (result : Wire.Result)
          (status : ResultStatus) (w : World)
          → IsOpen w
          → IsDueAt p.io.finished (
              after_prepare (
                conclude p.sha256 p.unmarshal p.execute p.data_dir p.io p.loaded prev previous dir c
                  result status w))
      by_status prev previous dir c result no_change w h = refl
      by_status prev previous dir c result candidate w h =
          draft-leaves IsOpen IsOpen-IsClosed p (λ x. IsDueAt p.io.finished (after_prepare x)) prev
            previous dir c result (λ e v k. k) (λ d v k. k) w h

  publish-IsDue :
      (d : Draft) (w : World)
      → IsOpen w
      → IsDueAt p.io.finished (after_publish (publish p.io p.id p.source d w))
  unfolding publish
  publish-IsDue d =
      let create = lift (created p.io.create) in
      let commits = save_revision (p.io.fault 5) (with_snapshot p.io.create d.revision) in
      bind-leaves IsOpen R (λ w. begun (begin_publication p.id w.app) w)
        (λ _. publish_sealed p.io p.source d) (λ w. begun-IsOpen (begin_publication p.id w.app) w)
        (λ e w h. h)
        λ _.
          bind-leaves IsOpen R (stage (p.io.fault 3) snapshotting) _
            (entering (p.io.fault 3) snapshotting refl) (λ e w h. h)
            λ _.
              bind-leaves IsOpen R (or_block p.source create) _
                (or_block-IsOpen p.source create (λ w h. h)) (λ e w h. h)
                λ _.
                  bind-leaves IsOpen R (or_block p.source (stage (p.io.fault 4) committing)) _
                    (or_block-IsOpen p.source (stage (p.io.fault 4) committing)
                      (entering (p.io.fault 4) committing refl))
                    (λ e w h. h)
                    λ _.
                      bind-leaves IsOpen R (or_block p.source commits) _
                        (or_block-IsOpen p.source commits (λ w.
                          saved-IsOpen
                            (commit (p.io.fault 5) (with_snapshot p.io.create d.revision) w.db) w))
                        (λ e w h. h) (λ _ w h. refl)
    where
      R : Result (Unit {0}) × World → Type 0
      R x = IsDueAt p.io.finished (after_publish x)

      entering :
          (fault : Faults) (status : Status)
          → is_success status ≡ false
          → Keeps IsOpen (stage fault status)
      entering fault status e = stage-Keeps IsOpen IsOpen-IsClosed fault status (λ w h. e)

  finish-IsSettled :
      (e : Option Error) (w : World)
      → IsDue p.io.finished (finishing e) w.run
      → IsSettled p.io.finished (finish p.foreign p.io p.id e w).run
  unfolding finish
  finish-IsSettled e w h = saved-run (save_run (p.io.fault 6) _ w.db) _ (
      concluded-IsSettled p.foreign p.io.finished (run_context p.id (seal p.id w.app)) e w.run
        (kept e h))
    where
      kept :
          (f : Option Error)
          → IsDue p.io.finished (finishing f) w.run
          → f ≡ none
          → keeps_message w.run.status ≡ true
      kept none h e = h
      kept (some x) h e = cc

      saved-run :
          (o : Result Db) (v : World)
          → IsSettled p.io.finished v.run
          → IsSettled p.io.finished (stored o v).1.run
      saved-run (ok db) v h = h
      saved-run (err x) v h = h

  advance-IsDue :
      (slot : Bool) (t : Task) (w : World)
      → IsDueAt p.io.finished (t, w)
      → IsDueAt p.io.finished (advance p slot t w)
  unfolding advance
  advance-IsDue true waiting w h = prepare-IsDue w h
  advance-IsDue false waiting w h = by_context (run_context p.id w.app)
    where
      by_context : (o : Option Ended) → IsDueAt p.io.finished (without_slot o w)
      by_context none = h
      by_context (some e) = h
  advance-IsDue slot (prepared d) w h = publish-IsDue d w h
  advance-IsDue slot (finishing e) w h = finish-IsSettled e w h
  advance-IsDue slot finished w h = h
  advance-IsDue slot released w h = h

  moves-IsDue :
      (ms : List Move) (t : Task) (w : World)
      → IsDueAt p.io.finished (t, w)
      → IsDueAt p.io.finished (moves p ms (t, w))
  unfolding moves move
  moves-IsDue [] t w h = h
  moves-IsDue (goes slot ∷ ms) t w h = moves-IsDue ms _ _ (advance-IsDue slot t w h)
  moves-IsDue (happens e ∷ ms) t w h = moves-IsDue ms t _ h
  moves-IsDue (commits fault r ∷ ms) t w h = moves-IsDue ms t _ h

  -- A run that waits for a slot, and whose record does not say that it has succeeded, has ended
  -- once its goroutine has had four turns with a slot, whatever else happens meanwhile and
  -- whichever of its steps fail. The record then holds no active status, the time of the end, and
  -- a message only if the run succeeded or found nothing new.
  pub run_ends :
      (ms : List Move) (w : World)
      → is_success w.run.status ≡ false
      → 4 ≤ turns ms
      → ((moves p ms (waiting, w)).0 ≡ released)
        × IsSettled p.io.finished (moves p ms (waiting, w)).1.run
  run_ends ms w h enough =
      let at_end =
        ended (moves p ms (waiting, w)).0 (omega (arith, moves-remaining p ms waiting w, enough)) in
      (
        at_end,
        subst (λ t. IsDue p.io.finished t (moves p ms (waiting, w)).1.run) at_end
            (moves-IsDue ms waiting w h),
      )
