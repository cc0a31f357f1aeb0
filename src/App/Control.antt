-- ===== src/App/Control.antt =====
-- Starting and stopping runs: `Trigger`, with the clean-up of its goroutine (internal/app/app.go),
-- and internal/app/cancel.go. A run's control is found by the identifier of the run, which the
-- goroutine of the run holds as a pointer while it is registered.
pub mod Events
pub mod Blocking
pub mod Exclusion
mod Tests
use crawlbox.Common.{
  ℕ, Bool, true, false, ◌&&◌, not, Option, none, some, List, [], ◌∷◌, Map, Text, eq_text, lookup,
  insert, erase, any, if◌then◌else◌,
}
use crawlbox.Common.Result.{
  Error, Result, ok, err, new, canceled, deadline_exceeded, not_exist, ◌>>=◌,
}
use crawlbox.Model.{Run, queued}
use crawlbox.Catalog.Db.{Db, Faults}
use crawlbox.Catalog.Runs.{save_run}

abbrev pub run_not_active : Error
run_not_active = new "run is no longer active"

abbrev pub run_sealed : Error
run_sealed = new "run is snapshotting, committing or finishing; cancellation is no longer available"

abbrev pub run_stopped : Error
run_stopped = new "run stopped by administrator"

-- A context that has ended, by its error and its cause.
pub record Ended : Type 0 where
  pub error : Error
  pub cause : Error

pub record Control : Type 0 where
  pub context : Option Ended
  pub sealed : Bool

pub record App : Type 0 where
  pub sources : List Text
  pub context : Option Error
  pub active : Map Text
  pub blocked : Map Bool
  pub controls : Map Control

-- Ending a context: the first end counts.
unfoldable pub end_context : Ended → Control → Control
end_context e c = elim c.context [ none ↦ record c { context = some e } | some old ↦ c ]

unfoldable pub is_blocked : Text → App → Bool
is_blocked source a = elim (lookup source a.blocked) [ none ↦ false | some b ↦ b ]

unfoldable pub active_run : Text → App → Text
active_run source a = elim (lookup source a.active) [ none ↦ [] | some id ↦ id ]

abbrev pub queued_run : Text → Text → ℕ → Run
queued_run id source now = record {
  message = [];
  id = id;
  source = source;
  status = queued;
  progress = [];
  error = [];
  started = now;
  finished = none;
}

abbrev pub fresh_control : Control
fresh_control = record { context = none; sealed = false }

-- `Trigger`, with the identifier that it draws and the time.
unfoldable pub trigger : Faults → Text → ℕ → Text → App × Db → Result (Text × App × Db)
unfolding is_blocked active_run
trigger fault id now source (a, db) =
    if not (any (eq_text source) a.sources) then err not_exist else elim a.context [
      | some e ↦ err e
      | none ↦
          if is_blocked source a
          then err (new "source requires restart recovery")
          else if not (eq_text (active_run source a) [])
          then ok (active_run source a, a, db)
          else do
            saved ← save_run fault (queued_run id source now) db
            ok (
              id,
              record a {
                active = insert source id a.active;
                controls = insert id fresh_control a.controls;
              },
              saved,
            )
    ]

-- What the goroutine of a run does last.
unfoldable pub release : Text → Text → App → App
release source id a = record a { active = erase source a.active; controls = erase id a.controls }

unfoldable pub can_cancel : Text → App → Bool
can_cancel id a = elim (lookup id a.controls) [
  | none ↦ false
  | some c ↦ not c.sealed && elim c.context [ none ↦ true | some e ↦ false ]
]

-- `c.cancel(ErrRunStopped)`
abbrev pub stop_by_administrator : Control → Control
stop_by_administrator c = end_context (record { error = canceled; cause = run_stopped }) c

unfoldable pub cancel : Text → App → Result App
unfolding end_context
cancel id a = elim (lookup id a.controls) [
  | none ↦ err run_not_active
  | some c ↦
      if c.sealed
      then err run_sealed
      else ok (record a { controls = insert id (stop_by_administrator c) a.controls })
]

unfoldable pub begin_publication : Text → App → Result App
begin_publication id a = elim (lookup id a.controls) [
  | none ↦ err run_not_active
  | some c ↦ elim c.context [
    | some e ↦ err e.error
    | none ↦ ok (record a { controls = insert id (record c { sealed = true }) a.controls })
  ]
]

-- The start of the deferred function of `perform`: a run that is finishing is sealed.
unfoldable pub seal : Text → App → App
seal id a = elim (lookup id a.controls) [
  | none ↦ a
  | some c ↦ record a { controls = insert id (record c { sealed = true }) a.controls }
]

-- The deadline of a run, and the end of the application's context.
unfoldable pub pass_deadline : Text → App → App
unfolding end_context
pass_deadline id a = elim (lookup id a.controls) [
  | none ↦ a
  | some c ↦ record a {
    controls =
        insert id (end_context (record { error = deadline_exceeded; cause = deadline_exceeded }) c)
          a.controls;
  }
]

unfoldable pub end_all : Map Control → Map Control
unfolding end_context
end_all [] = []
end_all ((id, c) ∷ m) =
    (id, end_context (record { error = canceled; cause = canceled }) c) ∷ end_all m

unfoldable pub shut_down : App → App
unfolding end_all
shut_down a = record a {
  context = elim a.context [ none ↦ some canceled | some e ↦ some e ];
  controls = end_all a.controls;
}
