-- ===== src/App/Perform/Finish.antt =====
-- The deferred function of `perform` (internal/app/app.go), and `CancellationRequested` of
-- internal/app/cancel.go.
use crawlbox.Common.{
  ℕ, Bool, true, false, Option, none, some, [], Text, eq_text, lookup, codes, if◌then◌else◌,
}
use crawlbox.Common.Result.{Error, no_rows, not_exist, canceled, deadline_exceeded, new, external}
use crawlbox.Model.{
  Revision, Run, Status, running, validating, snapshotting, committing, succeeded, failed,
  interrupted,
}
use crawlbox.Model
use crawlbox.App.Control.{App, Control, Ended, seal}
use crawlbox.App.Perform.{World, save, Io}

-- The context of a run that is registered.
abbrev pub ended_control : Option Control → Option Ended
ended_control none = none
ended_control (some c) = c.context

abbrev pub run_context : Text → App → Option Ended
run_context id a = ended_control (lookup id a.controls)

abbrev pub is_success : Status → Bool
is_success succeeded = true
is_success _ = false

-- The statuses whose message is kept.
abbrev pub keeps_message : Status → Bool
keeps_message succeeded = true
keeps_message Model.no_change = true
keeps_message _ = false

-- The error that counts: an ended context gives its cause, unless the run has succeeded.
abbrev pub final_error : Status → Option Ended → Option Error → Option Error
final_error status none failure = failure
final_error status (some e) failure = if is_success status then failure else some e.cause

-- `errors.Is(ctx.Err(), context.Canceled)`
abbrev pub was_canceled : Option Ended → Bool
was_canceled none = false
was_canceled (some e) = elim e.error [ canceled ↦ true | _ ↦ false ]

-- `e.Error()`, with the texts of foreign errors given; of a `new` error its fixed part.
abbrev pub error_text : (ℕ → Text) → Error → Text
error_text foreign no_rows = codes "sql: no rows in result set"
error_text foreign not_exist = codes "file does not exist"
error_text foreign canceled = codes "context canceled"
error_text foreign deadline_exceeded = codes "context deadline exceeded"
error_text foreign (new s) = codes s
error_text foreign (external n) = foreign n

abbrev pub with_failure : (ℕ → Text) → Option Ended → Option Error → Run → Run
with_failure foreign context none r = r
with_failure foreign context (some e) r = record r {
  status = if was_canceled context then interrupted else failed;
  error = error_text foreign e;
}

abbrev pub clear_message : Run → Run
clear_message r = if keeps_message r.status then r else record r { message = [] }

-- The record of a run in its final state.
unfoldable pub concluded : (ℕ → Text) → ℕ → Option Ended → Option Error → Run → Run
concluded foreign now context failure r =
    record (clear_message (with_failure foreign context (final_error r.status context failure) r)) {
      finished = some now;
    }

-- The deferred function of `perform`, with the error that the body left.
unfoldable pub finish : (ℕ → Text) → Io → Text → Option Error → World → World
unfolding concluded
finish foreign io id failure w =
    let a = seal id w.app in
    let r = concluded foreign io.finished (run_context id a) failure w.run in
    (save (io.fault 6) (record w { app = a; run = r })).1

-- Whether a cause is `ErrRunStopped`.
abbrev pub stops : Error → Bool
stops (new s) = eq_text (codes s) (codes "run stopped by administrator")
stops _ = false

unfoldable pub cancellation_requested : Text → App → Bool
cancellation_requested id a = elim (run_context id a) [ none ↦ false | some e ↦ stops e.cause ]
