-- ===== src/App/Perform/Concluded.antt =====
-- What the deferred function of `perform` makes of the record of a run (internal/app/app.go).
use crawlbox.Common.{
  ℕ, ◌≡◌, refl, Bool, true, false, Option, none, some, [], ◌||◌, eq_text, eq_text_refl, Text,
  if◌then◌else◌, arith,
}
use crawlbox.Common.Result.{Error}
use crawlbox.Model.{Run, Status, is_active, interrupted, failed}
use crawlbox.App.Control.{Ended}
use crawlbox.App.Perform.Finish.{
  concluded, keeps_message, final_error, with_failure, clear_message, was_canceled,
}

-- What the record of a run says at its end: it is not active, the time is there, and a message is
-- there only if the run has succeeded or found nothing new.
pub record IsSettled (now : ℕ) (r : Run) : Type 0 where
  pub inactive : is_active r.status ≡ false
  pub dated : r.finished ≡ some now
  pub silent : (keeps_message r.status || eq_text r.message []) ≡ true

cleared-IsSettled :
    (now : ℕ) (r : Run)
    → is_active r.status ≡ false
    → IsSettled now (record (clear_message r) { finished = some now })
cleared-IsSettled now r h = by_status (keeps_message r.status) refl
  where
    by_status :
        (b : Bool)
        → keeps_message r.status ≡ b
        → IsSettled now
            (record (if b then r else record r { message = [] }) { finished = some now })
    by_status true e = record { inactive = h; dated = refl; silent = rw e refl }
    by_status false e = record { inactive = h; dated = refl; silent = rw e (eq_text_refl []) }

kept-inactive : (s : Status) → keeps_message s ≡ true → is_active s ≡ false
unfolding is_active
kept-inactive s h = ground arith

failed-inactive : (b : Bool) → is_active (if b then interrupted else failed) ≡ false
unfolding is_active
failed-inactive true = refl
failed-inactive false = refl

failure-IsSettled :
    (foreign : ℕ → Text) (now : ℕ) (context : Option Ended) (o : Option Error) (r : Run)
    → (o ≡ none → keeps_message r.status ≡ true)
    → IsSettled now
        (record (clear_message (with_failure foreign context o r)) { finished = some now })
failure-IsSettled foreign now context none r h =
    cleared-IsSettled now r (kept-inactive r.status (h refl))
failure-IsSettled foreign now context (some e) r h =
    cleared-IsSettled now (with_failure foreign context (some e) r)
      (failed-inactive (was_canceled context))

final_error-none :
    (s : Status) (context : Option Ended) (failure : Option Error)
    → final_error s context failure ≡ none
    → failure ≡ none
final_error-none s none failure h = h
final_error-none s (some e) failure h = ground arith

pub concluded-IsSettled :
    (foreign : ℕ → Text) (now : ℕ) (context : Option Ended) (failure : Option Error) (r : Run)
    → (failure ≡ none → keeps_message r.status ≡ true)
    → IsSettled now (concluded foreign now context failure r)
unfolding concluded
concluded-IsSettled foreign now context failure r h =
    failure-IsSettled foreign now context (final_error r.status context failure) r
      (λ e. h (final_error-none r.status context failure e))
