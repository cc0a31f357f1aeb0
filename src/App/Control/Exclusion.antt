-- ===== src/App/Control/Exclusion.antt =====
-- Cancelling a run and publishing it exclude each other, whatever happens in between.
use crawlbox.Common.{
  ℕ, ◌≡◌, ◌≢◌, true, false, ◌&&◌, List, [], Text, All, eq_text_iff, eq_text_refl, lookup,
  lookup-insert, arith, Option-cases, inl, inr,
}
use crawlbox.Common.Result.{ok, err, is_ok}
use crawlbox.Catalog.Db.{Db, Faults}
use crawlbox.App.Control.{
  App, end_context, trigger, can_cancel, cancel, begin_publication, stop_by_administrator,
  run_sealed,
}
use crawlbox.App.Control.Events.{
  Event, plays, spares, control_is, has_ended, is_sealed, has_ended-IsStable, is_sealed-IsStable,
  plays-control_is,
}

ended_now : (id : Text) (a a' : App) → cancel id a ≡ ok a' → control_is has_ended id a' ≡ true
unfolding cancel end_context
ended_now id a a' h = elim (Option-cases (lookup id a.controls)) [
  | inl none_there ↦ ground arith
  | inr (c, found) ↦
      ground (arith, lookup-insert id id (stop_by_administrator c) a.controls, eq_text_refl id)
]

sealed_now :
    (id : Text) (a a' : App) → begin_publication id a ≡ ok a' → control_is is_sealed id a' ≡ true
unfolding begin_publication
sealed_now id a a' h = elim (Option-cases (lookup id a.controls)) [
  | inl none_there ↦ ground arith
  | inr (c, found) ↦
      ground (arith, lookup-insert id id (record c { sealed = true }) a.controls, eq_text_refl id)
]

-- After a successful `Cancel` of a run, the run cannot begin its publication, whatever happens in
-- between while it is registered.
pub cancel-begin_publication :
    (id : Text) (a a' : App) (db : Db) (es : List Event)
    → cancel id a ≡ ok a'
    → All (λ e. spares id e ≡ true) es
    → is_ok (begin_publication id (plays es (a', db)).0) ≡ false
unfolding begin_publication
cancel-begin_publication id a a' db es h spared =
    let now = ended_now id a a' h in
    let later = plays-control_is has_ended has_ended-IsStable id es (a', db) spared now in
    ground arith

-- After a run has begun its publication, `Cancel` refuses it as sealed, whatever happens in
-- between while it is registered.
pub begin_publication-cancel :
    (id : Text) (a a' : App) (db : Db) (es : List Event)
    → begin_publication id a ≡ ok a'
    → All (λ e. spares id e ≡ true) es
    → cancel id (plays es (a', db)).0 ≡ err run_sealed
unfolding cancel
begin_publication-cancel id a a' db es h spared =
    let now = sealed_now id a a' h in
    let later = plays-control_is is_sealed is_sealed-IsStable id es (a', db) spared now in
    ground arith

-- `CanCancel` tells exactly whether the run could still be both cancelled and published.
pub can_cancel_exact :
    (id : Text) (a : App)
    → can_cancel id a ≡ (is_ok (cancel id a) && is_ok (begin_publication id a))
unfolding can_cancel cancel begin_publication
can_cancel_exact id a = ground arith

-- A second `Trigger` of a source whose first one succeeded, with nothing in between, starts no
-- second run: it answers the first run and changes nothing.
pub trigger_again :
    (fault other : Faults) (id k : Text) (now later : ℕ) (source first : Text) (a a' : App)
    (db db' : Db)
    → id ≢ []
    → trigger fault id now source (a, db) ≡ ok (first, a', db')
    → trigger other k later source (a', db') ≡ ok (first, a', db')
unfolding trigger
trigger_again fault other id k now later source first a a' db db' named h =
    ground (arith, lookup-insert source source id a.active, eq_text_refl source, eq_text_iff id [])
