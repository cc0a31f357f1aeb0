-- ===== src/App/Perform/Doomed.antt =====
-- What a run that the administrator stopped does until its record is written
-- (internal/app/app.go and internal/app/cancel.go).
use crawlbox.Common.{
  ℕ, ◌≡◌, refl, inl, inr, Bool, true, false, ◌&&◌, Option, none, some, List, Text, any, codes,
  eq_text, eq_text_iff, eq_text_refl, lookup, lookup-insert, arith, Option-cases,
}
use crawlbox.Common.Result.{
  Error, Result, ok, err, no_rows, not_exist, canceled, deadline_exceeded, new, external, is_ok,
  fail_if,
}
use crawlbox.Common.Result
use crawlbox.Model.{Revision, Run, interrupted}
use crawlbox.Catalog.Db.{Faults}
use crawlbox.Catalog.Runs.{save_run, upsert_run}
use crawlbox.App.Control.{
  App, Control, Ended, cancel, can_cancel, begin_publication, seal, end_context,
  stop_by_administrator,
}
use crawlbox.App.Control.Events.{control_is, IsStable}
use crawlbox.App.Perform.{World, Draft, stored, go_on, save}
use crawlbox.App.Perform.Publication.{publish, publish_sealed, begun}
use crawlbox.App.Perform.Finish.{
  finish, run_context, concluded, is_success, stops, was_canceled, error_text,
}
use crawlbox.App.Perform.Machine.{
  Plan, Task, waiting, prepared, finishing, finished, released, after_prepare, after_publish,
  without_slot, advance,
}
use crawlbox.App.Perform.Stages.{IsClosed, prepare-Keeps}

-- The context was ended by the administrator.
abbrev pub is_stopped : Control → Bool
is_stopped c = elim c.context [ none ↦ false | some e ↦ was_canceled (some e) && stops e.cause ]

pub is_stopped-IsStable : IsStable is_stopped
unfolding end_context
is_stopped-IsStable = record { ends = λ e c h. ground arith; seals = λ c h. h }

-- Some revision was made by the run.
abbrev pub has_published : Text → List Revision → Bool
has_published id rs = any (λ v. eq_text v.run id) rs

pub stop-is_stopped : (c : Control) → c.context ≡ none → is_stopped (stop_by_administrator c) ≡ true
unfolding end_context
stop-is_stopped c e = rw (e, eq_text_refl)

pub cancel-stopped :
    (id : Text) (a a' : App)
    → can_cancel id a ≡ true
    → cancel id a ≡ ok a'
    → control_is is_stopped id a' ≡ true
unfolding cancel can_cancel end_context
cancel-stopped id a a' open_run h = elim (Option-cases (lookup id a.controls)) [
  | inl none_there ↦ ground arith
  | inr (c, found) ↦ ground (
    arith,
    lookup-insert id id (stop_by_administrator c) a.controls,
    eq_text_refl id,
    stop-is_stopped c,
  )
]

stopped-begin :
    (id : Text) (a : App)
    → control_is is_stopped id a ≡ true
    → is_ok (begin_publication id a) ≡ false
unfolding begin_publication
stopped-begin id a h = ground arith

and-both : (a b : Bool) → (a && b) ≡ true → (a ≡ true) × (b ≡ true)
and-both true b h = (refl, h)
and-both false b h = cc

stops-text :
    (foreign : ℕ → Text) (e : Error)
    → stops e ≡ true
    → error_text foreign e ≡ codes "run stopped by administrator"
stops-text foreign (new s) h = (eq_text_iff (codes s) (codes "run stopped by administrator")).0 h
stops-text foreign no_rows h = cc
stops-text foreign not_exist h = cc
stops-text foreign canceled h = cc
stops-text foreign deadline_exceeded h = cc
stops-text foreign (external n) h = cc

module _ (p : Plan) where
  abbrev pub IsUnpublished : World → Type 0
  IsUnpublished w = has_published p.id w.db.revisions ≡ false

  -- Before the deferred function.
  abbrev pub IsDoomed : World → Type 0
  IsDoomed w =
      (control_is is_stopped p.id w.app ≡ true)
      × (is_success w.run.status ≡ false)
      × IsUnpublished w

  abbrev pub IsMarked : World → Type 0
  IsMarked w =
      (w.run.status ≡ interrupted)
      × (w.run.error ≡ codes "run stopped by administrator")
      × IsUnpublished w

  abbrev pub IsStopped : Task × World → Type 0
  IsStopped (waiting, w) = IsDoomed w
  IsStopped (prepared d, w) = IsDoomed w
  IsStopped (finishing e, w) = IsDoomed w
  IsStopped (finished, w) = IsMarked w
  IsStopped (released, w) = IsMarked w

  IsDoomed-IsClosed : IsClosed IsDoomed
  IsDoomed-IsClosed = record {
    running = λ w h. (h.0, refl, h.2);
    validating = λ w h. (h.0, refl, h.2);
    unchanged = λ w m h. (h.0, refl, h.2);
    progress = λ w m h. h;
    saved = λ w rows h. h;
    cached = λ w cache h. h;
  }

  prepared-IsStopped :
      (x : Result (Option Draft) × World) → IsDoomed x.1 → IsStopped (after_prepare x)
  prepared-IsStopped (ok (some d), w) h = h
  prepared-IsStopped (ok none, w) h = h
  prepared-IsStopped (err e, w) h = h

  publish-IsStopped :
      (d : Draft) (w : World)
      → IsDoomed w
      → IsStopped (after_publish (publish p.io p.id p.source d w))
  unfolding publish
  publish-IsStopped d w h = by_begin (begin_publication p.id w.app) (stopped-begin p.id w.app h.0)
    where
      by_begin :
          (o : Result App)
          → is_ok o ≡ false
          → IsStopped (after_publish (go_on (begun o w) (λ _. publish_sealed p.io p.source d)))
      by_begin (ok a) e = cc
      by_begin (err x) e = h

  -- The final record of a stopped run.
  concluded-IsMarked :
      (failure : Option Error) (context : Option Ended) (r : Run)
      → elim context [ none ↦ false | some e ↦ was_canceled (some e) && stops e.cause ] ≡ true
      → is_success r.status ≡ false
      → ((concluded p.foreign p.io.finished context failure r).status ≡ interrupted)
        × ((concluded p.foreign p.io.finished context failure r).error
            ≡ codes "run stopped by administrator")
  unfolding concluded
  concluded-IsMarked failure none r h k = cc
  concluded-IsMarked failure (some e) r h k =
      let (now, by_admin) = and-both (was_canceled (some e)) (stops e.cause) h in
      rw (k, now) (refl, stops-text p.foreign e.cause by_admin)

  -- A registered control keeps its context when it is sealed.
  sealed-context :
      (a : App)
      → control_is is_stopped p.id a ≡ true
      → elim (run_context p.id (seal p.id a)) [
        | none ↦ false
        | some e ↦ was_canceled (some e) && stops e.cause
      ]
        ≡ true
  unfolding seal
  sealed-context a h = elim (Option-cases (lookup p.id a.controls)) [
    | inl none_there ↦ ground arith
    | inr (c, found) ↦
        ground (
          arith,
          lookup-insert p.id p.id (record c { sealed = true }) a.controls,
          eq_text_refl p.id,
        )
  ]

  save-IsMarked : (fault : Faults) (v : World) → IsMarked v → IsMarked (save fault v).1
  unfolding save_run
  save-IsMarked fault v h = by_fault (fault 0)
    where
      by_fault :
          (b : Bool)
          → IsMarked
              (stored
                (Result.◌>>◌
                  (fail_if b (external 0))
                  (ok (record v.db { runs = upsert_run v.run v.db.runs })))
                v).1
      by_fault true = h
      by_fault false = h

  finish-IsMarked :
      (e : Option Error) (w : World) → IsDoomed w → IsMarked (finish p.foreign p.io p.id e w)
  unfolding finish
  finish-IsMarked e w h =
      let (status, text) =
        concluded-IsMarked e (run_context p.id (seal p.id w.app)) w.run (sealed-context w.app h.0)
          h.1 in
      save-IsMarked (p.io.fault 6) _ (status, text, h.2)

  pub advance-IsStopped :
      (slot : Bool) (t : Task) (w : World) → IsStopped (t, w) → IsStopped (advance p slot t w)
  unfolding advance
  advance-IsStopped true waiting w h =
      prepared-IsStopped _ (prepare-Keeps IsDoomed IsDoomed-IsClosed p w h)
  advance-IsStopped false waiting w h = by_context (run_context p.id w.app)
    where
      by_context : (o : Option Ended) → IsStopped (without_slot o w)
      by_context none = h
      by_context (some e) = h
  advance-IsStopped slot (prepared d) w h = publish-IsStopped d w h
  advance-IsStopped slot (finishing e) w h = finish-IsMarked e w h
  advance-IsStopped slot finished w h = h
  advance-IsStopped slot released w h = h
