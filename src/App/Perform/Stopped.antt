-- ===== src/App/Perform/Stopped.antt =====
-- A run that the administrator stopped before its publication (internal/app/app.go and
-- internal/app/cancel.go).
use crawlbox.Common.{
  ◌≤◌, ◌≡◌, refl, ◌∙◌, ◌⊎◌, inl, inr, Bool, true, false, not, List, [], ◌∷◌, Text, All, codes,
  eq_text, arith,
}
use crawlbox.Common.Result.{Result, ok, err}
use crawlbox.Model.{Revision, interrupted}
use crawlbox.Catalog.Db.{Db, Faults}
use crawlbox.Catalog.History.{commit}
use crawlbox.Catalog.History.Linear.{settle, commit_cases}
use crawlbox.Catalog.Runs.{save_run}
use crawlbox.App.Control.{App, cancel, can_cancel, trigger}
use crawlbox.App.Control.Events.{
  Event, triggers, cancels, publishes, seals, passes_deadline, shuts_down, releases, play, plays,
  spares, plays-control_is,
}
use crawlbox.App.Perform.{World}
use crawlbox.App.Perform.Finish.{is_success}
use crawlbox.App.Perform.Machine.{
  Plan, Task, waiting, prepared, finishing, finished, released, Move, goes, happens, commits,
  with_app, move, moves,
}
use crawlbox.App.Perform.Ending.{remaining}
use crawlbox.App.Perform.Doomed.{
  is_stopped, is_stopped-IsStable, has_published, IsDoomed, IsStopped, advance-IsStopped,
  cancel-stopped,
}

-- What else happens leaves the run registered, and other runs publish their own revisions.
abbrev pub spares_move : Text → Move → Bool
spares_move id (goes slot) = true
spares_move id (happens e) = spares id e
spares_move id (commits fault r) = not (eq_text r.run id)

play-revisions : (e : Event) (a : App) (db : Db) → (play e (a, db)).1.revisions ≡ db.revisions
unfolding play trigger save_run
play-revisions (triggers fault id now source) a db = ground arith
play-revisions (cancels id) a db = refl
play-revisions (publishes id) a db = refl
play-revisions (seals id) a db = refl
play-revisions (passes_deadline id) a db = refl
play-revisions shuts_down a db = refl
play-revisions (releases source id) a db = refl

settle-has_published :
    (id : Text) (fault : Faults) (r : Revision) (db : Db)
    → not (eq_text r.run id) ≡ true
    → has_published id (settle (commit fault r db) db).revisions ≡ has_published id db.revisions
settle-has_published id fault r db other = by_result (commit fault r db) refl
  where
    by_result :
        (o : Result Db)
        → commit fault r db ≡ o
        → has_published id (settle o db).revisions ≡ has_published id db.revisions
    by_result (err e) h = refl
    by_result (ok db') h = elim (commit_cases fault r db h) [
      | inl (old, same) ↦ rw same
      | inr (fresh, at, rows, heads) ↦ rw rows (ground arith)
    ]

module _ (p : Plan) where
  event-IsDoomed :
      (e : Event) (w : World)
      → spares p.id e ≡ true
      → IsDoomed p w
      → IsDoomed p (with_app (play e (w.app, w.db)) w)
  unfolding play plays
  event-IsDoomed e w k h = (
    plays-control_is is_stopped is_stopped-IsStable p.id (e ∷ []) (w.app, w.db) (k, tt) h.0,
    h.1,
    rw (play-revisions e w.app w.db) h.2,
  )

  event-IsStopped :
      (e : Event) (t : Task) (w : World)
      → spares p.id e ≡ true
      → IsStopped p (t, w)
      → IsStopped p (t, with_app (play e (w.app, w.db)) w)
  event-IsStopped e waiting w k h = event-IsDoomed e w k h
  event-IsStopped e (prepared d) w k h = event-IsDoomed e w k h
  event-IsStopped e (finishing f) w k h = event-IsDoomed e w k h
  event-IsStopped e finished w k h = (h.0, h.1, rw (play-revisions e w.app w.db) h.2)
  event-IsStopped e released w k h = (h.0, h.1, rw (play-revisions e w.app w.db) h.2)

  commit-IsStopped :
      (fault : Faults) (r : Revision) (t : Task) (w : World)
      → not (eq_text r.run p.id) ≡ true
      → IsStopped p (t, w)
      → IsStopped p (t, record w { db = settle (commit fault r w.db) w.db })
  commit-IsStopped fault r waiting w k h =
      (h.0, h.1, settle-has_published p.id fault r w.db k ∙ h.2)
  commit-IsStopped fault r (prepared d) w k h =
      (h.0, h.1, settle-has_published p.id fault r w.db k ∙ h.2)
  commit-IsStopped fault r (finishing f) w k h =
      (h.0, h.1, settle-has_published p.id fault r w.db k ∙ h.2)
  commit-IsStopped fault r finished w k h =
      (h.0, h.1, settle-has_published p.id fault r w.db k ∙ h.2)
  commit-IsStopped fault r released w k h =
      (h.0, h.1, settle-has_published p.id fault r w.db k ∙ h.2)

  moves-IsStopped :
      (ms : List Move) (t : Task) (w : World)
      → All (λ m. spares_move p.id m ≡ true) ms
      → IsStopped p (t, w)
      → IsStopped p (moves p ms (t, w))
  unfolding moves move
  moves-IsStopped [] t w k h = h
  moves-IsStopped (goes slot ∷ ms) t w (k, ks) h =
      moves-IsStopped ms _ _ ks (advance-IsStopped p slot t w h)
  moves-IsStopped (happens e ∷ ms) t w (k, ks) h =
      moves-IsStopped ms t _ ks (event-IsStopped e t w k h)
  moves-IsStopped (commits fault r ∷ ms) t w (k, ks) h =
      moves-IsStopped ms t _ ks (commit-IsStopped fault r t w k h)

start : (p : Plan) (t : Task) (w : World) → 2 ≤ remaining t → IsDoomed p w → IsStopped p (t, w)
start p waiting w early h = h
start p (prepared d) w early h = h
start p (finishing e) w early h = h
start p finished w early h = absurd (omega (arith, early))
start p released w early h = absurd (omega (arith, early))

at_end :
    (p : Plan) (t : Task) (w : World)
    → IsStopped p (t, w)
    → (has_published p.id w.db.revisions ≡ false)
      × ((2 ≤ remaining t)
          ⊎ ((w.run.status ≡ interrupted) × (w.run.error ≡ codes "run stopped by administrator")))
at_end p waiting w h = (h.2, inl (omega arith))
at_end p (prepared d) w h = (h.2, inl (omega arith))
at_end p (finishing e) w h = (h.2, inl (omega arith))
at_end p finished w h = (h.2, inr (h.0, h.1))
at_end p released w h = (h.2, inr (h.0, h.1))

-- If a run could still be cancelled and was, before its deferred function began, then, whatever
-- happens next while it stays registered, none of its revisions is in the catalog, and either the
-- deferred function is still to come or the record says that the administrator interrupted the run.
pub cancel-moves :
    (p : Plan) (t : Task) (w : World) (a : App) (ms : List Move)
    → 2 ≤ remaining t
    → is_success w.run.status ≡ false
    → has_published p.id w.db.revisions ≡ false
    → can_cancel p.id w.app ≡ true
    → cancel p.id w.app ≡ ok a
    → All (λ m. spares_move p.id m ≡ true) ms
    → let (t', w') = moves p ms (t, record w { app = a }) in
      (has_published p.id w'.db.revisions ≡ false)
      × ((2 ≤ remaining t')
          ⊎ ((w'.run.status ≡ interrupted) × (w'.run.error ≡ codes "run stopped by administrator")))
cancel-moves p t w a ms early open_run fresh possible h spared =
    let v : World = record w { app = a } in
    let doomed : IsDoomed p v = (cancel-stopped p.id w.app a possible h, open_run, fresh) in
    at_end p (moves p ms (t, v)).0 (moves p ms (t, v)).1
      (moves-IsStopped p ms t v spared (start p t v early doomed))
