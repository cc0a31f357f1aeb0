-- ===== src/App/Perform/Machine.antt =====
-- A run as a machine: the goroutine that `Trigger` starts (internal/app/app.go), as the segments
-- of `perform` and its own clean-up, between which anything else may happen.
use crawlbox.Common.{ℕ, Bool, Option, none, some, List, [], ◌∷◌, Text, if◌then◌else◌}
use crawlbox.Common.Result.{Error, Result, ok, err}
use crawlbox.Wire.{Input}
use crawlbox.Wire
use crawlbox.Model.{Revision}
use crawlbox.Host.State.{Candidate, Host}
use crawlbox.Catalog.Db.{Db, Faults}
use crawlbox.Catalog.History.Linear.{settle}
use crawlbox.Catalog.History.{commit}
use crawlbox.App.Control.{App, Ended, release}
use crawlbox.App.Control.Events.{Event, play}
use crawlbox.App.Perform.{World, Io, Loaded, Draft}
use crawlbox.App.Perform.Preparation.{prepare}
use crawlbox.App.Perform.Publication.{publish}
use crawlbox.App.Perform.Finish.{finish, run_context}

-- What a run is given: the parameters of its segments, and the identifiers that `Trigger` drew.
pub record Plan : Type 0 where
  pub sha256 : Text → Text
  pub unmarshal : Text → Result Revision
  pub execute : Input → Host → Result (Candidate × Wire.Result)
  pub data_dir : Text
  pub io : Io
  pub loaded : Loaded
  pub foreign : ℕ → Text
  pub id : Text
  pub source : Text

-- Where the goroutine is: at the `select`, before the publication, in the deferred function with
-- the error of the body, before its clean-up, or at its end.
pub data Task : Type 0 where
  waiting : Task
  prepared : Draft → Task
  finishing : Option Error → Task
  finished : Task
  released : Task

-- The goroutine goes on, with or without a slot; an event of the application; the commit of
-- another run.
pub data Move : Type 0 where
  goes : Bool → Move
  happens : Event → Move
  commits : Faults → Revision → Move

abbrev pub after_prepare : Result (Option Draft) × World → Task × World
after_prepare (ok (some d), w) = (prepared d, w)
after_prepare (ok none, w) = (finishing none, w)
after_prepare (err e, w) = (finishing (some e), w)

abbrev pub after_publish : Result (Unit {0}) × World → Task × World
after_publish (ok done, w) = (finishing none, w)
after_publish (err e, w) = (finishing (some e), w)

-- The `select` without a slot: an ended context ends the wait.
abbrev pub without_slot : Option Ended → World → Task × World
without_slot none w = (waiting, w)
without_slot (some e) w = (finishing (some e.error), w)

unfoldable pub advance : Plan → Bool → Task → World → Task × World
unfolding prepare publish finish release
advance p slot waiting w =
    if slot
    then after_prepare (prepare p.sha256 p.unmarshal p.execute p.data_dir p.io p.loaded w)
    else without_slot (run_context p.id w.app) w
advance p slot (prepared d) w = after_publish (publish p.io p.id p.source d w)
advance p slot (finishing e) w = (finished, finish p.foreign p.io p.id e w)
advance p slot finished w = (released, record w { app = release p.source p.id w.app })
advance p slot released w = (released, w)

abbrev pub with_app : App × Db → World → World
with_app (a, db) w = record w { app = a; db = db }

unfoldable pub move : Plan → Move → Task × World → Task × World
unfolding advance play commit
move p (goes slot) (t, w) = advance p slot t w
move p (happens e) (t, w) = (t, with_app (play e (w.app, w.db)) w)
move p (commits fault r) (t, w) = (t, record w { db = settle (commit fault r w.db) w.db })

unfoldable pub moves : Plan → List Move → Task × World → Task × World
moves p [] s = s
moves p (m ∷ ms) s = moves p ms (move p m s)
