-- ===== src/App/Perform.antt =====
-- A run (internal/app/app.go): `perform`, in the segments between which other goroutines matter to
-- it. Within a segment the run only meets others at the locks and the database, which take its
-- steps one by one. Here are its state, its steps and what its surroundings answer.
pub mod Preparation
pub mod Publication
pub mod Finish
pub mod Machine
pub mod Stages
pub mod Ending
pub mod Concluded
pub mod Settled
pub mod Doomed
pub mod Stopped
pub mod Outcome
pub mod Blocked
mod Tests
use crawlbox.Common.{
  ℕ, Bool, true, false, ◌&&◌, not, Option, none, some, List, [], ◌∷◌, ◌++◌, Map, Text, eq_text,
  lookup, insert, codes, if◌then◌else◌,
}
use crawlbox.Common.Result.{
  Error, Result, ok, err, no_rows, not_exist, canceled, deadline_exceeded, new, external,
}
use crawlbox.Wire.{Descriptor, Entry, Input, ResultStatus, candidate, no_change}
use crawlbox.Wire
use crawlbox.Model.{
  Revision, Run, Status, running, validating, snapshotting, committing, succeeded, failed,
  interrupted,
}
use crawlbox.Model
use crawlbox.Paths.{path_join}
use crawlbox.Host.State.{Candidate, Host, Node, regular, Previous, new_host}
use crawlbox.Catalog.Db.{Db, Faults}
use crawlbox.Catalog.Runs.{save_run}
use crawlbox.Catalog.History.{commit, revision}
use crawlbox.App.Confirm.{Answers, check, confirm_revision}
use crawlbox.App.Build.{Built, Steps, build}
use crawlbox.App.Control.{App, Control, Ended, begin_publication, seal, release, run_stopped}
use crawlbox.App.Recovery.{row_found}
use crawlbox.App.Cache.{Cache, Installed, Preparing, Replacing, current, install_current}

-- What a run works on: `run` is the record that `perform` holds.
pub record World : Type 0 where
  pub run : Run
  pub app : App
  pub db : Db
  pub cache : Cache

-- A part of `perform`, which may return early with an error.
abbrev pub Stage : Type 0 → Type 0
Stage A = World → Result A × World

abbrev pub go_on : {A B : Type 0} → Result A × World → (A → Stage B) → Result B × World
go_on (ok a, w) next = next a w
go_on (err e, w) next = (err e, w)

infixl 5 ◌>>=◌
abbrev pub ◌>>=◌ : {A B : Type 0} → Stage A → (A → Stage B) → Stage B
m >>= next = λ w. go_on (m w) next

infixl 5 ◌>>◌
abbrev pub ◌>>◌ : {B : Type 0} → Stage (Unit {0}) → Stage B → Stage B
m >> next = m >>= λ _. next

abbrev pub done : {A : Type 0} → A → Stage A
done a w = (ok a, w)

-- A step that touches none of the state.
abbrev pub lift : {A : Type 0} → Result A → Stage A
lift r w = (r, w)

abbrev pub update_run : (Run → Run) → Stage (Unit {0})
update_run change w = (ok tt, record w { run = change w.run })

abbrev pub stored : Result Db → World → Result (Unit {0}) × World
stored (ok db) w = (ok tt, record w { db = db })
stored (err e) w = (err e, w)

-- `a.Store.SaveRun(ctx, r)`
abbrev pub save : Faults → Stage (Unit {0})
save fault w = stored (save_run fault w.run w.db) w

-- A step whose error is only logged.
abbrev pub quietly : Stage (Unit {0}) → Stage (Unit {0})
quietly m w = (ok tt, (m w).1)

-- `stage`
unfoldable pub stage : Faults → Status → Stage (Unit {0})
stage fault status = update_run (λ r. record r { status = status }) >> save fault

-- The progress messages that the host writes before the plugin runs.
unfoldable pub announce : List (Faults × Text) → Stage (Unit {0})
announce [] = done tt
announce ((fault, message) ∷ rest) =
    update_run (λ r. record r { progress = message }) >> (quietly (save fault) >> announce rest)

-- What the plugin reports: each report is kept, and saved if the last save was long enough ago.
unfoldable pub report : List (Option Faults × Text) → Stage (Unit {0})
report [] = done tt
report ((due, message) ∷ rest) =
    update_run (λ r. record r { progress = message })
    >> (elim due [ none ↦ done tt | some fault ↦ quietly (save fault) ] >> report rest)

-- A source of the application.
pub record Loaded : Type 0 where
  pub staging_bytes : ℕ
  pub hosts : List Text
  pub config : Text
  pub descriptor : Descriptor

-- What the system, the database and the backend answer to one run, and what it draws: `revision`
-- is the new identifier and `now` the time. `fault` has the outcomes of the calls of the catalog.
pub record Io : Type 0 where
  pub fault : ℕ → Faults
  pub starting : List (Faults × Text)
  pub confirm : Answers
  pub preparing : Preparing
  pub prepared : List (Faults × Text)
  pub temp_dir : Result Text
  pub objects_dir : Option Error
  pub tree : Text → Option Node
  pub launching : List (Faults × Text)
  pub reports : List (Option Faults × Text)
  pub disk : Text → Option Text
  pub steps : Steps
  pub revision : Text
  pub now : ℕ
  pub marshal : Option Error
  pub write_index : Option Error
  pub create : Result Text
  pub lock : Option Error
  pub installing : Replacing
  pub finished : ℕ

-- What a run would publish: the revision, its tree and the plugin's message.
pub record Draft : Type 0 where
  pub revision : Revision
  pub tree : Installed
  pub message : Text
