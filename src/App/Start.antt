-- ===== src/App/Start.antt =====
-- `New` of internal/app/app.go: how a manager starts. What the plugins, the backend and the
-- system answer is given.
pub mod Ready
mod Tests
use crawlbox.Common.{ℕ, Option, none, some, List, [], ◌∷◌, Map, Text, insert}
use crawlbox.Common.Int.{to_ℕ}
use crawlbox.Common.Result.{Error, Result, ok, err, ◌>>=◌, ◌>>◌}
use crawlbox.Wire.{Descriptor}
use crawlbox.Model.{Revision}
use crawlbox.Config.{Source}
use crawlbox.Plugins.{Loading, load}
use crawlbox.Catalog.Db.{Db, Faults}
use crawlbox.Catalog.Sources.{register}
use crawlbox.Catalog.Runs.{interrupt_runs}
use crawlbox.App.Control.{App}
use crawlbox.App.Recovery.{Snapshot, recover}

-- The sources that are loaded: the descriptors and the bytes of their plugins.
abbrev pub Sources : Type 0
Sources = Map (Descriptor × Text)

-- The errors of making or removing several directories: the first one ends the loop.
unfoldable pub check_all : List (Option Error) → Result (Unit {0})
check_all [] = ok tt
check_all (none ∷ errors) = check_all errors
check_all (some e ∷ errors) = err e

-- `identities`
unfoldable pub identities : Sources → Map Text
identities [] = []
identities ((id, (d, wasm)) ∷ sources) = (id, d.id) ∷ identities sources

abbrev pub ids : Sources → List Text
ids [] = []
ids ((id, plugin) ∷ sources) = id ∷ ids sources

-- The application that `New` makes.
abbrev pub new_app : Sources → App
new_app sources = record {
  sources = ids sources;
  context = none;
  active = [];
  blocked = [];
  controls = [];
}

-- What a start meets: the errors of making the directories, the answers of each plugin, the list
-- of snapshots with their decoded copies, the faults of the catalog, the time, and the errors of
-- clearing the directory "staging".
pub record Starting : Type 0 where
  pub making : List (Option Error)
  pub loading : Text → Loading
  pub listed : Result (List Snapshot)
  pub sealed : Text → Result Revision
  pub reads : ℕ → Text → Faults
  pub commits : ℕ → Text → Faults
  pub registering : Faults
  pub interrupting : Faults
  pub now : ℕ
  pub clearing : List (Option Error)

module _ (sha256_hex : Text → Text) (io : Starting) where
  -- The loop over the configured sources.
  unfoldable pub load_sources : List Source → Sources → Result Sources
  unfolding load
  load_sources [] sources = ok sources
  load_sources (s ∷ configured) sources = do
    plugin ← load sha256_hex (io.loading s.id) s.sha256 (to_ℕ s.state_bytes)
    load_sources configured (insert s.id plugin sources)

  -- `New`
  unfoldable pub make : List Source → Db → Result (App × Sources × Db)
  unfolding load_sources recover register interrupt_runs check_all identities
  make configured db = do
    check_all io.making
    sources ← load_sources configured []
    snaps ← io.listed
    recovered ← recover io.reads io.commits io.sealed snaps db
    registered ← register io.registering (identities sources) recovered
    settled ← interrupt_runs io.interrupting io.now registered
    check_all io.clearing
    ok (new_app sources, sources, settled)
