-- ===== src/App/Recovery/Tests.antt =====
-- An empty catalog and the snapshots of two revisions, and the theorems on recovery at them.
use crawlbox.Common.{
  ℕ, ◌≡◌, ◌≢◌, refl, arith, true, false, none, some, List, [], ◌∷◌, Text, codes, Map, lookup,
  eq_text, if◌then◌else◌,
}
use crawlbox.Common.Int.{pos}
use crawlbox.Common.Result.{Result, ok, err, not_exist}
use crawlbox.Wire.{Descriptor}
use crawlbox.Model.{Revision}
use crawlbox.Catalog.Db.{Db, Faults, empty}
use crawlbox.Catalog.History.{has_revision}
use crawlbox.Catalog.History.Linear.{IsLinear}
use crawlbox.App.Recovery.{Snapshot, drain, recover}
use crawlbox.App.Recovery.Complete.{Drained, drain_complete}

abbrev work : ℕ → Text → Faults
work n id k = false

abbrev plugin : Descriptor
plugin = record {
  id = codes "p";
  version = codes "1";
  abi = 1;
  hosts = [];
  config_schema = codes "null";
}

abbrev revision_of : Text → Text → Text → Revision
revision_of id parent snapshot = record {
  id = id;
  run = [];
  source = codes "s";
  parent = parent;
  created_at = 1;
  plugin = plugin;
  state = codes "null";
  metadata = codes "null";
  files = [];
  artifacts = [];
  changes = [];
  tags = [];
  artifact_changes = [];
  snapshot = snapshot;
}

abbrev snapshot_of : Text → Text → Snapshot
snapshot_of id revision = record {
  id = id;
  incomplete = [];
  pins = codes "manager" ∷ [];
  root_object = codes "k";
  errors = pos 0;
  ignored = pos 0;
  excluded = pos 0;
  excluded_dirs = pos 0;
  tags =
      (codes "app", codes "manager-v1")
      ∷ (codes "source", codes "s")
      ∷ (codes "revision", revision)
      ∷ [];
}

-- The child comes first.
abbrev snaps : List Snapshot
snaps = snapshot_of (codes "k2") (codes "r2") ∷ snapshot_of (codes "k1") (codes "r1") ∷ []

abbrev sealed : Text → Result Revision
sealed k =
    if eq_text k (codes "k1")
    then ok (revision_of (codes "r1") [] [])
    else if eq_text k (codes "k2")
    then ok (revision_of (codes "r2") (codes "r1") [])
    else err not_exist

abbrev pending : Map Revision
pending =
    (codes "r2", revision_of (codes "r2") (codes "r1") (codes "k2"))
    ∷ (codes "r1", revision_of (codes "r1") [] (codes "k1"))
    ∷ []

abbrev recovered : Db
recovered = record empty {
  sources = (codes "s", record { identity = codes "p"; retired = false }) ∷ [];
  revisions =
      revision_of (codes "r2") (codes "r1") (codes "k2")
      ∷ revision_of (codes "r1") [] (codes "k1")
      ∷ [];
  heads = (codes "s", codes "r2") ∷ [];
}

drains : drain work work 2 pending empty ≡ ok recovered
unfolding drain crawlbox.Catalog.History.revision eq_text crawlbox.Catalog.History.commit
    crawlbox.Common.insert crawlbox.Catalog.Body.unmarshal crawlbox.Catalog.Body.marshal
    crawlbox.Catalog.Body.raw_json
drains = refl

recovers : recover work work sealed snaps empty ≡ ok recovered
unfolding recover eq_text lookup crawlbox.Paths.valid_id crawlbox.Catalog.History.revision
    crawlbox.Common.insert crawlbox.Catalog.History.commit crawlbox.Catalog.Body.unmarshal
    crawlbox.Catalog.Body.marshal crawlbox.Catalog.Body.raw_json
recovers = refl

empty-IsLinear : IsLinear empty
unfolding lookup
empty-IsLinear = record { distinct = tt; named = tt; chained = λ s. tt; headed = λ s. refl }

drain_complete_example : Drained pending empty recovered
drain_complete_example =
    drain_complete work work 2 pending empty recovered (omega arith) (λ e. cc, (λ e. cc, tt))
      empty-IsLinear drains
