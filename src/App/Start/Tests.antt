-- ===== src/App/Start/Tests.antt =====
-- A start with one source, the snapshot of a revision that the catalog lacks, and a run that was
-- active when the manager stopped.
use crawlbox.Common.{◌≡◌, refl, arith, true, false, none, some, List, [], ◌∷◌, Text, codes, eq_text}
use crawlbox.Common.Int.{pos}
use crawlbox.Common.Result.{ok}
use crawlbox.Wire.{Descriptor}
use crawlbox.Model.{Revision, Run, running, interrupted}
use crawlbox.Config.{Source}
use crawlbox.Plugins.{Ran}
use crawlbox.Catalog.Db.{Db, empty}
use crawlbox.Catalog.History.Linear.{IsLinear}
use crawlbox.App.Recovery.{Snapshot}
use crawlbox.App.Start.{Sources, Starting, new_app, load_sources, make}
use crawlbox.App.Start.Ready.{IsReady, make-IsReady}

abbrev plugin : Descriptor
plugin = record {
  id = codes "p";
  version = codes "1";
  abi = 1;
  hosts = [];
  config_schema = codes "null";
}

abbrev returns : Text → Ran
returns out = record { create = none; failure = none; code = 0; out = out }

abbrev one : Source
one = record {
  id = codes "s";
  name = codes "S";
  plugin = codes "/p";
  sha256 = codes "ab";
  config = none;
  hosts = [];
  schedule = [];
  timezone = codes "UTC";
  timeout = pos 1;
  memory_mb = 64;
  staging_bytes = pos 10;
  state_bytes = pos 10;
  download_parallel = pos 1;
  allow_private_targets = false;
}

abbrev configured : List Source
configured = one ∷ []

abbrev lost : Revision
lost = record {
  id = codes "r";
  run = codes "run";
  source = codes "s";
  parent = [];
  created_at = 1;
  plugin = plugin;
  state = codes "null";
  metadata = codes "null";
  files = [];
  artifacts = [];
  changes = [];
  tags = [];
  artifact_changes = [];
  snapshot = [];
}

abbrev found : Revision
found = record lost { snapshot = codes "k" }

abbrev snapshot : Snapshot
snapshot = record {
  id = codes "k";
  incomplete = [];
  pins = codes "manager" ∷ [];
  root_object = codes "o";
  errors = pos 0;
  ignored = pos 0;
  excluded = pos 0;
  excluded_dirs = pos 0;
  tags =
      (codes "app", codes "manager-v1")
      ∷ (codes "source", codes "s")
      ∷ (codes "revision", codes "r")
      ∷ [];
}

abbrev starting : Starting
starting = record {
  making = none ∷ none ∷ none ∷ [];
  loading = λ id. record {
    file = ok (codes "wasm");
    describe = returns (codes "d");
    decode = λ t. ok plugin;
    settings = ok (codes "{}");
    against_schema = λ schema settings. none;
    validate = returns [];
  };
  listed = ok (snapshot ∷ []);
  sealed = λ id. ok lost;
  reads = λ n id k. false;
  commits = λ n id k. false;
  registering = λ k. false;
  interrupting = λ k. false;
  now = 9;
  clearing = none ∷ [];
}

abbrev active_run : Run
active_run = record {
  id = codes "a";
  source = codes "s";
  status = running;
  started = 1;
  finished = none;
  progress = [];
  message = [];
  error = [];
}

abbrev before : Db
before = record empty { runs = (codes "a", active_run) ∷ [] }

abbrev sources : Sources
sources = (codes "s", (plugin, codes "wasm")) ∷ []

abbrev after : Db
after = record empty {
  sources = (codes "s", record { identity = codes "p"; retired = false }) ∷ [];
  revisions = found ∷ [];
  heads = (codes "s", codes "r") ∷ [];
  runs = (codes "a", record active_run { status = interrupted; finished = some 9 }) ∷ [];
}

starts : make (λ b. codes "AB") starting configured before ≡ ok (new_app sources, sources, after)
unfolding make eq_text crawlbox.Paths.valid_id crawlbox.Common.lookup
    crawlbox.Catalog.History.revision crawlbox.Common.insert crawlbox.Catalog.History.commit
    crawlbox.Catalog.Sources.check_rows crawlbox.Catalog.Sources.add_rows
    crawlbox.Catalog.Body.unmarshal crawlbox.Catalog.Body.marshal crawlbox.Catalog.Body.raw_json
starts = refl

before-IsLinear : IsLinear before
unfolding crawlbox.Common.lookup
before-IsLinear = record { distinct = tt; named = tt; chained = λ s. tt; headed = λ s. refl }

make-IsReady_example :
    (load_sources (λ b. codes "AB") starting configured [] ≡ ok sources)
    × (new_app sources ≡ new_app sources)
    × IsReady sources before after
make-IsReady_example =
    make-IsReady (λ b. codes "AB") starting configured before after (new_app sources) sources
      before-IsLinear starts
