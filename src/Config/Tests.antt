-- ===== src/Config/Tests.antt =====
-- The theorems on the configuration at a small one.
use crawlbox.Common.{◌≡◌, ◌≢◌, refl, false, none, some, [], ◌∷◌, Text, codes}
use crawlbox.Common.Int.{pos}
use crawlbox.Common.Result.{ok}
use crawlbox.Config.{Source, Config, Surroundings, validate, abs_path}
use crawlbox.Config.Bounds.{IsValid, validate-IsValid}

abbrev outside : Surroundings
outside = record {
  working_dir = some (codes "/srv");
  load_location = λ t. none;
  parse_schedule = λ t. none;
  marshal = λ t. none;
}

abbrev source : Source
source = record {
  id = codes "s";
  name = [];
  plugin = codes "s.wasm";
  sha256 = codes "0123456789abcdef0123456789abcdef0123456789abcdef0123456789abcdef";
  config = none;
  hosts = codes "example.com" ∷ [];
  schedule = codes "@daily";
  timezone = [];
  timeout = pos 0;
  memory_mb = 0;
  staging_bytes = pos 0;
  state_bytes = pos 0;
  download_parallel = pos 0;
  allow_private_targets = false;
}

abbrev written : Config
written = record {
  listen = [];
  data_dir = [];
  credentials = codes "c.yaml";
  kopia_binary = [];
  kopia_config = codes "k.json";
  cache_bytes = pos 0;
  parallel = pos 0;
  sources = source ∷ [];
}

abbrev completed : Config
completed = record {
  listen = codes ":8080";
  data_dir = codes "/srv/data";
  credentials = codes "c.yaml";
  kopia_binary = codes "kopia";
  kopia_config = codes "k.json";
  cache_bytes = pos 21474836480;
  parallel = pos 1;
  sources =
      record source {
        config = some (codes "{}");
        timezone = codes "UTC";
        timeout = pos 7200000000000;
        memory_mb = 512;
        staging_bytes = pos 107374182400;
        state_bytes = pos 1048576;
        download_parallel = pos 4;
      }
      ∷ [];
}

completes : validate outside written ≡ ok completed
unfolding validate abs_path crawlbox.Common.eq_text crawlbox.Paths.valid_id crawlbox.Paths.is_abs
    crawlbox.Paths.path_join crawlbox.Paths.clean crawlbox.Common.Splitting.split
completes = refl

validate-IsValid_example : IsValid outside completed
validate-IsValid_example = validate-IsValid outside written completed completes

listens : completed.listen ≢ []
listens e = cc

stores : completed.data_dir ≢ []
stores e = cc

runs_kopia : completed.kopia_binary ≢ []
runs_kopia e = cc
