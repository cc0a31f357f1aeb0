-- ===== src/Config.antt =====
-- `Config.Validate` of internal/config/config.go. The map of a plugin's own settings is its text,
-- `none` for a nil map. The zone database, the parser of schedules and the encoder of JSON are
-- parameters, and so is the working directory, `none` where the system cannot tell it.
pub mod Bounds
pub mod Settled
mod Tests
use crawlbox.Common.{
  ℕ, ◌+◌, ◌*◌, ◌-◌, ◌^◌, ◌==◌, ltb, leb, Bool, true, false, ◌||◌, ◌&&◌, not, Option, none, some,
  List, [], ◌∷◌, ◌++◌, Text, eq_text, codes, length, any, if◌then◌else◌,
}
use crawlbox.Common.Int.{ℤ, pos, negsuc}
use crawlbox.Common.Result.{Error, Result, ok, err, new, ◌>>=◌, ◌>>◌, fail_if}
use crawlbox.Paths.{is_abs, clean, path_join, valid_id}

pub record Source : Type 0 where
  pub id : Text
  pub name : Text
  pub plugin : Text
  pub sha256 : Text
  pub config : Option Text
  pub hosts : List Text
  pub schedule : Text
  pub timezone : Text
  pub timeout : ℤ
  pub memory_mb : ℕ
  pub staging_bytes : ℤ
  pub state_bytes : ℤ
  pub download_parallel : ℤ
  pub allow_private_targets : Bool

pub record Config : Type 0 where
  pub listen : Text
  pub data_dir : Text
  pub credentials : Text
  pub kopia_binary : Text
  pub kopia_config : Text
  pub cache_bytes : ℤ
  pub parallel : ℤ
  pub sources : List Source

-- What the program asks of its surroundings.
pub record Surroundings : Type 0 where
  pub working_dir : Option Text
  pub load_location : Text → Option Error
  pub parse_schedule : Text → Option Error
  pub marshal : Text → Option Error

abbrev pub check : Option Error → Result (Unit {0})
check none = ok tt
check (some e) = err e

-- `if v == "" { v = d }`
abbrev pub or_text : Text → Text → Text
or_text [] d = d
or_text (c ∷ cs) d = c ∷ cs

-- `if v == 0 { v = d }`
abbrev pub or_int : ℤ → ℕ → ℤ
or_int (pos n) d = if n == 0 then pos d else pos n
or_int (negsuc n) d = negsuc n

abbrev pub or_nat : ℕ → ℕ → ℕ
or_nat n d = if n == 0 then d else n

-- `v < 1`
abbrev pub below_one : ℤ → Bool
below_one (pos n) = n == 0
below_one (negsuc n) = true

unfoldable pub is_hex_digit : ℕ → Bool
is_hex_digit c =
    (leb b'0' c && leb c b'9') || ((leb b'a' c && leb c b'f') || (leb b'A' c && leb c b'F'))

-- `hex.DecodeString`, as the number of bytes that it decodes: `none` is its error.
unfoldable pub hex_length : Text → Option ℕ
unfolding is_hex_digit
hex_length [] = some 0
hex_length (c ∷ []) = none
hex_length (c ∷ d ∷ cs) =
    let rest = hex_length cs in
    if is_hex_digit c && is_hex_digit d
    then elim rest [ none ↦ none | some n ↦ some (n + 1) ]
    else none

abbrev pub is_digest : Text → Bool
is_digest s = elim (hex_length s) [ none ↦ false | some n ↦ n == 32 ]

-- `h == "" || strings.ContainsAny(h, "/*?#@")`
unfoldable pub is_bad_host : Text → Bool
is_bad_host h =
    eq_text h [] || any (λ c. c == b'/' || (c == b'*' || (c == b'?' || (c == b'#' || c == b'@')))) h

-- `filepath.Abs`, with the empty text that it returns beside an error.
unfoldable pub abs_path : Option Text → Text → Text
abs_path dir p = if is_abs p then clean p else elim dir [ none ↦ [] | some d ↦ path_join d p ]

abbrev pub or_empty_map : Option Text → Text
or_empty_map none = codes "{}"
or_empty_map (some t) = t

module _ (outside : Surroundings) where
  open outside use {working_dir, load_location, parse_schedule, marshal}

  abbrev pub check_schedule : Text → Text → Result (Unit {0})
  check_schedule zone [] = ok tt
  check_schedule zone (c ∷ cs) = check (parse_schedule (codes "CRON_TZ=" ++ zone ++ b' ' ∷ c ∷ cs))

  -- The source with its defaults.
  abbrev pub filled : Source → Source
  filled s = record s {
    config = some (or_empty_map s.config);
    timeout = or_int s.timeout 7200000000000;
    memory_mb = or_nat s.memory_mb 512;
    staging_bytes = or_int s.staging_bytes (100 * 2 ^ 30);
    state_bytes = or_int s.state_bytes (2 ^ 20);
    download_parallel = or_int s.download_parallel 4;
    timezone = or_text s.timezone (codes "UTC");
  }

  -- One turn of the loop, by the identifiers seen before.
  unfoldable pub validate_source : List Text → Source → Result Source
  unfolding is_bad_host hex_length
  validate_source seen s =
      let t = filled s in
      do
        fail_if (not (valid_id s.id) || any (eq_text s.id) seen)
            (new "invalid or duplicate source id")
        fail_if (eq_text s.plugin []) (new "plugin required")
        fail_if (not (is_digest s.sha256)) (new "source requires sha256")
        fail_if (below_one t.timeout) (new "invalid timeout")
        fail_if (ltb 2048 t.memory_mb) (new "memory_mb exceeds 2048")
        fail_if (below_one t.staging_bytes) (new "invalid staging_bytes")
        fail_if (below_one t.state_bytes) (new "invalid state_bytes")
        fail_if (below_one t.download_parallel) (new "invalid download_parallel")
        check (load_location t.timezone)
        check_schedule t.timezone t.schedule
        fail_if (any is_bad_host t.hosts) (new "hosts must be exact host[:port]")
        check (marshal (or_empty_map s.config))
        ok t

  unfoldable pub validate_sources : List Text → List Source → Result (List Source)
  unfolding validate_source
  validate_sources seen [] = ok []
  validate_sources seen (s ∷ ss) = do
    t ← validate_source seen s
    ts ← validate_sources (s.id ∷ seen) ss
    ok (t ∷ ts)

  -- `Validate`: the configuration with its defaults, or the error.
  unfoldable pub validate : Config → Result Config
  unfolding validate_sources
  validate c =
      let cache_bytes = or_int c.cache_bytes (20 * 2 ^ 30) in
      let parallel = or_int c.parallel 1 in
      do
        fail_if (below_one cache_bytes) (new "invalid cache_bytes")
        fail_if (below_one parallel) (new "parallel must be positive")
        fail_if (eq_text c.credentials [] || eq_text c.kopia_config [])
            (new "credentials and kopia_config required")
        sources ← validate_sources [] c.sources
        ok (record c {
          cache_bytes = cache_bytes;
          listen = or_text c.listen (codes ":8080");
          data_dir = abs_path working_dir (or_text c.data_dir (codes "data"));
          parallel = parallel;
          kopia_binary = or_text c.kopia_binary (codes "kopia");
          sources = sources;
        })
