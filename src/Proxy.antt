-- ===== src/Proxy.antt =====
-- The path to the user interface of Kopia (internal/kopiaui/proxy.go): its target, the pin of its
-- certificate and its switch. Parsing a URL and decoding JSON are left to the libraries, whose
-- results are given; SHA-256 is a parameter.
pub mod Switch
mod Tests
use crawlbox.Common.{
  ℕ, ◌+◌, ◌-◌, ◌*◌, ◌==◌, leb, Bool, true, false, not, ◌||◌, ◌&&◌, Option, none, some, List, [],
  ◌∷◌, Text, eq_text, codes, length, if◌then◌else◌,
}
use crawlbox.Common.Result.{Error, Result, ok, err, new, ◌>>=◌, ◌>>◌, fail_if}
use crawlbox.Catalog.Db.{Db, Faults}
use crawlbox.Catalog.Settings.{bool_setting, set_bool_setting}

-- A parsed URL.
pub record Url : Type 0 where
  pub scheme : Text
  pub host : Text
  pub has_user : Bool
  pub query : Text
  pub fragment : Text
  pub path : Text

-- `config.KopiaUIProxy`, with the target as it parses.
pub record Target : Type 0 where
  pub url : Option Url
  pub fingerprint_file : Text

-- The first test of `New`: an origin without credentials.
abbrev pub is_origin : Option Url → Bool
is_origin none = false
is_origin (some u) =
    (eq_text u.scheme (codes "http") || eq_text u.scheme (codes "https"))
    && (not (eq_text u.host [])
        && (not u.has_user
            && (eq_text u.query []
                && (eq_text u.fragment [] && (eq_text u.path [] || eq_text u.path (codes "/"))))))

abbrev pub is_https : Option Url → Bool
is_https none = false
is_https (some u) = eq_text u.scheme (codes "https")

-- A proxy, by its switch.
pub record Proxy : Type 0 where
  pub enabled : Bool

-- `setting`
abbrev pub setting : Text
setting = codes "kopia_ui_proxy_enabled"

-- `New`
unfoldable pub make : Faults → Target → Db → Result Proxy
unfolding bool_setting
make fault target db = do
  fail_if (not (is_origin target.url))
      (new "Kopia UI proxy target must be an HTTP(S) origin without credentials")
  fail_if (not (eq_text target.fingerprint_file []) && not (is_https target.url))
      (new "Kopia UI certificate pin requires HTTPS")
  enabled ← bool_setting fault setting db
  ok (record { enabled = enabled })

-- `SetEnabled`: the setting first, then the switch.
unfoldable pub set_enabled : Faults → Bool → Proxy × Db → Result (Proxy × Db)
unfolding set_bool_setting
set_enabled fault enabled (p, db) = do
  stored ← set_bool_setting fault setting enabled db
  ok (record { enabled = enabled }, stored)

-- `ServeHTTP`: the status of a refusal, or none if the request is passed on.
unfoldable pub refusal : Proxy → Option ℕ
refusal p = if p.enabled then none else some 503

abbrev pub hex_value : ℕ → Option ℕ
hex_value c =
    if leb b'0' c && leb c b'9'
    then some (c - b'0')
    else if leb b'a' c && leb c b'f'
    then some (c - b'a' + 10)
    else if leb b'A' c && leb c b'F'
    then some (c - b'A' + 10)
    else none

abbrev pub hex_byte : Option ℕ → Option ℕ → Option Text → Option Text
hex_byte (some a) (some b) (some rest) = some ((a * 16 + b) ∷ rest)
hex_byte (some a) (some b) none = none
hex_byte (some a) none rest = none
hex_byte none b rest = none

-- `hex.DecodeString`
unfoldable pub hex_decode : Text → Option Text
hex_decode [] = some []
hex_decode (a ∷ []) = none
hex_decode (a ∷ b ∷ rest) = hex_byte (hex_value a) (hex_value b) (hex_decode rest)

module _ (sha256 : Text → Text) where
  abbrev pub compare_pin : Option Text → List Text → Result (Unit {0})
  compare_pin (some pin) (raw ∷ others) = do
    fail_if (not (length pin == 32)) (new "invalid Kopia UI certificate pin")
    fail_if (not (eq_text (sha256 raw) pin)) (new "Kopia UI certificate pin mismatch")
    ok tt
  compare_pin (some pin) [] = err (new "invalid Kopia UI certificate pin")
  compare_pin none certificates = err (new "invalid Kopia UI certificate pin")

  -- `VerifyConnection`: `file` is whether the file can be read, and the fingerprint that it decodes
  -- to, and `certificates` are those of the peer. `sha256` gives the 32 bytes of the digest.
  unfoldable pub verify_connection : Option (Option Text) → List Text → Result (Unit {0})
  unfolding hex_decode
  verify_connection none certificates = err (new "Kopia UI certificate pin is unavailable")
  verify_connection (some none) certificates = err (new "invalid Kopia UI certificate pin")
  verify_connection (some (some fingerprint)) certificates =
      compare_pin (hex_decode fingerprint) certificates
