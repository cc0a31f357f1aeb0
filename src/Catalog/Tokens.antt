-- ===== src/Catalog/Tokens.antt =====
-- The tokens of internal/catalog/catalog.go: `CreateToken`, `Authenticate`, `Tokens` and
-- `Revoke`. The identifier and the secret that `crypto/rand` draws are arguments in hexadecimal,
-- and SHA-256 is a parameter.
pub mod Access
mod Tests
use crawlbox.Common.{
  ℕ, ◌||◌, not, Bool, true, false, Option, none, some, List, [], ◌∷◌, ◌++◌, Map, Text, eq_text,
  lookup, insert, has, if◌then◌else◌, ltb, leb, ◌==◌, length, map,
}
use crawlbox.Common.Splitting.{split, trim_space}
use crawlbox.Common.Result.{Result, ok, err, new, external, no_rows, ◌>>=◌, ◌>>◌, fail_if}
use crawlbox.Catalog.Db.{Db, SourceRow, Token, TokenRow, Faults, statement}

abbrev pub is_some {ℓ} : {A : Type ℓ} → Option A → Bool
is_some none = false
is_some (some a) = true

-- `SELECT count(*) FROM sources WHERE id=? AND retired=0`, as the test that it is not 0
unfoldable pub is_in_use : Text → Map SourceRow → Bool
is_in_use id rows = elim (lookup id rows) [ none ↦ false | some row ↦ not row.retired ]

-- The loop over the sources of a new token.
unfoldable pub check_sources : Faults → Db → List Text → Result (Unit {0})
unfolding is_in_use
check_sources fault db [] = ok tt
check_sources fault db (id ∷ ids) = do
  statement fault 0
  fail_if (not (is_in_use id db.sources)) (new "unknown source")
  check_sources fault db ids

-- A token has expired once the time is not before its expiry.
unfoldable pub is_expired : Option ℕ → ℕ → Bool
is_expired none now = false
is_expired (some t) now = leb t now

abbrev pub named : Text → Text → List Text → ℕ → Option ℕ → Token
named id name sources now expires = record {
  id = id;
  name = trim_space name;
  sources = sources;
  created = now;
  expires = expires;
  revoked = false;
}

module _ (sha256 : Text → Text) where
  unfoldable pub create_token :
      Faults → Text → Text → ℕ → Text → List Text → Option ℕ → Db → Result (Token × Text × Db)
  unfolding check_sources is_expired
  create_token fault id secret now name sources expires db =
      let t = named id name sources now expires in
      do
        fail_if (eq_text t.name [] || (ltb 100 (length t.name) || length sources == 0))
            (new "name and sources required")
        fail_if (is_expired expires now) (new "expiry must be in future")
        check_sources fault db sources
        statement fault 1
        fail_if (has id db.tokens) (external 1)
        ok (
          t,
          id ++ b'.' ∷ secret,
          record db { tokens = (id, record { digest = sha256 secret; body = t }) ∷ db.tokens },
        )

  -- The row of the first part against the second part.
  unfoldable pub check_secret : Text → ℕ → Option TokenRow → Result Token
  unfolding is_expired
  check_secret secret now none = err (new "unauthorized")
  check_secret secret now (some row) = do
    fail_if (not (eq_text row.digest (sha256 secret))) (new "unauthorized")
    fail_if (row.body.revoked || is_expired row.body.expires now) (new "unauthorized")
    ok row.body

  abbrev check_parts : Bool → ℕ → List Text → Db → Result Token
  check_parts failed now (id ∷ secret ∷ []) db =
      if not (length id == 32) || not (length secret == 64)
      then err (new "unauthorized")
      else do fail_if failed (new "unauthorized"); check_secret secret now (lookup id db.tokens)
  check_parts failed now _ db = err (new "unauthorized")

  unfoldable pub authenticate : Faults → ℕ → Text → Db → Result Token
  unfolding check_secret
  authenticate fault now value db = check_parts (fault 0) now (split b'.' value) db

unfoldable pub token_of : Text × TokenRow → Token
token_of (id, row) = row.body

unfoldable pub tokens : Faults → Db → Result (List Token)
unfolding token_of
tokens fault db = do statement fault 0; ok (map token_of db.tokens)

unfoldable pub revoke : Faults → Text → Db → Result Db
revoke fault id db = do
  statement fault 0
  elim (lookup id db.tokens) [
    | none ↦ err no_rows
    | some row ↦ do
      statement fault 1
      ok (record db {
        tokens = insert id (record row { body = record row.body { revoked = true } }) db.tokens;
      })
  ]
