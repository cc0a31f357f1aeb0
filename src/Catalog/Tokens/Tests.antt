-- ===== src/Catalog/Tokens/Tests.antt =====
-- One token, and the theorems on tokens at it.
use crawlbox.Common.{
  ℕ, ◌≡◌, ◌<◌, ◌++◌, refl, ◌⊎◌, ◌||◌, ◌&&◌, true, false, none, some, List, [], ◌∷◌, Text, codes,
  Map, eq_text, lookup, arith, length,
}
use crawlbox.Common.Splitting.{split, has_byte}
use crawlbox.Common.Result.{ok, err, new}
use crawlbox.Catalog.Db.{Db, Token, TokenRow, Faults, empty}
use crawlbox.Catalog.Tokens.{is_expired, create_token, authenticate, revoke}
use crawlbox.Catalog.Tokens.Access.{revoke-authenticate}

abbrev works : Faults
works n = false

-- A database with one source.
abbrev with_source : Db
with_source = record empty {
  sources = (codes "s", record { identity = codes "p"; retired = false }) ∷ [];
}

abbrev id32 : Text
id32 = codes "0123456789abcdef0123456789abcdef"

abbrev secret64 : Text
secret64 = codes "0123456789abcdef0123456789abcdef0123456789abcdef0123456789abcdef"

-- A hash for the examples.
abbrev digest : Text → Text
digest s = b'#' ∷ s

abbrev token : Token
token = record {
  id = id32;
  name = codes "ci";
  sources = codes "s" ∷ [];
  created = 5;
  expires = some 10;
  revoked = false;
}

abbrev row : TokenRow
row = record { digest = digest secret64; body = token }

abbrev value : Text
value = id32 ++ b'.' ∷ secret64

abbrev with_token : Db
with_token = record with_source { tokens = (id32, row) ∷ [] }

creates :
    create_token digest works id32 secret64 5 (codes " ci ") (codes "s" ∷ []) (some 10) with_source
    ≡ ok (token, value, with_token)
unfolding create_token eq_text crawlbox.Common.Splitting.trim_space lookup crawlbox.Common.has
creates = refl

no_dot : has_byte b'.' id32 ≡ false
unfolding has_byte
no_dot = refl

no_dot_secret : has_byte b'.' secret64 ≡ false
unfolding has_byte
no_dot_secret = refl

lives : is_expired (some 10) 9 ≡ false
unfolding is_expired
lives = refl

abbrev with_revoked : Db
with_revoked = record with_token {
  tokens = (id32, record row { body = record token { revoked = true } }) ∷ [];
}

revokes : revoke works id32 with_token ≡ ok with_revoked
unfolding revoke lookup eq_text crawlbox.Common.insert
revokes = refl

parts : split b'.' value ≡ id32 ∷ secret64 ∷ []
unfolding split
parts = refl

revoke-authenticate_example :
    authenticate digest works 9 value with_revoked ≡ err (new "unauthorized")
revoke-authenticate_example =
    revoke-authenticate digest works works id32 with_token with_revoked 9 secret64 value revokes
      parts
