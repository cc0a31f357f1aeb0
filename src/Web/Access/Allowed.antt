-- ===== src/Web/Access/Allowed.antt =====
-- Who is let in.
use crawlbox.Common.{
  ℕ, ◌≡◌, refl, sym, subst, ◌≤◌, ◌↔◌, Bool, true, false, ◌||◌, ◌&&◌, not, Option, none, some, List,
  [], ◌∷◌, Text, any, eq_text, eq_text_iff, lookup, codes, length, leb, leb→le, arith,
  if◌then◌else◌,
}
use crawlbox.Common.Result.{Result, ok, err}
use crawlbox.Common.Splitting.{split}
use crawlbox.Catalog.Db.{Db, Faults, Token, TokenRow}
use crawlbox.Catalog.Tokens.{authenticate, is_expired}
use crawlbox.Catalog.Tokens.Access.{authenticate_sound}
use crawlbox.Web.{Response, refused, redirected, answered, ◌>>=◌}
use crawlbox.Web.Access.{
  Credentials, fields, equal_fold, or_unauthorized, bearer_fields, bearer, scope, check_login,
  basic, basic_auth,
}
use crawlbox.Web.Api.{api_source}

-- A token that lies in the tables, is not revoked and has not expired, and whose secret is the
-- second part of the value.
abbrev pub IsHolder : (Text → Text) → ℕ → Text → Db → Token → Type 0
IsHolder sha256 now value db t =
    (id : Text) × (secret : Text) × (row : TokenRow) × (split b'.' value ≡ id ∷ secret ∷ [])
    × (lookup id db.tokens ≡ some row)
    × (row.digest ≡ sha256 secret)
    × (row.body ≡ t)
    × (t.revoked ≡ false)
    × (is_expired t.expires now ≡ false)

module _ (sha256 : Text → Text) where
  fields-token :
      (fault : Faults) (now : ℕ) (fs : List Text) (db : Db) (t : Token)
      → bearer_fields sha256 fault now fs db ≡ answered t
      → (scheme : Text) × (value : Text) × (fs ≡ scheme ∷ value ∷ [])
        × (authenticate sha256 fault now value db ≡ ok t)
  fields-token fault now [] db t h = cc
  fields-token fault now (a ∷ []) db t h = cc
  fields-token fault now (a ∷ b ∷ c ∷ cs) db t h = cc
  fields-token fault now (scheme ∷ value ∷ []) db t h = (
    scheme,
    value,
    refl,
    by_scheme (equal_fold scheme (codes "Bearer")) (authenticate sha256 fault now value db) refl h,
  )
    where
      by_scheme :
          (b : Bool) (r : Result Token)
          → authenticate sha256 fault now value db ≡ r
          → (if not b then refused 401 else or_unauthorized r) ≡ answered t
          → authenticate sha256 fault now value db ≡ ok t
      by_scheme false r e k = cc
      by_scheme true (err x) e k = cc
      by_scheme true (ok u) e k = cc

  answered-steps :
      {A B : Type 0} (r : Response A) (next : A → Response B) (b : B)
      → (r >>= next) ≡ answered b
      → (a : A) × (r ≡ answered a) × (next a ≡ answered b)
  answered-steps (refused n) next b h = cc
  answered-steps (redirected p) next b h = cc
  answered-steps (answered a) next b h = (a, refl, h)

  scope-any :
      (source : Text) (t : Token)
      → scope source t ≡ answered tt
      → any (eq_text source) t.sources ≡ true
  unfolding scope
  scope-any source t h = ground arith

  -- A request for a source is answered only if the second field of its header is a value
  -- "identifier.secret" for a token that the catalog has, which is neither revoked nor expired,
  -- whose digest is that of the secret, and which lists the source.
  pub api_source_allowed :
      {A : Type 0} (fault : Faults) (now : ℕ) (header source : Text) (db : Db)
      (handler : Response A) (a : A)
      → api_source sha256 fault now header source db handler ≡ answered a
      → (scheme : Text) × (value : Text) × (t : Token) × (fields header ≡ scheme ∷ value ∷ [])
        × IsHolder sha256 now value db t
        × (any (eq_text source) t.sources ≡ true)
  unfolding api_source bearer
  api_source_allowed fault now header source db handler a h =
      let (t, let_in, rest) = answered-steps (bearer sha256 fault now header db) _ a h in
      let (u, scoped, last) = answered-steps (scope source t) _ a rest in
      let (scheme, value, parts, known) = fields-token fault now (fields header) db t let_in in
      (
        scheme,
        value,
        t,
        parts,
        authenticate_sound sha256 fault now value db t known,
        scope-any source t scoped,
      )

abbrev IsLogin : (Text → Text → Bool) → Credentials → Text × Text → Type 0
IsLogin compare c (user, password) =
    (length password ≤ 72) × (compare c.password_hash password ≡ true) × (user ≡ c.username)

check_login-in :
    (compare : Text → Text → Bool) (c : Credentials) (user password : Text)
    → check_login compare c (some (user, password)) ≡ answered tt
    → IsLogin compare c (user, password)
check_login-in compare c user password h =
    by_tests (leb (length password) 72) (compare c.password_hash password) (eq_text user c.username)
      refl refl refl h
  where
    by_tests :
        (x y z : Bool)
        → leb (length password) 72 ≡ x
        → compare c.password_hash password ≡ y
        → eq_text user c.username ≡ z
        → (if not (x && y) || not z then refused 401 else answered (tt {0})) ≡ answered (tt {0})
        → IsLogin compare c (user, password)
    by_tests false y z e f g k = cc
    by_tests true false z e f g k = cc
    by_tests true true false e f g k = cc
    by_tests true true true e f g k =
        (leb→le (length password) 72 e, f, (eq_text_iff user c.username).0 g)

check_login-out :
    (compare : Text → Text → Bool) (c : Credentials) (user password : Text)
    → IsLogin compare c (user, password)
    → check_login compare c (some (user, password)) ≡ answered tt
check_login-out compare c user password (short, fits, named) =
    let a : leb (length password) 72 ≡ true = ground (arith, short) in
    rw (a, fits, (eq_text_iff user c.username).1 named) refl

login_exact :
    (compare : Text → Text → Bool) (c : Credentials) (o : Option (Text × Text))
    → (check_login compare c o ≡ answered tt) ↔ (
        (user : Text) × (password : Text) × (o ≡ some (user, password))
        × (length password ≤ 72)
        × (compare c.password_hash password ≡ true)
        × (user ≡ c.username))
login_exact compare c none = (λ h. cc, λ x. cc)
login_exact compare c (some (user, password)) = (
  λ h.
      let (short, fits, named) = check_login-in compare c user password h in
      (user, password, refl, short, fits, named),
  λ x.
      let (u, p, same, short, fits, named) = x in
      subst (λ o. check_login compare c o ≡ answered tt) (sym same)
        (check_login-out compare c u p (short, fits, named)),
)

-- The administrator is let in exactly with the user name of the credentials and a password of at
-- most 72 bytes that fits the hash.
pub basic_exact :
    (compare : Text → Text → Bool) (c : Credentials) (header : Option Text)
    → (basic compare c header ≡ answered tt) ↔ (
        (user : Text) × (password : Text) × (basic_auth header ≡ some (user, password))
        × (length password ≤ 72)
        × (compare c.password_hash password ≡ true)
        × (user ≡ c.username))
unfolding basic
basic_exact compare c header = login_exact compare c (basic_auth header)
