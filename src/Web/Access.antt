-- ===== src/Web/Access.antt =====
-- `bearer`, `scope` and `basic` of internal/web/web.go: who may ask for what. `compare` is
-- `bcrypt.CompareHashAndPassword`, as whether it finds no error.
pub mod Allowed
use crawlbox.Common.{
  ℕ, zero, suc, ◌+◌, ◌==◌, leb, ltb, Bool, true, false, ◌||◌, ◌&&◌, not, Option, none, some, List,
  [], ◌∷◌, ◌++◌, Text, eq_text, codes, length, any, map, if◌then◌else◌,
}
use crawlbox.Common.Splitting.{spaces, strip_any}
use crawlbox.Common.Result.{Result, ok, err}
use crawlbox.Catalog.Db.{Db, Faults, Token}
use crawlbox.Catalog.Tokens.{authenticate}
use crawlbox.Web.{Response, refused, answered, ◌>>=◌, ◌>>◌}

-- A field that has ended, if there was one.
abbrev pub ended_field : Text → List Text → List Text
ended_field [] rest = rest
ended_field (c ∷ cs) rest = (c ∷ cs) ∷ rest

-- `strings.Fields`: the texts between white space. Each round takes at least one byte, so as many
-- rounds as there are bytes are enough.
unfoldable pub fields_from : ℕ → Text → Text → List Text
fields_from zero field text = ended_field (field ++ text) []
fields_from (suc n) field [] = ended_field field []
fields_from (suc n) field (c ∷ cs) =
    let further = fields_from n (field ++ c ∷ []) cs in
    elim (strip_any spaces (c ∷ cs)) [
      | none ↦ further
      | some rest ↦ ended_field field (fields_from n [] rest)
    ]

unfoldable pub fields : Text → List Text
unfolding fields_from
fields text = fields_from (length text) [] text

abbrev pub lower : ℕ → ℕ
lower c = if leb b'A' c && leb c b'Z' then c + 32 else c

-- `strings.EqualFold` against an ASCII text without the letters "k" and "s", which alone have
-- other forms outside ASCII.
abbrev pub equal_fold : Text → Text → Bool
equal_fold a b = eq_text (map lower a) (map lower b)

abbrev pub unauthorized {ℓ} : {A : Type ℓ} → Response A
unauthorized = refused 401

abbrev pub or_unauthorized : Result Token → Response Token
or_unauthorized (ok t) = answered t
or_unauthorized (err e) = unauthorized

module _ (sha256 : Text → Text) where
  abbrev pub bearer_fields : Faults → ℕ → List Text → Db → Response Token
  bearer_fields fault now (scheme ∷ value ∷ []) db =
      if not (equal_fold scheme (codes "Bearer"))
      then unauthorized
      else or_unauthorized (authenticate sha256 fault now value db)
  bearer_fields fault now _ db = unauthorized

  -- `bearer`: the token of the header "Authorization".
  unfoldable pub bearer : Faults → ℕ → Text → Db → Response Token
  unfolding fields
  bearer fault now header db = bearer_fields fault now (fields header) db

-- `scope`: the source is one of the token's.
unfoldable pub scope : Text → Token → Response (Unit {0})
scope source t = if any (eq_text source) t.sources then answered tt else refused 404

pub record Credentials : Type 0 where
  pub username : Text
  pub password_hash : Text

-- `strings.Cut` at the first colon.
unfoldable pub cut_colon : Text → Option (Text × Text)
cut_colon [] = none
cut_colon (c ∷ cs) =
    let rest = cut_colon cs in
    if c == b':'
    then some ([], cs)
    else elim rest [ none ↦ none | some (before, after) ↦ some (c ∷ before, after) ]

-- `http.Request.BasicAuth`, from the decoded text of the header; `none` where there is none.
abbrev pub basic_auth : Option Text → Option (Text × Text)
basic_auth none = none
basic_auth (some text) = cut_colon text

module _ (compare : Text → Text → Bool) where
  abbrev pub check_login : Credentials → Option (Text × Text) → Response (Unit {0})
  check_login c none = unauthorized
  check_login c (some (user, password)) =
      if not (leb (length password) 72 && compare c.password_hash password)
        || not (eq_text user c.username)
      then unauthorized
      else answered tt

  -- `basic`: the login of the administrator.
  unfoldable pub basic : Credentials → Option Text → Response (Unit {0})
  unfolding cut_colon
  basic c header = check_login c (basic_auth header)
