-- ===== src/Setup.antt =====
-- The first administrator (cmd/manager/setup.go): `setupHandler` and `resetPassword`, with
-- `LoadCredentials` of internal/web/web.go. bcrypt and YAML are parameters: `generate` is
-- `bcrypt.GenerateFromPassword`, `cost` the error of `bcrypt.Cost`.
pub mod Login
pub mod Ensured
pub mod Reset
mod Tests
use crawlbox.Common.{
  ℕ, ◌==◌, leb, ltb, Bool, true, false, not, ◌||◌, ◌&&◌, Option, none, some, List, [], ◌∷◌, ◌++◌,
  Text, eq_text, codes, length, take, any, if◌then◌else◌,
}
use crawlbox.Common.Splitting.{trim_space}
use crawlbox.Common.Result.{Error, Result, ok, err, new, not_exist, ◌>>=◌, ◌>>◌, fail_if}
use crawlbox.Files.{Writing, atomic_write}
use crawlbox.Web.Access.{Credentials}

pub record Form : Type 0 where
  pub username : Text
  pub password : Text
  pub confirm : Text

-- The handler's `created`, and the file "admin.yaml".
pub record State : Type 0 where
  pub created : Bool
  pub file : Option Text

abbrev pub is_there : Option Text → Bool
is_there none = false
is_there (some b) = true

-- `strings.ContainsAny(username, ":\r\n")`
unfoldable pub has_separator : Text → Bool
has_separator t = any (λ c. c == b':' || (c == 13 || c == 10)) t

-- The test of the form, after `strings.TrimSpace` of the user name.
unfoldable pub is_refused : Text → Form → Bool
unfolding has_separator
is_refused username f =
    eq_text username []
    || (ltb 128 (length username)
        || (has_separator username
            || (ltb (length f.password) 12
                || (ltb 72 (length f.password) || not (eq_text f.password f.confirm)))))

abbrev pub wrote : Result (Unit {0}) × Option Text → State → ℕ × State
wrote (ok done, file) s = (201, record { created = true; file = file })
wrote (err e, file) s = (500, record s { file = file })

module _ (generate : Text → Result Text) (marshal : Credentials → Result Text) where
  abbrev pub save_credentials : Writing → Result Text → State → ℕ × State
  save_credentials io (err e) s = (500, s)
  save_credentials io (ok bytes) s = wrote (atomic_write io bytes s.file) s

  -- The credentials of a form, as the bytes of the file.
  abbrev pub credentials_of : Text → Text → Result Text
  credentials_of username password = do
    hash ← generate password
    marshal (record { username = username; password_hash = hash })

  abbrev pub create : Writing → Option Form → State → ℕ × State
  create io none s = (400, s)
  create io (some f) s =
      if is_refused (trim_space f.username) f
      then (400, s)
      else save_credentials io (credentials_of (trim_space f.username) f.password) s

  -- "POST /ui/setup": the status and the state; `stat` is an error of `Stat` other than that there
  -- is no file, and `none` a form that does not parse.
  unfoldable pub post_setup : Writing → Option Error → Option Form → State → ℕ × State
  unfolding is_refused atomic_write
  post_setup io stat form s = if s.created then (409, s) else elim stat [
    | some e ↦ (500, s)
    | none ↦ if is_there s.file then (409, s) else create io form s
  ]

module _ (unmarshal : Text → Result Credentials) (cost : Text → Option Error) where
  abbrev pub check : Option Error → Credentials → Result Credentials
  check none c = ok c
  check (some e) c = err e

  -- `LoadCredentials`
  unfoldable pub load_credentials : Option Text → Result Credentials
  load_credentials none = err not_exist
  load_credentials (some bytes) = do
    c ← unmarshal bytes
    fail_if (eq_text c.username []) (new "username required")
    check (cost c.password_hash) c

-- `strings.TrimSuffix(s, "\n")`
unfoldable pub trim_newline : Text → Text
trim_newline [] = []
trim_newline (c ∷ []) = if c == 10 then [] else c ∷ []
trim_newline (c ∷ d ∷ ds) = let rest = trim_newline (d ∷ ds) in c ∷ rest

module _ (generate : Text → Result Text) (marshal : Credentials → Result Text)
    (unmarshal : Text → Result Credentials) (cost : Text → Option Error) where
  abbrev pub write_result : Writing → Result Text → Option Text → Result (Unit {0}) × Option Text
  write_result io (err e) file = (err e, file)
  write_result io (ok bytes) file = atomic_write io bytes file

  -- The new contents of the file, from the first 74 bytes of the input.
  unfoldable pub reset_contents : Text → Option Text → Result Text
  unfolding load_credentials trim_newline
  reset_contents input file =
      let password = trim_newline (take 74 input) in
      do
        c ← load_credentials unmarshal cost file
        fail_if (ltb (length password) 12 || ltb 72 (length password))
            (new "password must contain 12–72 bytes")
        hash ← generate password
        marshal (record c { password_hash = hash })

  -- `resetPassword`, of an input that can be read.
  unfoldable pub reset_password : Writing → Text → Option Text → Result (Unit {0}) × Option Text
  unfolding reset_contents atomic_write
  reset_password io input file = write_result io (reset_contents input file) file
