-- ===== src/Web.antt =====
-- The HTTP server (internal/web/web.go): the interface for clients with tokens, and the actions of
-- the administrator. A response is its status and what it carries.
pub mod Access
pub mod Pages
pub mod Trim
pub mod Serving
pub mod Archive
pub mod Api
pub mod Overview
pub mod Actions
mod Tests
use crawlbox.Common.{ℕ, Text}

-- `refused` is `http.Error` or `http.NotFound` with the status, `redirected` a redirect with
-- "303 See Other", `answered` a response with "200 OK".
pub data Response {ℓ} (A : Type ℓ) : Type ℓ where
  refused : ℕ → Response A
  redirected : Text → Response A
  answered : A → Response A

-- What follows a check that may have answered the request itself.
module _ {ℓ κ} {A : Type ℓ} {B : Type κ} where
  infixl 5 ◌>>=◌
  abbrev pub ◌>>=◌ : Response A → (A → Response B) → Response B
  refused code >>= next = refused code
  redirected place >>= next = redirected place
  answered value >>= next = next value

infixl 5 ◌>>◌
abbrev pub ◌>>◌ {ℓ} : {B : Type ℓ} → Response (Unit {0}) → Response B → Response B
check >> rest = check >>= λ _. rest
