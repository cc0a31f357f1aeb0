-- ===== src/Setup/Tests.antt =====
-- A first administrator and a new password.
use crawlbox.Common.{
  ◌≡◌, ◌≤◌, refl, Bool, true, false, Option, none, some, [], ◌∷◌, ◌++◌, Text, codes, length,
  eq_text, eq_text_refl, eq_text_iff, ap₂, sym, subst, if◌then◌else◌,
}
use crawlbox.Common.Splitting.{trim_space}
use crawlbox.Common.Result.{Error, Result, ok, err, not_exist, ok-inj}
use crawlbox.Files.{Writing}
use crawlbox.Web.{answered}
use crawlbox.Web.Access.{Credentials, basic}
use crawlbox.Setup.{Form, State, post_setup, load_credentials, trim_newline, reset_password}
use crawlbox.Setup.Login.{post_setup-basic}
use crawlbox.Setup.Reset.{reset_password-load_credentials}

abbrev writes : Writing
writes = record {
  create_temp = none;
  writing = none;
  syncing = none;
  closing = none;
  renaming = none;
  opening_dir = none;
  syncing_dir = none;
}

-- A format of credentials that is easy to take apart: the user name is "admin".
abbrev encode : Credentials → Result Text
encode c = if eq_text c.username (codes "admin") then ok c.password_hash else err not_exist

abbrev decode : Text → Result Credentials
decode b = ok (record { username = codes "admin"; password_hash = b })

abbrev hash : Text → Result Text
hash p = ok p

abbrev no_cost : Text → Option Error
no_cost h = none

decodes : (c : Credentials) (bytes : Text) → encode c ≡ ok bytes → decode bytes ≡ ok c
decodes c bytes h = by_name (eq_text c.username (codes "admin")) refl h
  where
    by_name :
        (b : Bool)
        → eq_text c.username (codes "admin") ≡ b
        → (if b then ok c.password_hash else err not_exist) ≡ ok bytes
        → decode bytes ≡ ok c
    by_name true e k =
        ap₂ (λ (u h : Text). ok (record { username = u; password_hash = h }))
          (sym ((eq_text_iff c.username (codes "admin")).0 e)) (sym (ok-inj k))
    by_name false e k = cc

costs : (password h : Text) → hash password ≡ ok h → no_cost h ≡ none
costs password h e = refl

fits : (password h : Text) → hash password ≡ ok h → eq_text h password ≡ true
fits password h e = subst (λ x. eq_text x password ≡ true) (ok-inj e) (eq_text_refl password)

abbrev first_form : Form
first_form = record {
  username = codes " admin";
  password = codes "correct horse";
  confirm = codes "correct horse";
}

abbrev fresh : State
fresh = record { created = false; file = none }

abbrev set_up : State
set_up = record { created = true; file = some (codes "correct horse") }

sets_up : post_setup hash encode writes none (some first_form) fresh ≡ (201, set_up)
unfolding post_setup eq_text trim_space
sets_up = refl

post_setup-basic_example :
    (fresh.file ≡ none)
    × ((c : Credentials) × (load_credentials decode no_cost set_up.file ≡ ok c)
        × (basic eq_text c (some (trim_space (codes " admin") ++ b':' ∷ codes "correct horse"))
            ≡ answered tt))
    × (post_setup hash encode writes none none set_up ≡ (409, set_up))
post_setup-basic_example =
    post_setup-basic hash encode decode no_cost eq_text decodes costs fits writes writes none none
      first_form none fresh set_up sets_up

abbrev new_input : Text
new_input = codes "battery staple" ++ 10 ∷ []

resets :
    reset_password hash encode decode no_cost writes new_input (some (codes "correct horse"))
    ≡ (ok tt, some (codes "battery staple"))
unfolding reset_password eq_text
resets = refl

reset_password-load_credentials_example :
    (12 ≤ length (trim_newline new_input))
    × (length (trim_newline new_input) ≤ 72)
    × ((old : Credentials) × (c : Credentials) × (load_credentials decode no_cost
            (some (codes "correct horse"))
          ≡ ok old)
        × (load_credentials decode no_cost (some (codes "battery staple")) ≡ ok c)
        × (c.username ≡ old.username)
        × (eq_text c.password_hash (trim_newline new_input) ≡ true))
reset_password-load_credentials_example =
    reset_password-load_credentials hash encode decode no_cost eq_text decodes costs fits writes
      new_input (some (codes "correct horse")) (some (codes "battery staple")) resets
