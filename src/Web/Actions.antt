-- ===== src/Web/Actions.antt =====
-- The actions under "/ui" of internal/web/web.go, behind `basic` and the protection against
-- requests from other origins. A form is given as it was parsed, and so is the time of expiry.
pub mod Guarded
pub mod Issued
use crawlbox.Common.{
  ℕ, Bool, true, false, not, ◌||◌, ◌&&◌, Option, none, some, List, [], ◌∷◌, ◌++◌, Text, eq_text,
  lookup, codes, length, if◌then◌else◌,
}
use crawlbox.Common.Result.{
  Error, Result, ok, err, no_rows, not_exist, canceled, deadline_exceeded, new, external,
}
use crawlbox.Catalog.Db.{Db, Faults, Token}
use crawlbox.Catalog.Tokens.{create_token, revoke}
use crawlbox.App.Control.{App, trigger, cancel, run_not_active, run_sealed}
use crawlbox.Proxy.{Proxy, set_enabled}
use crawlbox.Web.{Response, refused, redirected, answered, ◌>>=◌, ◌>>◌}
use crawlbox.Web.Access.{Credentials, basic}

-- What the actions change; the proxy may not be configured.
pub record Manager : Type 0 where
  pub app : App
  pub db : Db
  pub proxy : Option Proxy

-- The answer of an action: the page that shows a new token, by the token. What the page shows
-- besides is taken to be readable.
abbrev pub Shown : Type 0
Shown = Response Text

-- `s.trigger`, with the identifier that `Trigger` draws and the time.
abbrev pub triggered : Result (Text × App × Db) → Manager → Shown × Manager
triggered (err e) m = (refused 409, m)
triggered (ok (id, a, db)) m = (redirected (codes "/ui/"), record m { app = a; db = db })

unfoldable pub trigger_source : Faults → Text → ℕ → Text → Manager → Shown × Manager
unfolding trigger
trigger_source fault id now source m = triggered (trigger fault id now source (m.app, m.db)) m

-- `errors.Is(err, app.ErrRunNotActive)` and `errors.Is(err, app.ErrRunSealed)`, by their texts.
abbrev pub is_conflict : Error → Bool
is_conflict (new s) =
    eq_text (codes s) (codes "run is no longer active")
    || eq_text (codes s)
        (codes "run is snapshotting, committing or finishing; cancellation is no longer available")
is_conflict _ = false

abbrev pub cancelled : Result App → Manager → Shown × Manager
cancelled (err e) m = (refused (if is_conflict e then 409 else 500), m)
cancelled (ok a) m = (redirected (codes "/ui/?page=runs"), record m { app = a })

unfoldable pub cancel_run : Text → Manager → Shown × Manager
unfolding cancel
cancel_run id m = cancelled (cancel id m.app) m

-- `slices.Compact`
unfoldable pub compact_from : Text → List Text → List Text
compact_from x [] = x ∷ []
compact_from x (y ∷ ys) =
    let same = compact_from x ys in
    let other = x ∷ compact_from y ys in if eq_text x y then same else other

abbrev pub compact : List Text → List Text
compact [] = []
compact (x ∷ xs) = compact_from x xs

pub record TokenForm : Type 0 where
  pub name : Text
  pub sources : List Text
  pub expires : Text

-- An empty time of expiry is none; another must parse.
abbrev pub expiry : (Text → Option ℕ) → Text → Option (Option ℕ)
expiry parse [] = some none
expiry parse (c ∷ cs) = elim (parse (c ∷ cs)) [ none ↦ none | some t ↦ some (some t) ]

abbrev pub issued : Result (Token × Text × Db) → Manager → Shown × Manager
issued (err e) m = (refused 400, m)
issued (ok (t, value, db)) m = (answered value, record m { db = db })

module _ (sha256 : Text → Text) (parse : Text → Option ℕ) where
  abbrev pub issue :
      Faults → Text → Text → ℕ → TokenForm → Option (Option ℕ) → Manager → Shown × Manager
  issue fault id secret now form none m = (refused 400, m)
  issue fault id secret now form (some expires) m =
      issued (create_token sha256 fault id secret now form.name (compact form.sources) expires m.db)
        m

  -- `s.createToken`, where `none` is a form that does not parse.
  unfoldable pub issue_token :
      Faults → Text → Text → ℕ → Option TokenForm → Manager → Shown × Manager
  unfolding create_token compact_from
  issue_token fault id secret now none m = (refused 400, m)
  issue_token fault id secret now (some form) m =
      issue fault id secret now form (expiry parse form.expires) m

abbrev pub revoked : Result Db → Manager → Shown × Manager
revoked (err e) m = (refused 404, m)
revoked (ok db) m = (redirected (codes "/ui/?page=tokens"), record m { db = db })

-- `s.revoke`
unfoldable pub revoke_token : Faults → Text → Manager → Shown × Manager
unfolding revoke
revoke_token fault id m = revoked (revoke fault id m.db) m

abbrev pub switched : Result (Proxy × Db) → Manager → Shown × Manager
switched (err e) m = (refused 500, m)
switched (ok (p, db)) m =
    (redirected (codes "/ui/?page=settings"), record m { db = db; proxy = some p })

abbrev pub toggle : Faults → Proxy → Option Text → Manager → Shown × Manager
toggle fault p none m = (refused 400, m)
toggle fault p (some value) m =
    if eq_text value (codes "true")
    then switched (set_enabled fault true (p, m.db)) m
    else if eq_text value (codes "false")
    then switched (set_enabled fault false (p, m.db)) m
    else (refused 400, m)

-- `s.toggleKopiaUIProxy`, with the value "enabled" of the form.
unfoldable pub toggle_proxy : Faults → Option Text → Manager → Shown × Manager
unfolding set_enabled
toggle_proxy fault value m = elim m.proxy [
  | none ↦ (refused 404, m)
  | some p ↦ toggle fault p value m
]

pub data Action : Type 0 where
  triggers : Faults → Text → ℕ → Text → Action
  cancels : Text → Action
  issues : Faults → Text → Text → ℕ → Option TokenForm → Action
  revokes : Faults → Text → Action
  toggles : Faults → Option Text → Action

module _ (sha256 : Text → Text) (parse : Text → Option ℕ) (compare : Text → Text → Bool) where
  unfoldable pub perform : Action → Manager → Shown × Manager
  unfolding trigger_source cancel_run issue_token revoke_token toggle_proxy
  perform (triggers fault id now source) m = trigger_source fault id now source m
  perform (cancels id) m = cancel_run id m
  perform (issues fault id secret now form) m = issue_token sha256 parse fault id secret now form m
  perform (revokes fault id) m = revoke_token fault id m
  perform (toggles fault value) m = toggle_proxy fault value m

  abbrev pub guarded :
      Response (Unit {0}) → Bool → (Manager → Shown × Manager) → Manager → Shown × Manager
  guarded (refused code) cross_origin action m = (refused code, m)
  guarded (redirected place) cross_origin action m = (redirected place, m)
  guarded (answered done) cross_origin action m =
      if cross_origin then (refused 403, m) else action m

  -- A request to "/ui": `basic`, then `http.NewCrossOriginProtection`, whose finding is given.
  unfoldable pub ui : Credentials → Option Text → Bool → Action → Manager → Shown × Manager
  unfolding basic perform
  ui c header cross_origin a m = guarded (basic compare c header) cross_origin (perform a) m
