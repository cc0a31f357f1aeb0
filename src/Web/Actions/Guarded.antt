-- ===== src/Web/Actions/Guarded.antt =====
-- Nothing changes without a login.
use crawlbox.Common.{
  ℕ, ◌≡◌, refl, Bool, true, false, ◌⊎◌, inl, inr, Option, some, Text, eq_text, lookup, insert,
  arith, length, ◌≤◌, codes, Option-cases, Bool-cases,
}
use crawlbox.Common.Result.{Error, Result, ok, err}
use crawlbox.App.Control.{App, cancel, run_not_active, run_sealed, stop_by_administrator}
use crawlbox.Web.{Response, refused, redirected, answered}
use crawlbox.Web.Access.{Credentials, basic, basic_auth}
use crawlbox.Web.Access.Allowed.{basic_exact}
use crawlbox.Web.Actions.{Manager, Action, guarded, perform, ui, cancel_run, cancelled}

module _ (sha256 : Text → Text) (parse : Text → Option ℕ) (compare : Text → Text → Bool) where
  -- A request either changes nothing, or comes with the administrator's user name and a password
  -- that fits, from the manager's own origin, and then is what the action makes of it.
  pub ui-perform :
      (c : Credentials) (header : Option Text) (cross_origin : Bool) (a : Action) (m : Manager)
      → ((ui sha256 parse compare c header cross_origin a m).1 ≡ m)
        ⊎ ((cross_origin ≡ false)
            × (ui sha256 parse compare c header cross_origin a m ≡ perform sha256 parse compare a m)
            × ((user : Text) × (password : Text) × (basic_auth header ≡ some (user, password))
                × (length password ≤ 72)
                × (compare c.password_hash password ≡ true)
                × (user ≡ c.username)))
  unfolding ui
  ui-perform c header cross_origin a m = by_login (basic compare c header) refl cross_origin
    where
      by_login :
          (r : Response (Unit {0}))
          → basic compare c header ≡ r
          → (x : Bool)
          → ((guarded sha256 parse compare r x (perform sha256 parse compare a) m).1 ≡ m)
            ⊎ ((x ≡ false)
                × (guarded sha256 parse compare r x (perform sha256 parse compare a) m
                    ≡ perform sha256 parse compare a m)
                × ((user : Text) × (password : Text) × (basic_auth header ≡ some (user, password))
                    × (length password ≤ 72)
                    × (compare c.password_hash password ≡ true)
                    × (user ≡ c.username)))
      by_login (refused code) h x = inl refl
      by_login (redirected place) h x = inl refl
      by_login (answered done) h true = inl refl
      by_login (answered done) h false = inr (refl, refl, (basic_exact compare c header).0 h)

cancel-errors :
    (id : Text) (a : App)
    → ((b : App) × (cancel id a ≡ ok b))
      ⊎ ((cancel id a ≡ err run_not_active) ⊎ (cancel id a ≡ err run_sealed))
unfolding cancel
cancel-errors id a = elim (Option-cases (lookup id a.controls)) [
  | inl absent ↦ inr (inl (ground arith))
  | inr (c, found) ↦ elim (Bool-cases c.sealed) [
    | inl sealed ↦ inr (inr (ground arith))
    | inr unsealed ↦
        inl (record a { controls = insert id (stop_by_administrator c) a.controls }, ground arith)
  ]
]

err-inj : {A : Type 0} {e f : Error} → (the : Result A) → the ≡ err e → the ≡ err f → e ≡ f
err-inj the h k = cc

err-cases :
    (e : Error) (r : Result App)
    → r ≡ err e
    → (r ≡ err run_not_active) ⊎ (r ≡ err run_sealed)
    → (e ≡ run_not_active) ⊎ (e ≡ run_sealed)
err-cases e r same (inl h) = inl (err-inj r same h)
err-cases e r same (inr h) = inr (err-inj r same h)

conflicts :
    (e : Error) (m : Manager)
    → (e ≡ run_not_active) ⊎ (e ≡ run_sealed)
    → cancelled (err e) m ≡ (refused 409, m)
unfolding eq_text
conflicts e m (inl h) = rw h refl
conflicts e m (inr h) = rw h refl

-- To cancel a run is answered by "409 Conflict", with nothing changed, exactly if the run is not
-- active or is sealed, and else it is done and answered by a redirect: never as an internal error.
pub cancel_run-cancel :
    (id : Text) (m : Manager)
    → ((cancel_run id m ≡ (refused 409, m))
        × ((cancel id m.app ≡ err run_not_active) ⊎ (cancel id m.app ≡ err run_sealed)))
      ⊎ ((a : App) × (cancel id m.app ≡ ok a)
          × (cancel_run id m ≡ (redirected (codes "/ui/?page=runs"), record m { app = a })))
unfolding cancel_run
cancel_run-cancel id m = by_result (cancel id m.app) refl (cancel-errors id m.app)
  where
    by_result :
        (r : Result App)
        → cancel id m.app ≡ r
        → ((a : App) × (r ≡ ok a)) ⊎ ((r ≡ err run_not_active) ⊎ (r ≡ err run_sealed))
        → ((cancelled r m ≡ (refused 409, m)) × ((r ≡ err run_not_active) ⊎ (r ≡ err run_sealed)))
          ⊎ ((a : App) × (r ≡ ok a)
              × (cancelled r m ≡ (redirected (codes "/ui/?page=runs"), record m { app = a })))
    by_result (ok a) h x = inr (a, refl, refl)
    by_result (err e) h (inl y) = cc
    by_result (err e) h (inr y) = inl (conflicts e m (err-cases e (err e) refl y), y)
