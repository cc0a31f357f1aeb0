-- ===== src/Setup/Ensured.antt =====
-- `ensureAdministrator` of cmd/manager/setup.go: a manager starts only with an administrator.
use crawlbox.Common.{
  ℕ, ◌==◌, ==_iff, ◌≡◌, refl, ap, sym, subst, ◌∙◌, Bool, true, false, Option, none, some, List, [],
  ◌∷◌, Text, arith, if◌then◌else◌,
}
use crawlbox.Common.Result.{Error, Result, ok, err, ◌>>=◌, >>=-eq-ok}
use crawlbox.Files.{Writing}
use crawlbox.Web.Access.{Credentials}
use crawlbox.Setup.{Form, State, is_there, create, post_setup, load_credentials}
use crawlbox.Setup.Login.{post_setup-basic}

-- A request to "POST /ui/setup": the outcome of the write and of `Stat`, and the form.
abbrev pub Post : Type 0
Post = Writing × Option Error × Option Form

-- How the server ends: the error of listening or of the context if no administrator was created,
-- and that of the shutdown.
pub record Serving : Type 0 where
  pub failure : Error
  pub shutdown : Option Error

abbrev pub stopped : Option Error → Result (Unit {0})
stopped none = ok tt
stopped (some e) = err e

abbrev pub served : Serving → Bool × State → Result (Unit {0}) × Option Text
served end (false, s) = (err end.failure, s.file)
served end (true, s) = (stopped end.shutdown, s.file)

module _ (generate : Text → Result Text) (marshal : Credentials → Result Text) where
  -- The requests until one creates the administrator, and whether one does.
  unfoldable pub serve_setup : List Post → State → Bool × State
  unfolding post_setup
  serve_setup [] s = (false, s)
  serve_setup ((io, stat, form) ∷ posts) s =
      let (code, next) = post_setup generate marshal io stat form s in
      let rest = serve_setup posts next in if code == 201 then (true, next) else rest

  module _ (unmarshal : Text → Result Credentials) (cost : Text → Option Error) where
    -- The first test: a file that is there must load.
    abbrev pub ensured : Serving → List Post → Option Text → Result (Unit {0}) × Option Text
    ensured end posts (some b) = (load_credentials unmarshal cost (some b) >>= λ c. ok tt, some b)
    ensured end posts none =
        served end (serve_setup posts (record { created = false; file = none }))

    -- `ensureAdministrator`: `stat` is an error of `Stat` other than that there is no file.
    unfoldable pub ensure_administrator :
        Option Error → Serving → List Post → Option Text → Result (Unit {0}) × Option Text
    unfolding load_credentials serve_setup
    ensure_administrator stat end posts file = elim stat [
      | some e ↦ (err e, file)
      | none ↦ ensured end posts file
    ]

module _ (generate : Text → Result Text) (marshal : Credentials → Result Text)
    (unmarshal : Text → Result Credentials) (cost : Text → Option Error)
    (decodes : (c : Credentials) (bytes : Text) → marshal c ≡ ok bytes → unmarshal bytes ≡ ok c)
    (costs : (password hash : Text) → generate password ≡ ok hash → cost hash ≡ none) where
  abbrev Loads : Option Text → Type 0
  Loads file = (c : Credentials) × (load_credentials unmarshal cost file ≡ ok c)

  formless :
      (io : Writing) (stat : Option Error) (s s' : State)
      → post_setup generate marshal io stat none s ≡ (201, s')
      → Loads s'.file
  unfolding post_setup
  formless io stat s s' h = by_state s.created stat s.file h
    where
      by_state :
          (b : Bool) (o : Option Error) (file : Option Text)
          → (if b then (409, s) else elim o [
            | some e ↦ (500, s)
            | none ↦ if is_there file then (409, s) else create generate marshal io none s
          ])
            ≡ (201, s')
          → Loads s'.file
      by_state true o file k = absurd (omega (arith, ap (λ x. x.0) k))
      by_state false (some e) file k = absurd (omega (arith, ap (λ x. x.0) k))
      by_state false none (some b) k = absurd (omega (arith, ap (λ x. x.0) k))
      by_state false none none k = absurd (omega (arith, ap (λ x. x.0) k))

  created-Loads :
      (io : Writing) (stat : Option Error) (form : Option Form) (s s' : State)
      → post_setup generate marshal io stat form s ≡ (201, s')
      → Loads s'.file
  created-Loads io stat none s s' h = formless io stat s s' h
  created-Loads io stat (some f) s s' h =
      let (_, (c, loads, _), _) =
        post_setup-basic generate marshal unmarshal cost (λ x y. true) decodes costs (λ x y e. refl)
          io io stat stat f none s s' h in
      (c, loads)

  serve_setup-Loads :
      (posts : List Post) (s s' : State)
      → serve_setup generate marshal posts s ≡ (true, s')
      → Loads s'.file
  unfolding serve_setup
  serve_setup-Loads [] s s' h = cc
  serve_setup-Loads ((io, stat, form) ∷ posts) s s' h =
      by_answer (post_setup generate marshal io stat form s) refl
        (serve_setup-Loads posts (post_setup generate marshal io stat form s).1 s') h
    where
      by_answer :
          (x : ℕ × State)
          → post_setup generate marshal io stat form s ≡ x
          → (serve_setup generate marshal posts x.1 ≡ (true, s') → Loads s'.file)
          → (if x.0 == 201 then (true, x.1) else serve_setup generate marshal posts x.1)
            ≡ (true, s')
          → Loads s'.file
      by_answer (code, next) e later k = by_code (code == 201) refl k
        where
          by_code :
              (b : Bool)
              → (code == 201) ≡ b
              → (if b then (true, next) else serve_setup generate marshal posts next) ≡ (true, s')
              → Loads s'.file
          by_code true t k' =
              created-Loads io stat form s s'
                (e ∙ ap (λ c. (c, next)) ((==_iff code 201).0 t) ∙ ap (λ y. (201, y.1)) k')
          by_code false t k' = later k'

  served-Loads :
      (end : Serving) (x : Bool × State) (file' : Option Text)
      → (x.0 ≡ true → Loads x.1.file)
      → served end x ≡ (ok tt, file')
      → Loads file'
  served-Loads end (false, s) file' l h = cc
  served-Loads end (true, s) file' l h = subst Loads (ap (λ x. x.1) h) (l refl)

  -- Where `ensureAdministrator` succeeds, the file of credentials loads, whether it was there or
  -- was created by a request. This takes that YAML decodes what it has encoded, and that bcrypt
  -- accepts its own hashes.
  pub ensure_administrator-Loads :
      (stat : Option Error) (end : Serving) (posts : List Post) (file file' : Option Text)
      → ensure_administrator generate marshal unmarshal cost stat end posts file ≡ (ok tt, file')
      → (c : Credentials) × (load_credentials unmarshal cost file' ≡ ok c)
  unfolding ensure_administrator
  ensure_administrator-Loads (some e) end posts file file' h = cc
  ensure_administrator-Loads none end posts (some b) file' h =
      let (c, loads, _) =
        >>=-eq-ok (load_credentials unmarshal cost (some b)) (λ c. ok tt) (ap (λ x. x.0) h) in
      (c, ap (load_credentials unmarshal cost) (sym (ap (λ x. x.1) h)) ∙ loads)
  ensure_administrator-Loads none end posts none file' h =
      let start : State = record { created = false; file = none } in
      served-Loads end (serve_setup generate marshal posts start) file'
        (λ e.
          serve_setup-Loads posts start (serve_setup generate marshal posts start).1
            (ap (λ b. (b, (serve_setup generate marshal posts start).1)) e))
        h
