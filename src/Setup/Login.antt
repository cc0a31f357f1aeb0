-- ===== src/Setup/Login.antt =====
-- Who has set up the manager can log in (cmd/manager/setup.go and internal/web/web.go).
use crawlbox.Common.{
  ◌≤◌, ◌≡◌, refl, ap, sym, ◌∙◌, Bool, true, false, Option, none, some, [], ◌∷◌, ◌++◌, Text, eq_text,
  arith, length, if◌then◌else◌,
}
use crawlbox.Common.Splitting.{trim_space}
use crawlbox.Common.Result.{Error, Result, ok, err, >>=-eq-ok}
use crawlbox.Files.{Writing, atomic_write, atomic_write-ok}
use crawlbox.Web.{answered}
use crawlbox.Web.Access.{Credentials, cut_colon, basic}
use crawlbox.Web.Access.Allowed.{basic_exact}
use crawlbox.Setup.{
  Form, State, is_there, has_separator, is_refused, wrote, save_credentials, credentials_of, create,
  post_setup, load_credentials,
}

cut_colon-append :
    (user password : Text)
    → has_separator user ≡ false
    → cut_colon (user ++ b':' ∷ password) ≡ some (user, password)
unfolding cut_colon has_separator
cut_colon-append [] password h = refl
cut_colon-append (c ∷ cs) password h = ground (arith, cut_colon-append cs password)

-- What a form that was let through says.
record IsGood (username : Text) (f : Form) : Type 0 where
  named : eq_text username [] ≡ false
  plain : has_separator username ≡ false
  long : 12 ≤ length f.password
  short : length f.password ≤ 72

good : (username : Text) (f : Form) → is_refused username f ≡ false → IsGood username f
unfolding is_refused
good username f h = record {
  named = ground arith;
  plain = ground arith;
  long = ground arith;
  short = ground arith;
}

module _ (generate : Text → Result Text) (marshal : Credentials → Result Text) where
  -- What "201 Created" says of the form and the file.
  record IsCreated (f : Form) (s s' : State) : Type 0 where
    good_form : IsGood (trim_space f.username) f
    absent : s.file ≡ none
    hashed :
        (bytes : Text) × (credentials_of generate marshal (trim_space f.username) f.password
          ≡ ok bytes)
        × (s'.file ≡ some bytes)
    closed : s'.created ≡ true

  create-IsCreated :
      (io : Writing) (f : Form) (s s' : State)
      → s.file ≡ none
      → create generate marshal io (some f) s ≡ (201, s')
      → IsCreated f s s'
  create-IsCreated io f s s' absent h =
      by_form (is_refused (trim_space f.username) f) refl
        (credentials_of generate marshal (trim_space f.username) f.password) refl h
    where
      by_form :
          (b : Bool)
          → is_refused (trim_space f.username) f ≡ b
          → (r : Result Text)
          → credentials_of generate marshal (trim_space f.username) f.password ≡ r
          → (if b then (400, s) else save_credentials generate marshal io r s) ≡ (201, s')
          → IsCreated f s s'
      by_form true e r d k = absurd (omega (arith, ap (λ x. x.0) k))
      by_form false e (err x) d k = absurd (omega (arith, ap (λ x. x.0) k))
      by_form false e (ok bytes) d k = by_write (atomic_write io bytes s.file) refl k
        where
          by_write :
              (x : Result (Unit {0}) × Option Text)
              → atomic_write io bytes s.file ≡ x
              → wrote x s ≡ (201, s')
              → IsCreated f s s'
          by_write (err y, file) g l = absurd (omega (arith, ap (λ x. x.0) l))
          by_write (ok done, file) g l =
              let same : record { created = true; file = file } ≡ s' = ap (λ x. x.1) l in
              record {
                good_form = good (trim_space f.username) f e;
                absent = absent;
                hashed = (
                  bytes,
                  d,
                  ap (λ (t : State). t.file) (sym same) ∙ atomic_write-ok io bytes s.file file g,
                );
                closed = ap (λ (t : State). t.created) (sym same);
              }

  setup-IsCreated :
      (io : Writing) (stat : Option Error) (f : Form) (s s' : State)
      → post_setup generate marshal io stat (some f) s ≡ (201, s')
      → (s.created ≡ false) × IsCreated f s s'
  unfolding post_setup
  setup-IsCreated io stat f s s' h = by_state s.created refl stat s.file refl h
    where
      by_state :
          (b : Bool)
          → s.created ≡ b
          → (o : Option Error) (file : Option Text) → s.file ≡ file
          → (if b then (409, s) else elim o [
            | some e ↦ (500, s)
            | none ↦ if is_there file then (409, s) else create generate marshal io (some f) s
          ])
            ≡ (201, s')
          → (s.created ≡ false) × IsCreated f s s'
      by_state true e o file g k = absurd (omega (arith, ap (λ x. x.0) k))
      by_state false e (some x) file g k = absurd (omega (arith, ap (λ x. x.0) k))
      by_state false e none (some b) g k = absurd (omega (arith, ap (λ x. x.0) k))
      by_state false e none none g k = (e, create-IsCreated io f s s' g k)

module _ (generate : Text → Result Text) (marshal : Credentials → Result Text)
    (unmarshal : Text → Result Credentials) (cost : Text → Option Error)
    (compare : Text → Text → Bool)
    (decodes : (c : Credentials) (bytes : Text) → marshal c ≡ ok bytes → unmarshal bytes ≡ ok c)
    (costs : (password hash : Text) → generate password ≡ ok hash → cost hash ≡ none)
    (fits : (password hash : Text)
      → generate password ≡ ok hash
      → compare hash password ≡ true) where
  -- What the file of new credentials is worth.
  loaded :
      (username password bytes : Text)
      → eq_text username [] ≡ false
      → credentials_of generate marshal username password ≡ ok bytes
      → (c : Credentials) × (load_credentials unmarshal cost (some bytes) ≡ ok c)
        × (c.username ≡ username)
        × (compare c.password_hash password ≡ true)
  unfolding load_credentials
  loaded username password bytes named h =
      let (hash, hashed, encoded) = >>=-eq-ok (generate password) _ h in
      let c : Credentials = record { username = username; password_hash = hash } in
      (
        c,
        rw (decodes c bytes encoded, named, costs password hash hashed) refl,
        refl,
        fits password hash hashed,
      )

  -- If the setup of the first administrator answers "201 Created", then there was none before; the
  -- file that it left loads; with it, the login by the trimmed user name and the password is let
  -- in; and every later setup is refused as a conflict, leaving the file. This takes that YAML
  -- decodes what it has encoded, and that bcrypt accepts its own hashes.
  pub post_setup-basic :
      (io later_io : Writing) (stat later_stat : Option Error) (f : Form) (later : Option Form)
      (s s' : State)
      → post_setup generate marshal io stat (some f) s ≡ (201, s')
      → (s.file ≡ none)
        × ((c : Credentials) × (load_credentials unmarshal cost s'.file ≡ ok c)
            × (basic compare c (some (trim_space f.username ++ b':' ∷ f.password)) ≡ answered tt))
        × (post_setup generate marshal later_io later_stat later s' ≡ (409, s'))
  unfolding post_setup
  post_setup-basic io later_io stat later_stat f later s s' h =
      let (fresh, made) = setup-IsCreated generate marshal io stat f s s' h in
      let user = trim_space f.username in
      let (bytes, encoded, file) = made.hashed in
      let (c, load, named, fit) = loaded user f.password bytes made.good_form.named encoded in
      (
        made.absent,
        (
          c,
          ap (load_credentials unmarshal cost) file ∙ load,
          (basic_exact compare c (some (user ++ b':' ∷ f.password))).1 (
            user,
            f.password,
            cut_colon-append user f.password made.good_form.plain,
            made.good_form.short,
            fit,
            sym named,
          ),
        ),
        rw made.closed refl,
      )
