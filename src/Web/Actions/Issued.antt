-- ===== src/Web/Actions/Issued.antt =====
-- A token that the administrator makes lets its holder in.
use crawlbox.Common.{
  ℕ, zero, suc, ◌≤◌, ◌<◌, ◌≡◌, refl, ap, sym, subst, ◌∙◌, Bool, true, false, ◌||◌, ◌&&◌, Option,
  none, some, List, [], ◌∷◌, ◌++◌, Text, All, any, eq_text, arith, length, length-append, ap₂, leb,
  ltb, all, ◌==◌, codes, if◌then◌else◌,
}
use mathlib.Core.List.{append_assoc, append-nil}
use crawlbox.Common.Splitting.{spaces, strip_any, strip_prefix, has_byte}
use crawlbox.Common.Result.{Result, ok, err}
use crawlbox.Catalog.Db.{Db, Faults, Token}
use crawlbox.Catalog.Tokens.{is_expired, authenticate}
use crawlbox.Catalog.Tokens.Access.{create_token-authenticate, created}
use crawlbox.Web.{Response, refused, answered, ◌>>=◌, ◌>>◌}
use crawlbox.Web.Access.{
  fields, fields_from, ended_field, bearer, bearer_fields, or_unauthorized, scope,
}
use crawlbox.Web.Api.{api_source}
use crawlbox.Web.Actions.{Manager, TokenForm, compact, expiry, issue, issued, issue_token}

-- A hexadecimal digit or a dot, of those that `hex.EncodeToString` writes.
abbrev pub is_visible : ℕ → Bool
is_visible c = leb 33 c && leb c 126

-- The first byte of a text is another one.
abbrev DiffersAt : ℕ → Text → Type 0
DiffersAt c [] = ⊥
DiffersAt c (b ∷ bs) = (b == c) ≡ false

strip_any-none :
    (c : ℕ) (cs : Text) (ps : List Text) → All (DiffersAt c) ps → strip_any ps (c ∷ cs) ≡ none
unfolding strip_any strip_prefix
strip_any-none c cs [] h = refl
strip_any-none c cs ([] ∷ ps) (h, hs) = absurd h
strip_any-none c cs ((b ∷ bs) ∷ ps) (h, hs) = ground (arith, h, strip_any-none c cs ps hs)

abbrev is_outside : Text → Bool
is_outside [] = false
is_outside (b ∷ bs) = ltb b 33 || ltb 126 b

outside-differ :
    (c : ℕ) (ps : List Text) → is_visible c ≡ true → all is_outside ps ≡ true → All (DiffersAt c) ps
outside-differ c [] h k = tt
outside-differ c ([] ∷ ps) h k = absurd cc
outside-differ c ((b ∷ bs) ∷ ps) h k = (ground arith, outside-differ c ps h (ground arith))

visible-none : (c : ℕ) (cs : Text) → is_visible c ≡ true → strip_any spaces (c ∷ cs) ≡ none
visible-none c cs h = strip_any-none c cs spaces (outside-differ c spaces h refl)

bearer-fields :
    (value : Text)
    → fields (codes "Bearer " ++ value)
      ≡ ended_field (codes "Bearer") (fields_from (length value) [] value)
unfolding fields fields_from strip_any strip_prefix
bearer-fields value = refl

elim-none :
    {B : Type 0} (o : Option Text) (x : B) (y : Text → B)
    → o ≡ none
    → elim o [ none ↦ x | some rest ↦ y rest ] ≡ x
elim-none none x y h = refl
elim-none (some rest) x y h = cc

fields_from-visible :
    (n : ℕ) (f : ℕ) (field text : Text)
    → length text ≤ n
    → All (λ c. is_visible c ≡ true) text
    → fields_from n (f ∷ field) text ≡ (f ∷ field ++ text) ∷ []
unfolding fields_from
fields_from-visible zero f field [] le h = refl
fields_from-visible zero f field (c ∷ cs) le h = absurd (omega (arith, le))
fields_from-visible (suc n) f field [] le h = ap (λ t. (f ∷ t) ∷ []) (sym (append-nil field))
fields_from-visible (suc n) f field (c ∷ cs) le (h, hs) =
    elim-none (strip_any spaces (c ∷ cs)) _ _ (visible-none c cs h)
    ∙ fields_from-visible n f (field ++ c ∷ []) cs (omega (arith, le)) hs
    ∙ ap (λ t. (f ∷ t) ∷ []) (append_assoc field (c ∷ []) cs)

value-fields :
    (n : ℕ) (c : ℕ) (cs : Text)
    → length cs < n
    → All (λ c. is_visible c ≡ true) (c ∷ cs)
    → fields_from n [] (c ∷ cs) ≡ (c ∷ cs) ∷ []
unfolding fields_from
value-fields zero c cs le h = absurd (omega (arith, le))
value-fields (suc n) c cs le (h, hs) =
    elim-none (strip_any spaces (c ∷ cs)) _ _ (visible-none c cs h)
    ∙ fields_from-visible n c [] cs (omega (arith, le)) hs

-- The header that a client sends with the value of a token.
abbrev pub bearer_header : Text → Text
bearer_header value = codes "Bearer " ++ value

header-fields :
    (value : Text)
    → 1 ≤ length value
    → All (λ c. is_visible c ≡ true) value
    → fields (bearer_header value) ≡ codes "Bearer" ∷ value ∷ []
header-fields [] some_byte h = absurd (omega (arith, some_byte))
header-fields (c ∷ cs) some_byte h =
    bearer-fields (c ∷ cs)
    ∙ ap (ended_field (codes "Bearer")) (value-fields (length (c ∷ cs)) c cs (omega arith) h)

answered-inj : {A : Type 0} {a b : A} → answered a ≡ answered b → a ≡ b
answered-inj h = cc

module _ (sha256 : Text → Text) where
  bearer-answered :
      (fault : Faults) (now : ℕ) (header value : Text) (db : Db) (t : Token)
      → fields header ≡ codes "Bearer" ∷ value ∷ []
      → authenticate sha256 fault now value db ≡ ok t
      → bearer sha256 fault now header db ≡ answered t
  unfolding bearer eq_text
  bearer-answered fault now header value db t parts known =
      ap (λ fs. bearer_fields sha256 fault now fs db) parts ∙ ap or_unauthorized known

  api_source-handler :
      {A : Type 0} (fault : Faults) (now : ℕ) (header source : Text) (db : Db) (t : Token)
      (handler : Response A)
      → bearer sha256 fault now header db ≡ answered t
      → any (eq_text source) t.sources ≡ true
      → api_source sha256 fault now header source db handler ≡ handler
  unfolding api_source scope
  api_source-handler fault now header source db t handler let_in listed =
      ap (λ r. r >>= λ t. scope source t >> handler) let_in ∙ by_test _ listed
    where
      by_test :
          (b : Bool) → b ≡ true → ((if b then answered tt else refused 404) >> handler) ≡ handler
      by_test true h = refl
      by_test false h = cc

  issued-created :
      (r : Result (Token × Text × Db)) (m m' : Manager) (value : Text)
      → issued r m ≡ (answered value, m')
      → (t : Token) × (r ≡ ok (t, value, m'.db))
  issued-created (err e) m m' value h = cc
  issued-created (ok (t, v, db)) m m' value h =
      let shown : v ≡ value = answered-inj (ap (λ x. x.0) h) in
      let left_db : db ≡ m'.db = ap (λ x. x.1.db) h in
      (t, ap₂ (λ (a : Text) (b : Db). ok (t, a, b)) shown left_db)

-- A token that the administrator makes by the form, with 32 bytes of identifier and 64 of secret,
-- all of them visible characters and none a dot, opens each of its sources: a request whose header
-- is "Bearer " and the value that was shown is answered by the handler, until the token expires
-- and while the database works.
pub issue_token-api_source :
    {A : Type 0} (sha256 : Text → Text) (parse : Text → Option ℕ) (fault : Faults)
    (id secret : Text) (now later : ℕ) (form : TokenForm) (expires : Option ℕ) (value : Text)
    (m m' : Manager) (source : Text) (handler : Response A)
    → length id ≡ 32
    → length secret ≡ 64
    → All (λ c. is_visible c ≡ true) (id ++ b'.' ∷ secret)
    → has_byte b'.' id ≡ false
    → has_byte b'.' secret ≡ false
    → expiry parse form.expires ≡ some expires
    → issue_token sha256 parse fault id secret now (some form) m ≡ (answered value, m')
    → is_expired expires later ≡ false
    → any (eq_text source) (compact form.sources) ≡ true
    → api_source sha256 (λ n. false) later (bearer_header value) source m'.db handler ≡ handler
unfolding issue_token
issue_token-api_source sha256 parse fault id secret now later form expires value m m' source handler
      li ls visible di ds dated h live listed =
    let made =
      subst (λ o. issue sha256 parse fault id secret now form o m ≡ (answered value, m')) dated h in
    let (t, done) = issued-created sha256 _ m m' value made in
    let (same, whole, _, _, _) =
      created sha256 fault id secret now form.name (compact form.sources) expires m.db t value m'.db
        done in
    let known =
      create_token-authenticate sha256 fault id secret now form.name (compact form.sources) expires
        m.db t value m'.db later li ls di ds done live in
    let long : 1 ≤ length value =
      subst (λ v. 1 ≤ length v) (sym whole) (omega (arith, li, length-append id (b'.' ∷ secret))) in
    let parts =
      header-fields value long
        (subst (λ v. All (λ c. is_visible c ≡ true) v) (sym whole) visible) in
    api_source-handler sha256 (λ n. false) later (bearer_header value) source m'.db t handler
      (bearer-answered sha256 (λ n. false) later (bearer_header value) value m'.db t parts known)
      (subst (λ (u : Token). any (eq_text source) u.sources ≡ true) (sym same) listed)
