-- ===== src/Config/Bounds.antt =====
-- What a configuration is once `Validate` has accepted it.
use crawlbox.Common.{
  neither, ℕ, ltb, sym, ap, subst, codes, ◌*◌, ◌^◌, ◌≤◌, ◌≡◌, ◌≢◌, refl, Bool, true, false, ◌||◌,
  not, Option, none, some, List, [], ◌∷◌, Text, All, any, eq_text, eq_text_iff, arith,
}
use crawlbox.Common.Result.{Result, ok, >>=-eq-ok, ok-inj, Error, ◌>>◌, passed_test}
use crawlbox.Paths.{valid_id}
use crawlbox.Config.{
  Source, Config, Surroundings, below_one, is_digest, is_bad_host, filled, validate_source,
  validate_sources, validate, check_schedule, or_empty_map, check, or_text, or_int, or_nat,
}

-- What the manager relies on of a source.
pub record IsUsable (outside : Surroundings) (s : Source) : Type 0 where
  pub named : valid_id s.id ≡ true
  pub plugged : s.plugin ≢ []
  pub pinned : is_digest s.sha256 ≡ true
  pub timed : below_one s.timeout ≡ false
  pub some_memory : s.memory_mb ≢ 0
  pub small_memory : s.memory_mb ≤ 2048
  pub staged : below_one s.staging_bytes ≡ false
  pub stated : below_one s.state_bytes ≡ false
  pub parallel : below_one s.download_parallel ≡ false
  pub located : outside.load_location s.timezone ≡ none
  pub zoned : s.timezone ≢ []
  pub scheduled : check_schedule outside s.timezone s.schedule ≡ ok tt
  pub exact_hosts : any is_bad_host s.hosts ≡ false
  pub encoded : outside.marshal (or_empty_map s.config) ≡ none
  pub mapped : s.config ≡ some (or_empty_map s.config)

-- No identifier stands twice, nor among those seen before.
abbrev pub AreDistinct : List Text → List Source → Type 0
AreDistinct seen [] = Unit
AreDistinct seen (s ∷ ss) = (any (eq_text s.id) seen ≡ false) × AreDistinct (s.id ∷ seen) ss

pub record IsValid (outside : Surroundings) (c : Config) : Type 0 where
  pub cached : below_one c.cache_bytes ≡ false
  pub parallel : below_one c.parallel ≡ false
  pub secured : c.credentials ≢ []
  pub configured : c.kopia_config ≢ []
  pub distinct : AreDistinct [] c.sources
  pub usable : All (IsUsable outside) c.sources

passed_check {ℓ} :
    {B : Type ℓ} (o : Option Error) (rest : Result B) {out : B}
    → (check o >> rest) ≡ ok out
    → (o ≡ none) × (rest ≡ ok out)
passed_check none rest h = (refl, h)
passed_check (some e) rest h = cc

or_text-ne-nil : (v : Text) → or_text v (codes "UTC") ≢ []
or_text-ne-nil [] e = cc
or_text-ne-nil (c ∷ cs) e = cc

not-false : (a : Bool) → not a ≡ false → a ≡ true
not-false true h = refl
not-false false h = cc

some_memory : (n : ℕ) → or_nat n 512 ≢ 0
some_memory n e = ground arith

small : (n : ℕ) → ltb 2048 n ≡ false → n ≤ 2048
small n h = ground arith

text-ne-nil : (v : Text) → eq_text v [] ≡ false → v ≢ []
text-ne-nil v h e = ground (arith, eq_text_iff v [])

module _ (outside : Surroundings) where
  source_accepted :
      (seen : List Text) (s t : Source)
      → validate_source outside seen s ≡ ok t
      → (t ≡ filled outside s) × (any (eq_text s.id) seen ≡ false) × IsUsable outside t
  unfolding validate_source
  source_accepted seen s t h =
      let u = filled outside s in
      let (e1, h1) = passed_test (not (valid_id s.id) || any (eq_text s.id) seen) _ _ h in
      let (e2, h2) = passed_test (eq_text s.plugin []) _ _ h1 in
      let (e3, h3) = passed_test (not (is_digest s.sha256)) _ _ h2 in
      let (e4, h4) = passed_test (below_one u.timeout) _ _ h3 in
      let (e5, h5) = passed_test (ltb 2048 u.memory_mb) _ _ h4 in
      let (e6, h6) = passed_test (below_one u.staging_bytes) _ _ h5 in
      let (e7, h7) = passed_test (below_one u.state_bytes) _ _ h6 in
      let (e8, h8) = passed_test (below_one u.download_parallel) _ _ h7 in
      let (e9, h9) = passed_check (outside.load_location u.timezone) _ h8 in
      let (done, e10, h10) = >>=-eq-ok (check_schedule outside u.timezone u.schedule) _ h9 in
      let (e11, h11) = passed_test (any is_bad_host u.hosts) _ _ h10 in
      let (e12, h12) = passed_check (outside.marshal (or_empty_map s.config)) _ h11 in
      let same : u ≡ t = ok-inj h12 in
      let (named, fresh) = neither (valid_id s.id) (any (eq_text s.id) seen) e1 in
      (
        sym same,
        fresh,
        subst (IsUsable outside) same (record {
          named = named;
          plugged = text-ne-nil s.plugin e2;
          pinned = not-false (is_digest s.sha256) e3;
          timed = e4;
          some_memory = some_memory s.memory_mb;
          small_memory = small u.memory_mb e5;
          staged = e6;
          stated = e7;
          parallel = e8;
          located = e9;
          zoned = or_text-ne-nil s.timezone;
          scheduled = e10;
          exact_hosts = e11;
          encoded = e12;
          mapped = refl;
        }),
      )

  sources_accepted :
      (seen : List Text) (ss ts : List Source)
      → validate_sources outside seen ss ≡ ok ts
      → AreDistinct seen ts × All (IsUsable outside) ts
  unfolding validate_sources
  sources_accepted seen [] [] h = (tt, tt)
  sources_accepted seen [] (t ∷ ts) h = cc
  sources_accepted seen (s ∷ ss) ts h =
      let (t, first, h1) = >>=-eq-ok (validate_source outside seen s) _ h in
      let (us, rest, h2) = >>=-eq-ok (validate_sources outside (s.id ∷ seen) ss) _ h1 in
      let (filled, fresh, usable) = source_accepted seen s t first in
      let (distinct, others) = sources_accepted (s.id ∷ seen) ss us rest in
      let same : (t ∷ us) ≡ ts = ground arith in
      let id : t.id ≡ s.id = ap (λ x. x.id) filled in
      subst (λ xs. AreDistinct seen xs × All (IsUsable outside) xs) same
        ((rw id (fresh, distinct)), (usable, others))

  -- A configuration that `Validate` accepts has positive limits, credentials and a Kopia
  -- configuration; its sources have distinct valid identifiers, and each has a plugin pinned by a
  -- SHA-256 digest, limits in range, a known time zone, a schedule that parses and exact hosts.
  pub validate-IsValid : (c d : Config) → validate outside c ≡ ok d → IsValid outside d
  unfolding validate
  validate-IsValid c d h =
      let cache = or_int c.cache_bytes (20 * 2 ^ 30) in
      let parallel = or_int c.parallel 1 in
      let (e1, h1) = passed_test (below_one cache) _ _ h in
      let (e2, h2) = passed_test (below_one parallel) _ _ h1 in
      let (e3, h3) = passed_test (eq_text c.credentials [] || eq_text c.kopia_config []) _ _ h2 in
      let (ts, e4, h4) = >>=-eq-ok (validate_sources outside [] c.sources) _ h3 in
      let (distinct, usable) = sources_accepted [] c.sources ts e4 in
      let made = ok-inj h4 in
      subst (IsValid outside) made (record {
        cached = e1;
        parallel = e2;
        secured = λ e. ground (arith, eq_text_iff c.credentials []);
        configured = λ e. ground (arith, eq_text_iff c.kopia_config []);
        distinct = distinct;
        usable = usable;
      })
