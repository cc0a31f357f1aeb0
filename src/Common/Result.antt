-- ===== src/Common/Result.antt =====
-- Go's `error` results. `new` is `errors.New` or `fmt.Errorf` with the fixed part of its text;
-- `external` is an error that the system, the database or a third-party package returned.
use mathlib.Core.Path.{◌≡◌, refl}
use mathlib.Core.Logic.{◌⊎◌, inl, inr}
use Prim.Native.Nat.{ℕ}
use Prim.Native.String.{String}
use mathlib.Core.Bool.{Bool, true, false}

pub data Error : Type 0 where
  no_rows not_exist canceled deadline_exceeded : Error
  new : String → Error
  external : ℕ → Error

pub data Result {ℓ} (A : Type ℓ) : Type ℓ where
  ok : A → Result A
  err : Error → Result A

-- An error skips what follows it.
module _ {ℓ κ} {A : Type ℓ} {B : Type κ} where
  infixl 5 ◌>>=◌
  abbrev pub ◌>>=◌ : Result A → (A → Result B) → Result B
  err x >>= next = err x
  ok value >>= next = next value

  -- Inversion of a successful bind.
  pub >>=-eq-ok :
      (r : Result A) (next : A → Result B) {out : B}
      → (r >>= next) ≡ ok out
      → (value : A) × (r ≡ ok value) × (next value ≡ ok out)
  >>=-eq-ok (err x) next h = cc
  >>=-eq-ok (ok value) next h = (value, refl, h)

infixl 5 ◌>>◌
abbrev pub ◌>>◌ {ℓ} : {B : Type ℓ} → Result (Unit {0}) → Result B → Result B
check >> rest = check >>= λ _. rest

-- An early return of the error `e` where the condition holds.
abbrev pub fail_if : Bool → Error → Result (Unit {0})
fail_if true e = err e
fail_if false e = ok tt

abbrev pub is_ok {ℓ} : {A : Type ℓ} → Result A → Bool
is_ok (ok a) = true
is_ok (err e) = false

-- Inversion of a successful test.
pub >>-eq-ok {ℓ} :
    {B : Type ℓ} (m : Result (Unit {0})) (k : Result B) {b : B} → (m >> k) ≡ ok b → k ≡ ok b
>>-eq-ok (ok done) k h = h
>>-eq-ok (err e) k h = cc

-- To split on a computed result and keep the equation.
pub Result-cases {ℓ} :
    {A : Type ℓ} (r : Result A) → ((a : A) × (r ≡ ok a)) ⊎ ((e : Error) × (r ≡ err e))
Result-cases (ok a) = inl (a, refl)
Result-cases (err e) = inr (e, refl)

-- What follows a test that passed, with the condition.
pub passed_test {ℓ} :
    {B : Type ℓ} (b : Bool) (e : Error) (rest : Result B) {out : B}
    → (fail_if b e >> rest) ≡ ok out
    → (b ≡ false) × (rest ≡ ok out)
passed_test true e rest h = cc
passed_test false e rest h = (refl, h)

pub ok-inj {ℓ} : {A : Type ℓ} {a b : A} → ok a ≡ ok b → a ≡ b
ok-inj h = cc
