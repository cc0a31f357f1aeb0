-- ===== src/Common/Int64.antt =====
-- Go's `int64`: a bit pattern below 2 ^ 64, negative from 2 ^ 63 on, with wrap-around.
use Prim.Native.Nat.{ℕ, ◌+◌, ◌-◌, ◌%◌, ◌^◌}
use mathlib.Core.Bool.{Bool, true, false}
use crawlbox.Common.Tests.{ltb, leb, if◌then◌else◌}

abbrev pub is_neg64 : ℕ → Bool
is_neg64 a = leb (2 ^ 63) a

abbrev pub add64 : ℕ → ℕ → ℕ
add64 a b = (a + b) % 2 ^ 64

abbrev pub sub64 : ℕ → ℕ → ℕ
sub64 a b = (a + 2 ^ 64 - b) % 2 ^ 64

abbrev pub lt64 : ℕ → ℕ → Bool
lt64 a b =
    if is_neg64 a
    then (if is_neg64 b then ltb a b else true)
    else (if is_neg64 b then false else ltb a b)
