-- ===== src/Common/Decimal.antt =====
-- `%d` of a natural number.
use Prim.Native.Nat.{ℕ, zero, suc, ◌+◌, ◌/◌, ◌%◌}
use mathlib.Core.Path.{◌≡◌, refl}
use mathlib.Core.List.{[], ◌∷◌, ◌++◌}
use crawlbox.Common.Tests.{ltb, if◌then◌else◌}
use crawlbox.Common.Texts.{Text, codes}

-- Each round takes off one digit, so `n` rounds and one more are enough.
unfoldable pub digits : ℕ → ℕ → Text
digits zero n = []
digits (suc fuel) n =
    let rest = digits fuel (n / 10) ++ (b'0' + n % 10) ∷ [] in
    if ltb n 10 then (b'0' + n) ∷ [] else rest

unfoldable pub decimal : ℕ → Text
unfolding digits
decimal n = digits (n + 1) n

decimal_test : decimal 120 ≡ codes "120"
unfolding decimal
decimal_test = refl
