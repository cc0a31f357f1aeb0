-- ===== src/Common/Texts.antt =====
-- Go strings: lists of bytes. They are compared by `eq_text` and ordered by `lt_text`.
use Prim.Native.Nat.{ℕ, ◌+◌, ◌/◌, ◌%◌}
use Prim.Native.Char.{code}
use Prim.Native.String.{String}
use mathlib.Core.Path.{◌≡◌, refl}
use mathlib.Core.Logic.{◌↔◌}
use mathlib.Core.Bool.{Bool, true, false, ◌&&◌, ◌||◌}
use mathlib.Core.List.{List, [], ◌∷◌, ◌++◌}
use native.Mathlib.Omega.{arith}
use crawlbox.Common.Tests.{◌==◌, ltb, if◌then◌else◌}

abbrev pub Text : Type 0
Text = List ℕ

-- The bytes of an ASCII literal.
abbrev pub codes : String → Text
codes String.[] = []
codes (String.◌∷◌ c s) = code c ∷ codes s

-- The bytes of a character in UTF-8, before the given ones.
abbrev pub utf8_char : ℕ → Text → Text
utf8_char c rest =
    if ltb c 0x80
    then c ∷ rest
    else if ltb c 0x800
    then (0xc0 + c / 64) ∷ (0x80 + c % 64) ∷ rest
    else if ltb c 0x10000
    then (0xe0 + c / 4096) ∷ (0x80 + c / 64 % 64) ∷ (0x80 + c % 64) ∷ rest
    else (0xf0 + c / 262144)
      ∷ (0x80 + c / 4096 % 64)
      ∷ (0x80 + c / 64 % 64)
      ∷ (0x80 + c % 64)
      ∷ rest

-- The bytes of a literal.
abbrev pub utf8 : String → Text
utf8 String.[] = []
utf8 (String.◌∷◌ c s) = utf8_char (code c) (utf8 s)

unfoldable pub eq_text : Text → Text → Bool
eq_text [] [] = true
eq_text [] (b ∷ bs) = false
eq_text (a ∷ as') [] = false
eq_text (a ∷ as') (b ∷ bs) = a == b && eq_text as' bs

pub eq_text_iff : (a b : Text) → (eq_text a b ≡ true) ↔ (a ≡ b)
unfolding eq_text
eq_text_iff [] [] = ground arith
eq_text_iff [] (b ∷ bs) = ground arith
eq_text_iff (a ∷ as') [] = ground arith
eq_text_iff (a ∷ as') (b ∷ bs) = ground (arith, eq_text_iff as' bs)

pub eq_text_refl : (a : Text) → eq_text a a ≡ true
eq_text_refl a = (eq_text_iff a a).1 refl

-- Go's `<` on strings: bytewise, a proper prefix first.
unfoldable pub lt_text : Text → Text → Bool
lt_text [] [] = false
lt_text [] (b ∷ bs) = true
lt_text (a ∷ as') [] = false
lt_text (a ∷ as') (b ∷ bs) = ltb a b || (a == b && lt_text as' bs)

pub lt_text_irrefl : (a : Text) → lt_text a a ≡ false
unfolding lt_text
lt_text_irrefl [] = refl
lt_text_irrefl (a ∷ as') = ground (arith, lt_text_irrefl as')

pub lt_text_trans : (a b c : Text) → lt_text a b ≡ true → lt_text b c ≡ true → lt_text a c ≡ true
unfolding lt_text
lt_text_trans [] [] c h k = ground arith
lt_text_trans [] (b ∷ bs) [] h k = ground arith
lt_text_trans [] (b ∷ bs) (c ∷ cs) h k = refl
lt_text_trans (a ∷ as') [] c h k = ground arith
lt_text_trans (a ∷ as') (b ∷ bs) [] h k = ground arith
lt_text_trans (a ∷ as') (b ∷ bs) (c ∷ cs) h k = ground (arith, lt_text_trans as' bs cs)

-- Two different texts are in one order or the other.
pub lt_text_total : (a b : Text) → eq_text a b ≡ false → lt_text a b ≡ false → lt_text b a ≡ true
unfolding lt_text eq_text
lt_text_total [] [] h k = ground arith
lt_text_total [] (b ∷ bs) h k = ground arith
lt_text_total (a ∷ as') [] h k = refl
lt_text_total (a ∷ as') (b ∷ bs) h k = ground (arith, lt_text_total as' bs)

pub lt_text_asym : (a b : Text) → lt_text a b ≡ true → lt_text b a ≡ false
unfolding lt_text
lt_text_asym [] [] h = refl
lt_text_asym [] (b ∷ bs) h = refl
lt_text_asym (a ∷ as') [] h = ground arith
lt_text_asym (a ∷ as') (b ∷ bs) h = ground (arith, lt_text_asym as' bs)

-- "Not above" is transitive.
pub lt_text_ntrans :
    (a b c : Text) → lt_text a b ≡ false → lt_text b c ≡ false → lt_text a c ≡ false
unfolding lt_text
lt_text_ntrans [] [] c h k = k
lt_text_ntrans [] (b ∷ bs) c h k = ground arith
lt_text_ntrans (a ∷ as') [] [] h k = refl
lt_text_ntrans (a ∷ as') [] (c ∷ cs) h k = ground arith
lt_text_ntrans (a ∷ as') (b ∷ bs) [] h k = refl
lt_text_ntrans (a ∷ as') (b ∷ bs) (c ∷ cs) h k = ground (arith, lt_text_ntrans as' bs cs)

-- A common prefix does not bear on the order.
pub lt_text-append : (p a b : Text) → lt_text (p ++ a) (p ++ b) ≡ lt_text a b
unfolding lt_text
lt_text-append [] a b = refl
lt_text-append (c ∷ p) a b = ground (arith, lt_text-append p a b)
