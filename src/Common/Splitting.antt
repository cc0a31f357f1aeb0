-- ===== src/Common/Splitting.antt =====
-- `strings.Split` at one byte, `strings.Join` and `strings.TrimSpace`.
use mathlib.Core.Path.{◌≡◌, refl}
use mathlib.Core.Bool.{Bool, false, ◌||◌}
use mathlib.Core.Option.{Option, none, some}
use mathlib.Core.List.{List, [], ◌∷◌, ◌++◌, reverse, map}
use Prim.Native.Nat.{ℕ, zero, suc}
use native.Mathlib.Omega.{arith}
use crawlbox.Common.Tests.{◌==◌, if◌then◌else◌}
use crawlbox.Common.Lists.{length}
use crawlbox.Common.Texts.{Text, codes}

-- Whether a text has the byte: `strings.ContainsRune` at an ASCII rune.
unfoldable pub has_byte : ℕ → Text → Bool
has_byte c [] = false
has_byte c (b ∷ bs) = b == c || has_byte c bs

abbrev pub cons_head : ℕ → List Text → List Text
cons_head c [] = (c ∷ []) ∷ []
cons_head c (p ∷ ps) = (c ∷ p) ∷ ps

unfoldable pub split : ℕ → Text → List Text
split sep [] = [] ∷ []
split sep (c ∷ cs) = let rest = split sep cs in if c == sep then [] ∷ rest else cons_head c rest

abbrev pub join : ℕ → List Text → Text
join sep [] = []
join sep (p ∷ []) = p
join sep (p ∷ q ∷ ps) = p ++ sep ∷ join sep (q ∷ ps)

split_no_sep : (sep : ℕ) (s : Text) → has_byte sep s ≡ false → split sep s ≡ s ∷ []
unfolding split has_byte
split_no_sep sep [] h = refl
split_no_sep sep (c ∷ cs) h = ground (arith, split_no_sep sep cs)

-- Two texts without the separator are the two parts of their join.
pub split_pair :
    (sep : ℕ) (a b : Text)
    → has_byte sep a ≡ false
    → has_byte sep b ≡ false
    → split sep (a ++ sep ∷ b) ≡ a ∷ b ∷ []
unfolding split has_byte
split_pair sep [] b h k = ground (arith, split_no_sep sep b k)
split_pair sep (c ∷ a) b h k = ground (arith, split_pair sep a b)

-- The UTF-8 encodings of the white space characters of Unicode.
abbrev pub spaces : List Text
spaces =
    (9 ∷ [])
    ∷ (10 ∷ [])
    ∷ (11 ∷ [])
    ∷ (12 ∷ [])
    ∷ (13 ∷ [])
    ∷ (32 ∷ [])
    ∷ (0xc2 ∷ 0x85 ∷ [])
    ∷ (0xc2 ∷ 0xa0 ∷ [])
    ∷ (0xe1 ∷ 0x9a ∷ 0x80 ∷ [])
    ∷ (0xe2 ∷ 0x80 ∷ 0x80 ∷ [])
    ∷ (0xe2 ∷ 0x80 ∷ 0x81 ∷ [])
    ∷ (0xe2 ∷ 0x80 ∷ 0x82 ∷ [])
    ∷ (0xe2 ∷ 0x80 ∷ 0x83 ∷ [])
    ∷ (0xe2 ∷ 0x80 ∷ 0x84 ∷ [])
    ∷ (0xe2 ∷ 0x80 ∷ 0x85 ∷ [])
    ∷ (0xe2 ∷ 0x80 ∷ 0x86 ∷ [])
    ∷ (0xe2 ∷ 0x80 ∷ 0x87 ∷ [])
    ∷ (0xe2 ∷ 0x80 ∷ 0x88 ∷ [])
    ∷ (0xe2 ∷ 0x80 ∷ 0x89 ∷ [])
    ∷ (0xe2 ∷ 0x80 ∷ 0x8a ∷ [])
    ∷ (0xe2 ∷ 0x80 ∷ 0xa8 ∷ [])
    ∷ (0xe2 ∷ 0x80 ∷ 0xa9 ∷ [])
    ∷ (0xe2 ∷ 0x80 ∷ 0xaf ∷ [])
    ∷ (0xe2 ∷ 0x81 ∷ 0x9f ∷ [])
    ∷ (0xe3 ∷ 0x80 ∷ 0x80 ∷ [])
    ∷ []

-- What is left behind a prefix.
unfoldable pub strip_prefix : Text → Text → Option Text
strip_prefix [] s = some s
strip_prefix (p ∷ ps) [] = none
strip_prefix (p ∷ ps) (c ∷ cs) = if p == c then strip_prefix ps cs else none

unfoldable pub strip_any : List Text → Text → Option Text
unfolding strip_prefix
strip_any [] s = none
strip_any (p ∷ ps) s = elim (strip_prefix p s) [ some rest ↦ some rest | none ↦ strip_any ps s ]

-- Each round drops one character, so as many rounds as bytes are enough.
unfoldable pub strip_all : ℕ → List Text → Text → Text
unfolding strip_any
strip_all zero ps s = s
strip_all (suc n) ps s = elim (strip_any ps s) [ some rest ↦ strip_all n ps rest | none ↦ s ]

unfoldable pub trim_space : Text → Text
unfolding strip_all
trim_space s =
    let left = strip_all (length s) spaces s in
    reverse (strip_all (length left) (map reverse spaces) (reverse left))

trim_space_test : trim_space (codes "  a b ") ≡ codes "a b"
unfolding trim_space
trim_space_test = refl
