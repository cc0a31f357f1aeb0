-- ===== src/Web/Pages.antt =====
-- `pagination` and `page` of internal/web/web.go.
pub mod Walk
use crawlbox.Common.{
  ℕ, zero, suc, ◌+◌, ◌-◌, ◌*◌, ◌^◌, ◌==◌, leb, ltb, min, Bool, true, false, ◌||◌, ◌&&◌, not, Option,
  none, some, List, [], ◌∷◌, ◌++◌, Text, eq_text, codes, length, any, take, drop, if◌then◌else◌,
}
use crawlbox.Common.Int.{ℤ, pos, negsuc, is_neg, to_ℕ}
use crawlbox.Web.{Response, refused, answered, ◌>>=◌, ◌>>◌}

-- The value of decimal digits after `n`; `none` at another byte.
unfoldable pub digits_after : ℕ → Text → Option ℕ
digits_after n [] = some n
digits_after n (c ∷ cs) =
    let rest = digits_after (n * 10 + (c - b'0')) cs in
    if leb b'0' c && leb c b'9' then rest else none

-- A number of at least one digit.
abbrev pub digits_value : Text → Option ℕ
digits_value [] = none
digits_value (c ∷ cs) = digits_after 0 (c ∷ cs)

abbrev pub negated : ℕ → ℤ
negated zero = pos 0
negated (suc n) = negsuc n

abbrev pub in_range : Option ℕ → ℕ → (ℕ → ℤ) → Option ℤ
in_range none bound make = none
in_range (some n) bound make = if leb n bound then some (make n) else none

-- `strconv.Atoi`: a sign, digits, and the range of `int`, which is 64 bits wide.
unfoldable pub atoi : Text → Option ℤ
unfolding digits_after
atoi [] = none
atoi (c ∷ cs) =
    if c == b'-'
    then in_range (digits_value cs) (2 ^ 63) negated
    else if c == b'+'
    then in_range (digits_value cs) (2 ^ 63 - 1) pos
    else in_range (digits_value (c ∷ cs)) (2 ^ 63 - 1) pos

-- One parameter of the query: an empty one has its default.
abbrev pub parameter : Text → ℕ → Response ℤ
parameter [] default = answered (pos default)
parameter (c ∷ cs) default = elim (atoi (c ∷ cs)) [ none ↦ refused 400 | some n ↦ answered n ]

-- `off < 0 || lim < 1 || lim > 1000`
abbrev pub out_of_bounds : ℤ → ℤ → Bool
out_of_bounds off lim = is_neg off || (is_neg lim || (to_ℕ lim == 0 || ltb 1000 (to_ℕ lim)))

-- `pagination`, from the parameters "offset" and "limit".
unfoldable pub pagination : Text → Text → Response (ℕ × ℕ)
unfolding atoi
pagination offset limit = do
  off ← parameter offset 0
  lim ← parameter limit 1000
  if out_of_bounds off lim then refused 400 else answered (to_ℕ off, to_ℕ lim)

-- A page of a listing, the length of the whole, and where the next page starts.
pub record Page (A : Type 0) : Type 0 where
  pub entries : List A
  pub total : ℕ
  pub next_offset : ℕ

-- `page` after `pagination`: `entries[off:end]`
unfoldable pub page_at : {A : Type 0} → ℕ → ℕ → List A → Page A
page_at offset limit entries =
    let off = min offset (length entries) in
    let end = min (off + limit) (length entries) in
    record {
      entries = take (end - off) (drop off entries);
      total = length entries;
      next_offset = end;
    }

unfoldable pub page : {A : Type 0} → Text → Text → List A → Response (Page A)
unfolding pagination page_at
page offset limit entries = do
  (off, lim) ← pagination offset limit
  answered (page_at off lim entries)
