-- ===== src/Paths.antt =====
-- Path texts: `SafePath` (internal/runtime/runtime.go), `ValidID` (internal/config/config.go),
-- and what they use of the package `path`.
pub mod Safety
pub mod Containment
mod Tests
use mathlib.Core.List.{foldl, reverse}
use crawlbox.Common.{
  ℕ, Bool, true, false, ◌&&◌, ◌||◌, not, List, [], ◌∷◌, ◌++◌, Text, eq_text, codes, length, leb,
  ltb, ◌==◌, if◌then◌else◌, all, any,
}
use crawlbox.Common.Splitting.{split, join, has_byte}

abbrev pub dot : Text
dot = b'.' ∷ []

abbrev pub dot_dot : Text
dot_dot = b'.' ∷ b'.' ∷ []

-- `path.IsAbs`
unfoldable pub is_abs : Text → Bool
is_abs [] = false
is_abs (c ∷ cs) = c == b'/'

-- Going up from the elements kept so far, the last one first.
abbrev pub go_up : Bool → List Text → List Text
go_up rooted [] = if rooted then [] else dot_dot ∷ []
go_up rooted (s ∷ kept) = if eq_text s dot_dot then dot_dot ∷ s ∷ kept else kept

-- One element of a path, in `path.Clean`.
unfoldable pub clean_step : Bool → List Text → Text → List Text
clean_step rooted kept s =
    if eq_text s [] || eq_text s dot
    then kept
    else if eq_text s dot_dot
    then go_up rooted kept
    else s ∷ kept

abbrev pub or_dot : Text → Text
or_dot [] = dot
or_dot (c ∷ cs) = c ∷ cs

-- `path.Clean`: the shortest path that names the same by text alone.
unfoldable pub clean : Text → Text
unfolding clean_step is_abs
clean [] = dot
clean (c ∷ cs) =
    let p = c ∷ cs in
    let body = join b'/' (reverse (foldl (clean_step (is_abs p)) [] (split b'/' p))) in
    if is_abs p then b'/' ∷ body else or_dot body

-- `filepath.Join` of two texts that are not empty
unfoldable pub path_join : Text → Text → Text
path_join a b = clean (a ++ b'/' ∷ b)

-- `strings.ContainsAny(p, "\\\x00\r\n")`
unfoldable pub has_banned : Text → Bool
has_banned p = any (λ c. c == 92 || (c == 0 || (c == 13 || c == 10))) p

-- The test of the loop: an element that is neither empty nor a dot segment.
unfoldable pub is_plain : Text → Bool
is_plain s = not (eq_text s dot || (eq_text s dot_dot || eq_text s []))

unfoldable pub safe_path : Text → Bool
unfolding is_abs has_banned is_plain
safe_path p =
    if eq_text p []
      || (ltb 4096 (length p) || (is_abs p || (not (eq_text (clean p) p) || has_banned p)))
    then false
    else all is_plain (split b'/' p)

unfoldable pub is_alnum : ℕ → Bool
is_alnum c =
    (leb b'a' c && leb c b'z') || ((leb b'A' c && leb c b'Z') || (leb b'0' c && leb c b'9'))

unfoldable pub is_id_char : ℕ → Bool
unfolding is_alnum
is_id_char c = is_alnum c || (c == b'_' || c == b'-')

-- The regular expression `^[a-zA-Z0-9][a-zA-Z0-9_-]{0,63}$`
unfoldable pub valid_id : Text → Bool
unfolding is_alnum is_id_char
valid_id [] = false
valid_id (c ∷ cs) = is_alnum c && (leb (length cs) 63 && all is_id_char cs)
