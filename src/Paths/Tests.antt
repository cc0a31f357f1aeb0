-- ===== src/Paths/Tests.antt =====
-- The theorems on paths at concrete texts.
use crawlbox.Common.{
  ◌≡◌, refl, true, not, ◌&&◌, [], ◌∷◌, ◌++◌, Text, codes, length, leb, all, eq_text_iff, arith,
}
use crawlbox.Common.Splitting.{split}
use crawlbox.Paths.{is_abs, clean, path_join, safe_path, valid_id}
use crawlbox.Paths.Containment.{path_join_safe}

is_id : valid_id (codes "my-source_1") ≡ true
unfolding valid_id
is_id = refl

root_abs : is_abs (codes "/data") ≡ true
unfolding is_abs
root_abs = refl

root_clean : clean (codes "/data") ≡ codes "/data"
unfolding clean split crawlbox.Common.eq_text
root_clean = refl

inside : safe_path (codes "a/b.txt") ≡ true
unfolding safe_path crawlbox.Common.eq_text clean split
inside = refl

not_root : codes "/data" ≡ b'/' ∷ [] → ⊥
not_root e = cc

path_join_safe_example :
    path_join (codes "/data") (codes "a/b.txt") ≡ codes "/data" ++ b'/' ∷ codes "a/b.txt"
path_join_safe_example =
    path_join_safe (codes "/data") (codes "a/b.txt") root_abs root_clean not_root inside
