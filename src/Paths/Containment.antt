-- ===== src/Paths/Containment.antt =====
-- A safe path that is joined to a directory stays below the directory.
use mathlib.Core.List.{foldl, reverse, foldl-append, reverse-append, reverse-reverse, append_assoc}
use crawlbox.Common.{
  ℕ, ◌≡◌, ◌≢◌, refl, sym, ap, ◌∙◌, true, List, [], ◌∷◌, ◌++◌, Text, ◌==◌, all, arith, Bool-cases,
  inl, inr,
}
use crawlbox.Common.Splitting.{split, join, cons_head}
use crawlbox.Paths.{clean_step, clean, path_join, is_abs, is_plain, safe_path}
use crawlbox.Paths.Safety.{join-split, split-ne-nil, foldl-plain, safe_path_exact}

cons_head-append :
    (c : ℕ) (ps qs : List Text) → ps ≢ [] → cons_head c (ps ++ qs) ≡ cons_head c ps ++ qs
cons_head-append c [] qs h = absurd (h refl)
cons_head-append c (p ∷ ps) qs h = refl

split-append : (sep : ℕ) (a b : Text) → split sep (a ++ sep ∷ b) ≡ split sep a ++ split sep b
unfolding split
split-append sep [] b = ground arith
split-append sep (c ∷ a) b = elim (Bool-cases (c == sep)) [
  | inl e ↦ rw (e, split-append sep a b)
  | inr e ↦
      rw (e, split-append sep a b)
        (cons_head-append c (split sep a) (split sep b) (split-ne-nil sep a))
]

join-append :
    (sep : ℕ) (ps qs : List Text)
    → ps ≢ []
    → qs ≢ []
    → join sep (ps ++ qs) ≡ join sep ps ++ sep ∷ join sep qs
join-append sep [] qs h k = absurd (h refl)
join-append sep (p ∷ []) [] h k = absurd (k refl)
join-append sep (p ∷ []) (q ∷ qs) h k = refl
join-append sep (p ∷ p' ∷ ps) qs h k = rw (join-append sep (p' ∷ ps) qs (λ e. cc) k, append_assoc)

-- The elements that `Clean` keeps of a path.
abbrev kept : Text → List Text
kept p = foldl (clean_step true) [] (split b'/' p)

clean-abs : (p : Text) → is_abs p ≡ true → clean p ≡ b'/' ∷ join b'/' (reverse (kept p))
unfolding clean
clean-abs [] h = unfold is_abs in cc
clean-abs (c ∷ cs) h = rw h

clean-append :
    (root p : Text)
    → is_abs root ≡ true
    → clean (root ++ b'/' ∷ p)
      ≡ b'/' ∷ join b'/' (reverse (foldl (clean_step true) (kept root) (split b'/' p)))
clean-append [] p h = unfold is_abs in cc
clean-append (c ∷ cs) p h =
    clean-abs (c ∷ (cs ++ b'/' ∷ p)) (unfold is_abs in h)
    ∙ rw (split-append b'/' (c ∷ cs) p, foldl-append)

-- A safe path that is joined to an absolute directory, which is in clean form and not the root,
-- is that directory, a slash and the path as it stands: no element of the path leads out of it.
pub path_join_safe :
    (root p : Text)
    → is_abs root ≡ true
    → clean root ≡ root
    → root ≢ b'/' ∷ []
    → safe_path p ≡ true
    → path_join root p ≡ root ++ b'/' ∷ p
unfolding path_join
path_join_safe root p abs h r safe =
    let plain : all is_plain (split b'/' p) ≡ true = ground (arith, safe_path_exact p) in
    let shape = clean-abs root abs in
    let body : reverse (kept root) ≢ [] =
      λ e. r (sym h ∙ shape ∙ ap (λ ps. b'/' ∷ join b'/' ps) e) in
    clean-append root p abs
    ∙ rw
        (
          foldl-plain true (kept root) (split b'/' p) plain,
          reverse-append,
          reverse-reverse,
          join-append b'/' (reverse (kept root)) (split b'/' p) body (split-ne-nil b'/' p),
          join-split b'/' p,
        )
        (ap (λ q. q ++ b'/' ∷ p) (sym shape ∙ h))
