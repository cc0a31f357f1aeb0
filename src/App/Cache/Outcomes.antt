-- ===== src/App/Cache/Outcomes.antt =====
-- What is in the cache after `current`.
use crawlbox.Common.{
  ◌≡◌, refl, sym, ap, subst, eq_text_refl, ◌⊎◌, inl, inr, Bool, true, false, Option, none, some,
  Text, All, eq_text, lookup, insert, lookup-insert, lookup-erase, codes, if◌then◌else◌,
}
use crawlbox.Common.Result.{Error, Result, ok, err}
use crawlbox.Model.{Revision}
use crawlbox.Paths.{path_join}
use crawlbox.App.Confirm.{verify}
use crawlbox.App.Confirm.Sealed.{IsRestored, verify-IsRestored}
use crawlbox.App.Cache.{
  Installed, Cache, Replacing, replace_current, Preparing, is_cached, install_restored, current,
  put, restore_tree, done_at, unless_error, with_dir, after_check, unless_ended,
}

-- A tree with every file and artifact of the revision, each as its entry records it.
abbrev pub HasTree : (Text → Text) → Revision → Installed → Type 0
HasTree sha256 r i =
    All (IsRestored sha256 i.tree (path_join i.root (codes "files"))) r.files
    × All (IsRestored sha256 i.tree (path_join i.root (codes "artifacts"))) r.artifacts

-- What holds after an early return and after what follows it holds after both.
unless_error-both {ℓ κ} :
    {A : Type ℓ} (P : Result A × Cache → Type κ) (o : Option Error) (cache : Cache)
    (next : Result A × Cache)
    → ((e : Error) → P (err e, cache))
    → P next
    → P (unless_error o cache next)
unless_error-both P none cache next early late = late
unless_error-both P (some e) cache next early late = early e

with_dir-both {κ} :
    (P : Result Text × Cache → Type κ) (o : Result Text) (cache : Cache)
    (next : Text → Result Text × Cache)
    → ((e : Error) → P (err e, cache))
    → ((tmp : Text) → P (next tmp))
    → P (with_dir o cache next)
with_dir-both P (ok tmp) cache next early late = late tmp
with_dir-both P (err e) cache next early late = early e

module _ (source s : Text) (cache : Cache) (other : eq_text source s ≡ false) where
  -- The tree of the source `s` is as before.
  abbrev IsSpared {ℓ} : {A : Type ℓ} → A × Cache → Type 0
  IsSpared x = lookup s x.1 ≡ lookup s cache

  put-IsSpared : (i : Option Installed) → lookup s (put source i cache) ≡ lookup s cache
  put-IsSpared none = rw (lookup-erase source s cache, other)
  put-IsSpared (some i) = rw (lookup-insert source s i cache, other)

  replace-IsSpared : (io : Replacing) (i : Installed) → IsSpared (replace_current io source i cache)
  unfolding replace_current
  replace-IsSpared io i =
      unless_error-both IsSpared io.removing _ _ (λ e. put-IsSpared io.remains)
        (unless_error-both IsSpared io.parent_dir _ _ (λ e. put-IsSpared none)
          (unless_error-both IsSpared io.renaming _ _ (λ e. put-IsSpared none)
            (put-IsSpared (some i))))

  done_at-IsSpared :
      (dst : Text) (x : Result (Unit {0}) × Cache) → IsSpared x → IsSpared (done_at dst x)
  done_at-IsSpared dst (ok passed, c) h = h
  done_at-IsSpared dst (err e, c) h = h

  after_check-IsSpared :
      (o : Result (Unit {0})) (next : Result Text × Cache)
      → IsSpared next
      → IsSpared (after_check o cache next)
  after_check-IsSpared (ok passed) next h = h
  after_check-IsSpared (err e) next h = refl

module _ (sha256 : Text → Text) (current_dir : Text) where
  -- Whatever fails, `current` leaves the trees of all other sources.
  pub current_spares_others :
      (io : Preparing) (r : Revision) (cache : Cache) (s : Text)
      → eq_text r.source s ≡ false
      → lookup s (current sha256 current_dir io r cache).1 ≡ lookup s cache
  unfolding current install_restored
  current_spares_others io r cache s other =
      let P : Result Text × Cache → Type 0 = IsSpared r.source s cache other in
      unless_error-both P io.lock cache _ (λ e. refl) (by_cache _)
    where
      restored :
          (i : Installed)
          → IsSpared r.source s cache other (install_restored sha256 current_dir io r cache i)
      restored i = after_check-IsSpared r.source s cache other _ _ (
          done_at-IsSpared r.source s cache other _ _
            (replace-IsSpared r.source s cache other io.replacing i))

      by_cache :
          (b : Bool)
          → IsSpared r.source s cache other (
              if b
              then (unless_ended io.ended (path_join current_dir r.source), cache)
              else restore_tree sha256 current_dir io r cache)
      by_cache true = refl
      by_cache false =
          unless_error-both (IsSpared r.source s cache other) io.ended cache _ (λ e. refl)
            (with_dir-both (IsSpared r.source s cache other) io.temp_dir cache _ (λ e. refl)
              λ tmp.
                unless_error-both (IsSpared r.source s cache other) io.restore cache _ (λ e. refl)
                  (restored (io.restored tmp)))

unless_error-ok {ℓ} :
    {A : Type ℓ} (o : Option Error) (cache : Cache) (next : Result A × Cache) {a : A} {c : Cache}
    → unless_error o cache next ≡ (ok a, c)
    → next ≡ (ok a, c)
unless_error-ok none cache next h = h
unless_error-ok (some e) cache next h = cc

with_dir-ok :
    (o : Result Text) (cache : Cache) (next : Text → Result Text × Cache) {dst : Text} {c : Cache}
    → with_dir o cache next ≡ (ok dst, c)
    → (tmp : Text) × (o ≡ ok tmp) × (next tmp ≡ (ok dst, c))
with_dir-ok (ok tmp) cache next h = (tmp, refl, h)
with_dir-ok (err e) cache next h = cc

after_check-ok :
    (o : Result (Unit {0})) (cache : Cache) (next : Result Text × Cache) {dst : Text} {c : Cache}
    → after_check o cache next ≡ (ok dst, c)
    → (o ≡ ok tt) × (next ≡ (ok dst, c))
after_check-ok (ok passed) cache next h = (refl, h)
after_check-ok (err e) cache next h = cc

done_at-ok :
    (place dst : Text) (x : Result (Unit {0}) × Cache) {c : Cache}
    → done_at place x ≡ (ok dst, c)
    → (dst ≡ place) × (x ≡ (ok tt, c))
done_at-ok place dst (ok passed, c) h = (cc, cc)
done_at-ok place dst (err e, c) h = cc

replace_current-ok :
    (io : Replacing) (source : Text) (i : Installed) (cache : Cache) {c : Cache}
    → replace_current io source i cache ≡ (ok tt, c)
    → lookup source c ≡ some i
unfolding replace_current
replace_current-ok io source i cache {c} h =
    let e : (ok tt, insert source i cache) ≡ (ok tt, c) =
      unless_error-ok io.renaming _ _
        (unless_error-ok io.parent_dir _ _ (unless_error-ok io.removing _ _ h)) in
    subst (λ (m : Cache). lookup source m ≡ some i) (ap (λ x. x.1) e)
      (rw (lookup-insert source source i cache, eq_text_refl source))

unless_ended-ok :
    (o : Option Error) {place dst : Text} → unless_ended o place ≡ ok dst → dst ≡ place
unless_ended-ok none h = cc
unless_ended-ok (some e) h = cc

module _ (sha256 : Text → Text) (current_dir : Text) (io : Preparing) (r : Revision)
    (cache : Cache) where
  -- What a successful `current` leaves at the revision's source.
  abbrev Ready : Cache → Type 0
  Ready c =
      ((is_cached r (lookup r.source cache) ≡ true) × (c ≡ cache))
      ⊎ ((tmp : Text) × (io.temp_dir ≡ ok tmp)
          × HasTree sha256 r (io.restored tmp)
          × (lookup r.source c ≡ some (io.restored tmp)))

  restore_tree-ok :
      {dst : Text} {c : Cache}
      → restore_tree sha256 current_dir io r cache ≡ (ok dst, c)
      → (dst ≡ path_join current_dir r.source) × Ready c
  unfolding restore_tree install_restored
  restore_tree-ok h =
      let (tmp, made, h1) = with_dir-ok io.temp_dir cache _ (unless_error-ok io.ended cache _ h) in
      let i = io.restored tmp in
      let (verified, h2) =
        after_check-ok (verify sha256 io.files_first i.tree i.root r) cache _
          (unless_error-ok io.restore cache _ h1) in
      let (at, h3) = done_at-ok (path_join current_dir r.source) _ _ h2 in
      let (files, _, artifacts, _) =
        verify-IsRestored sha256 io.files_first i.tree i.root r verified in
      (at, inr (tmp, made, (files, artifacts), replace_current-ok io.replacing r.source i cache h3))

  hit-ok :
      (b : Bool) {dst : Text} {c : Cache}
      → is_cached r (lookup r.source cache) ≡ b
      → (if b
          then (unless_ended io.ended (path_join current_dir r.source), cache)
          else restore_tree sha256 current_dir io r cache)
        ≡ (ok dst, c)
      → (dst ≡ path_join current_dir r.source) × Ready c
  hit-ok true e h = (unless_ended-ok io.ended (ap (λ x. x.0) h), inl (e, sym (ap (λ x. x.1) h)))
  hit-ok false e h = restore_tree-ok h

  -- If `current` succeeds, it answers the source's place in the cache, where either the tree of a
  -- revision with the same identifier was already, and the cache is unchanged, or now the tree is
  -- that the backend restored, in which every file and artifact is what the revision records.
  pub current-HasTree :
      (dst : Text) (c : Cache)
      → current sha256 current_dir io r cache ≡ (ok dst, c)
      → (dst ≡ path_join current_dir r.source)
        × (((is_cached r (lookup r.source cache) ≡ true) × (c ≡ cache))
            ⊎ ((tmp : Text) × (io.temp_dir ≡ ok tmp)
                × HasTree sha256 r (io.restored tmp)
                × (lookup r.source c ≡ some (io.restored tmp))))
  unfolding current
  current-HasTree dst c h =
      hit-ok (is_cached r (lookup r.source cache)) refl (unless_error-ok io.lock cache _ h)
