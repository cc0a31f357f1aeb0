-- ===== src/Kopia/Known.antt =====
-- Only complete snapshots of the right identifier are restored.
use crawlbox.Common.{
  ◌≡◌, ◌⊎◌, inl, inr, refl, ap, sym, subst, ◌∙◌, Bool, true, false, not, Option, none, some, List,
  [], ◌∷◌, ◌++◌, Map, Text, eq_text, eq_text_iff, lookup, insert, lookup-insert, codes, arith,
  if◌then◌else◌,
}
use crawlbox.Common.Splitting.{strip_prefix}
use crawlbox.Common.Result.{Result, ok, err, new, ok-inj}
use crawlbox.App.Recovery.{Snapshot, is_complete}
use crawlbox.Kopia.{
  normalize, normalize_tags, normalize_all, kept_tag, Cache, list, remember, reference,
  complete_one, after_list, with_known, restore,
}

abbrev stripped_is : Text → Option Text → Bool
stripped_is k none = false
stripped_is k (some m) = eq_text m k

-- A name is a prefix before another name exactly if that is what is left of it.
eq_text-strip_prefix : (p j k : Text) → eq_text j (p ++ k) ≡ stripped_is k (strip_prefix p j)
unfolding strip_prefix eq_text
eq_text-strip_prefix [] j k = refl
eq_text-strip_prefix (c ∷ p) [] k = refl
eq_text-strip_prefix (c ∷ p) (d ∷ j) k = ground (arith, eq_text-strip_prefix p j k)

-- A tag of a snapshot is the command's tag of that name after "tag:", and there are no others.
pub normalize_tags-lookup :
    (k : Text) (tags : Map Text) → lookup k (normalize_tags tags) ≡ lookup (codes "tag:" ++ k) tags
unfolding normalize_tags lookup
normalize_tags-lookup k [] = refl
normalize_tags-lookup k ((j, v) ∷ tags) =
    by_prefix (strip_prefix (codes "tag:") j) (normalize_tags-lookup k tags)
    ∙ ap (λ b. if b then some v else lookup (codes "tag:" ++ k) tags)
        (sym (eq_text-strip_prefix (codes "tag:") j k))
  where
    by_prefix :
        (o : Option Text)
        → lookup k (normalize_tags tags) ≡ lookup (codes "tag:" ++ k) tags
        → lookup k (kept_tag o v (normalize_tags tags))
          ≡ (if stripped_is k o then some v else lookup (codes "tag:" ++ k) tags)
    by_prefix none h = h
    by_prefix (some m) h = ap (λ x. if eq_text m k then some v else x) h

-- Every snapshot in the cache stands under its own identifier.
abbrev pub IsKeyed : Cache → Type 0
IsKeyed cache = (id : Text) (s : Snapshot) → lookup id cache ≡ some s → s.id ≡ id

insert-IsKeyed : (s : Snapshot) (cache : Cache) → IsKeyed cache → IsKeyed (insert s.id s cache)
insert-IsKeyed s cache k id t h =
    ground (arith, lookup-insert s.id id s cache, eq_text_iff s.id id, k id t)

remember-IsKeyed :
    (ss : List Snapshot) (cache : Cache) → IsKeyed cache → IsKeyed (remember ss cache)
unfolding remember
remember-IsKeyed [] cache k = k
remember-IsKeyed (s ∷ ss) cache k =
    remember-IsKeyed ss (insert s.id s cache) (insert-IsKeyed s cache k)

list-IsKeyed :
    (r : Result (List Snapshot)) (cache : Cache) → IsKeyed cache → IsKeyed (list r cache).1
unfolding list
list-IsKeyed (err e) cache k = k
list-IsKeyed (ok ss) cache k = remember-IsKeyed (normalize_all ss) cache k

complete-reference :
    (o : Option Snapshot) (relative ref : Text)
    → complete_one o relative ≡ ok ref
    → (s : Snapshot) × (o ≡ some s) × (is_complete s ≡ true) × (ref ≡ reference s relative)
complete-reference none relative ref h = cc
complete-reference (some s) relative ref h = by_test (is_complete s) refl h
  where
    by_test :
        (b : Bool)
        → is_complete s ≡ b
        → (if not b then err (new "complete snapshot not found") else ok (reference s relative))
          ≡ ok ref
        → (t : Snapshot) × (some s ≡ some t) × (is_complete t ≡ true) × (ref ≡ reference t relative)
    by_test true e k = (s, refl, e, sym (ok-inj k))
    by_test false e k = cc

-- One of the snapshots that the command listed, with its tags as they are kept.
abbrev pub IsListed : Snapshot → List Snapshot → Type 0
IsListed s [] = ⊥
IsListed s (t ∷ ts) = (s ≡ normalize t) ⊎ IsListed s ts

remember-lookup :
    (id : Text) (s : Snapshot) (ss : List Snapshot) (cache : Cache)
    → lookup id (remember (normalize_all ss) cache) ≡ some s
    → (lookup id cache ≡ some s) ⊎ IsListed s ss
unfolding remember
remember-lookup id s [] cache h = inl h
remember-lookup id s (t ∷ ts) cache h =
    elim (remember-lookup id s ts (insert t.id (normalize t) cache) h) [
      | inl there ↦
          by_id (eq_text t.id id) (sym (lookup-insert t.id id (normalize t) cache) ∙ there)
      | inr later ↦ inr (inr later)
    ]
  where
    by_id :
        (b : Bool)
        → (if b then some (normalize t) else lookup id cache) ≡ some s
        → (lookup id cache ≡ some s) ⊎ IsListed s (t ∷ ts)
    by_id true e = inr (inl cc)
    by_id false e = inl e

-- Where a snapshot comes from: it was known, or it was not and the command has listed it.
abbrev pub IsFrom : Result (List Snapshot) → Text → Cache → Snapshot → Type 0
IsFrom listed id cache s =
    (lookup id cache ≡ some s)
    ⊎ ((lookup id cache ≡ none) × ((ss : List Snapshot) × (listed ≡ ok ss) × IsListed s ss))

list-IsFrom :
    (listed : Result (List Snapshot)) (id : Text) (cache : Cache) (ss : List Snapshot) (c : Cache)
    (s : Snapshot)
    → lookup id cache ≡ none
    → list listed cache ≡ (ok ss, c)
    → lookup id c ≡ some s
    → IsFrom listed id cache s
unfolding list
list-IsFrom (err e) id cache ss c s unknown h there = cc
list-IsFrom (ok all) id cache ss c s unknown h there =
    elim (remember-lookup id s all cache (ap (λ x. lookup id x.1) h ∙ there)) [
      | inl before ↦ cc
      | inr found ↦ inr (unknown, (all, refl, found))
    ]

-- From a cache whose snapshots stand under their own identifiers, what `Restore` asks the command
-- for is the root of the snapshot that the cache then has under the identifier, or the file in it.
-- That snapshot has this identifier and is complete; it was in the cache, or it was not known
-- before and is one that the command has listed, with its tags normalized. The cache stays so.
pub restore_known :
    (listed : Result (List Snapshot)) (id relative ref : Text) (cache cache' : Cache)
    → IsKeyed cache
    → restore listed id relative cache ≡ (ok ref, cache')
    → IsKeyed cache'
      × ((s : Snapshot) × (lookup id cache' ≡ some s)
          × (s.id ≡ id)
          × (is_complete s ≡ true)
          × (ref ≡ reference s relative)
          × IsFrom listed id cache s)
unfolding restore
restore_known listed id relative ref cache cache' keyed h = by_cache (lookup id cache) refl h
  where
    Found : Cache → Type 0
    Found c =
        IsKeyed c
        × ((s : Snapshot) × (lookup id c ≡ some s)
            × (s.id ≡ id)
            × (is_complete s ≡ true)
            × (ref ≡ reference s relative)
            × IsFrom listed id cache s)

    found :
        (c : Cache) (o : Option Snapshot)
        → IsKeyed c
        → lookup id c ≡ o
        → ((s : Snapshot) → lookup id c ≡ some s → IsFrom listed id cache s)
        → complete_one o relative ≡ ok ref
        → Found c
    found c o k at from e =
        let (s, same, whole, asked) = complete-reference o relative ref e in
        (k, (s, at ∙ same, k id s (at ∙ same), whole, asked, from s (at ∙ same)))

    by_list :
        (x : Result (List Snapshot) × Cache)
        → lookup id cache ≡ none
        → list listed cache ≡ x
        → IsKeyed x.1
        → after_list x id relative ≡ (ok ref, cache')
        → Found cache'
    by_list (err e, c) unknown at k l = cc
    by_list (ok ss, c) unknown at k l = subst Found (ap (λ x. x.1) l) (
        found c (lookup id c) k refl (λ s. list-IsFrom listed id cache ss c s unknown at)
          (ap (λ x. x.0) l))

    by_cache :
        (o : Option Snapshot)
        → lookup id cache ≡ o
        → with_known o listed id relative cache ≡ (ok ref, cache')
        → Found cache'
    by_cache (some s) at l =
        subst Found (ap (λ x. x.1) l)
          (found cache (some s) keyed at (λ t there. inl there) (ap (λ x. x.0) l))
    by_cache none at l = by_list (list listed cache) at refl (list-IsKeyed listed cache keyed) l
