-- ===== src/App/Build/Changed.antt =====
-- The change list of a new revision against its files and those of the revision before.
use crawlbox.Common.{
  ◌≡◌, refl, sym, ap, ap₂, subst, ◌∙◌, select-append, Bool, true, false, ◌||◌, ◌&&◌, not, Option,
  none, some, List, [], ◌∷◌, ◌++◌, Map, Text, eq_text, eq_text_iff, lt_text, lt_text_irrefl, lookup,
  has, map, if◌then◌else◌, arith, codes,
}
use crawlbox.Common.Sorting.{sort, select-sort}
use crawlbox.Common.Result.{ok, >>=-eq-ok, ok-inj}
use crawlbox.Wire.{Entry}
use crawlbox.Model.{Change, Revision, deleted}
use crawlbox.Host.State.{Candidate, index_entries}
use crawlbox.Host.Candidate.{is_deleted}
use crawlbox.App.Changes.{change_of, by_path, diff}
use crawlbox.App.Changes.Exact.{
  changes_at, entry_at, first_at, happened, IsIndex, IsIndex-index_entries, HasDistinctPaths,
  changed_if,
}
use crawlbox.App.Confirm.{check, or_zero}
use crawlbox.App.Build.{
  Steps, Built, place, key, check_deletes, inherit, publish, deletion_of, build_files,
  build_artifacts, build,
}
use crawlbox.App.Build.Keys.{
  AreDistinct, among, among-keys, among-sort, sort-AreDistinct, has-publish, has-inherit,
  publish-AreDistinct, inherit-AreDistinct, first_at-among, paths-HasDistinctPaths, is_some,
}
use crawlbox.App.Build.Listed.{
  paths_of, changes_of, IsIndex-path, build_files-listed, changes_at-changes_of,
}

-- A candidate as the host makes it: a path is deleted once, and not also published.
pub record IsDisjoint (c : Candidate) : Type 0 where
  pub once : AreDistinct (map key c.deletes)
  pub marked : (p : Text) → has p c.deletes ≡ true → is_deleted p c.deletes ≡ true
  pub apart : (p : Text) → has p c.files ≡ true → has p c.deletes ≡ false

deletes_there :
    (p : Text) (old : Map Entry) (deletes : Map Bool)
    → check_deletes old deletes ≡ ok tt
    → has p deletes ≡ true
    → has p old ≡ true
unfolding check_deletes has lookup
deletes_there p old [] h e = cc
deletes_there p old ((k, b) ∷ deletes) h e =
    ground (arith, eq_text_iff k p, deletes_there p old deletes)

changes_at-deletes :
    (p : Text) (old : Map Entry) (deletes : Map Bool)
    → AreDistinct (map key deletes)
    → changes_at p (map (deletion_of old) deletes)
      ≡ (if has p deletes then deletion_of old (p, true) ∷ [] else [])
unfolding has lookup
changes_at-deletes p old [] d = refl
changes_at-deletes p old ((k, b) ∷ deletes) (once, d) =
    ground (arith, eq_text_iff k p, changes_at-deletes p old deletes d, among-keys k deletes)

-- One path: its old entry, its new one, and whether it is published, deleted and known.
settled :
    (p : Text) (o f : Option Entry) (published gone known marked : Bool)
    → known ≡ is_some o
    → is_some f ≡ (published || (known && not marked))
    → (gone ≡ true → known ≡ true)
    → (gone ≡ true → marked ≡ true)
    → (gone ≡ false → marked ≡ false)
    → (published ≡ true → gone ≡ false)
    → ((b : Entry) → o ≡ some b → b.path ≡ p)
    → changed_if o f
        ++ (if gone
            then record { path = p; kind = deleted; before = (or_zero o).sha256; after = [] } ∷ []
            else [])
      ≡ happened o f
unfolding change_of
settled p none none published gone known marked a b c d e g h = ground arith
settled p none (some f) published gone known marked a b c d e g h = ground arith
settled p (some o) none published gone known marked a b c d e g h =
    let at : o.path ≡ p = h o refl in let left : gone ≡ true = ground arith in rw (at, left)
settled p (some o) (some f) published gone known marked a b c d e g h = ground arith

unmarked : (p : Text) (deletes : Map Bool) → has p deletes ≡ false → is_deleted p deletes ≡ false
unfolding has is_deleted
unmarked p deletes h = ground arith

has-is_some {ℓ} : {V : Type ℓ} (p : Text) (m : Map V) → has p m ≡ is_some (lookup p m)
unfolding has
has-is_some p m = ground arith

-- A successful `build`, by its steps.
record Parts (sha256 : Text → Text) (disk : Text → Option Text) (io : Steps) (root previous : Text)
    (prev : Revision) (c : Candidate) (b : Built) : Type 0 where
  allowed : check_deletes (index_entries prev.files []) c.deletes ≡ ok tt
  changes : List Change
  tree : Map Text
  looped :
      build_files sha256 disk io root
        (index_entries prev.files [])
        c.files
        (publish c.files (inherit previous c.deletes (index_entries prev.files []) []))
        (sort lt_text
          (map key (publish c.files (inherit previous c.deletes (index_entries prev.files []) []))))
        []
      ≡ ok (b.files, changes, tree)
  all_changes :
      b.changes
      ≡ sort by_path (changes ++ map (deletion_of (index_entries prev.files [])) c.deletes)
  artifact_changes : b.artifact_changes ≡ diff prev.artifacts b.artifacts

module _ (sha256 : Text → Text) (disk : Text → Option Text) where
  build-Parts :
      (io : Steps) (root previous : Text) (prev : Revision) (c : Candidate) (b : Built)
      → build sha256 disk io root previous prev c ≡ ok b
      → Parts sha256 disk io root previous prev c b
  unfolding build
  build-Parts io root previous prev c b h =
      let old = index_entries prev.files [] in
      let paths = publish c.files (inherit previous c.deletes old []) in
      let (_, _, h1) = >>=-eq-ok (check (io.starting (place root (codes "files") []))) _ h in
      let (_, _, h2) = >>=-eq-ok (check (io.starting (place root (codes "artifacts") []))) _ h1 in
      let (_, allowed, h3) = >>=-eq-ok (check_deletes old c.deletes) _ h2 in
      let ((files, changes, tree), looped, h4) =
        >>=-eq-ok
          (build_files sha256 disk io root old c.files paths (sort lt_text (map key paths)) []) _
          h3 in
      let ((artifacts, last), _, h5) =
        >>=-eq-ok
          (build_artifacts sha256 disk io root c.artifacts (sort lt_text (map key c.artifacts))
            tree)
          _ h4 in
      let made = ok-inj h5 in
      record {
        allowed = allowed;
        changes = changes;
        tree = tree;
        looped =
            subst
              (λ (x : Built).
                build_files sha256 disk io root old c.files paths (sort lt_text (map key paths)) []
                ≡ ok (x.files, changes, tree))
              made looped;
        all_changes = sym (ap (λ (x : Built). x.changes) made);
        artifact_changes =
            subst (λ (x : Built). x.artifact_changes ≡ diff prev.artifacts x.artifacts) made refl;
      }

  module _ (io : Steps) (root previous : Text) (prev : Revision) (c : Candidate) (b : Built)
      (k : IsDisjoint c) (h : build sha256 disk io root previous prev c ≡ ok b) where
    abbrev old : Map Entry
    old = index_entries prev.files []

    old-IsIndex : IsIndex (index_entries prev.files [])
    old-IsIndex = IsIndex-index_entries prev.files [] tt

    listed :
        (paths_of b.files
          ≡ sort lt_text (map key (publish c.files (inherit previous c.deletes old []))))
        × ((build-Parts io root previous prev c b h).changes ≡ changes_of old b.files)
    listed =
        let t = build-Parts io root previous prev c b h in
        build_files-listed sha256 disk io root old c.files
          (publish c.files (inherit previous c.deletes old []))
          (sort lt_text (map key (publish c.files (inherit previous c.deletes old [])))) [] b.files
          t.changes t.tree old-IsIndex t.looped

    -- After a successful `build` of such a candidate, one that deletes a path once and publishes no
    -- path that it deletes, the files of the new revision have distinct paths, and these are the
    -- published paths and the paths of the revision before that the candidate does not delete.
    pub build-paths :
        HasDistinctPaths b.files
        × ((p : Text)
            → is_some (first_at p b.files) ≡ (
                has p c.files
                || (has p (index_entries prev.files []) && not (is_deleted p c.deletes))))
    unfolding has lookup
    build-paths =
        let inner = inherit previous c.deletes old [] in
        let paths = publish c.files inner in
        (
          paths-HasDistinctPaths b.files (
              subst AreDistinct (sym listed.0) (
                sort-AreDistinct (map key paths) (
                  publish-AreDistinct c.files inner
                    (inherit-AreDistinct previous c.deletes old [] tt)))),
          λ p.
              first_at-among p b.files
              ∙ ap (among p) listed.0
              ∙ among-sort p (map key paths)
              ∙ among-keys p paths
              ∙ has-publish p c.files inner
              ∙ ap (λ x. has p c.files || x) (has-inherit p previous c.deletes old []),
        )

    -- After a successful `build`, of a candidate that deletes a path once and publishes no path
    -- that it deletes, the change list of the new revision has for every path what happened to it
    -- between the files of the revision before and its own; and the artifact changes are the `diff`
    -- of the artifacts.
    pub build-changes :
        ((p : Text)
          → changes_at p b.changes ≡ happened (entry_at p prev.files) (first_at p b.files))
        × (b.artifact_changes ≡ diff prev.artifacts b.artifacts)
    build-changes =
        let t = build-Parts io root previous prev c b h in
        (
          λ p.
              ap (changes_at p) t.all_changes
              ∙ select-sort by_path (λ x. eq_text x.path p)
                  (t.changes ++ map (deletion_of old) c.deletes)
                  (λ x y ex ey.
                    ground (arith, eq_text_iff x.path p, eq_text_iff y.path p, lt_text_irrefl p))
              ∙ select-append (λ x. eq_text x.path p) t.changes (map (deletion_of old) c.deletes)
              ∙ ap₂ ◌++◌
                  (ap (changes_at p) listed.1
                    ∙ changes_at-changes_of sha256 disk p old b.files build-paths.0)
                  (changes_at-deletes p old c.deletes k.once)
              ∙ settled p (lookup p old) (first_at p b.files) (has p c.files) (has p c.deletes)
                  (has p old) (is_deleted p c.deletes) (has-is_some p old) (build-paths.1 p)
                  (deletes_there p old c.deletes t.allowed) (k.marked p) (unmarked p c.deletes)
                  (k.apart p) (λ e at. IsIndex-path p old e old-IsIndex at),
          t.artifact_changes,
        )
