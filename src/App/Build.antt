-- ===== src/App/Build.antt =====
-- `build` and `copyFile` of internal/app/app.go: the tree of a new revision, made of what it
-- inherits and what the candidate publishes. `disk` is what lies on the disk before, and the tree
-- that is built is a map from paths to bytes; a hard link has the bytes of its file. What the
-- system answers is given by the destination of the step.
pub mod Listed
pub mod Keys
pub mod Changed
use crawlbox.Common.{
  ℕ, ◌==◌, Bool, true, false, ◌||◌, ◌&&◌, not, Option, none, some, List, [], ◌∷◌, ◌++◌, Map, Text,
  eq_text, lt_text, lookup, insert, has, length, codes, map, if◌then◌else◌,
}
use crawlbox.Common.Sorting.{sort}
use crawlbox.Common.Result.{Error, Result, ok, err, new, external, not_exist, ◌>>=◌, ◌>>◌, fail_if}
use crawlbox.Wire.{Entry}
use crawlbox.Model.{Change, Revision, deleted}
use crawlbox.Paths.{safe_path, path_join, clean}
use crawlbox.Host.State.{Candidate, index_entries}
use crawlbox.Host.Candidate.{is_deleted}
use crawlbox.App.Changes.{change_of, by_path, diff}
use crawlbox.App.Confirm.{check, zero_entry, or_zero}

-- `starting`: an ended context or the error of `MkdirAll`. `copying`: the error of opening,
-- copying or closing where the link fails. `hashing` and `lstat`: the errors of those steps.
pub record Steps : Type 0 where
  pub starting : Text → Option Error
  pub links : Text → Bool
  pub copying : Text → Option Error
  pub hashing : Text → Option Error
  pub lstat : Text → Option Error

-- `filepath.Join(root, kind, p)`, which passes over an empty root.
abbrev pub place : Text → Text → Text → Text
place root kind p =
    if eq_text root [] then clean (kind ++ b'/' ∷ p) else path_join root (kind ++ b'/' ∷ p)

abbrev pub key {ℓ} : {V : Type ℓ} → Text × V → Text
key (k, v) = k

-- What a revision has from `build`, and the tree.
pub record Built : Type 0 where
  pub files : List Entry
  pub artifacts : List Entry
  pub changes : List Change
  pub artifact_changes : List Change
  pub tree : Map Text

module _ (disk : Text → Option Text) where
  unfoldable pub bytes_at : Map Text → Text → Option Text
  bytes_at tree p = elim (lookup p tree) [ some b ↦ some b | none ↦ disk p ]

  abbrev pub is_there : Option Text → Bool
  is_there none = false
  is_there (some b) = true

  abbrev pub place_bytes : Steps → Text → Option Text → Map Text → Result (Map Text)
  place_bytes io dst none tree = err not_exist
  place_bytes io dst (some b) tree =
      if is_there (bytes_at tree dst)
      then err (external 17)
      else if io.links dst
      then ok (insert dst b tree)
      else check (io.copying dst) >> ok (insert dst b tree)

  unfoldable pub copy_file : Steps → Text → Text → Map Text → Result (Map Text)
  unfolding bytes_at
  copy_file io src dst tree = do
    check (io.starting dst)
    place_bytes io dst (bytes_at tree src) tree

-- The loop over the deletions: each is of a path that is there.
unfoldable pub check_deletes : Map Entry → Map Bool → Result (Unit {0})
check_deletes old [] = ok tt
check_deletes old ((p, b) ∷ deletes) =
    fail_if (not (has p old)) (new "delete absent path") >> check_deletes old deletes

-- The loops that collect where each file of the new revision comes from.
unfoldable pub inherit : Text → Map Bool → Map Entry → Map Text → Map Text
unfolding is_deleted
inherit previous deletes [] paths = paths
inherit previous deletes ((p, e) ∷ old) paths =
    inherit previous deletes old
      (if is_deleted p deletes then paths else insert p (place previous (codes "files") p) paths)

unfoldable pub publish : Map Text → Map Text → Map Text
publish [] paths = paths
publish ((p, v) ∷ files) paths = publish files (insert p v paths)

-- `Change{Path: p, Kind: "deleted", Before: old[p].SHA256}`
abbrev pub deletion_of : Map Entry → Text × Bool → Change
deletion_of old (p, b) = record {
  path = p;
  kind = deleted;
  before = (or_zero (lookup p old)).sha256;
  after = [];
}

module _ (sha256 : Text → Text) (disk : Text → Option Text) where
  -- `FileEntryContext` of a file that was built.
  abbrev pub hashed : Option Error → Option Text → Text → Result Entry
  hashed (some e) bytes p = err e
  hashed none none p = err not_exist
  hashed none (some b) p = ok (record { path = p; size = length b; sha256 = sha256 b })

  -- The entry of an inherited file, if the file still has the size that it records.
  abbrev pub inherited : Option Error → Option Text → Entry → Result Entry
  inherited (some e) bytes entry = err e
  inherited none none entry = err not_exist
  inherited none (some b) entry =
      if length b == entry.size then ok entry else err (new "inherited file metadata mismatch")

  abbrev pub entry_for : Steps → Map Text → Bool → Text → Text → Option Entry → Result Entry
  entry_for io tree replaced dst p none = hashed (io.hashing dst) (bytes_at disk tree dst) p
  entry_for io tree replaced dst p (some e) =
      if replaced
      then hashed (io.hashing dst) (bytes_at disk tree dst) p
      else inherited (io.lstat dst) (bytes_at disk tree dst) e

  -- The loop over the sorted paths.
  unfoldable pub build_files :
      Steps
      → Text
      → Map Entry
      → Map Text
      → Map Text
      → List Text
      → Map Text
      → Result (List Entry × List Change × Map Text)
  unfolding copy_file bytes_at change_of
  build_files io root old published paths [] tree = ok ([], [], tree)
  build_files io root old published paths (p ∷ ps) tree =
      let dst = place root (codes "files") p in
      do
        fail_if (not (safe_path p)) (new "invalid candidate path")
        copied ← elim (lookup p paths) [
          | none ↦ err not_exist
          | some src ↦ copy_file disk io src dst tree
        ]
        entry ← entry_for io copied (has p published) dst p (lookup p old)
        (files, changes, last) ← build_files io root old published paths ps copied
        ok (entry ∷ files, change_of (lookup p old) entry ++ changes, last)

  -- The loop over the sorted artifacts.
  unfoldable pub build_artifacts :
      Steps → Text → Map Text → List Text → Map Text → Result (List Entry × Map Text)
  unfolding copy_file bytes_at
  build_artifacts io root artifacts [] tree = ok ([], tree)
  build_artifacts io root artifacts (p ∷ ps) tree =
      let dst = place root (codes "artifacts") p in
      do
        fail_if (not (safe_path p)) (new "invalid artifact path")
        copied ← elim (lookup p artifacts) [
          | none ↦ err not_exist
          | some src ↦ copy_file disk io src dst tree
        ]
        entry ← hashed (io.hashing dst) (bytes_at disk copied dst) p
        (entries, last) ← build_artifacts io root artifacts ps copied
        ok (entry ∷ entries, last)

  unfoldable pub build : Steps → Text → Text → Revision → Candidate → Result Built
  unfolding check_deletes inherit publish build_files build_artifacts diff index_entries
  build io root previous prev c =
      let old = index_entries prev.files [] in
      let paths = publish c.files (inherit previous c.deletes old []) in
      do
        check (io.starting (place root (codes "files") []))
        check (io.starting (place root (codes "artifacts") []))
        check_deletes old c.deletes
        (files, changes, built) ←
            build_files io root old c.files paths (sort lt_text (map key paths)) []
        (artifacts, last) ←
            build_artifacts io root c.artifacts (sort lt_text (map key c.artifacts)) built
        ok (record {
          files = files;
          artifacts = artifacts;
          changes = sort by_path (changes ++ map (deletion_of old) c.deletes);
          artifact_changes = diff prev.artifacts artifacts;
          tree = last;
        })
