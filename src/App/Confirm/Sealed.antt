-- ===== src/App/Confirm/Sealed.antt =====
-- What a revision that is confirmed or verified has in common with its snapshot.
use mathlib.Core.List.{Perm}
use crawlbox.Common.{
  ◌≡◌, ◌≢◌, refl, ap, Bool, true, false, not, ◌||◌, Option, none, some, List, [], ◌∷◌, Text, All,
  any, eq_text, eq_text_iff, length, codes, arith, eq_text_refl, neither, if◌then◌else◌,
}
use crawlbox.Common.Result.{Result, ok, err, >>=-eq-ok, passed_test, ◌>>◌}
use crawlbox.Wire.{Entry}
use crawlbox.Model.{Revision}
use crawlbox.Paths.{safe_path, path_join}
use crawlbox.Host.State.{Node, regular, irregular}
use crawlbox.App.Changes.Exact.{first_at, HasDistinctPaths}
use crawlbox.App.Confirm.{
  Answers, same_entries, compare_copy, confirm_revision, verify_node, verify_entries, verify,
}
use crawlbox.App.Confirm.Entries.{same_entries-perm, eq_entry-eq}

-- What `confirmRevision` establishes of the copy in the snapshot.
pub record IsSealedCopy (copy r : Revision) : Type 0 where
  pub same_id : copy.id ≡ r.id
  pub same_source : copy.source ≡ r.source
  pub same_parent : copy.parent ≡ r.parent
  pub same_state : copy.state ≡ r.state
  pub same_files : Perm copy.files r.files
  pub same_artifacts : Perm copy.artifacts r.artifacts

-- A list of entries as `build` makes them: each path once, and no empty path.
abbrev pub IsListing : List Entry → Type 0
IsListing es = HasDistinctPaths es × All (λ e. e.path ≢ []) es

both_ok :
    (first : Bool) (f a : Result (Unit {0}))
    → (if first then f >> a else a >> f) ≡ ok tt
    → (f ≡ ok tt) × (a ≡ ok tt)
both_ok true (ok x) a h = (refl, h)
both_ok true (err e) a h = cc
both_ok false f (ok x) h = (h, refl)
both_ok false f (err e) h = cc

both_false : (a b : Bool) → (not a || not b) ≡ false → (a ≡ true) × (b ≡ true)
both_false true true h = (refl, refl)
both_false true false h = cc
both_false false b h = cc

compared :
    (copy r : Revision)
    → IsListing copy.files
    → IsListing copy.artifacts
    → IsListing r.files
    → IsListing r.artifacts
    → compare_copy copy r ≡ ok tt
    → IsSealedCopy copy r
unfolding compare_copy
compared copy r cf ca rf ra h =
    let (e1, h1) =
      passed_test
        (not (eq_text copy.id r.id)
          || (not (eq_text copy.source r.source) || not (eq_text copy.parent r.parent)))
        _ _ h in
    let (e2, h2) = passed_test (not (eq_text copy.state r.state)) _ _ h1 in
    let (e3, _) =
      passed_test
        (not (same_entries copy.files r.files) || not (same_entries copy.artifacts r.artifacts)) _ _
        h2 in
    let (files, artifacts) =
      both_false (same_entries copy.files r.files) (same_entries copy.artifacts r.artifacts) e3 in
    record {
      same_id = ground (arith, eq_text_iff copy.id r.id);
      same_source = ground (arith, eq_text_iff copy.source r.source);
      same_parent = ground (arith, eq_text_iff copy.parent r.parent);
      same_state = ground (arith, eq_text_iff copy.state r.state);
      same_files = same_entries-perm copy.files r.files cf.0 rf.0 rf.1 files;
      same_artifacts = same_entries-perm copy.artifacts r.artifacts ca.0 ra.0 ra.1 artifacts;
    }

module _ (unmarshal : Text → Result Revision) where
  -- For records and copies whose entries have distinct paths and no empty one: a catalog record
  -- that is confirmed, with a copy that is read and decoded, agrees with the copy in its snapshot
  -- on everything that the next run inherits: identifier, source, parent, state, and the entries
  -- of files and artifacts in some order.
  pub confirm_revision-IsSealedCopy :
      (io : Answers) (bytes : Text) (copy r : Revision)
      → io.read_file ≡ ok bytes
      → unmarshal bytes ≡ ok copy
      → IsListing copy.files
      → IsListing copy.artifacts
      → IsListing r.files
      → IsListing r.artifacts
      → confirm_revision unmarshal io r ≡ ok tt
      → IsSealedCopy copy r
  unfolding confirm_revision
  confirm_revision-IsSealedCopy io bytes copy r read parsed cf ca rf ra h =
      compared copy r cf ca rf ra (ground arith)

-- The restored file of an entry: regular, with the size and the digest that the entry records.
abbrev pub IsRestored : (Text → Text) → (Text → Option Node) → Text → Entry → Type 0
IsRestored sha256 tree dir f =
    (safe_path f.path ≡ true)
    × ((bytes : Text) × (tree (path_join dir f.path) ≡ some (regular bytes))
        × (length bytes ≡ f.size)
        × (sha256 bytes ≡ f.sha256))

module _ (sha256 : Text → Text) where
  node-IsRestored :
      (node : Option Node) (f : Entry)
      → verify_node sha256 node f ≡ ok tt
      → (bytes : Text) × (node ≡ some (regular bytes))
        × (length bytes ≡ f.size)
        × (sha256 bytes ≡ f.sha256)
  unfolding verify_node
  node-IsRestored none f h = cc
  node-IsRestored (some irregular) f h = cc
  node-IsRestored (some (regular bytes)) f h =
      let e =
        eq_entry-eq (record { path = f.path; size = length bytes; sha256 = sha256 bytes }) f
          (ground arith) in
      (bytes, refl, ap (λ x. x.size) e, ap (λ x. x.sha256) e)

  entries-IsRestored :
      (tree : Text → Option Node) (dir : Text) (seen : List Text) (fs : List Entry)
      → verify_entries sha256 tree dir seen fs ≡ ok tt
      → All (IsRestored sha256 tree dir) fs
        × HasDistinctPaths fs
        × ((p : Text) → any (eq_text p) seen ≡ true → first_at p fs ≡ none)
  unfolding verify_entries
  entries-IsRestored tree dir seen [] h = (tt, tt, λ p e. refl)
  entries-IsRestored tree dir seen (f ∷ fs) h =
      let (e1, h1) = passed_test (not (safe_path f.path) || any (eq_text f.path) seen) _ _ h in
      let (u, e2, h2) = >>=-eq-ok (verify_node sha256 (tree (path_join dir f.path)) f) _ h1 in
      let (safe, fresh) = neither (safe_path f.path) (any (eq_text f.path) seen) e1 in
      let (all_there, distinct, unseen) = entries-IsRestored tree dir (f.path ∷ seen) fs h2 in
      (
        ((safe, node-IsRestored (tree (path_join dir f.path)) f e2), all_there),
        (unseen f.path (ground (arith, eq_text_refl f.path)), distinct),
        λ p e. ground (arith, eq_text_iff p f.path, eq_text_iff f.path p, unseen p),
      )

  -- A restored tree that is verified has, at its place below the tree, a regular file for every
  -- entry of the revision, with the size and digest that the entry records; the paths of files,
  -- and those of artifacts, are safe and each stands once.
  pub verify-IsRestored :
      (files_first : Bool) (tree : Text → Option Node) (root : Text) (r : Revision)
      → verify sha256 files_first tree root r ≡ ok tt
      → All (IsRestored sha256 tree (path_join root (codes "files"))) r.files
        × HasDistinctPaths r.files
        × All (IsRestored sha256 tree (path_join root (codes "artifacts"))) r.artifacts
        × HasDistinctPaths r.artifacts
  unfolding verify
  verify-IsRestored files_first tree root r h =
      let (f, a) = both_ok files_first _ _ h in
      let (files, df, _) = entries-IsRestored tree (path_join root (codes "files")) [] r.files f in
      let (artifacts, da, _) =
        entries-IsRestored tree (path_join root (codes "artifacts")) [] r.artifacts a in
      (files, df, artifacts, da)
