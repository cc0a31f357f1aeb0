-- ===== src/App/Confirm.antt =====
-- `sameEntries`, `confirmRevision` and `verify` of internal/app/app.go: what is checked of a
-- committed revision before it is used. The decoder of JSON and SHA-256 are parameters.
pub mod Entries
pub mod Sealed
use crawlbox.Common.{
  ℕ, ◌==◌, Bool, true, false, ◌||◌, ◌&&◌, not, Option, none, some, List, [], ◌∷◌, Map, Text,
  eq_text, lookup, length, codes, any, all, if◌then◌else◌,
}
use crawlbox.Common.Result.{Error, Result, ok, err, new, ◌>>=◌, ◌>>◌, fail_if, not_exist}
use crawlbox.Wire.{Entry, eq_entry}
use crawlbox.Model.{Revision}
use crawlbox.Paths.{safe_path, path_join}
use crawlbox.Host.State.{Node, regular, irregular, index_entries}

abbrev pub zero_entry : Entry
zero_entry = record { path = []; size = 0; sha256 = [] }

-- `index[p]`: a path that is not there has the zero entry.
abbrev pub or_zero : Option Entry → Entry
or_zero none = zero_entry
or_zero (some e) = e

unfoldable pub same_entries : List Entry → List Entry → Bool
unfolding index_entries eq_entry
same_entries a b =
    length a == length b && all (λ e. eq_entry (or_zero (lookup e.path (index_entries a []))) e) b

-- What the system and the backend answer to `confirmRevision`, in the order of its steps.
pub record Answers : Type 0 where
  pub temp_dir : Option Error
  pub restore : Option Error
  pub read_file : Result Text

abbrev pub check : Option Error → Result (Unit {0})
check none = ok tt
check (some e) = err e

-- The comparison of the record `r` with the copy that the snapshot has.
unfoldable pub compare_copy : Revision → Revision → Result (Unit {0})
unfolding same_entries
compare_copy copy r = do
  fail_if
      (not (eq_text copy.id r.id)
        || (not (eq_text copy.source r.source) || not (eq_text copy.parent r.parent)))
      (new "catalog record does not match its snapshot")
  fail_if (not (eq_text copy.state r.state)) (new "catalog state does not match its snapshot")
  fail_if (not (same_entries copy.files r.files) || not (same_entries copy.artifacts r.artifacts))
      (new "catalog file digests do not match its snapshot")
  ok tt

module _ (unmarshal : Text → Result Revision) where
  unfoldable pub confirm_revision : Answers → Revision → Result (Unit {0})
  unfolding compare_copy
  confirm_revision io r = do
    fail_if (eq_text r.snapshot []) (new "revision has no snapshot to confirm against")
    check io.temp_dir
    check io.restore
    bytes ← io.read_file
    copy ← unmarshal bytes
    compare_copy copy r

module _ (sha256 : Text → Text) where
  -- The restored file of one entry: regular, with the size and digest of the entry.
  unfoldable pub verify_node : Option Node → Entry → Result (Unit {0})
  verify_node none f = err not_exist
  verify_node (some irregular) f = err (new "nonregular snapshot entry")
  verify_node (some (regular bytes)) f =
      fail_if
        (not (eq_entry (record { path = f.path; size = length bytes; sha256 = sha256 bytes }) f))
        (new "snapshot content mismatch")

  -- The loop over the entries of one directory. A failing system call is a missing file.
  unfoldable pub verify_entries :
      (Text → Option Node) → Text → List Text → List Entry → Result (Unit {0})
  unfolding verify_node
  verify_entries tree dir seen [] = ok tt
  verify_entries tree dir seen (f ∷ fs) = do
    fail_if (not (safe_path f.path) || any (eq_text f.path) seen) (new "invalid snapshot index")
    verify_node (tree (path_join dir f.path)) f
    verify_entries tree dir (f.path ∷ seen) fs

  -- `verify`, with the order in which the two directories are visited.
  unfoldable pub verify : Bool → (Text → Option Node) → Text → Revision → Result (Unit {0})
  unfolding verify_entries
  verify files_first tree root r =
      let files = verify_entries tree (path_join root (codes "files")) [] r.files in
      let artifacts = verify_entries tree (path_join root (codes "artifacts")) [] r.artifacts in
      if files_first then files >> artifacts else artifacts >> files
