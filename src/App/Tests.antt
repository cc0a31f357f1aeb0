-- ===== src/App/Tests.antt =====
-- A small revision and the next one, and the theorems on the application at them.
use crawlbox.Common.{
  ℕ, ◌≡◌, ◌≢◌, refl, ◌||◌, ◌&&◌, not, Bool, true, false, Option, none, some, List, [], ◌∷◌, Text,
  codes, eq_text, All, has, length, lookup, arith, eq_text_iff, if◌then◌else◌,
}
use crawlbox.Common.Result.{Result, ok}
use crawlbox.Common.Sorting.{IsSorted}
use crawlbox.Wire.{Entry, Descriptor}
use crawlbox.Model.{Revision}
use crawlbox.Paths.{path_join, safe_path}
use crawlbox.Host.State.{Candidate, Node, regular, index_entries}
use crawlbox.Host.Candidate.{is_deleted}
use crawlbox.App.Changes.{by_path, diff, added_at, deleted_at}
use crawlbox.App.Changes.Exact.{
  changes_at, entry_at, first_at, happened, HasDistinctPaths, diff_exact,
}
use crawlbox.App.Confirm.{Answers, confirm_revision, verify}
use crawlbox.App.Confirm.Sealed.{
  IsSealedCopy, IsRestored, IsListing, confirm_revision-IsSealedCopy, verify-IsRestored,
}
use crawlbox.App.Build.{Steps, Built, build}
use crawlbox.App.Build.Keys.{is_some}
use crawlbox.App.Build.Changed.{IsDisjoint, build-paths, build-changes}

abbrev digest : Text → Text
digest s = b'#' ∷ s

abbrev entry_of : Text → Text → Entry
entry_of p bytes = record { path = p; size = length bytes; sha256 = digest bytes }

abbrev plugin : Descriptor
plugin = record { id = codes "p"; version = codes "1"; abi = 1; hosts = []; config_schema = [] }

abbrev before : Revision
before = record {
  id = codes "r1";
  run = codes "run";
  source = codes "s";
  parent = [];
  created_at = 1;
  plugin = plugin;
  state = codes "{}";
  metadata = [];
  files = entry_of (codes "a") (codes "old") ∷ entry_of (codes "k") (codes "kept") ∷ [];
  artifacts = [];
  changes = [];
  tags = [];
  artifact_changes = [];
  snapshot = codes "k1";
}

abbrev after_files : List Entry
after_files = entry_of (codes "b") (codes "new") ∷ entry_of (codes "k") (codes "kept") ∷ []

after_distinct : HasDistinctPaths after_files
unfolding eq_text
after_distinct = (refl, (refl, tt))

diff_exact_example :
    ((p : Text)
      → changes_at p (diff before.files after_files)
        ≡ happened (entry_at p before.files) (first_at p after_files))
    × IsSorted by_path (diff before.files after_files)
diff_exact_example = diff_exact before.files after_files after_distinct

-- The decoder of the example knows one text.
abbrev unmarshal : Text → Result Revision
unmarshal t = ok before

abbrev answers : Answers
answers = record { temp_dir = none; restore = none; read_file = ok (codes "sealed") }

before-IsListing : IsListing before.files
unfolding eq_text
before-IsListing = ((refl, (refl, tt)), (λ e. cc, (λ e. cc, tt)))

confirms : confirm_revision unmarshal answers before ≡ ok tt
unfolding confirm_revision eq_text lookup crawlbox.Common.insert
confirms = refl

confirm_revision-IsSealedCopy_example : IsSealedCopy before before
confirm_revision-IsSealedCopy_example =
    confirm_revision-IsSealedCopy unmarshal answers (codes "sealed") before before refl refl
      before-IsListing (tt, tt) before-IsListing (tt, tt) confirms

abbrev restored : Text → Option Node
restored p =
    if eq_text p (codes "/t/files/a")
    then some (regular (codes "old"))
    else if eq_text p (codes "/t/files/k")
    then some (regular (codes "kept"))
    else none

verifies : verify digest true restored (codes "/t") before ≡ ok tt
unfolding verify safe_path eq_text crawlbox.Paths.clean crawlbox.Common.Splitting.split path_join
    crawlbox.Wire.eq_entry
verifies = refl

verify-IsRestored_example :
    All (IsRestored digest restored (path_join (codes "/t") (codes "files"))) before.files
    × HasDistinctPaths before.files
    × All (IsRestored digest restored (path_join (codes "/t") (codes "artifacts"))) before.artifacts
    × HasDistinctPaths before.artifacts
verify-IsRestored_example = verify-IsRestored digest true restored (codes "/t") before verifies

-- The candidate publishes "b" and deletes "a".
abbrev candidate : Candidate
candidate = record {
  files = (codes "b", codes "/o/object-1") ∷ [];
  artifacts = (codes "x", codes "/o/object-1") ∷ [];
  deletes = (codes "a", true) ∷ [];
}

abbrev disk : Text → Option Text
disk p =
    if eq_text p (codes "/o/object-1")
    then some (codes "new")
    else if eq_text p (codes "/c/files/k")
    then some (codes "kept")
    else none

abbrev steps : Steps
steps = record {
  starting = λ p. none;
  links = λ p. true;
  copying = λ p. none;
  hashing = λ p. none;
  lstat = λ p. none;
}

abbrev built : Built
built = record {
  files = after_files;
  artifacts = entry_of (codes "x") (codes "new") ∷ [];
  changes =
      deleted_at (entry_of (codes "a") (codes "old"))
      ∷ added_at (entry_of (codes "b") (codes "new"))
      ∷ [];
  artifact_changes = added_at (entry_of (codes "x") (codes "new")) ∷ [];
  tree =
      (codes "/n/files/b", codes "new")
      ∷ (codes "/n/files/k", codes "kept")
      ∷ (codes "/n/artifacts/x", codes "new")
      ∷ [];
}

builds : build digest disk steps (codes "/n") (codes "/c") before candidate ≡ ok built
unfolding build has crawlbox.Common.insert eq_text crawlbox.Common.Sorting.sort
    crawlbox.Common.lt_text safe_path crawlbox.Paths.clean crawlbox.Common.Splitting.split path_join
    crawlbox.Common.erase
builds = refl

candidate-IsDisjoint : IsDisjoint candidate
unfolding has is_deleted lookup
candidate-IsDisjoint = record {
  once = (refl, tt);
  marked = λ p e. ground arith;
  apart = λ p e. ground (arith, eq_text_iff (codes "a") p, eq_text_iff (codes "b") p);
}

build-paths_example :
    HasDistinctPaths built.files
    × ((p : Text)
        → is_some (first_at p built.files) ≡ (
            has p candidate.files
            || (has p (index_entries before.files []) && not (is_deleted p candidate.deletes))))
build-paths_example =
    build-paths digest disk steps (codes "/n") (codes "/c") before candidate built
      candidate-IsDisjoint builds

build-changes_example :
    ((p : Text)
      → changes_at p built.changes ≡ happened (entry_at p before.files) (first_at p built.files))
    × (built.artifact_changes ≡ diff before.artifacts built.artifacts)
build-changes_example =
    build-changes digest disk steps (codes "/n") (codes "/c") before candidate built
      candidate-IsDisjoint builds
