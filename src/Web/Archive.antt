-- ===== src/Web/Archive.antt =====
-- `archive` of internal/web/web.go: all files and artifacts of a revision in one archive. `pack` is
-- the format (tar and gzip) of the members in their order; what reaches the client of an archive
-- that fails on the way is left open.
pub mod Whole
use crawlbox.Common.{
  ℕ, Bool, true, false, not, Option, none, some, List, [], ◌∷◌, ◌++◌, Map, Text, eq_text, lookup,
  insert, codes, length, if◌then◌else◌,
}
use crawlbox.Common.Result.{Error, Result, ok, err, new, not_exist, ◌>>=◌, ◌>>◌, fail_if}
use crawlbox.Wire.{Entry, eq_entry}
use crawlbox.Model.{Revision}
use crawlbox.Paths.{safe_path}
use crawlbox.Host.State.{Node, regular, irregular}
use crawlbox.App.Confirm.{check}
use crawlbox.Web.{Response, refused, answered}
use crawlbox.Web.Trim.{CacheDir, Downloads, Trimming, trim_cache}
use crawlbox.Web.Serving.{files_of, served_path}

-- The answers of the system and the backend: those of the two calls of `trimCache`, the errors of
-- the steps, the tree that is restored, by the paths in it, and for each path whether the context
-- has ended and the errors of hashing and of writing the member.
pub record Archiving : Type 0 where
  pub trimming : Trimming
  pub trimming_after : Trimming
  pub make_dir : Option Error
  pub temp_dir : Option Error
  pub restore : Option Error
  pub create : Option Error
  pub tree : Text → Option Node
  pub ended : Text → Bool
  pub hashing : Text → Option Error
  pub writing : Text → Option Error
  pub closing : Option Error
  pub renaming : Option Error
  pub files_first : Bool
  pub modified : ℕ

-- A response that was begun: whole, or cut off.
pub data Sent : Type 0 where
  whole : Text → Sent
  cut : Sent

abbrev pub archive_name : Text
archive_name = codes "archive.tar.gz"

abbrev pub Member : Type 0
Member = Text × Text

module _ (sha256 : Text → Text) (io : Archiving) where
  -- `FileEntry` of a restored file against its entry.
  abbrev pub checked_bytes : Option Node → Entry → Result Text
  checked_bytes none e = err not_exist
  checked_bytes (some irregular) e = err (new "not a regular file")
  checked_bytes (some (regular b)) e =
      if eq_entry (record { path = e.path; size = length b; sha256 = sha256 b }) e
      then ok b
      else err (new "entry mismatch")

  -- The loop over the entries of one kind; an error ends the archive.
  unfoldable pub archive_entries : Text → List Entry → Result (List Member)
  archive_entries kind [] = ok []
  archive_entries kind (e ∷ es) =
      let p = served_path kind e.path in
      do
        fail_if (io.ended p) (new "context ended")
        fail_if (not (safe_path e.path)) (new "unsafe path")
        check (io.hashing p)
        b ← checked_bytes (io.tree p) e
        check (io.writing p)
        rest ← archive_entries kind es
        ok ((p, b) ∷ rest)

  -- The members in the order in which the two kinds are visited.
  unfoldable pub archive_members : Revision → Result (List Member)
  unfolding archive_entries
  archive_members v = do
    first ←
        archive_entries (if io.files_first then codes "files" else codes "artifacts")
          (if io.files_first then v.files else v.artifacts)
    second ←
        archive_entries (if io.files_first then codes "artifacts" else codes "files")
          (if io.files_first then v.artifacts else v.files)
    check io.closing
    ok (first ++ second)

  abbrev pub add_archive : Text → Text → Downloads → Downloads
  add_archive id b cache =
      insert id
        (record {
          modified = io.modified;
          files = insert archive_name b (files_of (lookup id cache));
        })
        cache

  abbrev pub keep_archive : Option Error → Text → Text → Downloads → Downloads
  keep_archive none id b cache = add_archive id b cache
  keep_archive (some e) id b cache = cache

  abbrev pub send_archive :
      (List Member → Text) → Result (List Member) → Text → Downloads → Response Sent × Downloads
  send_archive pack (err e) id cache = (answered cut, cache)
  send_archive pack (ok ms) id cache =
      (answered (whole (pack ms)), keep_archive io.renaming id (pack ms) cache)

  abbrev pub failing :
      Option Error → Downloads → Response Sent × Downloads → Response Sent × Downloads
  failing none cache next = next
  failing (some e) cache next = (refused 500, cache)

  -- An archive that is made anew.
  abbrev pub make_archive : (List Member → Text) → Revision → Downloads → Response Sent × Downloads
  make_archive pack v cache = failing io.temp_dir cache (
      failing io.restore cache
        (failing io.create cache (send_archive pack (archive_members v) v.id cache)))

  abbrev pub from_cache :
      Option Text → (List Member → Text) → Revision → Downloads → Response Sent × Downloads
  from_cache (some b) pack v cache = (answered (whole b), cache)
  from_cache none pack v cache = make_archive pack v cache

  abbrev pub trimmed_after : ℕ → Response Sent × Downloads → Response Sent × Downloads
  trimmed_after bound (answer, cache) = (answer, trim_cache bound io.trimming_after [] cache)

  -- `archive` of a revision that was found.
  unfoldable pub archive :
      ℕ → (List Member → Text) → Revision → Downloads → Response Sent × Downloads
  unfolding archive_members trim_cache
  archive bound pack v cache =
      let trimmed = trim_cache bound io.trimming [] cache in
      trimmed_after bound (
        failing io.make_dir trimmed
          (from_cache (lookup archive_name (files_of (lookup v.id trimmed))) pack v trimmed))
