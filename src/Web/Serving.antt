-- ===== src/Web/Serving.antt =====
-- `serveFile` of internal/web/web.go: one file of a revision, from the cache of downloads or from
-- the backend. SHA-256 is a parameter; the content is the body of the whole response.
pub mod Recorded
use crawlbox.Common.{
  ℕ, Bool, true, false, not, Option, none, some, List, [], ◌∷◌, ◌++◌, Map, Text, eq_text, codes,
  lookup, insert, erase, length, if◌then◌else◌,
}
use crawlbox.Common.Result.{Error}
use crawlbox.Wire.{Entry, eq_entry}
use crawlbox.Model.{Revision}
use crawlbox.Paths.{safe_path}
use crawlbox.Web.{Response, refused, answered}
use crawlbox.Web.Trim.{CacheDir, Downloads, Trimming, trim_cache}

-- The answers of the system and the backend: those of `trimCache`, the errors of the steps, in
-- their order, the file that is restored, and the time of a change of a directory.
pub record Serving : Type 0 where
  pub trimming : Trimming
  pub make_dir : Option Error
  pub first_hash : Option Error
  pub restore : Option Error
  pub restored : Option Text
  pub second_hash : Option Error
  pub opening : Option Error
  pub modified : ℕ

pub record Served : Type 0 where
  pub content : Text
  pub etag : Text

-- The first entry of the path.
unfoldable pub find_entry : Text → List Entry → Option Entry
find_entry name [] = none
find_entry name (e ∷ es) = if eq_text e.path name then some e else find_entry name es

abbrev pub files_of : Option CacheDir → Map Text
files_of none = []
files_of (some d) = d.files

-- `kind+"/"+name`
abbrev pub served_path : Text → Text → Text
served_path kind name = kind ++ b'/' ∷ name

abbrev pub put_file : Text → Option Text → Map Text → Map Text
put_file p none files = files
put_file p (some b) files = insert p b files

abbrev pub quoted : Text → Text
quoted t = b'"' ∷ t ++ b'"' ∷ []

module _ (sha256 : Text → Text) where
  -- Whether `FileEntry` of what is at the path is the entry.
  abbrev pub is_entry : Option Error → Option Text → Text → Entry → Bool
  is_entry (some e) bytes name entry = false
  is_entry none none name entry = false
  is_entry none (some b) name entry =
      eq_entry (record { path = name; size = length b; sha256 = sha256 b }) entry

  -- `os.Open` and what follows it.
  abbrev pub send : Option Error → Option Text → Entry → Response Served
  send (some e) bytes entry = refused 500
  send none none entry = refused 500
  send none (some b) entry = answered (record { content = b; etag = quoted entry.sha256 })

  abbrev pub with_files : Text → Serving → Map Text → Downloads → Downloads
  with_files id io files cache = insert id (record { modified = io.modified; files = files }) cache

  -- "500 Internal Server Error" after an error, with the cache as it then is.
  abbrev pub or_failure :
      Option Error → Downloads → Response Served × Downloads → Response Served × Downloads
  or_failure none cache next = next
  or_failure (some e) cache next = (refused 500, cache)

  -- A file that has to be restored first; `files` are those of the revision's directory.
  unfoldable pub restore_file :
      Serving → Text → Text → Text → Entry → Map Text → Downloads → Response Served × Downloads
  restore_file io id kind name entry files cache =
      let p = served_path kind name in
      let removed = erase p files in
      let there = put_file p io.restored removed in
      or_failure io.restore (with_files id io there cache) (
        if is_entry io.second_hash (lookup p there) name entry
            then send io.opening (lookup p there) entry
            else refused 500,
        with_files id io there cache,
      )

  -- `serveFile` for an entry of the revision.
  unfoldable pub serve_entry :
      Serving → Text → Text → Text → Entry → Downloads → Response Served × Downloads
  unfolding restore_file
  serve_entry io id kind name entry cache =
      let files = files_of (lookup id cache) in
      let p = served_path kind name in
      or_failure io.make_dir cache (
        if is_entry io.first_hash (lookup p files) name entry
        then (send io.opening (lookup p files) entry, with_files id io files cache)
        else restore_file io id kind name entry files cache)

  abbrev pub serve_found :
      ℕ → Serving → Text → Text → Text → Option Entry → Downloads → Response Served × Downloads
  serve_found bound io id kind name none cache = (refused 404, cache)
  serve_found bound io id kind name (some entry) cache =
      serve_entry io id kind name entry (trim_cache bound io.trimming [] cache)

  -- `serveFile` of a revision that was found.
  unfoldable pub serve_file :
      ℕ → Serving → Revision → Text → Text → Downloads → Response Served × Downloads
  unfolding serve_entry trim_cache find_entry
  serve_file bound io v kind name cache =
      let list = if eq_text kind (codes "artifacts") then v.artifacts else v.files in
      if not (safe_path name)
      then (refused 404, cache)
      else serve_found bound io v.id kind name (find_entry name list) cache

  -- `file` and `artifact`
  unfoldable pub get_file : ℕ → Serving → Revision → Text → Downloads → Response Served × Downloads
  unfolding serve_file
  get_file bound io v name cache = serve_file bound io v (codes "files") name cache

  unfoldable pub get_artifact :
      ℕ → Serving → Revision → Text → Downloads → Response Served × Downloads
  unfolding serve_file
  get_artifact bound io v name cache = serve_file bound io v (codes "artifacts") name cache
