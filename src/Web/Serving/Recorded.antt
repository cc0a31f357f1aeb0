-- ===== src/Web/Serving/Recorded.antt =====
-- Only what the revision records is served.
use crawlbox.Common.{
  ℕ, ◌≡◌, refl, ap, subst, Bool, true, false, not, Option, none, some, List, [], ◌∷◌, Map, Text,
  eq_text, eq_text_iff, codes, lookup, erase, length, if◌then◌else◌, arith,
}
use crawlbox.Common.Result.{Error}
use crawlbox.Wire.{Entry}
use crawlbox.Model.{Revision}
use crawlbox.Paths.{safe_path}
use crawlbox.App.Confirm.Entries.{eq_entry-eq}
use crawlbox.Web.{Response, refused, answered}
use crawlbox.Web.Trim.{Downloads, trim_cache}
use crawlbox.Web.Serving.{
  Serving, Served, find_entry, files_of, served_path, put_file, quoted, is_entry, send, or_failure,
  with_files, restore_file, serve_entry, serve_found, serve_file, get_file, get_artifact,
}

-- The content is what the entry records, and so is the tag.
abbrev IsRecorded : (Text → Text) → Entry → Served → Type 0
IsRecorded sha256 e s =
    (sha256 s.content ≡ e.sha256) × (length s.content ≡ e.size) × (s.etag ≡ quoted e.sha256)

answered-inj : {A : Type 0} {a b : A} → answered a ≡ answered b → a ≡ b
answered-inj h = cc

module _ (sha256 : Text → Text) where
  send-IsRecorded :
      (opening hash : Option Error) (bytes : Option Text) (name : Text) (e : Entry) (s : Served)
      → is_entry sha256 hash bytes name e ≡ true
      → send sha256 opening bytes e ≡ answered s
      → IsRecorded sha256 e s
  send-IsRecorded opening (some x) bytes name e s h k = cc
  send-IsRecorded opening none none name e s h k = cc
  send-IsRecorded (some x) none (some b) name e s h k = cc
  send-IsRecorded none none (some b) name e s h k =
      let same = eq_entry-eq (record { path = name; size = length b; sha256 = sha256 b }) e h in
      let sent : Served = record { content = b; etag = quoted e.sha256 } in
      let out : sent ≡ s = answered-inj k in
      subst (IsRecorded sha256 e) out
        (ap (λ (x : Entry). x.sha256) same, ap (λ (x : Entry). x.size) same, refl)

  -- Whatever is answered is what the entry records.
  abbrev Serves : Entry → Response Served × Downloads → Type 0
  Serves e x = (s : Served) → x.0 ≡ answered s → IsRecorded sha256 e s

  or_failure-Serves :
      (o : Option Error) (cache : Downloads) (e : Entry) (x : Response Served × Downloads)
      → Serves e x
      → Serves e (or_failure sha256 o cache x)
  or_failure-Serves none cache e x h s k = h s k
  or_failure-Serves (some y) cache e x h s k = cc

  checked-Serves :
      (hash opening : Option Error) (bytes : Option Text) (name : Text) (e : Entry)
      (cache : Downloads)
      → Serves e (
        if is_entry sha256 hash bytes name e then send sha256 opening bytes e else refused 500,
        cache,
      )
  checked-Serves hash opening bytes name e cache = by_test (is_entry sha256 hash bytes name e) refl
    where
      by_test :
          (b : Bool)
          → is_entry sha256 hash bytes name e ≡ b
          → Serves e (if b then send sha256 opening bytes e else refused 500, cache)
      by_test true h s k = send-IsRecorded opening hash bytes name e s h k
      by_test false h s k = cc

  restore_file-Serves :
      (io : Serving) (id kind name : Text) (e : Entry) (files : Map Text) (cache : Downloads)
      → Serves e (restore_file sha256 io id kind name e files cache)
  unfolding restore_file
  restore_file-Serves io id kind name e files cache =
      let p = served_path kind name in
      let there = put_file p io.restored (erase p files) in
      or_failure-Serves io.restore (with_files sha256 id io there cache) e _ (
        checked-Serves io.second_hash io.opening (lookup p there) name e
          (with_files sha256 id io there cache))

  serve_entry-Serves :
      (io : Serving) (id kind name : Text) (e : Entry) (cache : Downloads)
      → Serves e (serve_entry sha256 io id kind name e cache)
  unfolding serve_entry
  serve_entry-Serves io id kind name e cache =
      or_failure-Serves io.make_dir cache e _
        (by_test (is_entry sha256 io.first_hash (lookup (served_path kind name) files) name e) refl)
    where
      files : Map Text
      files = files_of (lookup id cache)

      by_test :
          (b : Bool)
          → is_entry sha256 io.first_hash (lookup (served_path kind name) files) name e ≡ b
          → Serves e (
              if b
              then (
                send sha256 io.opening (lookup (served_path kind name) files) e,
                with_files sha256 id io files cache,
              )
              else restore_file sha256 io id kind name e files cache)
      by_test true h s k = send-IsRecorded io.opening io.first_hash _ name e s h k
      by_test false h s k = restore_file-Serves io id kind name e files cache s k

  find_entry-path :
      (name : Text) (es : List Entry) (e : Entry) → find_entry name es ≡ some e → e.path ≡ name
  unfolding find_entry
  find_entry-path name [] e h = cc
  find_entry-path name (x ∷ xs) e h =
      ground (arith, eq_text_iff x.path name, find_entry-path name xs e)

  -- What is sent for a name, of a revision that lists these entries.
  abbrev pub IsListed : List Entry → Text → Served → Type 0
  IsListed entries name s =
      (safe_path name ≡ true)
      × ((e : Entry) × (find_entry name entries ≡ some e)
          × (e.path ≡ name)
          × (sha256 s.content ≡ e.sha256)
          × (length s.content ≡ e.size)
          × (s.etag ≡ quoted e.sha256))

  found-IsListed :
      (bound : ℕ) (io : Serving) (v : Revision) (kind : Text) (entries : List Entry) (name : Text)
      (cache : Downloads) (s : Served)
      → (if not (safe_path name)
          then (refused 404, cache)
          else serve_found sha256 bound io v.id kind name (find_entry name entries) cache).0
        ≡ answered s
      → IsListed entries name s
  found-IsListed bound io v kind entries name cache s h =
      by_path (safe_path name) refl (find_entry name entries) refl h
    where
      by_path :
          (b : Bool)
          → safe_path name ≡ b
          → (o : Option Entry) → find_entry name entries ≡ o
          → (if not b
              then (refused 404, cache)
              else serve_found sha256 bound io v.id kind name o cache).0
            ≡ answered s
          → IsListed entries name s
      by_path false safe o found k = cc
      by_path true safe none found k = cc
      by_path true safe (some e) found k =
          let (digest, size, tag) =
            serve_entry-Serves io v.id kind name e (trim_cache bound io.trimming [] cache) s k in
          (safe, (e, found, find_entry-path name entries e found, digest, size, tag))

  -- When a file is served, its name is a safe path, the revision lists it among its files, and what
  -- is sent has the size and the digest that the revision records, whatever lies in the cache and
  -- whatever the backend restores; the tag is that digest. For an artifact it is listed among the
  -- artifacts of the revision.
  pub serve_file_recorded :
      (is_artifact : Bool) (bound : ℕ) (io : Serving) (v : Revision) (name : Text)
      (cache : Downloads) (s : Served)
      → (if is_artifact
          then get_artifact sha256 bound io v name cache
          else get_file sha256 bound io v name cache).0
        ≡ answered s
      → IsListed (if is_artifact then v.artifacts else v.files) name s
  unfolding get_file get_artifact serve_file eq_text
  serve_file_recorded true bound io v name cache s h =
      found-IsListed bound io v (codes "artifacts") v.artifacts name cache s h
  serve_file_recorded false bound io v name cache s h =
      found-IsListed bound io v (codes "files") v.files name cache s h
