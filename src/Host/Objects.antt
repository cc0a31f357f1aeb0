-- ===== src/Host/Objects.antt =====
-- Opening, writing and reading objects (internal/runtime/runtime.go): `newObject` and the
-- operations `create`, `previous_file`, `previous_artifact`, `write`, `close`, `read`, `stat`.
use crawlbox.Common.{
  ℕ, ◌==◌, ltb, min, true, false, ◌||◌, not, Option, none, some, [], ◌∷◌, ◌++◌, Map, Text, lookup,
  insert, codes, eq_text, length, take, drop, if◌then◌else◌,
}
use crawlbox.Common.Int.{is_neg, to_ℕ}
use crawlbox.Common.Int64.{add64, lt64}
use crawlbox.Common.Decimal.{decimal}
use crawlbox.Common.Result.{Error, Result, ok, err, new, external, not_exist}
use crawlbox.Paths.{safe_path, path_join}
use crawlbox.Wire.{Entry, Request, no_response, chunk}
use crawlbox.Host.State.{
  Object, Host, Io, Transfer, Node, regular, irregular, Reply, refuse, answer, content, is_taken,
}

abbrev pub object_id : Text → Text
object_id temp = codes "object-" ++ temp

abbrev pub object_path : Host → Text → Text
object_path h temp = h.dir ++ b'/' ∷ object_id temp

abbrev pub or_closing : Option Error → Text × Host → Result Text × Host
or_closing none (id, h) = (ok id, h)
or_closing (some e) (id, h) = (err e, h)

-- `os.CreateTemp` and the new entry of `objects`. A name that is taken is never handed out.
unfoldable pub add_object : Io → Host → Text → Result Text × Host
unfolding is_taken
add_object io h temp =
    let path = object_path h temp in
    if is_taken h path
    then (err (external 17), h)
    else let created = record h { staged = insert path [] h.staged } in
      elim io.closing [
        | some e ↦ (err e, created)
        | none ↦ (
          ok (object_id temp),
          record created {
            objects =
                insert (object_id temp) (record { path = path; sealed = false; entry = none })
                  h.objects;
          },
        )
      ]

unfoldable pub new_object : Io → Host → Result Text × Host
unfolding add_object
new_object io h = elim io.temp [ err e ↦ (err e, h) | ok temp ↦ add_object io h temp ]

abbrev pub created : Result Text × Host → Reply × Host
created (ok id, h) = answer (record no_response { handle = id }) h
created (err e, h) = refuse e h

unfoldable pub create : Io → Host → Reply × Host
unfolding new_object
create io h = created (new_object io h)

-- The committed entry of a previous object, if its size is still the size of the file.
abbrev pub committed_entry : Option Entry → ℕ → Option Entry
committed_entry none size = none
committed_entry (some e) size = if e.size == size then some e else none

abbrev pub open_node : Option Node → Map Entry → Text → Text → Host → Reply × Host
open_node none known p name h = refuse (new "previous object unavailable") h
open_node (some irregular) known p name h = refuse (new "not regular file") h
open_node (some (regular bytes)) known p name h =
    let id = codes "previous-" ++ decimal (length h.objects) in
    (
      (record no_response { handle = id; size = length bytes }, none),
      record h {
        objects =
            insert id
              (record {
                path = p;
                sealed = true;
                entry = committed_entry (lookup name known) (length bytes);
              })
              h.objects;
      },
    )

-- `previous_file` and `previous_artifact`, by their root and their index.
unfoldable pub open_previous : Text → Map Entry → Request → Host → Reply × Host
open_previous root known q h =
    if not (safe_path q.path)
    then refuse (new "invalid path") h
    else if eq_text root []
    then refuse not_exist h
    else open_node (h.tree (path_join root q.path)) known (path_join root q.path) q.path h

-- How many of `n` bytes pass, and the error.
abbrev pub passed : Transfer → ℕ → ℕ
passed none n = n
passed (some (k, e)) n = min k n

abbrev pub failure : Transfer → Option Error
failure none = none
failure (some (k, e)) = some e

abbrev pub or_else : Option Error → Option Error → Option Error
or_else (some e) f = some e
or_else none f = f

-- The write itself, after the checks: appending to a file that is there.
unfoldable pub write_file : Io → Object → Request → Option Text → Host → Reply × Host
write_file io o q none h = refuse not_exist h
write_file io o q (some old) h =
    let n = passed io.copy (length q.content) in
    (
      (no_response, or_else (failure io.copy) io.closing),
      record h { staged = insert o.path (old ++ take n q.content) h.staged; used = add64 h.used n },
    )

unfoldable pub write : Io → Object → Request → Host → Reply × Host
unfolding write_file
write io o q h =
    if o.sealed
    then refuse (new "sealed object") h
    else if lt64 h.staging_bytes (add64 h.used (length q.content))
    then refuse (new "staging quota exceeded") h
    else elim io.opening [
      | some e ↦ refuse e h
      | none ↦ write_file io o q (lookup o.path h.staged) h
    ]

unfoldable pub close : Text → Object → Host → Reply × Host
close id o h =
    answer no_response (record h { objects = insert id (record o { sealed = true }) h.objects })

abbrev pub read_bytes : Io → Option Text → ℕ → ℕ → Host → Reply × Host
read_bytes io none offset limit h = refuse not_exist h
read_bytes io (some bytes) offset limit h =
    let part = take limit (drop offset bytes) in
    (
      (record no_response { content = take (passed io.copy (length part)) part }, failure io.copy),
      h,
    )

unfoldable pub read : Io → Object → Request → Host → Reply × Host
read io o q h =
    if is_neg q.offset || (is_neg q.limit || ltb chunk (to_ℕ q.limit))
    then refuse (new "invalid read") h
    else let limit = if to_ℕ q.limit == 0 then chunk else to_ℕ q.limit in
      elim io.opening [
        | some e ↦ refuse e h
        | none ↦ read_bytes io (content h o.path) (to_ℕ q.offset) limit h
      ]

module _ (sha256 : Text → Text) where
  -- `FileEntryContext`: the entry of a file, of the bytes that were read where that fails.
  unfoldable pub file_entry : Io → Option Text → Text → Entry × Option Error
  file_entry io bytes name = elim io.opening [
    | some e ↦ (record { path = []; size = 0; sha256 = [] }, some e)
    | none ↦ elim bytes [
      | none ↦ (record { path = []; size = 0; sha256 = [] }, some not_exist)
      | some b ↦
          let n = passed io.copy (length b) in
          (record { path = name; size = n; sha256 = sha256 (take n b) }, failure io.copy)
    ]
  ]

  -- `stat` answers from the committed entry where the object has one.
  unfoldable pub stat : Io → Object → Host → Reply × Host
  unfolding file_entry
  stat io o h = elim o.entry [
    | some e ↦ answer (record no_response { size = e.size; sha256 = e.sha256 }) h
    | none ↦
        let (v, e) = file_entry io (content h o.path) [] in
        ((record no_response { size = v.size; sha256 = v.sha256 }, e), h)
  ]
