-- ===== src/Host/Candidate.antt =====
-- The candidate of a run (internal/runtime/runtime.go): the operations `delete_file`,
-- `publish_file` and `publish_artifact`, and `list_files`.
use crawlbox.Common.{
  ◌==◌, ltb, Bool, true, false, ◌||◌, not, none, some, Map, Text, lookup, insert, has, take, drop,
  if◌then◌else◌,
}
use crawlbox.Common.Int.{is_neg, to_ℕ}
use crawlbox.Common.Result.{new}
use crawlbox.Paths.{safe_path}
use crawlbox.Wire.{Request, no_response}
use crawlbox.Host.State.{Object, Host, Reply, refuse, answer}

-- `h.candidate.Deletes[p]`
unfoldable pub is_deleted : Text → Map Bool → Bool
is_deleted p deletes = elim (lookup p deletes) [ none ↦ false | some b ↦ b ]

unfoldable pub delete_file : Request → Host → Reply × Host
unfolding is_deleted
delete_file q h =
    if not (safe_path q.path)
    then refuse (new "invalid path") h
    else if has q.path h.candidate.files
    then refuse (new "conflicting operation") h
    else if is_deleted q.path h.candidate.deletes
    then refuse (new "duplicate deletion") h
    else answer no_response (record h {
      candidate = record h.candidate { deletes = insert q.path true h.candidate.deletes };
    })

unfoldable pub publish_file : Object → Request → Host → Reply × Host
unfolding is_deleted
publish_file o q h =
    if not (safe_path q.path)
    then refuse (new "invalid path") h
    else if not o.sealed
    then refuse (new "object must be sealed") h
    else if is_deleted q.path h.candidate.deletes
    then refuse (new "conflicting operation") h
    else if has q.path h.candidate.files
    then refuse (new "duplicate publication") h
    else answer no_response (record h {
      candidate = record h.candidate { files = insert q.path o.path h.candidate.files };
    })

unfoldable pub publish_artifact : Object → Request → Host → Reply × Host
publish_artifact o q h =
    if not (safe_path q.path)
    then refuse (new "invalid path") h
    else if not o.sealed
    then refuse (new "object must be sealed") h
    else if has q.path h.candidate.artifacts
    then refuse (new "duplicate publication") h
    else answer no_response (record h {
      candidate = record h.candidate { artifacts = insert q.path o.path h.candidate.artifacts };
    })

unfoldable pub list_files : Request → Host → Reply × Host
list_files q h =
    if is_neg q.offset || (is_neg q.limit || ltb 1000 (to_ℕ q.limit))
    then refuse (new "invalid pagination") h
    else let limit = if to_ℕ q.limit == 0 then 1000 else to_ℕ q.limit in
      answer (record no_response { entries = take limit (drop (to_ℕ q.offset) h.entries) }) h
