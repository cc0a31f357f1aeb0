-- ===== src/Host/Steps.antt =====
-- Every host call is a sequence of moves.
pub mod Publishing
pub mod Opening
pub mod Downloading
use crawlbox.Common.{
  ◌≤◌, ◌≡◌, refl, sym, ap, subst, ◌∙◌, ltb, false, ◌||◌, Option, none, some, List, [], any, map,
  Map, ◌∷◌, Text, lookup, insert, has, lookup-insert, eq_text, eq_text_refl, length, take, arith,
  Bool-cases, Option-cases, inl, inr, codes, length-take,
}
use crawlbox.Common.Int64.{is_neg64, add64, sub64, lt64}
use crawlbox.Common.Result.{Result, Result-cases, ok, err}
use crawlbox.Paths.{safe_path, path_join}
use crawlbox.Wire.{
  Op, progress, http, create, previous_file, previous_artifact, list_files, delete_file, write,
  close, read, stat, publish_file, publish_artifact, Entry, Request, chunk,
}
use crawlbox.Host.State.{Object, Host, Io, Upstream, Node, regular, irregular, is_taken}
use crawlbox.Host.Objects
use crawlbox.Host.Objects.{
  passed, failure, or_else, new_object, add_object, object_id, object_path, open_previous,
  open_node, committed_entry,
}
use crawlbox.Host.Network
use crawlbox.Host.Network.{Naming, limited, stage_body}
use crawlbox.Host.Candidate
use crawlbox.Host.Calls.{call, call_object, on_object, dispatch, run, report}
use crawlbox.Host.Moves.{
  Move, told, left, made, downloaded, sealed, opened, published_file, published_artifact, deleted,
  Moves, here, next, unmoved, one, passed-le, write-Move,
}
use crawlbox.Host.Steps.Publishing.{published_file-Move, published_artifact-Move, delete_file-Move}
use crawlbox.Host.Steps.Opening.{open_previous-Move, create-Move}
use crawlbox.Host.Steps.Downloading.{join-Moves, http-Moves}

module _ (sha256 : Text → Text) (naming : Naming) where
  read-host : (io : Io) (o : Object) (q : Request) (h : Host) → (Objects.read io o q h).1 ≡ h
  unfolding Objects.read
  read-host io o q h = ground arith

  stat-host : (io : Io) (o : Object) (h : Host) → (Objects.stat sha256 io o h).1 ≡ h
  unfolding Objects.stat
  stat-host io o h = ground arith

  list_files-host : (q : Request) (h : Host) → (Candidate.list_files q h).1 ≡ h
  unfolding Candidate.list_files
  list_files-host q h = ground arith

  still : {g : Host} (h : Host) → g ≡ h → Moves h g
  still h e = subst (Moves h) (sym e) here

  call_object-Moves :
      (op : Op) (io : Io) (o : Object) (q : Request) (h : Host)
      → lookup q.handle h.objects ≡ some o
      → length q.content ≤ chunk
      → Moves h (call_object sha256 naming op io o q h).1
  unfolding call_object Objects.close
  call_object-Moves write io o q h e small = one (write-Move io q.handle o q h e small)
  call_object-Moves close io o q h e small = one (sealed q.handle o e refl)
  call_object-Moves read io o q h e small = still h (read-host io o q h)
  call_object-Moves stat io o q h e small = still h (stat-host io o h)
  call_object-Moves publish_file io o q h e small = one (published_file-Move o q h e)
  call_object-Moves publish_artifact io o q h e small = one (published_artifact-Move o q h e)
  call_object-Moves _ io o q h e small = here

  on_object-Moves :
      (io : Io) (q : Request) (h : Host) (o : Option Object)
      → lookup q.handle h.objects ≡ o
      → length q.content ≤ chunk
      → Moves h (on_object sha256 naming o io q h).1
  on_object-Moves io q h none e small = here
  on_object-Moves io q h (some o) e small = call_object-Moves q.op io o q h e small

  report-Move : (q : Request) (h : Host) → Move h (report q h).1
  unfolding report
  report-Move q h = elim (Bool-cases (ltb 4096 (length q.content))) [
    | inl e ↦ rw e (unmoved h)
    | inr e ↦ rw e (told (q.content ∷ h.progress) refl)
  ]

  dispatch-Moves :
      (op : Op) (io : Io) (q : Request) (h : Host)
      → length q.content ≤ chunk
      → Moves h (dispatch sha256 naming op io q h).1
  unfolding dispatch
  dispatch-Moves progress io q h small = one (report-Move q h)
  dispatch-Moves http io q h small = http-Moves naming io q h
  dispatch-Moves create io q h small = one (create-Move io h)
  dispatch-Moves previous_file io q h small = one (open_previous-Move h.previous h.index q h)
  dispatch-Moves previous_artifact io q h small =
      one (open_previous-Move h.previous_artifacts h.artifact_index q h)
  dispatch-Moves list_files io q h small = still h (list_files-host q h)
  dispatch-Moves delete_file io q h small = one (delete_file-Move q h)
  dispatch-Moves _ io q h small = on_object-Moves io q h (lookup q.handle h.objects) refl small

  -- Every host call is a sequence of moves.
  pub call-Moves : (io : Io) (q : Request) (h : Host) → Moves h (call sha256 naming io q h).1
  unfolding call
  call-Moves io q h = elim (Option-cases io.ended) [
    | inr (x, e) ↦ rw e here
    | inl e ↦ rw e (elim (Bool-cases (ltb chunk (length q.content) || ltb chunk (length q.body))) [
      | inl f ↦ rw f here
      | inr f ↦ rw f (dispatch-Moves q.op (record io { ended = none }) q h (ground arith))
    ])
  ]

  -- So is every run of a plugin.
  pub run-Moves : (calls : List (Io × Request)) (h : Host) → Moves h (run sha256 naming calls h)
  unfolding run
  run-Moves [] h = here
  run-Moves ((io, q) ∷ calls) h =
      join-Moves (call-Moves io q h) (run-Moves calls (call sha256 naming io q h).1)
