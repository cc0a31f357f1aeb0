-- ===== src/Host/Calls.antt =====
-- `Host.Call` of internal/runtime/runtime.go, and a run of a plugin as the sequence of its calls.
use crawlbox.Common.{
  ltb, ◌||◌, Option, none, some, List, [], ◌∷◌, Text, lookup, length, if◌then◌else◌,
}
use crawlbox.Common.Result.{new}
use crawlbox.Wire.{
  Op, progress, http, create, previous_file, previous_artifact, list_files, delete_file, write,
  close, read, stat, publish_file, publish_artifact, Request, no_response, chunk,
}
use crawlbox.Host.State.{Object, Host, Io, Reply, refuse, answer}
use crawlbox.Host.Objects
use crawlbox.Host.Network
use crawlbox.Host.Network.{Naming}
use crawlbox.Host.Candidate

unfoldable pub report : Request → Host → Reply × Host
report q h =
    if ltb 4096 (length q.content)
    then refuse (new "progress limit") h
    else answer no_response (record h { progress = q.content ∷ h.progress })

module _ (sha256 : Text → Text) (naming : Naming) where
  -- The operations on a known object: the second `switch`.
  unfoldable pub call_object : Op → Io → Object → Request → Host → Reply × Host
  call_object write io o q h = Objects.write io o q h
  call_object close io o q h = Objects.close q.handle o h
  call_object read io o q h = Objects.read io o q h
  call_object stat io o q h = Objects.stat sha256 io o h
  call_object publish_file io o q h = Candidate.publish_file o q h
  call_object publish_artifact io o q h = Candidate.publish_artifact o q h
  call_object _ io o q h = refuse (new "unknown operation") h

  abbrev pub on_object : Option Object → Io → Request → Host → Reply × Host
  on_object none io q h = refuse (new "unknown object") h
  on_object (some o) io q h = call_object q.op io o q h

  -- The first `switch`, which falls through to the operations on objects.
  unfoldable pub dispatch : Op → Io → Request → Host → Reply × Host
  unfolding report call_object
  dispatch progress io q h = report q h
  dispatch http io q h = Network.http naming io q h
  dispatch create io q h = Objects.create io h
  dispatch previous_file io q h = Objects.open_previous h.previous h.index q h
  dispatch previous_artifact io q h =
      Objects.open_previous h.previous_artifacts h.artifact_index q h
  dispatch list_files io q h = Candidate.list_files q h
  dispatch delete_file io q h = Candidate.delete_file q h
  dispatch _ io q h = on_object (lookup q.handle h.objects) io q h

  unfoldable pub call : Io → Request → Host → Reply × Host
  unfolding dispatch
  call io q h = elim io.ended [
    | some e ↦ refuse e h
    | none ↦
        if ltb chunk (length q.content) || ltb chunk (length q.body)
        then refuse (new "chunk limit") h
        else dispatch q.op io q h
  ]

  -- The calls that a plugin makes, in turn.
  unfoldable pub run : List (Io × Request) → Host → Host
  run [] h = h
  run ((io, q) ∷ calls) h = run calls (call io q h).1
