-- ===== src/Host/Moves.antt =====
-- The host calls as a step relation: the few ways in which a call changes the files, the objects
-- and the candidate. `http` makes up to three such steps.
use crawlbox.Common.{
  ℕ, ◌≤◌, ◌≡◌, refl, true, false, Option, none, some, List, [], ◌++◌, Text, lookup, insert, has,
  length, take, arith, Bool-cases, Option-cases, inl, inr, length-take,
}
use crawlbox.Common.Int64.{is_neg64, add64, sub64, lt64}
use crawlbox.Paths.{safe_path}
use crawlbox.Wire.{Entry, Request, chunk}
use crawlbox.Host.State.{Object, Host, Io, Transfer, regular, is_taken}
use crawlbox.Host.Objects.{passed, write_file, write}
use crawlbox.Host.Network.{limited}
use crawlbox.Host.Candidate

pub data Move (h : Host) (h' : Host) : Type 0 where
  -- only the reports change
  told : (reports : List Text) → h' ≡ record h { progress = reports } → Move h h'
  -- a new file that no object has
  left :
      (path : Text)
      → is_taken h path ≡ false
      → h' ≡ record h { staged = insert path [] h.staged }
      → Move h h'
  -- a new file and its object
  made :
      (id path : Text)
      → is_taken h path ≡ false
      → h' ≡ record h {
        staged = insert path [] h.staged;
        objects = insert id (record { path = path; sealed = false; entry = none }) h.objects;
      }
      → Move h h'
  -- bytes behind those of an unsealed object
  wrote :
      (id : Text) (o : Object) (old bytes whole : Text)
      → lookup id h.objects ≡ some o
      → o.sealed ≡ false
      → lookup o.path h.staged ≡ some old
      → length bytes ≤ length whole
      → length whole ≤ chunk
      → lt64 h.staging_bytes (add64 h.used (length whole)) ≡ false
      → h' ≡ record h {
        staged = insert o.path (old ++ bytes) h.staged;
        used = add64 h.used (length bytes);
      }
      → Move h h'
  -- the body of a response, in an unsealed object whose file is empty
  downloaded :
      (id : Text) (o : Object) (bytes body : Text)
      → lookup id h.objects ≡ some o
      → o.sealed ≡ false
      → lookup o.path h.staged ≡ some []
      → is_neg64 (sub64 h.staging_bytes h.used) ≡ false
      → length bytes ≤ length (limited (add64 (sub64 h.staging_bytes h.used) 1) body)
      → h' ≡ record h { staged = insert o.path bytes h.staged; used = add64 h.used (length bytes) }
      → Move h h'
  sealed :
      (id : Text) (o : Object)
      → lookup id h.objects ≡ some o
      → h' ≡ record h { objects = insert id (record o { sealed = true }) h.objects }
      → Move h h'
  -- a file of the previous revision
  opened :
      (id path bytes : Text) (entry : Option Entry)
      → h.tree path ≡ some (regular bytes)
      → h' ≡ record h {
        objects = insert id (record { path = path; sealed = true; entry = entry }) h.objects;
      }
      → Move h h'
  published_file :
      (id : Text) (o : Object) (p : Text)
      → lookup id h.objects ≡ some o
      → o.sealed ≡ true
      → safe_path p ≡ true
      → has p h.candidate.files ≡ false
      → Candidate.is_deleted p h.candidate.deletes ≡ false
      → h'
        ≡ record h { candidate = record h.candidate { files = insert p o.path h.candidate.files } }
      → Move h h'
  published_artifact :
      (id : Text) (o : Object) (p : Text)
      → lookup id h.objects ≡ some o
      → o.sealed ≡ true
      → safe_path p ≡ true
      → has p h.candidate.artifacts ≡ false
      → h' ≡ record h {
        candidate = record h.candidate { artifacts = insert p o.path h.candidate.artifacts };
      }
      → Move h h'
  deleted :
      (p : Text)
      → safe_path p ≡ true
      → has p h.candidate.files ≡ false
      → h' ≡ record h {
        candidate = record h.candidate { deletes = insert p true h.candidate.deletes };
      }
      → Move h h'

pub data Moves (h : Host) : Host → Type 0 where
  here : Moves h h
  next : {g k : Host} → Moves h g → Move g k → Moves h k

pub unmoved : (h : Host) → Move h h
unmoved h = told h.progress refl

pub one : {h g : Host} → Move h g → Moves h g
one m = next here m

pub passed-le : (t : Transfer) (n : ℕ) → passed t n ≤ n
passed-le none n = omega arith
passed-le (some (k, e)) n = omega arith

write_file-Move :
    (io : Io) (id : Text) (o : Object) (q : Request) (h : Host) (file : Option Text)
    → lookup id h.objects ≡ some o
    → o.sealed ≡ false
    → length q.content ≤ chunk
    → lt64 h.staging_bytes (add64 h.used (length q.content)) ≡ false
    → lookup o.path h.staged ≡ file
    → Move h (write_file io o q file h).1
unfolding write_file
write_file-Move io id o q h none found unsealed small fits e = unmoved h
write_file-Move io id o q h (some old) found unsealed small fits e =
    let n = passed io.copy (length q.content) in
    let size : length (take n q.content) ≡ n =
      omega (arith, length-take n q.content, passed-le io.copy (length q.content)) in
    wrote id o old (take n q.content) q.content found unsealed e
      (omega (arith, length-take n q.content)) small fits (rw size)

pub write-Move :
    (io : Io) (id : Text) (o : Object) (q : Request) (h : Host)
    → lookup id h.objects ≡ some o
    → length q.content ≤ chunk
    → Move h (write io o q h).1
unfolding write
write-Move io id o q h found small = elim (Bool-cases o.sealed) [
  | inl e ↦ rw e (unmoved h)
  | inr unsealed ↦
      rw unsealed (elim (Bool-cases (lt64 h.staging_bytes (add64 h.used (length q.content)))) [
        | inl e ↦ rw e (unmoved h)
        | inr fits ↦ rw fits (elim (Option-cases io.opening) [
          | inl e ↦
              rw e (
                write_file-Move io id o q h (lookup o.path h.staged) found unsealed small fits refl)
          | inr (x, e) ↦ rw e (unmoved h)
        ])
      ])
]
