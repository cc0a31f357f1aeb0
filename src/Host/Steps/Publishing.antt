-- ===== src/Host/Steps/Publishing.antt =====
-- The operations on the candidate are moves.
use crawlbox.Common.{◌≡◌, refl, some, lookup, has, Bool-cases, inl, inr}
use crawlbox.Paths.{safe_path}
use crawlbox.Wire.{Request}
use crawlbox.Host.State.{Object, Host}
use crawlbox.Host.Candidate
use crawlbox.Host.Moves.{Move, published_file, published_artifact, deleted, unmoved}

pub published_file-Move :
    (o : Object) (q : Request) (h : Host)
    → lookup q.handle h.objects ≡ some o
    → Move h (Candidate.publish_file o q h).1
unfolding Candidate.publish_file
published_file-Move o q h found = elim (Bool-cases (safe_path q.path)) [
  | inr e ↦ rw e (unmoved h)
  | inl safe ↦ rw safe (elim (Bool-cases o.sealed) [
    | inr e ↦ rw e (unmoved h)
    | inl shut ↦ rw shut (elim (Bool-cases (Candidate.is_deleted q.path h.candidate.deletes)) [
      | inl e ↦ rw e (unmoved h)
      | inr kept ↦ rw kept (elim (Bool-cases (has q.path h.candidate.files)) [
        | inl e ↦ rw e (unmoved h)
        | inr fresh ↦ rw fresh (published_file q.handle o q.path found shut safe fresh kept refl)
      ])
    ])
  ])
]

pub published_artifact-Move :
    (o : Object) (q : Request) (h : Host)
    → lookup q.handle h.objects ≡ some o
    → Move h (Candidate.publish_artifact o q h).1
unfolding Candidate.publish_artifact
published_artifact-Move o q h found = elim (Bool-cases (safe_path q.path)) [
  | inr e ↦ rw e (unmoved h)
  | inl safe ↦ rw safe (elim (Bool-cases o.sealed) [
    | inr e ↦ rw e (unmoved h)
    | inl shut ↦ rw shut (elim (Bool-cases (has q.path h.candidate.artifacts)) [
      | inl e ↦ rw e (unmoved h)
      | inr fresh ↦ rw fresh (published_artifact q.handle o q.path found shut safe fresh refl)
    ])
  ])
]

pub delete_file-Move : (q : Request) (h : Host) → Move h (Candidate.delete_file q h).1
unfolding Candidate.delete_file
delete_file-Move q h = elim (Bool-cases (safe_path q.path)) [
  | inr e ↦ rw e (unmoved h)
  | inl safe ↦ rw safe (elim (Bool-cases (has q.path h.candidate.files)) [
    | inl e ↦ rw e (unmoved h)
    | inr fresh ↦ rw fresh (elim (Bool-cases (Candidate.is_deleted q.path h.candidate.deletes)) [
      | inl e ↦ rw e (unmoved h)
      | inr kept ↦ rw kept (deleted q.path safe fresh refl)
    ])
  ])
]
