-- ===== src/Host/Steps/Downloading.antt =====
-- The operation `http` is a sequence of moves.
use crawlbox.Common.{
  ◌≡◌, refl, false, any, map, Text, insert, length, take, arith, Bool-cases, Option-cases, inl, inr,
  codes, length-take,
}
use crawlbox.Common.Int64.{is_neg64, add64, sub64, lt64}
use crawlbox.Common.Result.{Result, Result-cases, ok, err}
use crawlbox.Wire.{Request}
use crawlbox.Host.State.{Object, Host, Io, Upstream}
use crawlbox.Host.Objects.{passed, failure, or_else, new_object}
use crawlbox.Host.Network
use crawlbox.Host.Network.{Naming, limited, stage_body}
use crawlbox.Host.Moves.{Move, downloaded, sealed, Moves, here, next, one, passed-le}
use crawlbox.Host.Steps.Opening.{IsNew, new_object-Move, new_object-IsNew}

-- The copy of the body, in the state that it leaves.
abbrev copied : Io → Upstream → Object → Host → Host
copied io resp o h =
    let part = limited (add64 (sub64 h.staging_bytes h.used) 1) resp.body in
    let n = passed io.copy (length part) in
    record h { staged = insert o.path (take n part) h.staged; used = add64 h.used n }

copied-Move :
    (io : Io) (resp : Upstream) (id : Text) (o : Object) (h : Host)
    → IsNew id o h
    → is_neg64 (sub64 h.staging_bytes h.used) ≡ false
    → Move h (copied io resp o h)
copied-Move io resp id o h fresh room =
    let part = limited (add64 (sub64 h.staging_bytes h.used) 1) resp.body in
    let n = passed io.copy (length part) in
    let size : length (take n part) ≡ n =
      omega (arith, length-take n part, passed-le io.copy (length part)) in
    downloaded id o (take n part) resp.body fresh.found fresh.unsealed fresh.blank room
      (omega (arith, length-take n part)) (rw size)

finish-Moves :
    (io : Io) (resp : Upstream) (id : Text) (o : Object) (h : Host)
    → IsNew id o h
    → Moves h (stage_body io resp id o h).1
unfolding stage_body
finish-Moves io resp id o h fresh =
    let remaining = sub64 h.staging_bytes h.used in
    let n = passed io.copy (length (limited (add64 remaining 1) resp.body)) in
    elim (Bool-cases (is_neg64 remaining)) [
      | inl e ↦ rw e here
      | inr room ↦ rw room (elim (Option-cases io.opening) [
        | inr (x, e) ↦ rw e here
        | inl e ↦ rw e (elim (Option-cases (or_else (failure io.copy) io.closing)) [
          | inr (x, f) ↦ rw f (one (copied-Move io resp id o h fresh room))
          | inl f ↦ rw f (elim (Bool-cases (lt64 remaining n)) [
            | inl g ↦ rw g (one (copied-Move io resp id o h fresh room))
            | inr g ↦
                rw g (
                  next (one (copied-Move io resp id o h fresh room)) (sealed id o fresh.found refl))
          ])
        ])
      ])
    ]

pub join-Moves : {h g k : Host} → Moves h g → Moves g k → Moves h k
join-Moves m here = m
join-Moves m (next n s) = next (join-Moves m n) s

stage-Moves :
    (io : Io) (resp : Upstream) (h : Host) → Moves h (Network.stage io resp (new_object io h)).1
stage-Moves io resp h = go (new_object io h).0 refl
  where
    go :
        (r : Result Text)
        → (new_object io h).0 ≡ r
        → Moves h (Network.stage io resp (new_object io h)).1
    go (err x) e = rw e (one (new_object-Move io h))
    go (ok id) e =
        let (o, fresh) = new_object-IsNew io h id e in
        rw (e, fresh.found)
          (join-Moves (one (new_object-Move io h))
            (finish-Moves io resp id o (new_object io h).1 fresh))

module _ (naming : Naming) where
  send-Moves : (io : Io) (q : Request) (h : Host) → Moves h (Network.send naming io q h).1
  unfolding Network.send
  send-Moves io q h = elim (Option-cases io.slot) [
    | inr (x, e) ↦ rw e here
    | inl e ↦
        rw e
          (elim (Bool-cases
            (any (λ k. naming.equal_fold k (codes "Host")) (map Network.name_of q.headers))) [
              | inl f ↦ rw f here
              | inr f ↦
                  rw f
                    (elim (Option-cases
                      (io.fetch (Network.method_of q.method) q.url q.headers q.body)) [
                        | inl g ↦ rw g here
                        | inr (resp, g) ↦ rw g (stage-Moves io resp h)
                      ])
            ])
  ]

  pub http-Moves : (io : Io) (q : Request) (h : Host) → Moves h (Network.http naming io q h).1
  unfolding Network.http
  http-Moves io q h = elim (Option-cases (naming.parse_url q.url)) [
    | inl e ↦ rw (e, Network.http) here
    | inr (u, e) ↦
        rw (e, Network.http)
          (elim (Result-cases (Network.allow naming h u)) [
            | inr (x, f) ↦ rw f here
            | inl (t, f) ↦
                rw f (elim (Bool-cases (Network.is_method (Network.method_of q.method))) [
                  | inr g ↦ rw g here
                  | inl g ↦ rw g (send-Moves io q h)
                ])
          ])
  ]
