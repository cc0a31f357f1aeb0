-- ===== src/Host/Quota.antt =====
-- The staging quota: what a plugin can make the host write.
use crawlbox.Common.{
  ℕ, ◌+◌, ◌^◌, ◌≤◌, ◌≡◌, refl, false, Option, some, List, [], ◌∷◌, ◌++◌, Map, Text, lookup, insert,
  has, eq_text, length, length-append, length-take, arith, Bool-cases, inl, inr,
}
use crawlbox.Common.Int64.{is_neg64, add64, sub64, lt64}
use crawlbox.Wire.{Request, Descriptor, chunk}
use crawlbox.Host.State.{Host, Io, Previous, Node, is_taken, new_host}
use crawlbox.Host.Network.{Naming, limited}
use crawlbox.Host.Calls.{run}
use crawlbox.Host.Moves.{
  Move, told, left, made, wrote, downloaded, sealed, opened, published_file, published_artifact,
  deleted, Moves, here, next,
}
use crawlbox.Host.Steps.{run-Moves}

-- The bytes of all files.
unfoldable pub total : Map Text → ℕ
total [] = 0
total ((p, bytes) ∷ m) = length bytes + total m

total-insert :
    (p bytes old : Text) (m : Map Text)
    → lookup p m ≡ some old
    → total (insert p bytes m) + length old ≡ total m + length bytes
unfolding total insert lookup
total-insert p bytes old [] e = cc
total-insert p bytes old ((j, w) ∷ m) e = elim (Bool-cases (eq_text j p)) [
  | inl f ↦ ground arith
  | inr f ↦ ground (arith, total-insert p bytes old m)
]

total-insert_new :
    (p bytes : Text) (m : Map Text)
    → has p m ≡ false
    → total (insert p bytes m) ≡ total m + length bytes
unfolding total insert has
total-insert_new p bytes [] e = omega arith
total-insert_new p bytes ((j, w) ∷ m) e = elim (Bool-cases (eq_text j p)) [
  | inl f ↦ ground arith
  | inr f ↦ ground (arith, total-insert_new p bytes m)
]

-- The counter is the number of bytes in the files that the host has created, and passes the quota
-- by one byte at most. The quota leaves room for a chunk below the largest `int64`.
pub record IsMetered (h : Host) : Type 0 where
  pub room : h.staging_bytes + 2 ^ 21 ≤ 2 ^ 63
  pub exact : h.used ≡ total h.staged
  pub bounded : h.used ≤ h.staging_bytes + 1

taken-has : (h : Host) (p : Text) → is_taken h p ≡ false → has p h.staged ≡ false
unfolding is_taken
taken-has h p e = ground arith

IsMetered-same :
    {h h' : Host}
    → IsMetered h
    → h'.staging_bytes ≡ h.staging_bytes
    → h'.used ≡ h.used
    → total h'.staged ≡ total h.staged
    → IsMetered h'
IsMetered-same m a b c = record {
  room = ground (arith, m.room);
  exact = ground (arith, m.exact);
  bounded = ground (arith, m.bounded);
}

-- The guard of `write` leaves room for the bytes.
write_fits :
    (s u n len : ℕ)
    → s + 2 ^ 21 ≤ 2 ^ 63
    → u ≤ s + 1
    → n ≤ len
    → len ≤ chunk
    → lt64 s (add64 u len) ≡ false
    → (add64 u n ≡ u + n) × (u + n ≤ s + 1)
write_fits s u n len room bound short small fits = ground arith

length-limited : (limit : ℕ) (body : Text) → length (limited limit body) ≤ limit
length-limited limit body = elim (Bool-cases (is_neg64 limit)) [
  | inl e ↦ rw e (omega arith)
  | inr e ↦ rw e (omega (arith, length-take limit body))
]

-- The limit of a download passes the room that is left by one byte.
download_fits :
    (s u n : ℕ)
    → s + 2 ^ 21 ≤ 2 ^ 63
    → u ≤ s + 1
    → is_neg64 (sub64 s u) ≡ false
    → n ≤ add64 (sub64 s u) 1
    → (add64 u n ≡ u + n) × (u + n ≤ s + 1)
download_fits s u n room bound remains short = ground arith

Move-IsMetered : {h h' : Host} → Move h h' → IsMetered h → IsMetered h'
Move-IsMetered (told reports e) m = rw e (IsMetered-same m refl refl refl)
Move-IsMetered {h} (left path fresh e) m = rw e (
    IsMetered-same m refl refl
      (omega (arith, total-insert_new path [] h.staged (taken-has h path fresh))))
Move-IsMetered {h} (made id path fresh e) m = rw e (
    IsMetered-same m refl refl
      (omega (arith, total-insert_new path [] h.staged (taken-has h path fresh))))
Move-IsMetered {h} (wrote id o old bytes whole found unsealed file short small fits e) m =
    let (sum, bound) =
      write_fits h.staging_bytes h.used (length bytes) (length whole) m.room m.bounded short small
        fits in
    rw e (record {
      room = m.room;
      exact = rw sum (
          omega (
            arith,
            m.exact,
            total-insert o.path (old ++ bytes) old h.staged file,
            length-append old bytes,
          ));
      bounded = rw sum bound;
    })
Move-IsMetered {h} (downloaded id o bytes body found unsealed file room short e) m =
    let limit = add64 (sub64 h.staging_bytes h.used) 1 in
    let (sum, bound) =
      download_fits h.staging_bytes h.used (length bytes) m.room m.bounded room
        (omega (arith, short, length-limited limit body)) in
    rw e (record {
      room = m.room;
      exact = rw sum (omega (arith, m.exact, total-insert o.path bytes [] h.staged file));
      bounded = rw sum bound;
    })
Move-IsMetered (sealed id o found e) m = rw e (IsMetered-same m refl refl refl)
Move-IsMetered (opened id path bytes entry node e) m = rw e (IsMetered-same m refl refl refl)
Move-IsMetered (published_file id o p found shut safe fresh kept e) m =
    rw e (IsMetered-same m refl refl refl)
Move-IsMetered (published_artifact id o p found shut safe fresh e) m =
    rw e (IsMetered-same m refl refl refl)
Move-IsMetered (deleted p safe fresh e) m = rw e (IsMetered-same m refl refl refl)

Moves-IsMetered : {h h' : Host} → Moves h h' → IsMetered h → IsMetered h'
Moves-IsMetered here m = m
Moves-IsMetered (next ms mv) m = Move-IsMetered mv (Moves-IsMetered ms m)

-- Whatever calls a plugin makes on a new host, and whatever the system answers, the counter is
-- the number of bytes in the files of the host, and passes the quota by one byte at most, for a
-- quota that leaves 2 MiB below 2 ^ 63.
pub run-IsMetered :
    (sha256 : Text → Text) (naming : Naming) (staging_bytes : ℕ) (hosts : List Text)
    (descriptor : Descriptor) (dir : Text) (prev : Previous) (tree : Text → Option Node)
    (calls : List (Io × Request))
    → staging_bytes + 2 ^ 21 ≤ 2 ^ 63
    → IsMetered (run sha256 naming calls (new_host staging_bytes hosts descriptor dir prev tree))
unfolding new_host total
run-IsMetered sha256 naming staging_bytes hosts descriptor dir prev tree calls room =
    Moves-IsMetered
      (run-Moves sha256 naming calls (new_host staging_bytes hosts descriptor dir prev tree))
      (record { room = room; exact = refl; bounded = omega arith })
