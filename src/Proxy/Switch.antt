-- ===== src/Proxy/Switch.antt =====
-- The switch of the proxy lasts over a restart, and the pin is exact.
use crawlbox.Common.{
  ◌≡◌, refl, Bool, true, false, not, Option, none, some, List, [], ◌∷◌, Text, eq_text, eq_text_iff,
  eq_text_refl, lookup-insert, arith, length, ◌==◌, ==_iff, if◌then◌else◌, ◌↔◌,
}
use crawlbox.Common.Result.{ok, passed_test}
use crawlbox.Catalog.Db.{Db, Faults}
use crawlbox.Proxy.{
  Target, Proxy, setting, make, set_enabled, refusal, hex_decode, verify_connection, compare_pin,
}

-- After a successful `SetEnabled` the proxy passes requests on exactly if it was switched on, and
-- so does the proxy that any later start makes of the tables, if that start succeeds.
pub set_enabled-make :
    (fault other : Faults) (enabled : Bool) (p q r : Proxy) (db db' : Db) (target : Target)
    → set_enabled fault enabled (p, db) ≡ ok (q, db')
    → make other target db' ≡ ok r
    → (refusal q ≡ (if enabled then none else some 503)) × (r ≡ q)
unfolding set_enabled make refusal
set_enabled-make fault other enabled p q r db db' target h k =
    ground (arith, lookup-insert setting setting enabled db.settings, eq_text_refl setting)

passed : (b : Bool) → not b ≡ false → b ≡ true
passed true h = refl
passed false h = cc

abbrev IsPinned : (Text → Text) → Option Text → List Text → Type 0
IsPinned sha256 decoded certificates =
    (pin : Text) × (raw : Text) × (others : List Text) × (decoded ≡ some pin)
    × (length pin ≡ 32)
    × (certificates ≡ raw ∷ others)
    × (sha256 raw ≡ pin)

pinned :
    (sha256 : Text → Text) (decoded : Option Text) (certificates : List Text)
    → compare_pin sha256 decoded certificates ≡ ok tt
    → IsPinned sha256 decoded certificates
pinned sha256 (some pin) (raw ∷ others) h =
    let (size, h1) = passed_test (not (length pin == 32)) _ _ h in
    let (same, _) = passed_test (not (eq_text (sha256 raw) pin)) _ _ h1 in
    (
      pin,
      raw,
      others,
      refl,
      (==_iff (length pin) 32).0 (passed (length pin == 32) size),
      refl,
      (eq_text_iff (sha256 raw) pin).0 (passed (eq_text (sha256 raw) pin) same),
    )
pinned sha256 (some pin) [] h = cc
pinned sha256 none [] h = cc
pinned sha256 none (raw ∷ others) h = cc

accepted :
    (sha256 : Text → Text) (pin raw : Text) (others : List Text)
    → length pin ≡ 32
    → sha256 raw ≡ pin
    → compare_pin sha256 (some pin) (raw ∷ others) ≡ ok tt
accepted sha256 pin raw others size same = rw (size, (eq_text_iff (sha256 raw) pin).1 same) refl

-- With a pin file that holds a fingerprint, a connection is accepted exactly if the fingerprint is
-- the hexadecimal text of 32 bytes and these are the digest of the
-- first certificate of the peer.
pub verify_connection_exact :
    (sha256 : Text → Text) (fingerprint : Text) (certificates : List Text)
    → (verify_connection sha256 (some (some fingerprint)) certificates ≡ ok tt) ↔ (
        (pin : Text) × (raw : Text) × (others : List Text) × (hex_decode fingerprint ≡ some pin)
        × (length pin ≡ 32)
        × (certificates ≡ raw ∷ others)
        × (sha256 raw ≡ pin))
unfolding verify_connection
verify_connection_exact sha256 fingerprint certificates = (
  pinned sha256 (hex_decode fingerprint) certificates,
  λ x.
      let (pin, raw, others, decoded, size, peer, same) = x in
      rw (decoded, peer) (accepted sha256 pin raw others size same),
)
