-- ===== src/Host/Reach.antt =====
-- What a plugin can reach: nothing is sent to a host that is not granted and requested, and no
-- connection leads inward without a grant.
use mathlib.Core.List.{Memᴰ}
use crawlbox.Common.{
  ℕ, ◌≡◌, refl, false, not, ◌&&◌, ◌||◌, Option, none, some, List, [], ◌∷◌, Map, Text, any, arith,
  inl, inr, Bool-cases, Option-cases, codes, eq_text,
}
use crawlbox.Common.Result.{Error, ok, is_ok, Result-cases}
use crawlbox.Wire.{Request}
use crawlbox.Host.State.{Object, Host, Io, Upstream}
use crawlbox.Host.Network.{
  Naming, Url, Address, is_inward, connect_first, dial, is_granted, is_requested, allow, http,
  stage_body,
}

-- The connection is to one of the addresses.
connect_first-among :
    (last : Option Error) (addresses : List Address) (c : ℕ)
    → connect_first last addresses ≡ ok (some c)
    → (a : Address) × Memᴰ a addresses × (a.connection ≡ ok c)
unfolding connect_first
connect_first-among none [] c h = cc
connect_first-among (some e) [] c h = cc
connect_first-among none (a ∷ rest) c h = elim (Result-cases a.connection) [
  | inl (d, e) ↦ (a, Memᴰ.head refl, ground arith)
  | inr (x, e) ↦
      let (b, there, at) = connect_first-among (some x) rest c (ground arith) in
      (b, Memᴰ.tail there, at)
]
connect_first-among (some y) (a ∷ rest) c h = elim (Result-cases a.connection) [
  | inl (d, e) ↦ (a, Memᴰ.head refl, ground arith)
  | inr (x, e) ↦
      let (b, there, at) = connect_first-among (some x) rest c (ground arith) in
      (b, Memᴰ.tail there, at)
]

-- Without the grant of private targets, a connection is to an address that the name resolves to,
-- and neither that address nor any other of the name is private, loopback, link-local or
-- unspecified.
pub dial-outward :
    (addresses : List Address) (c : ℕ)
    → dial false addresses ≡ ok (some c)
    → (any is_inward addresses ≡ false) × ((a : Address) × Memᴰ a addresses × (a.connection ≡ ok c))
unfolding dial
dial-outward addresses c h = elim (Bool-cases (any is_inward addresses)) [
  | inl e ↦ absurd (ground arith)
  | inr e ↦ (e, connect_first-among none addresses c (ground arith))
]

module _ (naming : Naming) where
  -- A request whose URL does not parse or is not allowed is answered without the upstream: the
  -- reply and the state are the same whatever the upstream would have answered.
  pub http-refused :
      (io : Io) (fetch : Text → Text → Map Text → Text → Option Upstream) (q : Request) (h : Host)
      → ((u : Url) → naming.parse_url q.url ≡ some u → is_ok (allow naming h u) ≡ false)
      → http naming (record io { fetch = fetch }) q h ≡ http naming io q h
  unfolding http
  http-refused io fetch q h refused = elim (Option-cases (naming.parse_url q.url)) [
    | inl e ↦ ground arith
    | inr (u, e) ↦ elim (Result-cases (allow naming h u)) [
      | inl (x, good) ↦ absurd (ground (arith, refused u e))
      | inr (x, bad) ↦ ground arith
    ]
  ]

  -- What `allow` lets through: HTTP or HTTPS, no user in the URL, and a host that the source
  -- grants and the plugin requests.
  pub allow_exact :
      (h : Host) (u : Url)
      → is_ok (allow naming h u) ≡ (
          ((eq_text u.scheme (codes "http") || eq_text u.scheme (codes "https"))
            && (not u.has_user && not (eq_text u.host [])))
          && (is_granted naming h.source_hosts u && is_requested naming h.descriptor.hosts u))
  unfolding allow
  allow_exact h u = ground arith

-- A download under the largest quota that `int64` holds, into an unused staging area, succeeds
-- and is empty whatever the upstream sends: the limit wraps around.
pub largest_quota_download :
    (io : Io) (resp : Upstream) (id : Text) (o : Object) (h : Host)
    → h.staging_bytes ≡ 9223372036854775807
    → h.used ≡ 0
    → io.opening ≡ none
    → io.closing ≡ none
    → io.copy ≡ none
    → ((stage_body io resp id o h).0.1 ≡ none) × ((stage_body io resp id o h).0.0.size ≡ 0)
unfolding stage_body
largest_quota_download io resp id o h quota unused opens closes copies =
    rw (quota, unused, opens, copies, closes, quota, unused, copies) (refl, refl)
