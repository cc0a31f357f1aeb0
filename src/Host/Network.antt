-- ===== src/Host/Network.antt =====
-- What a plugin may reach (internal/runtime/runtime.go): `allow`, the dialer and the redirect
-- check of `NewHost`, and the operation `http`. The parser of URLs, the case folding of host
-- names and the patterns of the package `glob` are parameters.
use crawlbox.Common.{
  ℕ, zero, suc, ◌^◌, leb, Bool, true, ◌||◌, ◌&&◌, not, Option, none, some, List, [], ◌∷◌, Map, Text,
  lookup, insert, codes, eq_text, lt_text, length, take, map, any, if◌then◌else◌,
}
use crawlbox.Common.Int64.{is_neg64, add64, sub64, lt64}
use crawlbox.Common.Sorting.{sort}
use crawlbox.Common.Result.{Error, Result, ok, err, new, ◌>>◌}
use crawlbox.Wire.{Request, no_response}
use crawlbox.Host.State.{Object, Host, Io, Upstream, Reply, refuse}
use crawlbox.Host.Objects.{passed, failure, or_else, new_object}

-- The parts of a parsed URL: `host` is the host with its port, `hostname` without.
pub record Url : Type 0 where
  pub scheme : Text
  pub has_user : Bool
  pub host : Text
  pub hostname : Text

-- `compiles` and `matches` are `glob.Compile(v, '.')` and `Match`.
pub record Naming : Type 0 where
  pub parse_url : Text → Option Url
  pub equal_fold : Text → Text → Bool
  pub compiles : Text → Bool
  pub matches : Text → Text → Bool

-- One address that a name resolves to, by the tests of `net.IP`, and what connecting to it gives.
pub record Address : Type 0 where
  pub is_private : Bool
  pub is_loopback : Bool
  pub is_link_local : Bool
  pub is_unspecified : Bool
  pub connection : Result ℕ

unfoldable pub is_inward : Address → Bool
is_inward a = a.is_private || (a.is_loopback || (a.is_link_local || a.is_unspecified))

-- The first address that connects, else the last error; no address gives no connection and no
-- error.
unfoldable pub connect_first : Option Error → List Address → Result (Option ℕ)
connect_first none [] = ok none
connect_first (some e) [] = err e
connect_first last (a ∷ rest) = elim a.connection [
  | ok c ↦ ok (some c)
  | err e ↦ connect_first (some e) rest
]

-- `DialContext`, after the name has been resolved.
unfoldable pub dial : Bool → List Address → Result (Option ℕ)
unfolding is_inward connect_first
dial allow_private_targets addresses =
    if not allow_private_targets && any is_inward addresses
    then err (new "private network target denied")
    else connect_first none addresses

module _ (naming : Naming) where
  open naming use {parse_url, equal_fold, compiles, matches}

  unfoldable pub is_granted : List Text → Url → Bool
  is_granted hosts u = any (λ v. equal_fold v u.host) hosts

  unfoldable pub is_requested : List Text → Url → Bool
  is_requested hosts u = any (λ v. compiles v && (matches v u.host || matches v u.hostname)) hosts

  unfoldable pub allow : Host → Url → Result (Unit {0})
  unfolding is_granted is_requested
  allow h u =
      if (not (eq_text u.scheme (codes "http")) && not (eq_text u.scheme (codes "https")))
        || (u.has_user || eq_text u.host [])
      then err (new "invalid network target")
      else if not (is_granted h.source_hosts u) || not (is_requested h.descriptor.hosts u)
      then err (new "network target not authorized")
      else ok tt

  -- `CheckRedirect`, over the URLs of the requests made so far, the first one first: whether the
  -- credentials stay on the request.
  unfoldable pub check_redirect : Host → Url → List Url → Result Bool
  unfolding allow
  check_redirect h u via =
      if leb 5 (length via)
      then err (new "redirect limit")
      else do allow h u; ok (elim via [ [] ↦ true | first ∷ rest ↦ eq_text first.host u.host ])

abbrev pub max_response_headers : ℕ
max_response_headers = 64

abbrev pub max_response_header_bytes : ℕ
max_response_header_bytes = 2 ^ 13

-- `resp.Header.Get`, cut at the cap
abbrev pub header_value : Map Text → Text → Text
header_value headers k = elim (lookup k headers) [
  | none ↦ []
  | some v ↦ take max_response_header_bytes v
]

-- The loop over the sorted names, by the number of headers that still fit.
unfoldable pub forward_headers : ℕ → Map Text → List Text → Map Text
forward_headers zero headers names = []
forward_headers (suc room) headers [] = []
forward_headers (suc room) headers (k ∷ names) =
    (k, header_value headers k) ∷ forward_headers room headers names

abbrev pub name_of : Text × Text → Text
name_of (k, v) = k

unfoldable pub response_headers : Map Text → Map Text
unfolding forward_headers
response_headers headers =
    forward_headers max_response_headers headers (sort lt_text (map name_of headers))

-- `io.Copy` from `io.LimitReader(body, limit)`: a limit below 1 reads nothing.
abbrev pub limited : ℕ → Text → Text
limited limit body = if is_neg64 limit then [] else take limit body

-- The staging of a response body into the new object `id`.
unfoldable pub stage_body : Io → Upstream → Text → Object → Host → Reply × Host
unfolding response_headers
stage_body io resp id o h =
    let remaining = sub64 h.staging_bytes h.used in
    if is_neg64 remaining then refuse (new "staging quota exceeded") h else elim io.opening [
      | some e ↦ refuse e h
      | none ↦
          let part = limited (add64 remaining 1) resp.body in
          let n = passed io.copy (length part) in
          let copied = record h {
            staged = insert o.path (take n part) h.staged;
            used = add64 h.used n;
          } in
          elim (or_else (failure io.copy) io.closing) [
            | some e ↦ refuse e copied
            | none ↦ if lt64 remaining n then refuse (new "staging quota exceeded") copied else (
              (
                record no_response {
                  handle = id;
                  size = n;
                  status = resp.status;
                  headers = response_headers resp.headers;
                },
                none,
              ),
              record copied { objects = insert id (record o { sealed = true }) copied.objects },
            )
          ]
    ]

abbrev pub stage_object : Io → Upstream → Text → Option Object → Host → Reply × Host
stage_object io resp id none h = refuse (new "unknown object") h
stage_object io resp id (some o) h = stage_body io resp id o h

abbrev pub stage : Io → Upstream → Result Text × Host → Reply × Host
stage io resp (err e, h) = refuse e h
stage io resp (ok id, h) = stage_object io resp id (lookup id h.objects) h

abbrev pub method_of : Text → Text
method_of [] = codes "GET"
method_of (c ∷ cs) = c ∷ cs

abbrev pub is_method : Text → Bool
is_method m = eq_text m (codes "GET") || (eq_text m (codes "POST") || eq_text m (codes "HEAD"))

module _ (naming : Naming) where
  open naming use {parse_url, equal_fold}

  -- The request, once the target and the method are accepted. `NewRequestWithContext` does
  -- not fail here: the method is one of three and the URL has been parsed.
  unfoldable pub send : Io → Request → Host → Reply × Host
  unfolding new_object stage_body
  send io q h = elim io.slot [
    | some e ↦ refuse e h
    | none ↦
        if any (λ k. equal_fold k (codes "Host")) (map name_of q.headers)
        then refuse (new "Host override denied") h
        else elim (io.fetch (method_of q.method) q.url q.headers q.body) [
          | none ↦ refuse (new "upstream request failed") h
          | some resp ↦ stage io resp (new_object io h)
        ]
  ]

  unfoldable pub http : Io → Request → Host → Reply × Host
  unfolding send allow
  http io q h = elim (parse_url q.url) [
    | none ↦ refuse (new "invalid URL") h
    | some u ↦ elim (allow naming h u) [
      | err e ↦ refuse e h
      | ok _ ↦
          if not (is_method (method_of q.method))
          then refuse (new "unsupported HTTP method") h
          else send io q h
    ]
  ]
