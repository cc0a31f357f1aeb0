-- ===== src/Plugins/Executed.antt =====
-- What a plugin that was loaded is, and what a run of it yields.
use crawlbox.Common.{
  ℕ, ◌≤◌, ◌≡◌, refl, ap, sym, subst, false, Option, none, some, List, [], ◌∷◌, Text, length, max,
  ltb, arith,
}
use crawlbox.Common.Splitting.{trim_space}
use crawlbox.Common.Result.{Result, ok, err, >>=-eq-ok, passed_test, ok-inj}
use crawlbox.Wire.{Descriptor, Input, Request, ResultStatus, Entry}
use crawlbox.Wire
use crawlbox.Host.State.{Candidate, Host, Io, Node, Previous, new_host}
use crawlbox.Host.Network.{Naming}
use crawlbox.Host.Calls.{call, run}
use crawlbox.Host.Orderly.{IsOrderly}
use crawlbox.Host.Published.{run-IsOrderly}
use crawlbox.Plugins.{
  Ran, RawResult, invoke, or_null, status_of, known_status, check_result, request_of, call_with,
  host_calls, execute,
}

-- What is left of a result that was checked.
abbrev pub IsChecked : ℕ → RawResult → Wire.Result → Type 0
IsChecked state_bytes raw r =
    (length raw.message ≤ 4096)
    × (r.message ≡ trim_space raw.message)
    × (status_of raw.status ≡ some r.status)
    × (r.tags ≡ raw.tags)
    × (r.state ≡ or_null raw.state)
    × (r.metadata ≡ or_null raw.metadata)
    × (1 ≤ length r.state)
    × (length r.state ≤ max state_bytes 4)
    × (1 ≤ length r.metadata)

or_null-some : (t : Text) → 1 ≤ length (or_null t)
or_null-some [] = omega arith
or_null-some (c ∷ cs) = omega arith

or_null-max : (t : Text) (n : ℕ) → ltb n (length t) ≡ false → length (or_null t) ≤ max n 4
or_null-max [] n h = omega arith
or_null-max (c ∷ cs) n h = let short : length (c ∷ cs) ≤ n = ground arith in omega (arith, short)

at_most : (n m : ℕ) → ltb m n ≡ false → n ≤ m
at_most n m h = ground arith

known_status-some :
    (o : Option ResultStatus) (s : ResultStatus) → known_status o ≡ ok s → o ≡ some s
known_status-some none s h = cc
known_status-some (some t) s h = ap some (ok-inj h)

check_result-IsChecked :
    (state_bytes : ℕ) (raw : RawResult) (r : Wire.Result)
    → check_result state_bytes raw ≡ ok r
    → IsChecked state_bytes raw r
unfolding check_result
check_result-IsChecked state_bytes raw r h =
    let (small, h1) = passed_test (ltb 4096 (length raw.message)) _ _ h in
    let (status, known, h2) = >>=-eq-ok (known_status (status_of raw.status)) _ h1 in
    let (fits, h3) = passed_test (ltb state_bytes (length raw.state)) _ _ h2 in
    subst (IsChecked state_bytes raw) (ok-inj h3) (
      at_most (length raw.message) 4096 small,
      refl,
      known_status-some (status_of raw.status) status known,
      refl,
      refl,
      refl,
      or_null-some raw.state,
      or_null-max raw.state state_bytes fits,
      or_null-some raw.metadata,
    )

-- A message that reaches the host only if it is a request.
abbrev admit : Io → Result Request → List (Io × Request) → List (Io × Request)
admit io (err e) rest = rest
admit io (ok q) rest = (io, q) ∷ rest

-- The requests of a run that reach the host: the messages that can be read, are short enough and
-- are requests.
abbrev pub requests : (Text → Result Request) → List (Io × Result Text) → List (Io × Request)
requests parse [] = []
requests parse ((io, message) ∷ messages) =
    admit io (request_of parse message) (requests parse messages)

host_calls-requests :
    (sha256 : Text → Text) (naming : Naming) (parse : Text → Result Request)
    (messages : List (Io × Result Text)) (h : Host)
    → host_calls sha256 naming parse messages h ≡ run sha256 naming (requests parse messages) h
unfolding host_calls run
host_calls-requests sha256 naming parse [] h = refl
host_calls-requests sha256 naming parse ((io, message) ∷ messages) h =
    by_request (request_of parse message) (host_calls-requests sha256 naming parse messages)
  where
    by_request :
        (r : Result Request)
        → ((k : Host)
            → host_calls sha256 naming parse messages k
              ≡ run sha256 naming (requests parse messages) k)
        → host_calls sha256 naming parse messages (call_with sha256 naming parse io r h).1
          ≡ run sha256 naming (admit io r (requests parse messages)) h
    by_request (err e) next = next h
    by_request (ok q) next = next (call sha256 naming io q h).1

-- If a run of a plugin yields a candidate, then it is that of a host which has answered all
-- requests of the plugin, and no other message, and is orderly: what the candidate names is there
-- and cannot be written. The plugin's output passed the checks of a call and decodes to a result
-- whose message is at most 4096 bytes and whose status is known. The result of the run is that one
-- with its message trimmed and "null" for an empty state and for empty metadata; so these are not
-- empty, and the state is within the limit, but for the text "null".
pub execute-IsOrderly :
    (sha256 : Text → Text) (naming : Naming) (parse : Text → Result Request) (state_bytes : ℕ)
    (marshal : Input → Result Text) (plugin : Text → List (Io × Result Text) × Ran)
    (decode : Text → Result RawResult) (input : Input) (staging_bytes : ℕ) (hosts : List Text)
    (d : Descriptor) (dir : Text) (prev : Previous) (tree : Text → Option Node) (c : Candidate)
    (r : Wire.Result)
    → execute sha256 naming parse state_bytes marshal plugin decode input
        (new_host staging_bytes hosts d dir prev tree)
      ≡ ok (c, r)
    → (h : Host) × (raw : Text) × (out : Text) × (decoded : RawResult) × (marshal input ≡ ok raw)
      × (invoke state_bytes (plugin raw).1 ≡ ok out)
      × (decode out ≡ ok decoded)
      × (h
          ≡ run sha256 naming
              (requests parse (plugin raw).0)
              (new_host staging_bytes hosts d dir prev tree))
      × IsOrderly h
      × (c ≡ h.candidate)
      × IsChecked state_bytes decoded r
unfolding execute
execute-IsOrderly sha256 naming parse state_bytes marshal plugin decode input staging_bytes hosts d
      dir prev tree c r h =
    let start = new_host staging_bytes hosts d dir prev tree in
    let (raw, encoded, h1) = >>=-eq-ok (marshal input) _ h in
    let (out, called, h2) = >>=-eq-ok (invoke state_bytes (plugin raw).1) _ h1 in
    let (decoded, parsed, h3) = >>=-eq-ok (decode out) _ h2 in
    let (result, checked, h4) = >>=-eq-ok (check_result state_bytes decoded) _ h3 in
    let messages = (plugin raw).0 in
    let host = host_calls sha256 naming parse messages start in
    let same : (host.candidate, result) ≡ (c, r) = ok-inj h4 in
    let answered = host_calls-requests sha256 naming parse messages start in
    (
      host,
      raw,
      out,
      decoded,
      encoded,
      called,
      parsed,
      answered,
      subst IsOrderly (sym answered) (
          run-IsOrderly sha256 naming staging_bytes hosts d dir prev tree
            (requests parse messages)),
      sym (ap (λ x. x.0) same),
      subst (IsChecked state_bytes decoded) (ap (λ x. x.1) same)
          (check_result-IsChecked state_bytes decoded result checked),
    )
