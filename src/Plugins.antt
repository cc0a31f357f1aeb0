-- ===== src/Plugins.antt =====
-- `invoke`, `Load` and `Execute` of internal/runtime/runtime.go: what the manager makes of the
-- answers of a plugin. The plugin runs in a third-party runtime, which is given by its outcome:
-- its calls of the host, which are answered in turn, and what it returns.
pub mod Executed
mod Tests
use crawlbox.Common.{
  ℕ, ◌+◌, ◌*◌, ◌==◌, ltb, leb, Bool, true, false, not, ◌||◌, Option, none, some, List, [], ◌∷◌,
  Text, eq_text, codes, length, map, if◌then◌else◌,
}
use crawlbox.Common.Int64.{add64, lt64}
use crawlbox.Common.Splitting.{trim_space}
use crawlbox.Common.Result.{Error, Result, ok, err, new, ◌>>=◌, ◌>>◌, fail_if}
use crawlbox.Wire.{Descriptor, Input, Request, ResultStatus, candidate, no_change, abi, chunk}
use crawlbox.Wire
use crawlbox.Paths.{valid_id}
use crawlbox.Host.State.{Candidate, Host, Io, Reply, refuse}
use crawlbox.Host.Network.{Naming}
use crawlbox.Host.Calls.{call}

abbrev pub check : Option Error → Result (Unit {0})
check none = ok tt
check (some e) = err e

-- The outcome of one call of a function of the plugin: the errors of `NewPlugin` and of the call,
-- the code and the output.
pub record Ran : Type 0 where
  pub create : Option Error
  pub failure : Option Error
  pub code : ℕ
  pub out : Text

-- `invoke`, after the calls of the host. The limit of the output is a sum of `int`s of 64 bits.
unfoldable pub invoke : ℕ → Ran → Result Text
invoke state_bytes ran = do
  check ran.create
  check ran.failure
  fail_if (not (ran.code == 0)) (new "plugin returned a code")
  fail_if (lt64 (add64 state_bytes chunk) (length ran.out)) (new "plugin output exceeds limit")
  ok ran.out

-- `Sum`, in hexadecimal, and `strings.EqualFold` on the hexadecimal digests.
abbrev pub lower : ℕ → ℕ
lower c = if ltb 64 c then (if ltb c 91 then c + 32 else c) else c

abbrev pub same_digest : Text → Text → Bool
same_digest a b = eq_text (map lower a) (map lower b)

-- What the system and the libraries answer to `Load`: the file of the plugin, its outcomes, the
-- descriptor that it describes, the settings in JSON, and the error of compiling the schema and
-- of checking the settings against it.
pub record Loading : Type 0 where
  pub file : Result Text
  pub describe : Ran
  pub decode : Text → Result Descriptor
  pub settings : Result Text
  pub against_schema : Text → Text → Option Error
  pub validate : Ran

abbrev pub check_schema : Loading → Descriptor → Text → Result (Unit {0})
check_schema io d settings =
    if eq_text d.config_schema [] then ok tt else check (io.against_schema d.config_schema settings)

module _ (sha256_hex : Text → Text) where
  -- `Load`, of a source with this digest and this limit of its state.
  unfoldable pub load : Loading → Text → ℕ → Result (Descriptor × Text)
  unfolding invoke
  load io digest state_bytes = do
    b ← io.file
    fail_if (not (same_digest (sha256_hex b) digest)) (new "plugin digest mismatch")
    out ← invoke state_bytes io.describe
    d ← io.decode out
    fail_if (not (d.abi == abi) || (not (valid_id d.id) || eq_text d.version []))
        (new "unsupported plugin descriptor")
    settings ← io.settings
    check_schema io d settings
    validated ← invoke state_bytes io.validate
    ok (d, b)

-- The result as it decodes: the status is any text.
pub record RawResult : Type 0 where
  pub message : Text
  pub status : Text
  pub tags : List Text
  pub state : Text
  pub metadata : Text

abbrev pub or_null : Text → Text
or_null [] = codes "null"
or_null (c ∷ cs) = c ∷ cs

abbrev pub status_of : Text → Option ResultStatus
status_of s =
    if eq_text s (codes "candidate")
    then some candidate
    else if eq_text s (codes "no_change")
    then some no_change
    else none

abbrev pub with_status : RawResult → ResultStatus → Wire.Result
with_status raw status = record {
  message = trim_space raw.message;
  status = status;
  tags = raw.tags;
  state = or_null raw.state;
  metadata = or_null raw.metadata;
}

abbrev pub known_status : Option ResultStatus → Result ResultStatus
known_status none = err (new "invalid plugin result")
known_status (some s) = ok s

-- The checks of the result.
unfoldable pub check_result : ℕ → RawResult → Result Wire.Result
check_result state_bytes raw = do
  fail_if (ltb 4096 (length raw.message)) (new "plugin result message exceeds 4096 bytes")
  status ← known_status (status_of raw.status)
  fail_if (ltb state_bytes (length raw.state)) (new "state limit")
  ok (with_status raw status)

-- The request of a message that was read from the plugin's memory, by its JSON decoder.
abbrev pub request_of : (Text → Result Request) → Result Text → Result Request
request_of parse message = do
  b ← message
  fail_if (ltb (2 * chunk) (length b)) (new "host message limit")
  parse b

module _ (sha256 : Text → Text) (naming : Naming) (parse : Text → Result Request) where
  abbrev pub call_with : Io → Result Request → Host → Reply × Host
  call_with io (err e) h = refuse e h
  call_with io (ok q) h = call sha256 naming io q h

  -- The function "call" that a plugin with a host may use, with one message.
  unfoldable pub host_call : Io → Result Text → Host → Reply × Host
  unfolding call
  host_call io message h = call_with io (request_of parse message) h

  -- All messages of a run.
  unfoldable pub host_calls : List (Io × Result Text) → Host → Host
  unfolding host_call
  host_calls [] h = h
  host_calls ((io, message) ∷ messages) h = host_calls messages (host_call io message h).1

  -- `Execute`: the plugin is given the input and sends these messages to the host.
  unfoldable pub execute :
      ℕ
      → (Input → Result Text)
      → (Text → List (Io × Result Text) × Ran)
      → (Text → Result RawResult)
      → Input
      → Host
      → Result (Candidate × Wire.Result)
  unfolding invoke check_result host_calls
  execute state_bytes marshal plugin decode input h = do
    raw ← marshal input
    out ← invoke state_bytes (plugin raw).1
    decoded ← decode out
    result ← check_result state_bytes decoded
    ok ((host_calls (plugin raw).0 h).candidate, result)
