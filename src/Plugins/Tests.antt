-- ===== src/Plugins/Tests.antt =====
-- A plugin that is loaded, and a run of it that makes one report.
use crawlbox.Common.{
  ◌≡◌, ◌^◌, ◌-◌, refl, if◌then◌else◌, true, none, List, [], ◌∷◌, Text, codes, eq_text,
}
use crawlbox.Common.Int.{pos}
use crawlbox.Common.Splitting.{trim_space}
use crawlbox.Common.Result.{Result, ok, err, new, not_exist}
use crawlbox.Wire.{Descriptor, Input, Request, no_change, progress, abi}
use crawlbox.Wire
use crawlbox.Host.State.{Host, Io, Previous, new_host, no_candidate}
use crawlbox.Host.Network.{Naming}
use crawlbox.Host.Calls.{run}
use crawlbox.Host.Orderly.{IsOrderly}
use crawlbox.Plugins.{Ran, Loading, RawResult, invoke, execute}
use crawlbox.Plugins.Executed.{requests, IsChecked, execute-IsOrderly}

abbrev returns : Text → Ran
returns out = record { create = none; failure = none; code = 0; out = out }

abbrev described : Descriptor
described = record {
  id = codes "p";
  version = codes "1";
  abi = 1;
  hosts = [];
  config_schema = codes "{}";
}

abbrev loading : Loading
loading = record {
  file = ok (codes "wasm");
  describe = returns (codes "d");
  decode = λ t. ok described;
  settings = ok (codes "{}");
  against_schema = λ schema settings. none;
  validate = returns [];
}

-- Under the largest limit of the state, the limit of the output wraps around, and one byte is too
-- much.
largest_limit_test :
    invoke (2 ^ 63 - 1) (returns (codes "x")) ≡ err (new "plugin output exceeds limit")
unfolding invoke
largest_limit_test = refl

abbrev raw_result : RawResult
raw_result = record {
  message = codes " fine ";
  status = codes "no_change";
  tags = [];
  state = [];
  metadata = [];
}

abbrev quiet_result : Wire.Result
quiet_result = record {
  message = codes "fine";
  status = no_change;
  tags = [];
  state = codes "null";
  metadata = codes "null";
}

abbrev run_input : Input
run_input = record {
  abi = 1;
  source = codes "s";
  run = codes "r";
  config = [];
  state = [];
  previous_revision = [];
}

abbrev no_previous : Previous
no_previous = record { files = []; artifacts = []; entries = []; artifact_entries = [] }

abbrev answers : Io
answers = record {
  ended = none;
  temp = err not_exist;
  opening = none;
  closing = none;
  slot = none;
  copy = none;
  fetch = λ u m h b. none;
}

abbrev reports : Request
reports = record {
  op = progress;
  path = [];
  handle = [];
  content = codes "half";
  offset = pos 0;
  limit = pos 0;
  url = [];
  method = [];
  headers = [];
  body = [];
}

abbrev parse_report : Text → Result Request
parse_report message =
    if eq_text message (codes "report") then ok reports else err (new "no request")

-- A plugin that makes one report, after a message that is no request.
abbrev quiet_plugin : Text → List (Io × Result Text) × Ran
quiet_plugin raw =
    ((answers, ok (codes "?")) ∷ (answers, ok (codes "report")) ∷ [], returns (codes "out"))

-- A naming in which no text is a URL.
abbrev naming : Naming
naming = record {
  parse_url = λ t. none;
  equal_fold = eq_text;
  compiles = λ v. true;
  matches = eq_text;
}

runs :
    execute
      (λ b. b)
      naming
      parse_report
      100
      (λ i. ok (codes "in"))
      quiet_plugin
      (λ t. ok raw_result)
      run_input
      (new_host 10 [] described (codes "/d") no_previous (λ p. none))
    ≡ ok (no_candidate, quiet_result)
unfolding execute eq_text new_host trim_space crawlbox.Host.Calls.call
runs = refl

execute-IsOrderly_example :
    (h : Host) × (raw : Text) × (out : Text) × (decoded : RawResult) × (ok (codes "in") ≡ ok raw)
    × (invoke 100 (quiet_plugin raw).1 ≡ ok out)
    × (ok raw_result ≡ ok decoded)
    × (h
        ≡ run
            (λ b. b)
            naming
            (requests parse_report (quiet_plugin raw).0)
            (new_host 10 [] described (codes "/d") no_previous (λ p. none)))
    × IsOrderly h
    × (no_candidate ≡ h.candidate)
    × IsChecked 100 decoded quiet_result
execute-IsOrderly_example =
    execute-IsOrderly (λ b. b) naming parse_report 100 (λ i. ok (codes "in")) quiet_plugin
      (λ t. ok raw_result) run_input 10 [] described (codes "/d") no_previous (λ p. none)
      no_candidate quiet_result runs
