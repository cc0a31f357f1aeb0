-- ===== src/Host/Tests.antt =====
-- A plugin that creates, fills, closes and publishes an object, and the theorems on runs at it.
use crawlbox.Common.{
  any, not, ◌||◌, ◌&&◌, ℕ, ◌≡◌, ◌≤◌, ◌+◌, ◌^◌, refl, true, false, none, some, Option, List, [], ◌∷◌,
  Text, codes, eq_text, lookup, arith,
}
use crawlbox.Common.Int.{ℤ}
use crawlbox.Common.Result.{ok, is_ok}
use crawlbox.Wire
use crawlbox.Wire.{Descriptor, Request, Op}
use crawlbox.Host.State.{Object, Upstream, Host, Io, Previous, Node, is_taken, content, new_host}
use crawlbox.Host.Network.{Naming, Url, Address, dial, is_inward, allow, http, stage_body}
use crawlbox.Host.Reach.{dial-outward, http-refused, largest_quota_download}
use mathlib.Core.List.{Memᴰ}
use crawlbox.Host.Calls.{run}
use crawlbox.Host.Quota.{IsMetered, run-IsMetered}
use crawlbox.Host.Published.{published_file_fixed}
use crawlbox.Host.Conflicts.{IsConsistent, run-IsConsistent}

abbrev digest : Text → Text
digest s = b'#' ∷ s

-- A naming in which every text is a URL of one host.
abbrev naming : Naming
naming = record {
  parse_url = λ t.
      some (record {
        scheme = codes "https";
        has_user = false;
        host = codes "h";
        hostname = codes "h";
      });
  equal_fold = eq_text;
  compiles = λ v. true;
  matches = eq_text;
}

abbrev descriptor : Descriptor
descriptor = record {
  id = codes "p";
  version = codes "1";
  abi = 1;
  hosts = codes "h" ∷ [];
  config_schema = [];
}

abbrev nothing : Previous
nothing = record { files = []; artifacts = []; entries = []; artifact_entries = [] }

abbrev no_tree : Text → Option Node
no_tree p = none

abbrev fresh : Host
fresh = new_host 1000 (codes "h" ∷ []) descriptor (codes "/d") nothing no_tree

abbrev io : Io
io = record {
  ended = none;
  temp = ok (codes "1");
  opening = none;
  closing = none;
  slot = none;
  copy = none;
  fetch = λ m u h b. none;
}

abbrev request : Op → Text → Text → Text → Request
request op path handle bytes = record {
  op = op;
  path = path;
  handle = handle;
  content = bytes;
  offset = ℤ.pos 0;
  limit = ℤ.pos 0;
  url = [];
  method = [];
  headers = [];
  body = [];
}

abbrev object : Text
object = codes "object-1"

abbrev calls : List (Io × Request)
calls =
    (io, request Wire.create [] [] [])
    ∷ (io, request Wire.write [] object (codes "abc"))
    ∷ (io, request Wire.close [] object [])
    ∷ (io, request Wire.publish_file (codes "a.txt") object [])
    ∷ (io, request Wire.publish_artifact (codes "b.txt") object [])
    ∷ []

-- Calls that try to change what was published.
abbrev more : List (Io × Request)
more =
    (io, request Wire.write [] object (codes "xyz"))
    ∷ (io, request Wire.publish_file (codes "a.txt") object [])
    ∷ (io, request Wire.delete_file (codes "a.txt") [] [])
    ∷ []

run-IsMetered_example : IsMetered (run digest naming calls fresh)
run-IsMetered_example =
    run-IsMetered digest naming 1000 (codes "h" ∷ []) descriptor (codes "/d") nothing no_tree calls
      (omega arith)

run-IsConsistent_example : IsConsistent (run digest naming calls fresh).candidate
run-IsConsistent_example =
    run-IsConsistent digest naming 1000 (codes "h" ∷ []) descriptor (codes "/d") nothing no_tree
      calls

published_there :
    lookup (codes "a.txt") (run digest naming calls fresh).candidate.files
    ≡ some (codes "/d/object-1")
unfolding run lookup crawlbox.Host.Calls.call crawlbox.Host.Objects.create crawlbox.Common.has
    new_host crawlbox.Common.insert eq_text crawlbox.Host.Objects.write crawlbox.Host.Objects.close
    crawlbox.Host.Candidate.publish_file crawlbox.Paths.safe_path crawlbox.Paths.clean
    crawlbox.Common.Splitting.split crawlbox.Host.Candidate.publish_artifact
published_there = refl

artifact_there :
    lookup (codes "b.txt") (run digest naming calls fresh).candidate.artifacts
    ≡ some (codes "/d/object-1")
unfolding run lookup crawlbox.Host.Calls.call crawlbox.Host.Objects.create crawlbox.Common.has
    new_host crawlbox.Common.insert eq_text crawlbox.Host.Objects.write crawlbox.Host.Objects.close
    crawlbox.Host.Candidate.publish_file crawlbox.Paths.safe_path crawlbox.Paths.clean
    crawlbox.Common.Splitting.split crawlbox.Host.Candidate.publish_artifact
artifact_there = refl

published_file_fixed_example :
    let h = run digest naming calls fresh in
    let g = run digest naming more h in
    (lookup (codes "a.txt") g.candidate.files ≡ some (codes "/d/object-1"))
    × (is_taken g (codes "/d/object-1") ≡ true)
    × (content g (codes "/d/object-1") ≡ content h (codes "/d/object-1"))
published_file_fixed_example =
    published_file_fixed digest naming 1000 (codes "h" ∷ []) descriptor (codes "/d") nothing no_tree
      calls more (codes "a.txt") (codes "/d/object-1") published_there

abbrev public_address : Address
public_address = record {
  is_private = false;
  is_loopback = false;
  is_link_local = false;
  is_unspecified = false;
  connection = ok 7;
}

dials : dial false (public_address ∷ []) ≡ ok (some 7)
unfolding dial
dials = refl

dial-outward_example :
    (any is_inward (public_address ∷ []) ≡ false)
    × ((a : Address) × Memᴰ a (public_address ∷ []) × (a.connection ≡ ok 7))
dial-outward_example = dial-outward (public_address ∷ []) 7 dials

-- A host that grants nothing.
abbrev closed : Host
closed = new_host 1000 [] descriptor (codes "/d") nothing no_tree

abbrev upstream : Upstream
upstream = record { status = 200; headers = []; body = codes "abc" }

closed_refuses : (u : Url) → naming.parse_url [] ≡ some u → is_ok (allow naming closed u) ≡ false
unfolding allow new_host
closed_refuses u e = ground arith

http-refused_example :
    http naming (record io { fetch = λ m u h b. some upstream }) (request Wire.http [] [] []) closed
    ≡ http naming io (request Wire.http [] [] []) closed
http-refused_example =
    http-refused naming io (λ m u h b. some upstream) (request Wire.http [] [] []) closed
      closed_refuses

abbrev url : Url
url = record { scheme = codes "https"; has_user = false; host = codes "h"; hostname = codes "h" }

abbrev largest : Host
largest = new_host 9223372036854775807 (codes "h" ∷ []) descriptor (codes "/d") nothing no_tree

abbrev download : Object
download = record { path = codes "/d/object-1"; sealed = false; entry = none }

has_quota : largest.staging_bytes ≡ 9223372036854775807
unfolding new_host
has_quota = refl

is_unused : largest.used ≡ 0
unfolding new_host
is_unused = refl

largest_quota_download_example :
    ((stage_body io upstream object download largest).0.1 ≡ none)
    × ((stage_body io upstream object download largest).0.0.size ≡ 0)
largest_quota_download_example =
    largest_quota_download io upstream object download largest has_quota is_unused refl refl refl
