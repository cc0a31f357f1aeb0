-- ===== src/Web/Tests.antt =====
-- The server at concrete requests, and its theorems at them.
use crawlbox.Common.{
  ℕ, ◌≤◌, ◌≡◌, refl, ◌⊎◌, inl, inr, Bool, true, false, ◌||◌, not, Option, none, some, List, [], ◌∷◌,
  ◌++◌, Text, All, any, all, codes, lookup, eq_text, length, arith, if◌then◌else◌,
}
use crawlbox.Common.Sorting.{sort}
use crawlbox.Wire.{Entry}
use crawlbox.Model.{Revision}
use crawlbox.Paths.{safe_path}
use crawlbox.Host.State.{regular}
use crawlbox.Catalog.Db.{Faults, Token, empty}
use crawlbox.App.Control.{App}
use crawlbox.App.Perform.Preparation.{zero_revision}
use crawlbox.Web.{Response, refused, answered}
use crawlbox.Web.Access.{Credentials, basic_auth, fields}
use crawlbox.Web.Access.Allowed.{IsHolder, api_source_allowed}
use crawlbox.Web.Api.{api_source}
use crawlbox.Web.Pages.{page_at}
use crawlbox.Web.Pages.Walk.{walk, walk-page_at}
use crawlbox.Web.Trim.{Item, CacheDir, Downloads, Trimming, older, total_size, trim_items}
use crawlbox.Web.Trim.Oldest.{is_passed, trim_items-oldest}
use crawlbox.Web.Serving.{Serving, Served, quoted, get_file}
use crawlbox.Web.Serving.Recorded.{IsListed, serve_file_recorded}
use crawlbox.Web.Archive.{Archiving, Member, whole, archive}
use crawlbox.Web.Archive.Whole.{AreMembers, archive-AreMembers}
use crawlbox.Web.Actions.{
  Manager, TokenForm, Action, cancels, perform, ui, issue_token, compact, expiry,
}
use crawlbox.Web.Actions.Guarded.{ui-perform}
use crawlbox.Web.Actions.Issued.{bearer_header, is_visible, issue_token-api_source}

abbrev works : Faults
works n = false

-- A digest that is easy to compute.
abbrev same_text : Text → Text
same_text b = b

abbrev three_entries : List ℕ
three_entries = 5 ∷ 6 ∷ 7 ∷ []

walk-page_at_example :
    (walk 4 2 0 three_entries ≡ three_entries) × (length (page_at 1 2 three_entries).entries ≤ 2)
walk-page_at_example = walk-page_at 2 1 three_entries (omega arith)

abbrev no_trouble : Trimming
no_trouble = record { unlisted = false; unknown = λ id. false; stuck = λ id. false }

abbrev two_dirs : Downloads
two_dirs =
    (codes "b", record { modified = 9; files = (codes "files/x", codes "12345") ∷ [] })
    ∷ (codes "a", record { modified = 4; files = (codes "files/y", codes "123") ∷ [] })
    ∷ []

trim_items-oldest_example :
    let items = sort older two_dirs in
    let (removed, kept) = trim_items 6 (λ id. false) [] (total_size items) items in
    ((total_size kept ≤ 6) ⊎ All (λ it. is_passed 6 (λ id. false) [] it ≡ true) kept)
    × All (λ r. All (λ k. (is_passed 6 (λ id. false) [] k || not (older k r)) ≡ true) kept) removed
trim_items-oldest_example = trim_items-oldest 6 (λ id. false) [] two_dirs

-- The older directory goes.
trimmed_test : trim_items 6 (λ id. false) [] 8 (sort older two_dirs) ≡ (
  (codes "a", record { modified = 4; files = (codes "files/y", codes "123") ∷ [] }) ∷ [],
  (codes "b", record { modified = 9; files = (codes "files/x", codes "12345") ∷ [] }) ∷ [],
)
unfolding trim_items sort eq_text
trimmed_test = refl

abbrev entry : Entry
entry = record { path = codes "x"; size = 2; sha256 = codes "hi" }

abbrev served_revision : Revision
served_revision = record zero_revision {
  id = codes "v1";
  source = codes "s";
  files = entry ∷ [];
  snapshot = codes "k1";
}

abbrev serving : Serving
serving = record {
  trimming = no_trouble;
  make_dir = none;
  first_hash = none;
  restore = none;
  restored = some (codes "hi");
  second_hash = none;
  opening = none;
  modified = 5;
}

abbrev sent_file : Served
sent_file = record { content = codes "hi"; etag = quoted (codes "hi") }

serves : (get_file same_text 9 serving served_revision (codes "x") []).0 ≡ answered sent_file
unfolding get_file safe_path eq_text crawlbox.Paths.clean crawlbox.Common.Splitting.split lookup
    crawlbox.Common.insert crawlbox.Common.erase crawlbox.Wire.eq_entry
serves = refl

serve_file_recorded_example : IsListed same_text (entry ∷ []) (codes "x") sent_file
serve_file_recorded_example =
    serve_file_recorded same_text false 9 serving served_revision (codes "x") [] sent_file serves

abbrev archiving : Archiving
archiving = record {
  trimming = no_trouble;
  trimming_after = no_trouble;
  make_dir = none;
  temp_dir = none;
  restore = none;
  create = none;
  tree = λ p. some (regular (codes "hi"));
  ended = λ p. false;
  hashing = λ p. none;
  writing = λ p. none;
  closing = none;
  renaming = none;
  files_first = true;
  modified = 5;
}

-- A format that keeps the names only.
abbrev names : List Member → Text
names [] = []
names ((p, b) ∷ ms) = p ++ names ms

archives :
    (archive same_text archiving 90 names served_revision []).0 ≡ answered (whole (codes "files/x"))
unfolding archive lookup safe_path eq_text crawlbox.Paths.clean crawlbox.Common.Splitting.split
    crawlbox.Wire.eq_entry
archives = refl

archive-AreMembers_example :
    (none ≡ some (codes "files/x"))
    ⊎ ((ms : List Member) × (codes "files/x" ≡ names ms)
        × ((files : List Member) × (artifacts : List Member) × (ms ≡ files ++ artifacts)
            × AreMembers same_text (codes "files") (entry ∷ []) files
            × AreMembers same_text (codes "artifacts") [] artifacts))
unfolding lookup crawlbox.Web.Trim.trim_cache
archive-AreMembers_example =
    archive-AreMembers same_text archiving 90 names served_revision [] (codes "files/x") archives

abbrev hex_id : Text
hex_id = codes "0123456789abcdef0123456789abcdef"

abbrev hex_secret : Text
hex_secret = codes "0123456789abcdef0123456789abcdef0123456789abcdef0123456789abcdef"

abbrev idle_app : App
idle_app = record {
  sources = codes "s" ∷ [];
  context = none;
  active = [];
  blocked = [];
  controls = [];
}

abbrev manager : Manager
manager = record {
  app = idle_app;
  db = record empty {
    sources = (codes "s", record { identity = codes "p"; retired = false }) ∷ [];
  };
  proxy = none;
}

abbrev form : TokenForm
form = record { name = codes "n"; sources = codes "s" ∷ []; expires = [] }

abbrev made_token : Token
made_token = record {
  id = hex_id;
  name = codes "n";
  sources = codes "s" ∷ [];
  created = 5;
  expires = none;
  revoked = false;
}

abbrev with_token : Manager
with_token = record manager {
  db = record manager.db {
    tokens = (hex_id, record { digest = hex_secret; body = made_token }) ∷ [];
  };
}

abbrev token_value : Text
token_value = hex_id ++ b'.' ∷ hex_secret

abbrev parses_nothing : Text → Option ℕ
parses_nothing t = none

issues_one :
    issue_token same_text parses_nothing works hex_id hex_secret 5 (some form) manager
    ≡ (answered token_value, with_token)
unfolding issue_token eq_text crawlbox.Common.Splitting.trim_space lookup crawlbox.Common.has
issues_one = refl

all-visible : (t : Text) → all is_visible t ≡ true → All (λ c. is_visible c ≡ true) t
all-visible [] h = tt
all-visible (c ∷ cs) h = (ground arith, all-visible cs (ground arith))

visible : All (λ c. is_visible c ≡ true) token_value
visible = all-visible token_value refl

abbrev some_answer : Response ℕ
some_answer = answered 7

issue_token-api_source_example :
    api_source same_text works 8 (bearer_header token_value) (codes "s") with_token.db some_answer
    ≡ some_answer
unfolding crawlbox.Common.Splitting.has_byte crawlbox.Catalog.Tokens.is_expired
    crawlbox.Web.Actions.compact_from eq_text
issue_token-api_source_example =
    issue_token-api_source same_text parses_nothing works hex_id hex_secret 5 8 form none
      token_value manager with_token (codes "s") some_answer refl refl visible refl refl refl
      issues_one refl refl

api_source_allowed_example :
    (scheme : Text) × (value : Text) × (t : Token) × (fields (bearer_header token_value)
      ≡ scheme ∷ value ∷ [])
    × IsHolder same_text 8 value with_token.db t
    × (any (eq_text (codes "s")) t.sources ≡ true)
unfolding crawlbox.Common.Splitting.has_byte crawlbox.Catalog.Tokens.is_expired
    crawlbox.Web.Actions.compact_from eq_text
api_source_allowed_example =
    api_source_allowed same_text works 8 (bearer_header token_value) (codes "s") with_token.db
      some_answer 7
      (issue_token-api_source same_text parses_nothing works hex_id hex_secret 5 8 form none
        token_value manager with_token (codes "s") some_answer refl refl visible refl refl refl
        issues_one refl refl)

abbrev admin : Credentials
admin = record { username = codes "admin"; password_hash = codes "secret" }

ui-perform_example :
    ((ui same_text parses_nothing eq_text admin
        (some (codes "admin:secret"))
        false
        (cancels (codes "r"))
        manager).1
      ≡ manager)
    ⊎ ((false ≡ false)
        × (ui same_text parses_nothing eq_text admin
              (some (codes "admin:secret"))
              false
              (cancels (codes "r"))
              manager
            ≡ perform same_text parses_nothing eq_text (cancels (codes "r")) manager)
        × ((user : Text) × (password : Text) × (basic_auth (some (codes "admin:secret"))
              ≡ some (user, password))
            × (length password ≤ 72)
            × (eq_text (codes "secret") password ≡ true)
            × (user ≡ codes "admin")))
ui-perform_example =
    ui-perform same_text parses_nothing eq_text admin (some (codes "admin:secret")) false
      (cancels (codes "r")) manager
