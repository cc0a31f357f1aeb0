-- ===== src/Catalog/Tests.antt =====
-- Concrete databases, and the theorems on the catalog at them.
use crawlbox.Common.{
  ℕ, ◌≡◌, ◌<◌, ◌++◌, refl, ◌⊎◌, ◌||◌, ◌&&◌, true, false, none, some, List, [], ◌∷◌, Text, codes,
  Map, eq_text, lookup, arith, length,
}
use crawlbox.Common.Sorting.{IsSorted}
use crawlbox.Common.Result.{ok}
use crawlbox.Wire.{Descriptor}
use crawlbox.Model.{Revision, Run, Status, running, succeeded, interrupted}
use crawlbox.Catalog.Body.{raw_json, marshal, unmarshal}
use crawlbox.Catalog.Body.Fields.{as_stored, IsKept}
use crawlbox.Catalog.Db.{Db, SourceRow, Faults, empty}
use crawlbox.Catalog.Sources.{register}
use crawlbox.Catalog.Sources.Retirement.{registered, register_rows}
use crawlbox.Catalog.History.{has_revision, commit, latest_of, revision, listed_before, revisions}
use crawlbox.Catalog.History.Linear.{IsLinear, Appended, history, newest, commit-IsLinear}
use crawlbox.Catalog.History.Reads.{latest-newest, commit-revision}
use crawlbox.Catalog.History.Listing.{whole_second_first}
use crawlbox.Catalog.Runs.{interrupt_runs}
use crawlbox.Catalog.Runs.Recovery.{AllSettled, interrupt_runs-settled}

abbrev works : Faults
works n = false

abbrev plugin : Descriptor
plugin = record {
  id = codes "p";
  version = codes "1";
  abi = 1;
  hosts = [];
  config_schema = codes "null";
}

abbrev revision_at : Text → Text → ℕ → Revision
revision_at id parent t = record {
  id = id;
  run = codes "run";
  source = codes "s";
  parent = parent;
  created_at = t;
  plugin = plugin;
  state = codes "[1,2]";
  metadata = codes "null";
  files = [];
  artifacts = [];
  changes = [];
  tags = [];
  artifact_changes = [];
  snapshot = [];
}

abbrev first : Revision
first = revision_at (codes "r1") [] 1000000000

-- The same revision before it was stored: with white space in its state, and no metadata.
abbrev given : Revision
given = record first { state = codes "[1, 2]"; metadata = [] }

abbrev second : Revision
second = revision_at (codes "r2") (codes "r1") 1500000000

abbrev known : Map SourceRow
known = (codes "s", record { identity = codes "p"; retired = false }) ∷ []

abbrev with_first : Db
with_first = record empty {
  sources = known;
  revisions = first ∷ [];
  heads = (codes "s", codes "r1") ∷ [];
}

accepted : commit works given empty ≡ ok with_first
unfolding commit eq_text crawlbox.Common.insert marshal unmarshal lookup
accepted = refl

stored_first : as_stored given ≡ first
unfolding raw_json
stored_first = refl

-- The raw JSON `{"<" : "\""}`: the space goes, and "<" is escaped.
escaped_test :
    raw_json (b'{' ∷ 34 ∷ b'<' ∷ 34 ∷ b' ' ∷ b':' ∷ 34 ∷ 92 ∷ 34 ∷ 34 ∷ b'}' ∷ [])
    ≡ b'{' ∷ 34 ∷ 92 ∷ codes "u003c" ++ 34 ∷ b':' ∷ 34 ∷ 92 ∷ 34 ∷ 34 ∷ b'}' ∷ []
unfolding raw_json
escaped_test = refl

empty-IsLinear : IsLinear empty
unfolding lookup
empty-IsLinear = record { distinct = tt; named = tt; chained = λ s. tt; headed = λ s. refl }

first_named : given.id ≡ [] → ⊥
first_named e = cc

with_first-IsLinear : IsLinear with_first
with_first-IsLinear =
    (commit-IsLinear works given empty with_first empty-IsLinear first_named accepted).0

commit-IsLinear_example :
    IsLinear with_first
    × (((has_revision given.id empty.revisions ≡ true) × (with_first ≡ empty))
        ⊎ Appended given empty with_first)
commit-IsLinear_example =
    commit-IsLinear works given empty with_first empty-IsLinear first_named accepted

latest-newest_example : latest_of (codes "s") with_first ≡ newest (history (codes "s") with_first)
latest-newest_example = latest-newest (codes "s") with_first with_first-IsLinear

unseen : has_revision given.id empty.revisions ≡ false
unfolding has_revision
unseen = refl

commit-revision_example :
    (revision works given.source given.id with_first ≡ ok (as_stored given))
    × (revision works given.source (codes "latest") with_first ≡ ok (as_stored given))
    × (IsKept given.state × IsKept given.metadata × IsKept given.plugin.config_schema)
commit-revision_example = commit-revision works given empty with_first unseen accepted

-- A text of the seconds, for the order of the listing.
abbrev clock : ℕ → Text
clock t = t ∷ []

list_first : revisions clock works (codes "s") with_first ≡ ok (first ∷ [])
unfolding revisions crawlbox.Common.Sorting.sort eq_text
list_first = refl

whole_second_first_example :
    (first.created_at < second.created_at) × (listed_before clock first second ≡ true)
whole_second_first_example =
    whole_second_first clock first second 1 500000000 (omega arith) (omega arith) refl refl

register_new :
    register works ((codes "s", codes "p") ∷ []) empty ≡ ok (record empty { sources = known })
unfolding register crawlbox.Catalog.Sources.check_rows crawlbox.Catalog.Sources.add_rows
    crawlbox.Catalog.Sources.insert_or_ignore crawlbox.Common.insert
register_new = refl

register_rows_example :
    lookup (codes "s") known
    ≡ registered
        (lookup (codes "s") empty.sources)
        (lookup (codes "s") ((codes "s", codes "p") ∷ []))
register_rows_example =
    register_rows works ((codes "s", codes "p") ∷ []) empty register_new (codes "s")

register_known : register works ((codes "s", codes "p") ∷ []) with_first ≡ ok with_first
unfolding register crawlbox.Catalog.Sources.check_rows lookup eq_text
    crawlbox.Catalog.Sources.add_rows crawlbox.Catalog.Sources.insert_or_ignore
register_known = refl

known_there : lookup (codes "s") known ≡ some (record { identity = codes "p"; retired = false })
unfolding lookup eq_text
known_there = refl

configured : lookup (codes "s") ((codes "s", codes "p") ∷ []) ≡ some (codes "p")
unfolding lookup eq_text
configured = refl

abbrev retired_db : Db
retired_db = record empty {
  sources = (codes "s", record { identity = codes "p"; retired = true }) ∷ [];
}

retired_there :
    lookup (codes "s") retired_db.sources ≡ some (record { identity = codes "p"; retired = true })
unfolding lookup eq_text
retired_there = refl

abbrev run_as : Text → Status → Run
run_as id status = record {
  message = [];
  id = id;
  source = codes "s";
  status = status;
  progress = [];
  error = codes "stopped";
  started = 1;
  finished = none;
}

-- One run whose revision is in the catalog, and one that has none.
abbrev stopped : Db
stopped = record with_first {
  runs =
      (codes "run", run_as (codes "run") running)
      ∷ (codes "other", run_as (codes "other") running)
      ∷ [];
}

abbrev restarted : Db
restarted = record stopped {
  runs =
      (codes "run", record (run_as (codes "run") succeeded) { error = []; finished = some 9 })
      ∷ (codes "other", record (run_as (codes "other") interrupted) { finished = some 9 })
      ∷ [];
}

interrupts : interrupt_runs works 9 stopped ≡ ok restarted
unfolding interrupt_runs eq_text
interrupts = refl

interrupt_runs-settled_example : AllSettled stopped.revisions stopped.runs restarted.runs
interrupt_runs-settled_example = interrupt_runs-settled works 9 stopped interrupts
