-- ===== src/App/Perform/Tests.antt =====
-- A run at concrete inputs, from its start to its end, and the theorems on runs and on the cache.
use crawlbox.Common.{
  ℕ, ◌≤◌, ◌≡◌, refl, ◌⊎◌, inl, inr, Bool, true, false, Option, none, some, List, [], ◌∷◌, ◌++◌,
  Text, codes, All, arith, lookup,
}
use crawlbox.Common.Result.{ok, err, external, not_exist, canceled}
use crawlbox.Wire.{Input, Entry, candidate}
use crawlbox.Wire
use crawlbox.Model.{Revision, succeeded, interrupted}
use crawlbox.Paths.{path_join}
use crawlbox.Host.State.{regular, no_candidate}
use crawlbox.Catalog.Db.{Faults, empty}
use crawlbox.App.Confirm.{Answers}
use crawlbox.App.Build.{Steps}
use crawlbox.App.Control.{
  App, Control, begin_publication, cancel, can_cancel, fresh_control, queued_run, run_stopped,
}
use crawlbox.App.Control.Events.{shuts_down, passes_deadline}
use crawlbox.App.Cache.{Installed, Preparing, Replacing, Cache, current, is_cached}
use crawlbox.App.Cache.Outcomes.{current-HasTree, HasTree}
use crawlbox.App.Perform.{World, Io, Loaded, Draft}
use crawlbox.App.Perform.Preparation.{zero_revision, no_descriptor}
use crawlbox.App.Perform.Machine.{
  Plan, Task, waiting, prepared, released, Move, goes, happens, commits, moves,
}
use crawlbox.App.Perform.Ending.{remaining, turns}
use crawlbox.App.Perform.Concluded.{IsSettled}
use crawlbox.App.Perform.Settled.{run_ends}
use crawlbox.App.Perform.Doomed.{has_published}
use crawlbox.App.Perform.Stopped.{cancel-moves}

abbrev works : Faults
works n = false

abbrev replacing : Replacing
replacing = record { removing = none; remains = none; parent_dir = none; renaming = none }

-- A backend that restores one file.
abbrev one_file : Text → Installed
one_file tmp = record {
  index = none;
  root = path_join tmp (codes "tree");
  tree = λ p. some (regular (codes "hi"));
}

abbrev preparing : Preparing
preparing = record {
  lock = none;
  ended = none;
  temp_dir = ok (codes "/d/staging/restore-1");
  restore = none;
  restored = one_file;
  files_first = true;
  replacing = replacing;
}

abbrev steps : Steps
steps = record {
  starting = λ p. none;
  links = λ p. true;
  copying = λ p. none;
  hashing = λ p. none;
  lstat = λ p. none;
}

abbrev io : Io
io = record {
  fault = λ n. works;
  starting = (works, codes "reading") ∷ [];
  confirm = record { temp_dir = none; restore = none; read_file = err not_exist };
  preparing = preparing;
  prepared = [];
  temp_dir = ok (codes "/d/staging/run-1");
  objects_dir = none;
  tree = λ p. none;
  launching = [];
  reports = (none, codes "half") ∷ [];
  disk = λ p. none;
  steps = steps;
  revision = codes "v1";
  now = 7;
  marshal = none;
  write_index = none;
  create = ok (codes "k1");
  lock = none;
  installing = replacing;
  finished = 9;
}

abbrev plugin_result : Wire.Result
plugin_result = record {
  message = codes "done";
  status = candidate;
  tags = [];
  state = codes "{}";
  metadata = codes "{}";
}

abbrev plan : Plan
plan = record {
  sha256 = λ b. b;
  unmarshal = λ b. err not_exist;
  execute = λ i h. ok (no_candidate, plugin_result);
  data_dir = codes "/d";
  io = io;
  loaded = record { staging_bytes = 10; hosts = []; config = []; descriptor = no_descriptor };
  foreign = λ n. [];
  id = codes "r";
  source = codes "s";
}

abbrev busy : App
busy = record {
  sources = codes "s" ∷ [];
  context = none;
  active = (codes "s", codes "r") ∷ [];
  blocked = [];
  controls = (codes "r", fresh_control) ∷ [];
}

abbrev start : World
start = record { run = queued_run (codes "r") (codes "s") 5; app = busy; db = empty; cache = [] }

abbrev four_turns : List Move
four_turns =
    goes true ∷ goes true ∷ happens (passes_deadline (codes "q")) ∷ goes true ∷ goes true ∷ []

-- A run without a fault publishes its revision.
succeeds_test : (moves plan four_turns (waiting, start)).1.run.status ≡ succeeded
unfolding moves crawlbox.App.Perform.Machine.move crawlbox.Catalog.Runs.save_run
    crawlbox.Catalog.History.revision crawlbox.Common.eq_text crawlbox.Common.Sorting.sort
    begin_publication crawlbox.App.Control.seal crawlbox.App.Control.pass_deadline
    crawlbox.Common.insert
succeeds_test = refl

enough : 4 ≤ turns four_turns
enough = omega arith

run_ends_example :
    ((moves plan four_turns (waiting, start)).0 ≡ released)
    × IsSettled 9 (moves plan four_turns (waiting, start)).1.run
run_ends_example = run_ends plan four_turns start refl enough

abbrev stopped_app : App
stopped_app = record busy {
  controls =
      (
        codes "r",
        record {
          context = some (record { error = canceled; cause = run_stopped });
          sealed = false;
        },
      )
      ∷ [];
}

is_cancelled : cancel (codes "r") busy ≡ ok stopped_app
unfolding cancel lookup crawlbox.Common.eq_text crawlbox.Common.insert
is_cancelled = refl

may_cancel : can_cancel (codes "r") busy ≡ true
unfolding can_cancel lookup crawlbox.Common.eq_text
may_cancel = refl

abbrev later_moves : List Move
later_moves = goes true ∷ happens shuts_down ∷ goes true ∷ goes true ∷ []

cancel-moves_example :
    let (t', w') = moves plan later_moves (waiting, record start { app = stopped_app }) in
    (has_published (codes "r") w'.db.revisions ≡ false)
    × ((2 ≤ remaining t')
        ⊎ ((w'.run.status ≡ interrupted) × (w'.run.error ≡ codes "run stopped by administrator")))
cancel-moves_example =
    cancel-moves plan waiting start stopped_app later_moves (omega arith) refl refl may_cancel
      is_cancelled (refl, (refl, (refl, (refl, tt))))

abbrev publishing : App
publishing = record busy { controls = (codes "r", record { context = none; sealed = true }) ∷ [] }

abbrev first_draft : Draft
first_draft = record {
  revision = record zero_revision { id = codes "v1"; run = codes "r"; source = codes "s" };
  tree = one_file (codes "/d/staging/run-1");
  message = codes "done";
}

-- A backend that cannot create the snapshot.
abbrev failing : Io
failing = record io { create = err (external 5) }

abbrev previous : Revision
previous = record zero_revision {
  id = codes "v0";
  source = codes "s";
  files = record { path = codes "a"; size = 2; sha256 = codes "hi" } ∷ [];
  snapshot = codes "k0";
}

abbrev with_tree : Cache
with_tree = (codes "s", one_file (codes "/d/staging/restore-1")) ∷ []

restores :
    current (λ b. b) (codes "/d/current") preparing previous []
    ≡ (ok (codes "/d/current/s"), with_tree)
unfolding current lookup crawlbox.App.Confirm.verify crawlbox.Paths.safe_path
    crawlbox.Common.eq_text crawlbox.Paths.clean crawlbox.Common.Splitting.split Wire.eq_entry
    crawlbox.App.Cache.replace_current path_join crawlbox.Common.insert
restores = refl

current-HasTree_example :
    (codes "/d/current/s" ≡ path_join (codes "/d/current") (codes "s"))
    × (((is_cached previous none ≡ true) × (with_tree ≡ []))
        ⊎ ((tmp : Text) × (preparing.temp_dir ≡ ok tmp)
            × HasTree (λ b. b) previous (one_file tmp)
            × (lookup (codes "s") with_tree ≡ some (one_file tmp))))
unfolding lookup
current-HasTree_example =
    current-HasTree (λ b. b) (codes "/d/current") preparing previous [] (codes "/d/current/s")
      with_tree restores
