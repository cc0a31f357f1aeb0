-- ===== src/App/Perform/Preparation.antt =====
-- `perform` of internal/app/app.go from the slot to the call of `beginPublication`. The plugin, as
-- `execute`, and the decoder of `revision.json` are parameters.
use crawlbox.Common.{Option, none, some, [], Text, eq_text, lookup, codes, if◌then◌else◌}
use crawlbox.Common.Result.{Result, ok, err}
use crawlbox.Wire.{Descriptor, Entry, Input, ResultStatus, candidate, no_change}
use crawlbox.Wire
use crawlbox.Model.{
  Revision, Run, Status, running, validating, snapshotting, committing, succeeded, failed,
  interrupted,
}
use crawlbox.Model
use crawlbox.Paths.{path_join}
use crawlbox.Host.State.{Candidate, Host, regular, Previous, new_host}
use crawlbox.Catalog.History.{revision}
use crawlbox.App.Confirm.{check, confirm_revision}
use crawlbox.App.Build.{Built, build}
use crawlbox.App.Recovery.{row_found}
use crawlbox.App.Cache.{Cache, Installed, current}
use crawlbox.App.Perform.{
  World, Stage, ◌>>=◌, ◌>>◌, done, lift, update_run, stage, announce, report, Loaded, Io, Draft,
}

abbrev pub no_descriptor : Descriptor
no_descriptor = record { id = []; version = []; abi = 0; hosts = []; config_schema = [] }

abbrev pub zero_revision : Revision
zero_revision = record {
  id = [];
  run = [];
  source = [];
  parent = [];
  created_at = 0;
  plugin = no_descriptor;
  state = [];
  metadata = [];
  files = [];
  artifacts = [];
  changes = [];
  tags = [];
  artifact_changes = [];
  snapshot = [];
}

-- `errors.Is(e, sql.ErrNoRows)`: no row leaves the zero revision.
abbrev pub or_zero_revision : Result (Option Revision) → Result Revision
or_zero_revision (err e) = err e
or_zero_revision (ok none) = ok zero_revision
or_zero_revision (ok (some r)) = ok r

-- `inherited`
abbrev pub inherited : Text → Revision → Previous
inherited previous prev = record {
  files = if eq_text previous [] then [] else path_join previous (codes "files");
  artifacts = if eq_text previous [] then [] else path_join previous (codes "artifacts");
  entries = prev.files;
  artifact_entries = prev.artifacts;
}

-- The tree that `build` made, with the `revision.json` that is written into it.
abbrev pub built_tree : Text → Built → Revision → Installed
built_tree root built r = record {
  index = some r;
  root = root;
  tree = λ p. elim (lookup p built.tree) [ none ↦ none | some b ↦ some (regular b) ];
}

abbrev pub drafted_by : Text → Built → Text → Revision → Draft
drafted_by root built message r = record {
  revision = r;
  tree = built_tree root built r;
  message = message;
}

-- The fields that `perform` sets on the revision that `build` made.
abbrev pub drafted : Io → Loaded → Revision → Built → Wire.Result → Run → Revision
drafted io s prev built result r = record {
  id = io.revision;
  run = r.id;
  source = r.source;
  parent = prev.id;
  created_at = io.now;
  plugin = s.descriptor;
  state = result.state;
  metadata = result.metadata;
  files = built.files;
  artifacts = built.artifacts;
  changes = built.changes;
  tags = result.tags;
  artifact_changes = built.artifact_changes;
  snapshot = [];
}

-- How a run ends that publishes nothing.
abbrev pub unchanged : Text → Stage (Option Draft)
unchanged message =
    update_run (λ r. record r { status = Model.no_change; message = message }) >> done none

-- The errors of encoding and writing `revision.json`.
abbrev pub written : Io → Result Built → Result Built
written io (err e) = err e
written io (ok built) = elim io.marshal [
  | some e ↦ err e
  | none ↦ elim io.write_index [ some e ↦ err e | none ↦ ok built ]
]

module _ (sha256 : Text → Text) (unmarshal : Text → Result Revision)
    (execute : Input → Host → Result (Candidate × Wire.Result)) (data_dir : Text) (io : Io)
    (s : Loaded) where
  -- `Revision(ctx, r.Source, "latest")`
  abbrev pub read_latest : Stage Revision
  read_latest w =
      (or_zero_revision (row_found (revision (io.fault 1) w.run.source (codes "latest") w.db)), w)

  abbrev pub with_cache : Result Text × Cache → World → Result Text × World
  with_cache (answer, cache) w = (answer, record w { cache = cache })

  abbrev pub use_cache : Revision → Stage Text
  use_cache prev w =
      with_cache (current sha256 (path_join data_dir (codes "current")) io.preparing prev w.cache) w

  -- The tree of a previous revision that is there.
  unfoldable pub restore_previous : Revision → Stage Text
  unfolding confirm_revision announce current
  restore_previous prev = do
    lift (confirm_revision unmarshal io.confirm prev)
    announce io.prepared
    use_cache prev

  -- The tree of the previous revision: none if there is no revision.
  unfoldable pub prepare_previous : Revision → Stage Text
  unfolding restore_previous
  prepare_previous prev = if eq_text prev.id [] then done [] else restore_previous prev

  -- The call of the plugin.
  unfoldable pub collect : Revision → Text → Text → Stage (Candidate × Wire.Result)
  unfolding announce report new_host
  collect prev previous objects = do
    announce io.launching
    report io.reports
    λ w. (
      execute
          (record {
            abi = 1;
            source = w.run.source;
            run = w.run.id;
            config = s.config;
            state = prev.state;
            previous_revision = prev.id;
          })
          (new_host s.staging_bytes s.hosts s.descriptor objects (inherited previous prev) io.tree),
      w,
    )

  abbrev pub ready : Revision → Text → Wire.Result → Built → Stage (Option Draft)
  ready prev dir result built w = (
    ok (
        some (
          drafted_by (path_join dir (codes "tree")) built result.message
            (drafted io s prev built result w.run))),
    w,
  )

  -- The tree of the candidate with its `revision.json`.
  unfoldable pub write_tree : Revision → Text → Text → Candidate → Result Built
  unfolding build
  write_tree prev previous dir c =
      written io (build sha256 io.disk io.steps (path_join dir (codes "tree")) previous prev c)

  -- The candidate, as a revision that is ready to be published.
  unfoldable pub draft : Revision → Text → Text → Candidate → Wire.Result → Stage (Option Draft)
  unfolding stage write_tree
  draft prev previous dir c result =
      stage (io.fault 2) validating
      >> (lift (write_tree prev previous dir c) >>= ready prev dir result)

  abbrev pub conclude :
      Revision → Text → Text → Candidate → Wire.Result → ResultStatus → Stage (Option Draft)
  conclude prev previous dir c result no_change = unchanged result.message
  conclude prev previous dir c result candidate = draft prev previous dir c result

  -- `perform` from the slot to the call of `beginPublication`.
  unfoldable pub prepare : Stage (Option Draft)
  unfolding stage announce prepare_previous collect draft
  prepare = do
    stage (io.fault 0) running
    announce io.starting
    prev ← read_latest
    previous ← prepare_previous prev
    dir ← lift io.temp_dir
    lift (check io.objects_dir)
    (c, result) ← collect prev previous (path_join dir (codes "objects"))
    conclude prev previous dir c result result.status
