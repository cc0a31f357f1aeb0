-- ===== src/App/Perform/Publication.antt =====
-- `perform` of internal/app/app.go from the call of `beginPublication` to its end, with `block`.
use crawlbox.Common.{true, [], Text, insert}
use crawlbox.Common.Result.{Result, ok, err}
use crawlbox.Model.{Revision, snapshotting, committing, succeeded}
use crawlbox.Catalog.Db.{Faults}
use crawlbox.Catalog.History.{commit}
use crawlbox.App.Control.{App, begin_publication}
use crawlbox.App.Cache.{install_current}
use crawlbox.App.Perform.{World, Stage, ◌>>◌, lift, update_run, stored, quietly, stage, Io, Draft}

-- `block`
unfoldable pub block : Text → App → App
block source a = record a { blocked = insert source true a.blocked }

abbrev pub begun : Result App → World → Result (Unit {0}) × World
begun (ok a) w = (ok tt, record w { app = a })
begun (err e) w = (err e, w)

abbrev pub blocked_after : Text → Result (Unit {0}) × World → Result (Unit {0}) × World
blocked_after source (ok passed, w) = (ok tt, w)
blocked_after source (err e, w) = (err e, record w { app = block source w.app })

-- A step after whose failure the source is blocked.
abbrev pub or_block : Text → Stage (Unit {0}) → Stage (Unit {0})
or_block source m w = blocked_after source (m w)

-- `a.Store.Commit(ctx, rev)`
abbrev pub save_revision : Faults → Revision → Stage (Unit {0})
save_revision fault r w = stored (commit fault r w.db) w

-- The answer of the backend's `Create`.
abbrev pub created : Result Text → Result (Unit {0})
created (ok snapshot) = ok tt
created (err e) = err e

abbrev pub text_or_empty : Result Text → Text
text_or_empty (ok t) = t
text_or_empty (err e) = []

abbrev pub with_snapshot : Result Text → Revision → Revision
with_snapshot snapshot r = record r { snapshot = text_or_empty snapshot }

abbrev pub install : Io → Draft → Stage (Unit {0})
install io d w =
    let (answer, cache) = install_current io.lock io.installing d.revision.source d.tree w.cache in
    (answer, record w { cache = cache })

-- `perform` from the stage "snapshotting" to its end.
unfoldable pub publish_sealed : Io → Text → Draft → Stage (Unit {0})
unfolding stage install_current
publish_sealed io source d = do
  stage (io.fault 3) snapshotting
  or_block source (lift (created io.create))
  or_block source (stage (io.fault 4) committing)
  or_block source (save_revision (io.fault 5) (with_snapshot io.create d.revision))
  update_run (λ r. record r { status = succeeded; message = d.message })
  quietly (install io d)

-- `perform` from the call of `beginPublication` to its end. `id` and `source` are those of the run.
unfoldable pub publish : Io → Text → Text → Draft → Stage (Unit {0})
unfolding publish_sealed
publish io id source d = (λ w. begun (begin_publication id w.app) w) >> publish_sealed io source d
