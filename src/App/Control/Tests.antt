-- ===== src/App/Control/Tests.antt =====
-- One source with one run, and the theorems on cancellation at it.
use crawlbox.Common.{◌≡◌, ◌≢◌, refl, ◌&&◌, true, false, none, some, [], ◌∷◌, Text, codes, All}
use crawlbox.Common.Result.{ok, err, canceled}
use crawlbox.Catalog.Db.{Db, Faults, empty}
use crawlbox.App.Control.{
  App, trigger, cancel, begin_publication, fresh_control, queued_run, run_sealed, run_stopped,
}
use crawlbox.App.Control.Events.{cancels, shuts_down, plays}
use crawlbox.App.Control.Exclusion.{begin_publication-cancel}

abbrev works : Faults
works n = false

abbrev idle : App
idle = record { sources = codes "s" ∷ []; context = none; active = []; blocked = []; controls = [] }

abbrev busy : App
busy = record idle {
  active = (codes "s", codes "r") ∷ [];
  controls = (codes "r", fresh_control) ∷ [];
}

abbrev with_run : Db
with_run = record empty { runs = (codes "r", queued_run (codes "r") (codes "s") 5) ∷ [] }

starts : trigger works (codes "r") 5 (codes "s") (idle, empty) ≡ ok (codes "r", busy, with_run)
unfolding trigger crawlbox.Common.eq_text crawlbox.Common.lookup crawlbox.Catalog.Runs.save_run
    crawlbox.Common.insert crawlbox.Common.has
starts = refl

named : codes "r" ≢ []
named e = cc

abbrev stopped : App
stopped = record busy {
  controls =
      (
        codes "r",
        record {
          context = some (record { error = canceled; cause = run_stopped });
          sealed = false;
        },
      )
      ∷ [];
}

stops : cancel (codes "r") busy ≡ ok stopped
unfolding cancel crawlbox.Common.lookup crawlbox.Common.eq_text crawlbox.Common.insert
stops = refl

abbrev publishing : App
publishing = record busy { controls = (codes "r", record { context = none; sealed = true }) ∷ [] }

begins : begin_publication (codes "r") busy ≡ ok publishing
unfolding begin_publication crawlbox.Common.lookup crawlbox.Common.eq_text crawlbox.Common.insert
begins = refl

begin_publication-cancel_example :
    cancel (codes "r") (plays (cancels (codes "r") ∷ shuts_down ∷ []) (publishing, with_run)).0
    ≡ err run_sealed
begin_publication-cancel_example =
    begin_publication-cancel (codes "r") busy publishing with_run
      (cancels (codes "r") ∷ shuts_down ∷ []) begins (refl, (refl, tt))
