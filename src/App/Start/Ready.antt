-- ===== src/App/Start/Ready.antt =====
-- What a manager that has started finds.
use crawlbox.Common.{
  ℕ, ◌≡◌, refl, ap, sym, subst, ◌∙◌, true, false, Option, none, some, List, [], ◌∷◌, Map, Text, All,
  lookup, arith, Option-cases, inl, inr,
}
use crawlbox.Common.Result.{ok, >>=-eq-ok, ok-inj}
use crawlbox.Config.{Source}
use crawlbox.Model.{Revision, Run, is_active}
use crawlbox.Catalog.Db.{Db, Faults, SourceRow, statement}
use crawlbox.Catalog.History.{has_revision}
use crawlbox.Catalog.History.Linear.{IsLinear}
use crawlbox.Catalog.Sources.{register, check_rows, add_rows}
use crawlbox.Catalog.Sources.Retirement.{registered, register_rows, register_accepts}
use crawlbox.Catalog.Runs.{interrupt_runs}
use crawlbox.Catalog.Runs.Recovery.{AllSettled, interrupt_runs-settled}
use crawlbox.App.Control.{App}
use crawlbox.App.Recovery.{recover}
use crawlbox.App.Recovery.Collected.{recover-IsLinear}
use crawlbox.App.Start.{Sources, Starting, check_all, identities, new_app, load_sources, make}

-- The catalog of a manager with these sources, which was `db` before the start.
pub record IsReady (sources : Sources) (db db' : Db) : Type 0 where
  pub linear : IsLinear db'
  pub kept :
      (id : Text) → has_revision id db.revisions ≡ true → has_revision id db'.revisions ≡ true
  pub in_use :
      (k v : Text)
      → lookup k (identities sources) ≡ some v
      → lookup k db'.sources ≡ some (record { identity = v; retired = false })
  pub retired :
      (k : Text) (row : SourceRow)
      → lookup k (identities sources) ≡ none
      → lookup k db'.sources ≡ some row
      → row.retired ≡ true
  pub inactive : All (λ (x : Text × Run). is_active x.1.status ≡ false) db'.runs

register-others :
    (fault : Faults) (ids : Map Text) (db db' : Db)
    → register fault ids db ≡ ok db'
    → record db { sources = db'.sources } ≡ db'
unfolding register
register-others fault ids db db' h =
    let (_, _, h1) = >>=-eq-ok (statement fault 0) _ h in
    let (_, _, h2) = >>=-eq-ok (statement fault 1) _ h1 in
    let ((n, checked), _, h3) = >>=-eq-ok (check_rows fault ids 2 db.sources db.sources) _ h2 in
    let ((n', table), _, h4) = >>=-eq-ok (add_rows fault n ids checked) _ h3 in
    let (_, _, h5) = >>=-eq-ok (statement fault n') _ h4 in
    let same : record db { sources = table } ≡ db' = ok-inj h5 in
    ap (λ (d : Db). record db { sources = d.sources }) (sym same) ∙ same

interrupt_runs-others :
    (fault : Faults) (now : ℕ) (db db' : Db)
    → interrupt_runs fault now db ≡ ok db'
    → record db { runs = db'.runs } ≡ db'
unfolding interrupt_runs
interrupt_runs-others fault now db db' h = ground arith

all_inactive :
    (revisions : List Revision) (olds news : Map Run)
    → AllSettled revisions olds news
    → All (λ (x : Text × Run). is_active x.1.status ≡ false) news
all_inactive revisions [] [] h = tt
all_inactive revisions (x ∷ olds) (y ∷ news) (h, hs) =
    (h.ended, all_inactive revisions olds news hs)
all_inactive revisions [] (y ∷ news) h = absurd h
all_inactive revisions (x ∷ olds) [] h = absurd h

row_is :
    {v : Text} (row : SourceRow)
    → row.retired ≡ false
    → row.identity ≡ v
    → row ≡ record { identity = v; retired = false }
row_is row used same i = record { identity = same i; retired = used i }

register-in_use :
    (fault : Faults) (ids : Map Text) (db db' : Db) (k v : Text)
    → register fault ids db ≡ ok db'
    → lookup k ids ≡ some v
    → lookup k db'.sources ≡ some (record { identity = v; retired = false })
register-in_use fault ids db db' k v h now =
    register_rows fault ids db h k ∙ elim (Option-cases (lookup k db.sources)) [
      | inl fresh ↦ rw (fresh, now) refl
      | inr (row, before) ↦
          let (used, same) = register_accepts fault ids db k v row h before now in
          rw (before, now) (ap some (row_is row used same))
    ]

register-retired :
    (fault : Faults) (ids : Map Text) (db db' : Db) (k : Text) (row : SourceRow)
    → register fault ids db ≡ ok db'
    → lookup k ids ≡ none
    → lookup k db'.sources ≡ some row
    → row.retired ≡ true
register-retired fault ids db db' k row h absent found =
    by_row (lookup k db.sources)
      (sym found ∙ register_rows fault ids db h k ∙ ap (registered (lookup k db.sources)) absent)
  where
    by_row : (o : Option SourceRow) → some row ≡ registered o none → row.retired ≡ true
    by_row none e = cc
    by_row (some old) e = cc

with_sources :
    (db : Db) (rows : Map SourceRow) → IsLinear db → IsLinear (record db { sources = rows })
with_sources db rows l = record {
  distinct = l.distinct;
  named = l.named;
  chained = l.chained;
  headed = l.headed;
}

with_runs : (db : Db) (rows : Map Run) → IsLinear db → IsLinear (record db { runs = rows })
with_runs db rows l = record {
  distinct = l.distinct;
  named = l.named;
  chained = l.chained;
  headed = l.headed;
}

-- The two transactions after the recovery.
stages-IsReady :
    (io : Starting) (sources : Sources) (db second third fourth : Db)
    → IsLinear second
    → ((id : Text) → has_revision id db.revisions ≡ true → has_revision id second.revisions ≡ true)
    → register io.registering (identities sources) second ≡ ok third
    → interrupt_runs io.interrupting io.now third ≡ ok fourth
    → IsReady sources db fourth
stages-IsReady io sources db second third fourth l keeps registers settles =
    let ids = identities sources in
    let rest = register-others io.registering ids second third registers in
    let rest' = interrupt_runs-others io.interrupting io.now third fourth settles in
    let same_sources : third.sources ≡ fourth.sources = ap (λ (d : Db). d.sources) rest' in
    let same_revisions : second.revisions ≡ fourth.revisions =
      ap (λ (d : Db). d.revisions) rest ∙ ap (λ (d : Db). d.revisions) rest' in
    record {
      linear =
          subst IsLinear rest' (
            with_runs third fourth.runs
              (subst IsLinear rest (with_sources second third.sources l)));
      kept = λ id h. subst (λ rs. has_revision id rs ≡ true) same_revisions (keeps id h);
      in_use = λ k v h.
          ap (lookup k) (sym same_sources)
          ∙ register-in_use io.registering ids second third k v registers h;
      retired = λ k row absent h.
          register-retired io.registering ids second third k row registers absent
            (ap (lookup k) same_sources ∙ h);
      inactive =
          all_inactive third.revisions third.runs fourth.runs
            (interrupt_runs-settled io.interrupting io.now third settles);
    }

-- A manager that starts with a linear catalog has loaded its sources, and knows no active, blocked
-- or controlled run. Its catalog is linear and keeps every revision; it has each loaded source in
-- use, under the identity of the plugin; every other source is retired; and no run is active.
pub make-IsReady :
    (sha256_hex : Text → Text) (io : Starting) (configured : List Source) (db db' : Db) (a : App)
    (sources : Sources)
    → IsLinear db
    → make sha256_hex io configured db ≡ ok (a, sources, db')
    → (load_sources sha256_hex io configured [] ≡ ok sources)
      × (a ≡ new_app sources)
      × IsReady sources db db'
unfolding make
make-IsReady sha256_hex io configured db db' a sources l h =
    let (_, _, h1) = >>=-eq-ok (check_all io.making) _ h in
    let (loaded, loads, h2) = >>=-eq-ok (load_sources sha256_hex io configured []) _ h1 in
    let (snaps, _, h3) = >>=-eq-ok io.listed _ h2 in
    let (second, recovers, h4) = >>=-eq-ok (recover io.reads io.commits io.sealed snaps db) _ h3 in
    let (third, registers, h5) =
      >>=-eq-ok (register io.registering (identities loaded) second) _ h4 in
    let (fourth, settles, h6) = >>=-eq-ok (interrupt_runs io.interrupting io.now third) _ h5 in
    let (_, _, h7) = >>=-eq-ok (check_all io.clearing) _ h6 in
    let same = ok-inj h7 in
    let (linear, kept) =
      recover-IsLinear io.reads io.commits io.sealed snaps db second l recovers in
    let ready : IsReady loaded db fourth =
      stages-IsReady io loaded db second third fourth linear kept registers settles in
    let one : loaded ≡ sources = ap (λ x. x.1) same in
    (
      loads ∙ ap ok one,
      sym (ap (λ x. x.0) same) ∙ ap new_app one,
      subst (λ s. IsReady s db db') one (subst (IsReady loaded db) (ap (λ x. x.2) same) ready),
    )
