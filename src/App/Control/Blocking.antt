-- ===== src/App/Control/Blocking.antt =====
-- A source that is blocked collects nothing again, whatever happens in the application.
use crawlbox.Common.{
  ℕ, ◌≡◌, refl, ap, ◌∙◌, true, false, none, some, List, [], ◌∷◌, Text, lookup, arith,
}
use crawlbox.Common.Result.{Result, ok, err, is_ok}
use crawlbox.Catalog.Db.{Db, Faults}
use crawlbox.Catalog.Runs.{save_run}
use crawlbox.App.Control.{
  App, trigger, release, cancel, begin_publication, seal, pass_deadline, shut_down, is_blocked,
}
use crawlbox.App.Control.Events.{
  Event, triggers, cancels, publishes, seals, passes_deadline, shuts_down, releases, after_trigger,
  after, play, plays,
}

trigger-blocked :
    (fault : Faults) (id : Text) (now : ℕ) (source : Text) (a : App) (db : Db) (x : Text × App × Db)
    → trigger fault id now source (a, db) ≡ ok x
    → x.1.blocked ≡ a.blocked
unfolding trigger save_run
trigger-blocked fault id now source a db x h = ground arith

cancel-blocked : (id : Text) (a b : App) → cancel id a ≡ ok b → b.blocked ≡ a.blocked
unfolding cancel
cancel-blocked id a b h = ground arith

begin_publication-blocked :
    (id : Text) (a b : App) → begin_publication id a ≡ ok b → b.blocked ≡ a.blocked
unfolding begin_publication
begin_publication-blocked id a b h = ground arith

after_trigger-blocked :
    (o : Result (Text × App × Db)) (a : App) (db : Db)
    → ((x : Text × App × Db) → o ≡ ok x → x.1.blocked ≡ a.blocked)
    → (after_trigger o (a, db)).0.blocked ≡ a.blocked
after_trigger-blocked (ok x) a db h = h x refl
after_trigger-blocked (err e) a db h = refl

after-blocked :
    (o : Result App) (a : App)
    → ((b : App) → o ≡ ok b → b.blocked ≡ a.blocked)
    → (after o a).blocked ≡ a.blocked
after-blocked (ok b) a h = h b refl
after-blocked (err e) a h = refl

play-blocked : (e : Event) (a : App) (db : Db) → (play e (a, db)).0.blocked ≡ a.blocked
unfolding play seal pass_deadline shut_down release
play-blocked (triggers fault id now source) a db =
    after_trigger-blocked (trigger fault id now source (a, db)) a db
      (trigger-blocked fault id now source a db)
play-blocked (cancels id) a db = after-blocked (cancel id a) a (cancel-blocked id a)
play-blocked (publishes id) a db =
    after-blocked (begin_publication id a) a (begin_publication-blocked id a)
play-blocked (seals id) a db = ground arith
play-blocked (passes_deadline id) a db = ground arith
play-blocked shuts_down a db = refl
play-blocked (releases source id) a db = refl

plays-blocked : (es : List Event) (s : App × Db) → (plays es s).0.blocked ≡ s.0.blocked
unfolding plays
plays-blocked [] s = refl
plays-blocked (e ∷ es) (a, db) = plays-blocked es (play e (a, db)) ∙ play-blocked e a db

-- `Trigger` refuses a blocked source.
trigger_refuses :
    (fault : Faults) (id : Text) (now : ℕ) (source : Text) (a : App) (db : Db)
    → is_blocked source a ≡ true
    → is_ok (trigger fault id now source (a, db)) ≡ false
unfolding trigger
trigger_refuses fault id now source a db h = ground arith

-- Once a source is blocked, every `Trigger` of it fails, whatever happened in between.
pub plays-trigger :
    (es : List Event) (fault : Faults) (id : Text) (now : ℕ) (source : Text) (a : App) (db : Db)
    → is_blocked source a ≡ true
    → is_ok (trigger fault id now source (plays es (a, db))) ≡ false
unfolding is_blocked
plays-trigger es fault id now source a db h =
    trigger_refuses fault id now source (plays es (a, db)).0 (plays es (a, db)).1 (
      ap (λ m. elim (lookup source m) [ none ↦ false | some b ↦ b ]) (plays-blocked es (a, db)) ∙ h)
