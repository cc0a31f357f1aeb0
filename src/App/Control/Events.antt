-- ===== src/App/Control/Events.antt =====
-- What can happen to the application, and which tests on a run's control last.
use crawlbox.Common.{
  ℕ, ◌≡◌, subst, refl, sym, Bool, true, false, not, Option, none, some, List, [], ◌∷◌, Map, Text,
  All, eq_text, eq_text_iff, lookup, insert, lookup-insert, lookup-erase, arith, Option-cases,
  Bool-cases, inl, inr,
}
use crawlbox.Common.Result.{Result, ok, err}
use crawlbox.Catalog.Db.{Db, Faults}
use crawlbox.App.Control.{
  Ended, Control, App, end_context, trigger, release, cancel, begin_publication, seal,
  pass_deadline, end_all, shut_down, stop_by_administrator, fresh_control,
}

-- What can happen to the application, each as one step under its lock.
pub data Event : Type 0 where
  triggers : Faults → Text → ℕ → Text → Event
  cancels : Text → Event
  publishes : Text → Event
  seals : Text → Event
  passes_deadline : Text → Event
  shuts_down : Event
  releases : Text → Text → Event

abbrev pub after_trigger : Result (Text × App × Db) → App × Db → App × Db
after_trigger (ok (id, a, db)) old = (a, db)
after_trigger (err e) old = old

abbrev pub after : Result App → App → App
after (ok a) old = a
after (err e) old = old

unfoldable pub play : Event → App × Db → App × Db
play (triggers fault id now source) (a, db) =
    after_trigger (trigger fault id now source (a, db)) (a, db)
play (cancels id) (a, db) = (after (cancel id a) a, db)
play (publishes id) (a, db) = (after (begin_publication id a) a, db)
play (seals id) (a, db) = (seal id a, db)
play (passes_deadline id) (a, db) = (pass_deadline id a, db)
play shuts_down (a, db) = (shut_down a, db)
play (releases source id) (a, db) = (release source id a, db)

unfoldable pub plays : List Event → App × Db → App × Db
plays [] s = s
plays (e ∷ es) s = plays es (play e s)

-- The event leaves the registration of a run alone: it is not released, and its identifier is not
-- drawn again.
abbrev pub spares : Text → Event → Bool
spares id (triggers fault k now source) = not (eq_text k id)
spares id (releases source k) = not (eq_text k id)
spares id _ = true

-- The control of a run: registered, and ended or sealed as the test `q` asks.
abbrev pub control_is : (Control → Bool) → Text → App → Bool
control_is q id a = elim (lookup id a.controls) [ none ↦ false | some c ↦ q c ]

abbrev pub has_ended : Control → Bool
has_ended c = elim c.context [ none ↦ false | some e ↦ true ]

abbrev pub is_sealed : Control → Bool
is_sealed c = c.sealed

-- A test that ending or sealing a control does not undo.
pub record IsStable (q : Control → Bool) : Type 0 where
  pub ends : (e : Ended) (c : Control) → q c ≡ true → q (end_context e c) ≡ true
  pub seals : (c : Control) → q c ≡ true → q (record c { sealed = true }) ≡ true

pub has_ended-IsStable : IsStable has_ended
unfolding end_context
has_ended-IsStable = record { ends = λ e c h. ground arith; seals = λ c h. h }

pub is_sealed-IsStable : IsStable is_sealed
unfolding end_context
is_sealed-IsStable = record { ends = λ e c h. ground arith; seals = λ c h. refl }

not-true : (b : Bool) → not b ≡ true → b ≡ false
not-true true h = cc
not-true false h = refl

module _ (q : Control → Bool) (stable : IsStable q) where
  control_is-insert :
      (id k : Text) (c : Control) (a : App)
      → (eq_text k id ≡ true → q c ≡ true)
      → control_is q id a ≡ true
      → control_is q id (record a { controls = insert k c a.controls }) ≡ true
  control_is-insert id k c a h l = elim (Bool-cases (eq_text k id)) [
    | inl e ↦ rw (control_is, lookup-insert k id c a.controls, e) (h e)
    | inr e ↦ rw (control_is, lookup-insert k id c a.controls, e) l
  ]

  control_is-found :
      (id k : Text) (c : Control) (a : App)
      → control_is q id a ≡ true
      → lookup k a.controls ≡ some c
      → eq_text k id ≡ true
      → q c ≡ true
  control_is-found id k c a l found e = ground (arith, eq_text_iff k id)

  -- A change of one registered control that keeps the test.
  control_is-change :
      (id k : Text) (change : Control → Control) (a : App) (o : Option Control)
      → ((c : Control) → q c ≡ true → q (change c) ≡ true)
      → lookup k a.controls ≡ o
      → control_is q id a ≡ true
      → control_is q id
          (elim o [ none ↦ a | some c ↦ record a { controls = insert k (change c) a.controls } ])
        ≡ true
  control_is-change id k change a none keep found l = l
  control_is-change id k change a (some c) keep found l =
      control_is-insert id k (change c) a (λ e. keep c (control_is-found id k c a l found e)) l

  trigger-control_is :
      (id : Text) (fault : Faults) (k : Text) (now : ℕ) (source : Text) (a : App) (db : Db)
      → eq_text k id ≡ false
      → control_is q id a ≡ true
      → control_is q id (after_trigger (trigger fault k now source (a, db)) (a, db)).0 ≡ true
  unfolding trigger
  trigger-control_is id fault k now source a db other l =
      ground (arith, lookup-insert k id fresh_control a.controls)

  end_all-kept :
      (id : Text) (m : Map Control)
      → elim (lookup id m) [ none ↦ false | some c ↦ q c ] ≡ true
      → elim (lookup id (end_all m)) [ none ↦ false | some c ↦ q c ] ≡ true
  unfolding end_all lookup
  end_all-kept id [] h = cc
  end_all-kept id ((k, c) ∷ m) h = elim (Bool-cases (eq_text k id)) [
    | inl e ↦ rw e (stable.ends _ c (ground arith))
    | inr e ↦ rw e (end_all-kept id m (ground arith))
  ]

  cancel-control_is :
      (id k : Text) (a : App)
      → control_is q id a ≡ true
      → control_is q id (after (cancel k a) a) ≡ true
  unfolding cancel
  cancel-control_is id k a l = elim (Option-cases (lookup k a.controls)) [
    | inl none_there ↦ rw (control_is, after, none_there) l
    | inr (c, found) ↦ elim (Bool-cases c.sealed) [
      | inl e ↦ rw (control_is, after, found, e) l
      | inr e ↦
          let kept =
            control_is-insert id k (stop_by_administrator c) a
              (λ at. stable.ends _ c (control_is-found id k c a l found at)) l in
          let done : cancel k a
              ≡ ok (record a { controls = insert k (stop_by_administrator c) a.controls }) =
            ground (arith, found, e) in
          subst (λ (r : Result App). control_is q id (after r a) ≡ true) (sym done) kept
    ]
  ]

  begin_publication-control_is :
      (id k : Text) (a : App)
      → control_is q id a ≡ true
      → control_is q id (after (begin_publication k a) a) ≡ true
  unfolding begin_publication
  begin_publication-control_is id k a l = elim (Option-cases (lookup k a.controls)) [
    | inl none_there ↦ rw (control_is, after, none_there) l
    | inr (c, found) ↦ elim (Option-cases c.context) [
      | inl e ↦
          rw (control_is, after, found, e)
            (control_is-insert id k (record c { sealed = true }) a
              (λ at. stable.seals c (control_is-found id k c a l found at)) l)
      | inr (d, e) ↦ rw (control_is, after, found, e) l
    ]
  ]

  play-control_is :
      (id : Text) (e : Event) (a : App) (db : Db)
      → spares id e ≡ true
      → control_is q id a ≡ true
      → control_is q id (play e (a, db)).0 ≡ true
  unfolding play seal pass_deadline shut_down release
  play-control_is id (triggers fault k now source) a db h l =
      trigger-control_is id fault k now source a db (ground arith) l
  play-control_is id (cancels k) a db h l = cancel-control_is id k a l
  play-control_is id (publishes k) a db h l = begin_publication-control_is id k a l
  play-control_is id (seals k) a db h l =
      control_is-change id k (λ c. record c { sealed = true }) a (lookup k a.controls) stable.seals
        refl l
  play-control_is id (passes_deadline k) a db h l =
      control_is-change id k (end_context _) a (lookup k a.controls) (stable.ends _) refl l
  play-control_is id shuts_down a db h l = end_all-kept id a.controls l
  play-control_is id (releases source k) a db h l =
      rw (control_is, lookup-erase k id a.controls, not-true (eq_text k id) h) l

  pub plays-control_is :
      (id : Text) (es : List Event) (s : App × Db)
      → All (λ e. spares id e ≡ true) es
      → control_is q id s.0 ≡ true
      → control_is q id (plays es s).0 ≡ true
  unfolding plays
  plays-control_is id [] s h l = l
  plays-control_is id (e ∷ es) (a, db) (h, hs) l =
      plays-control_is id es (play e (a, db)) hs (play-control_is id e a db h l)
