-- ===== src/App/Recovery/Collected.antt =====
-- What `Recover` collects, and what it does to the catalog as a whole.
use crawlbox.Common.{
  ℕ, ◌≡◌, ◌≢◌, refl, sym, subst, ◌∙◌, Bool, true, false, ◌||◌, not, Option, none, some, List, [],
  ◌∷◌, Map, Text, All, eq_text, eq_text_iff, lookup, insert, length, arith, Bool-cases, inl, inr,
  codes,
}
use crawlbox.Common.Result.{Result, ◌>>=◌, ◌>>◌, fail_if, ok, new, >>=-eq-ok, ok-inj, passed_test}
use crawlbox.Model.{Revision}
use crawlbox.Catalog.Db.{Db, Faults}
use crawlbox.Catalog.History.{has_revision, revision}
use crawlbox.Catalog.History.Linear.{IsLinear}
use crawlbox.App.Recovery.{
  row_found, Snapshot, is_complete, tag, is_other, add_pending, collect, recover,
}
use crawlbox.Paths.{valid_id}
use crawlbox.App.Recovery.Complete.{drain_complete}

invalid : (a b : Bool) → (not a || not b) ≡ false → b ≡ true
invalid true true h = refl
invalid true false h = cc
invalid false b h = cc

flip : (a b : Bool) → (not a || not b) ≡ false → (not b || not a) ≡ false
flip a b h = ground arith

All-insert :
    (k : Text) (r : Revision) (m : Map Revision)
    → r.id ≢ []
    → All (λ x. x.1.id ≢ []) m
    → All (λ x. x.1.id ≢ []) (insert k r m)
unfolding insert
All-insert k r [] named all_named = (named, tt)
All-insert k r ((j, w) ∷ m) named all_named = elim (Bool-cases (eq_text j k)) [
  | inl e ↦ rw e (named, all_named.1)
  | inr e ↦ rw e (all_named.0, All-insert k r m named all_named.1)
]

module _ (reads : ℕ → Text → Faults) (sealed : Text → Result Revision) where
  valid-ne-nil : (id : Text) → valid_id id ≡ true → id ≢ []
  unfolding valid_id
  valid-ne-nil [] h = cc
  valid-ne-nil (c ∷ cs) h = λ e. cc

  add_pending-named :
      (s : Snapshot) (acc more : Map Revision)
      → valid_id (tag (codes "revision") s) ≡ true
      → All (λ x. x.1.id ≢ []) acc
      → add_pending sealed s acc ≡ ok more
      → All (λ x. x.1.id ≢ []) more
  unfolding add_pending
  add_pending-named s acc more valid named h =
      let id = tag (codes "revision") s in
      let (r, e1, h1) = >>=-eq-ok (sealed s.id) _ h in
      let (e2, h2) =
        passed_test (not (eq_text r.id id) || not (eq_text r.source (tag (codes "source") s))) _ _
          h1 in
      let (e3, h3) = passed_test (is_other s.id (lookup id acc)) _ _ h2 in
      let same : r.id ≡ id = (eq_text_iff r.id id).0 (
        invalid (eq_text r.source (tag (codes "source") s)) (eq_text r.id id)
          (flip (eq_text r.id id) (eq_text r.source (tag (codes "source") s)) e2)) in
      subst (All (λ x. x.1.id ≢ [])) (ok-inj h3) (
        All-insert id (record r { snapshot = s.id }) acc (λ e. valid-ne-nil id valid (sym same ∙ e))
          named)

  found_or_not :
      (db : Db) (s : Snapshot) (snaps : List Snapshot) (acc pending : Map Revision)
      → All (λ x. x.1.id ≢ []) acc
      → (found : Option Revision) → valid_id (tag (codes "revision") s) ≡ true
      → elim found [
        | some r ↦ collect reads sealed db snaps acc
        | none ↦ add_pending sealed s acc >>= collect reads sealed db snaps
      ]
        ≡ ok pending
      → ((acc pending : Map Revision)
          → All (λ x. x.1.id ≢ []) acc
          → collect reads sealed db snaps acc ≡ ok pending
          → All (λ x. x.1.id ≢ []) pending)
      → All (λ x. x.1.id ≢ []) pending
  found_or_not db s snaps acc pending named (some r) valid h step = step acc pending named h
  found_or_not db s snaps acc pending named none valid h step =
      let (more, e, h1) = >>=-eq-ok (add_pending sealed s acc) _ h in
      step more pending (add_pending-named s acc more valid named e) h1

  -- Every pending revision has an identifier.
  collect-named :
      (db : Db) (snaps : List Snapshot) (acc pending : Map Revision)
      → All (λ x. x.1.id ≢ []) acc
      → collect reads sealed db snaps acc ≡ ok pending
      → All (λ x. x.1.id ≢ []) pending
  unfolding collect
  collect-named db [] acc pending named h = subst (All (λ x. x.1.id ≢ [])) (ok-inj h) named
  collect-named db (s ∷ snaps) acc pending named h =
      let source = tag (codes "source") s in
      let id = tag (codes "revision") s in
      elim (Bool-cases
        (not (is_complete s) || not (eq_text (tag (codes "app") s) (codes "manager-v1")))) [
          | inl skips ↦ collect-named db snaps acc pending named (ground (arith, skips))
          | inr reads_it ↦
              let rest : (fail_if (not (valid_id source) || not (valid_id id))
                      (new "invalid snapshot identity")
                    >> (row_found (revision (reads 0 s.id) source id db) >>= λ found. elim found [
                      | some r ↦ collect reads sealed db snaps acc
                      | none ↦ add_pending sealed s acc >>= collect reads sealed db snaps
                    ]))
                  ≡ ok pending =
                ground (arith, reads_it) in
              let (e1, h1) = passed_test (not (valid_id source) || not (valid_id id)) _ _ rest in
              let (found, e2, h2) =
                >>=-eq-ok (row_found (revision (reads 0 s.id) source id db)) _ h1 in
              found_or_not db s snaps acc pending named found
                (invalid (valid_id source) (valid_id id) e1) h2 (collect-named db snaps)
        ]

-- From a linear catalog, a successful `Recover` leaves a linear catalog that keeps every revision.
pub recover-IsLinear :
    (reads commits : ℕ → Text → Faults) (sealed : Text → Result Revision) (snaps : List Snapshot)
    (db db' : Db)
    → IsLinear db
    → recover reads commits sealed snaps db ≡ ok db'
    → IsLinear db'
      × ((id : Text) → has_revision id db.revisions ≡ true → has_revision id db'.revisions ≡ true)
unfolding recover
recover-IsLinear reads commits sealed snaps db db' l h =
    let (pending, e, h1) = >>=-eq-ok (collect reads sealed db snaps []) _ h in
    let (linear, monotone, _) =
      drain_complete reads commits (length pending) pending db db' (omega arith)
        (collect-named reads sealed db snaps [] pending tt e) l h1 in
    (linear, monotone)
