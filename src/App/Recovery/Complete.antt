-- ===== src/App/Recovery/Complete.antt =====
-- The loop of `Recover` ends, and leaves nothing out.
use mathlib.Core.List.{Memᴰ}
use mathlib.Core.List.Memᴰ
use crawlbox.Common.{
  ℕ, zero, suc, ◌≤◌, ◌<◌, ◌≡◌, ◌≢◌, if◌then◌else◌, ◌⊎◌, sym, subst, Bool, true, not, [], ◌∷◌, Map,
  Text, All, eq_text, eq_text_refl, length, arith, Bool-cases, inl, inr, codes,
}
use crawlbox.Common.Result.{◌>>=◌, ok, >>=-eq-ok, ok-inj, passed_test}
use crawlbox.Model.{Revision}
use crawlbox.Catalog.Db.{Db, Faults}
use crawlbox.Catalog.History.{has_revision, commit, revision}
use crawlbox.Catalog.History.Linear.{IsLinear, commit_cases, commit-IsLinear}
use crawlbox.App.Recovery.{row_found, id_or_empty, kept, advanced, pass, drain}

-- Commits keep every revision and add the one that they are of.
commit-kept :
    (fault : Faults) (r : Revision) (db db' : Db) (id : Text)
    → commit fault r db ≡ ok db'
    → has_revision id db.revisions ≡ true
    → has_revision id db'.revisions ≡ true
unfolding has_revision
commit-kept fault r db db' id h there = elim (commit_cases fault r db h) [
  | inl (old, same) ↦ rw same there
  | inr (fresh, at_head, rows, heads) ↦ rw rows (ground arith)
]

commit-added :
    (fault : Faults) (r : Revision) (db db' : Db)
    → commit fault r db ≡ ok db'
    → has_revision r.id db'.revisions ≡ true
unfolding has_revision
commit-added fault r db db' h = elim (commit_cases fault r db h) [
  | inl (old, same) ↦ rw same old
  | inr (fresh, at_head, rows, heads) ↦ rw rows (ground (arith, eq_text_refl r.id))
]

-- What a pass does: it loses no revision, and is shorter if it committed one.
record Passed (p left : Map Revision) (db later : Db) (any_committed : Bool) : Type 0 where
  monotone :
      (id : Text) → has_revision id db.revisions ≡ true → has_revision id later.revisions ≡ true
  covered :
      (id : Text) (r : Revision)
      → Memᴰ (id, r) p
      → (has_revision r.id later.revisions ≡ true) ⊎ Memᴰ (id, r) left
  shorter : length left ≤ length p
  strictly : any_committed ≡ true → length left < length p
  linear : All (λ x. x.1.id ≢ []) p → IsLinear db → IsLinear later × All (λ x. x.1.id ≢ []) left

abbrev Covers : Map Revision → Map Revision → Db → Type 0
Covers p left later =
    (id : Text) (r : Revision)
    → Memᴰ (id, r) p
    → (has_revision r.id later.revisions ≡ true) ⊎ Memᴰ (id, r) left

Covers-waiting :
    (id : Text) (r : Revision) (p left : Map Revision) (later : Db)
    → Covers p left later
    → Covers ((id, r) ∷ p) ((id, r) ∷ left) later
Covers-waiting id r p left later c k v (Memᴰ.head e) = inr (Memᴰ.head e)
Covers-waiting id r p left later c k v (Memᴰ.tail m) = elim (c k v m) [
  | inl there ↦ inl there
  | inr waits ↦ inr (Memᴰ.tail waits)
]

Covers-committed :
    (id : Text) (r : Revision) (p left : Map Revision) (later : Db)
    → Covers p left later
    → has_revision r.id later.revisions ≡ true
    → Covers ((id, r) ∷ p) left later
Covers-committed id r p left later c done k v (Memᴰ.head e) =
    inl (subst (λ (x : Text × Revision). has_revision x.1.id later.revisions ≡ true) (sym e) done)
Covers-committed id r p left later c done k v (Memᴰ.tail m) = c k v m

nowhere {ℓ κ} : {A : Type ℓ} {a : A} {B : Type κ} → Memᴰ a [] → B
nowhere m = absurd (Memᴰ.not-nil m)

-- What the loop leaves: the catalog is linear, keeps every revision that it had, and has every
-- pending one.
abbrev pub Drained : Map Revision → Db → Db → Type 0
Drained p db later =
    IsLinear later
    × ((id : Text) → has_revision id db.revisions ≡ true → has_revision id later.revisions ≡ true)
    × ((id : Text) (r : Revision)
        → Memᴰ {A = Text × Revision} (id, r) p
        → has_revision r.id later.revisions ≡ true)

module _ (reads commits : ℕ → Text → Faults) where
  pass-Passed :
      (n : ℕ) (p : Map Revision) (db : Db) (left : Map Revision) (later : Db) (b : Bool)
      → pass reads commits n p db ≡ ok (left, later, b)
      → Passed p left db later b
  unfolding pass
  pass-Passed n [] db left later b h =
      subst (λ (t : Map Revision × Db × Bool). Passed [] t.0 db t.1 t.2) (ok-inj h)
        (record {
          monotone = λ id e. e;
          covered = λ id r m. inr m;
          shorter = omega arith;
          strictly = λ e. cc;
          linear = λ named l. (l, named);
        })
  pass-Passed n ((id, r) ∷ p) db left later b h =
      let (head, e1, h1) =
        >>=-eq-ok (row_found (revision (reads n id) r.source (codes "latest") db)) _ h in
      elim (Bool-cases (not (eq_text (id_or_empty head) r.parent))) [
        | inl waits ↦
            let h2 : (pass reads commits n p db >>= kept id r) ≡ ok (left, later, b) =
              subst
                (λ x.
                  (if x
                    then pass reads commits n p db >>= kept id r
                    else (commit (commits n id) r db >>= λ committed.
                        pass reads commits n p committed >>= advanced))
                  ≡ ok (left, later, b))
                waits h1 in
            let ((m, d, c), e3, h3) = >>=-eq-ok (pass reads commits n p db) _ h2 in
            let x = pass-Passed n p db m d c e3 in
            subst (λ (t : Map Revision × Db × Bool). Passed ((id, r) ∷ p) t.0 db t.1 t.2)
              (ok-inj h3)
              (record {
                monotone = x.monotone;
                covered = Covers-waiting id r p m d x.covered;
                shorter = omega (arith, x.shorter);
                strictly = λ e. omega (arith, x.strictly e);
                linear =
                    λ named l. let (l2, named2) = x.linear named.1 l in (l2, (named.0, named2));
              })
        | inr fits ↦
            let h2 : (commit (commits n id) r db >>= λ committed.
            pass reads commits n p committed >>= advanced)
                ≡ ok (left, later, b) =
              subst
                (λ x.
                  (if x
                    then pass reads commits n p db >>= kept id r
                    else (commit (commits n id) r db >>= λ committed.
                        pass reads commits n p committed >>= advanced))
                  ≡ ok (left, later, b))
                fits h1 in
            let (committed, e2, h3) = >>=-eq-ok (commit (commits n id) r db) _ h2 in
            let ((m, d, c), e3, h4) = >>=-eq-ok (pass reads commits n p committed) _ h3 in
            let x = pass-Passed n p committed m d c e3 in
            subst (λ (t : Map Revision × Db × Bool). Passed ((id, r) ∷ p) t.0 db t.1 t.2)
              (ok-inj h4)
              (record {
                monotone = λ k e. x.monotone k (commit-kept (commits n id) r db committed k e2 e);
                covered =
                    Covers-committed id r p m d x.covered
                      (x.monotone r.id (commit-added (commits n id) r db committed e2));
                shorter = omega (arith, x.shorter);
                strictly = λ e. omega (arith, x.shorter);
                linear = λ named l.
                    x.linear named.1 (commit-IsLinear (commits n id) r db committed l named.0 e2).0;
              })
      ]

  -- From a linear catalog, with pending revisions that have identifiers, as many passes as there
  -- are pending revisions are enough: where the loop succeeds, the catalog is linear, keeps every
  -- revision that it had, and has every pending one.
  pub drain_complete :
      (n : ℕ) (p : Map Revision) (db db' : Db)
      → length p ≤ n
      → All (λ x. x.1.id ≢ []) p
      → IsLinear db
      → drain reads commits n p db ≡ ok db'
      → Drained p db db'
  unfolding drain
  drain_complete zero [] db db' enough named l h =
      let same = ok-inj h in subst (Drained [] db) same (l, (λ id e. e), λ id r m. nowhere m)
  drain_complete zero (x ∷ p) db db' enough named l h = absurd (omega (arith, enough))
  drain_complete (suc n) [] db db' enough named l h =
      let same = ok-inj h in subst (Drained [] db) same (l, (λ id e. e), λ id r m. nowhere m)
  drain_complete (suc n) (x ∷ p) db db' enough named l h =
      let ((left, later, b), e1, h1) = >>=-eq-ok (pass reads commits (suc n) (x ∷ p) db) _ h in
      let (e2, h2) = passed_test (not b) _ _ h1 in
      let t = pass-Passed (suc n) (x ∷ p) db left later b e1 in
      let went_on : b ≡ true = ground arith in
      let (l2, named2) = t.linear named l in
      let (linear, monotone, complete) =
        drain_complete n left later db' (omega (arith, enough, t.strictly went_on)) named2 l2 h2 in
      (
        linear,
        (λ id e. monotone id (t.monotone id e)),
        λ id r m. elim (t.covered id r m) [
          | inl there ↦ monotone r.id there
          | inr waits ↦ complete id r waits
        ],
      )
