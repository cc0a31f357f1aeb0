-- ===== src/App/Recovery.antt =====
-- `Recover` of internal/app/app.go: the catalog is filled in from the snapshots that it lacks.
-- The list of snapshots and what their `revision.json` decodes to are given.
pub mod Complete
pub mod Collected
mod Tests
use crawlbox.Common.{
  ℕ, ◌==◌, ltb, zero, suc, Bool, true, false, ◌||◌, ◌&&◌, not, Option, none, some, List, [], ◌∷◌,
  Map, Text, eq_text, lookup, insert, length, codes, if◌then◌else◌,
}
use crawlbox.Common.Int.{ℤ, pos, negsuc}
use crawlbox.Common.Result.{
  Error, Result, ok, err, new, no_rows, not_exist, canceled, deadline_exceeded, external, ◌>>=◌,
  ◌>>◌, fail_if,
}
use crawlbox.Model.{Revision}
use crawlbox.Paths.{valid_id}
use crawlbox.Catalog.Db.{Db, Faults}
use crawlbox.Catalog.History.{commit, revision}

-- `Snapshot` of internal/kopia/kopia.go; the counts are those of its statistics.
pub record Snapshot : Type 0 where
  pub id : Text
  pub incomplete : Text
  pub tags : Map Text
  pub pins : List Text
  pub root_object : Text
  pub errors : ℤ
  pub ignored : ℤ
  pub excluded : ℤ
  pub excluded_dirs : ℤ

-- `n == 0`
abbrev pub is_zero : ℤ → Bool
is_zero (pos n) = n == 0
is_zero (negsuc n) = false

-- `Complete`
unfoldable pub is_complete : Snapshot → Bool
is_complete s =
    not (eq_text s.id [])
    && (not (eq_text s.root_object [])
        && (eq_text s.incomplete []
            && (is_zero s.errors
                && (is_zero s.ignored
                    && (is_zero s.excluded
                        && (is_zero s.excluded_dirs && ltb 0 (length s.pins)))))))

-- `s.Tags[k]`
abbrev pub tag : Text → Snapshot → Text
tag k s = elim (lookup k s.tags) [ none ↦ [] | some v ↦ v ]

-- `errors.Is(e, sql.ErrNoRows)` of a read, as whether there is a row.
abbrev pub row_found : Result Revision → Result (Option Revision)
row_found (ok r) = ok (some r)
row_found (err no_rows) = ok none
row_found (err not_exist) = err not_exist
row_found (err canceled) = err canceled
row_found (err deadline_exceeded) = err deadline_exceeded
row_found (err (new s)) = err (new s)
row_found (err (external n)) = err (external n)

abbrev pub id_or_empty : Option Revision → Text
id_or_empty none = []
id_or_empty (some r) = r.id

-- Whether a revision that is pending under the identifier is of another snapshot.
abbrev pub is_other : Text → Option Revision → Bool
is_other snapshot none = false
is_other snapshot (some r) = not (eq_text r.snapshot snapshot)

-- A revision that is not next stays pending; one that was committed does not.
abbrev pub kept : Text → Revision → Map Revision × Db × Bool → Result (Map Revision × Db × Bool)
kept id r (left, later, any_committed) = ok ((id, r) ∷ left, later, any_committed)

abbrev pub advanced : Map Revision × Db × Bool → Result (Map Revision × Db × Bool)
advanced (left, later, any_committed) = ok (left, later, true)

module _ (sealed : Text → Result Revision) where
  -- A snapshot of a revision that the catalog lacks.
  unfoldable pub add_pending : Snapshot → Map Revision → Result (Map Revision)
  add_pending s pending =
      let id = tag (codes "revision") s in
      do
        r ← sealed s.id
        fail_if (not (eq_text r.id id) || not (eq_text r.source (tag (codes "source") s)))
            (new "snapshot identity mismatch")
        fail_if (is_other s.id (lookup id pending)) (new "duplicate snapshot revision identity")
        ok (insert id (record r { snapshot = s.id }) pending)

module _ (reads : ℕ → Text → Faults) (sealed : Text → Result Revision) where
  -- The loop over the snapshots.
  unfoldable pub collect : Db → List Snapshot → Map Revision → Result (Map Revision)
  unfolding add_pending is_complete
  collect db [] pending = ok pending
  collect db (s ∷ snaps) pending =
      let rest = collect db snaps in
      let source = tag (codes "source") s in
      let id = tag (codes "revision") s in
      if not (is_complete s) || not (eq_text (tag (codes "app") s) (codes "manager-v1"))
      then rest pending
      else do
        fail_if (not (valid_id source) || not (valid_id id)) (new "invalid snapshot identity")
        found ← row_found (revision (reads 0 s.id) source id db)
        elim found [
          | some r ↦ rest pending
          | none ↦ do more ← add_pending sealed s pending; rest more
        ]

module _ (reads commits : ℕ → Text → Faults) where
  -- One pass over the pending revisions: those that are left, the catalog, and whether any was
  -- committed. `n` numbers the passes, backwards.
  unfoldable pub pass : ℕ → Map Revision → Db → Result (Map Revision × Db × Bool)
  pass n [] db = ok ([], db, false)
  pass n ((id, r) ∷ pending) db = do
    head ← row_found (revision (reads n id) r.source (codes "latest") db)
    if not (eq_text (id_or_empty head) r.parent)
        then pass n pending db >>= kept id r
        else (commit (commits n id) r db >>= λ committed. pass n pending committed >>= advanced)

  -- The outer loop, on fuel: a pass that goes on has committed a revision, so as many passes as
  -- there are pending revisions are enough.
  unfoldable pub drain : ℕ → Map Revision → Db → Result Db
  unfolding pass
  drain zero pending db = ok db
  drain (suc n) [] db = ok db
  drain (suc n) (x ∷ pending) db = do
    (left, later, any_committed) ← pass (suc n) (x ∷ pending) db
    fail_if (not any_committed) (new "snapshot history has a gap or fork")
    drain n left later

  -- `Recover`, with the decoded copy that each snapshot has.
  unfoldable pub recover : (Text → Result Revision) → List Snapshot → Db → Result Db
  unfolding collect drain
  recover sealed snaps db = do
    pending ← collect reads sealed db snaps []
    drain (length pending) pending db
