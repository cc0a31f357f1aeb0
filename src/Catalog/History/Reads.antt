-- ===== src/Catalog/History/Reads.antt =====
-- What `Revision` reads after `Commit`, and exactly when `Commit` accepts.
use crawlbox.Common.{
  ◌≡◌, refl, inl, inr, Bool, true, false, ◌&&◌, ◌||◌, none, some, List, [], ◌∷◌, Text, eq_text,
  eq_text_iff, eq_text_refl, lookup, lookup-insert, arith, Bool-cases, codes,
}
use crawlbox.Common.Result.{ok, is_ok}
use crawlbox.Model.{Revision}
use crawlbox.Catalog.Db.{Db, Faults}
use crawlbox.Catalog.Body.Fields.{as_stored, IsKept, raw_json-IsKept}
use crawlbox.Catalog.History.{
  has_revision, head_of, commit, find_id, latest_of, revision, of_source,
}
use crawlbox.Catalog.History.Linear.{HasDistinctIds, IsLinear, history, newest, commit_cases}

-- The first row of a source is the row that its identifier finds.
find_top :
    (s : Text) (xs : List Revision) (r : Revision) (rest : List Revision)
    → HasDistinctIds xs
    → of_source s xs ≡ r ∷ rest
    → (find_id r.id xs ≡ some r) × (has_revision r.id xs ≡ true)
unfolding find_id has_revision
find_top s [] r rest d e = cc
find_top s (x ∷ xs) r rest d e = elim (Bool-cases (eq_text x.source s)) [
  | inl here ↦ ground (arith, eq_text_iff x.id r.id)
  | inr there ↦ ground (arith, eq_text_iff x.id r.id, find_top s xs r rest d.1)
]

-- In a linear database the revision "latest" of a source is the newest of its history, and no
-- row is found exactly where there is no history.
pub latest-newest : (s : Text) (db : Db) → IsLinear db → latest_of s db ≡ newest (history s db)
unfolding latest_of
latest-newest s db l = go (history s db) refl
  where
    go : (rs : List Revision) → history s db ≡ rs → latest_of s db ≡ newest rs
    go [] e = ground (arith, l.headed s)
    go (r ∷ rest) e = ground (arith, l.headed s, find_top s db.revisions r rest l.distinct)

-- Whether the plugin of a revision may write to its source.
abbrev pub identity_fits : Revision → Db → Bool
identity_fits r db = eq_text r.plugin.id [] || elim (lookup r.source db.sources) [
  | none ↦ true
  | some row ↦ eq_text row.identity r.plugin.id
]

abbrev no_fault : Faults
no_fault n = false

-- With a working database `Commit` succeeds exactly when the identifier is already there, or the
-- parent is the head of the source and the plugin is the one of the source.
pub commit_exact :
    (r : Revision) (db : Db)
    → is_ok (commit (λ n. false) r db) ≡ (
        has_revision r.id db.revisions
        || (eq_text (head_of r.source db) r.parent && identity_fits r db))
unfolding commit
commit_exact r db = ground arith

commit-found :
    (fault : Faults) (r : Revision) (db db' : Db)
    → has_revision r.id db.revisions ≡ false
    → commit fault r db ≡ ok db'
    → (revision (λ n. false) r.source r.id db' ≡ ok (as_stored r))
      × (revision (λ n. false) r.source (codes "latest") db' ≡ ok (as_stored r))
unfolding revision
commit-found fault r db db' fresh h = elim (commit_cases fault r db h) [
  | inl (old, same) ↦ cc
  | inr (_, _, rows, heads) ↦
      rw (rows, heads)
        (ground (
          arith,
          eq_text_refl r.id,
          eq_text_refl r.source,
          eq_text_refl (codes "latest"),
          eq_text_iff r.id (codes "latest"),
          lookup-insert r.source r.source r.id db.heads,
        ))
]

-- After a successful `Commit` of an identifier that was not there, the revision is read back
-- under its source and identifier, and as "latest", with every field as it was, but for the raw
-- JSON of the state, of the metadata and of the plugin's schema, which are in compact form. Each
-- of these stays as it was if it has no white space, no "<", ">" or "&" and no byte 226; an empty
-- one is null.
pub commit-revision :
    (fault : Faults) (r : Revision) (db db' : Db)
    → has_revision r.id db.revisions ≡ false
    → commit fault r db ≡ ok db'
    → (revision (λ n. false) r.source r.id db' ≡ ok (as_stored r))
      × (revision (λ n. false) r.source (codes "latest") db' ≡ ok (as_stored r))
      × (IsKept r.state × IsKept r.metadata × IsKept r.plugin.config_schema)
commit-revision fault r db db' fresh h =
    let (there, latest) = commit-found fault r db db' fresh h in
    (
      there,
      latest,
      (raw_json-IsKept r.state, raw_json-IsKept r.metadata, raw_json-IsKept r.plugin.config_schema),
    )
