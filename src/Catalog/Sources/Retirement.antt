-- ===== src/Catalog/Sources/Retirement.antt =====
-- `Register`: what it does to every row, and that retiring a source is final.
use crawlbox.Common.{
  ℕ, ◌+◌, ◌≡◌, refl, Bool, true, false, ◌&&◌, not, Option, none, some, List, [], ◌∷◌, ap, ◌∙◌, Map,
  Text, eq_text, eq_text_iff, lookup, has, lookup-insert, if◌then◌else◌, arith,
}
use crawlbox.Common.Result.{Result, ok, err, >>=-eq-ok, >>-eq-ok}
use crawlbox.Catalog.Db.{Db, SourceRow, Faults, statement}
use crawlbox.Catalog.Sources.{set_retired, insert_or_ignore, check_rows, add_rows, register}

abbrev is_none {ℓ} : {A : Type ℓ} → Option A → Bool
is_none none = true
is_none (some a) = false

abbrev retire_if : Bool → Option SourceRow → Option SourceRow
retire_if b none = none
retire_if true (some row) = some (record row { retired = true })
retire_if false (some row) = some row

abbrev add_if_absent : Option Text → Option SourceRow → Option SourceRow
add_if_absent none row = row
add_if_absent (some v) none = some (record { identity = v; retired = false })
add_if_absent (some v) (some row) = some row

lookup-set_retired :
    (id k : Text) (m : Map SourceRow)
    → lookup k (set_retired id m) ≡ retire_if (eq_text id k) (lookup k m)
unfolding lookup set_retired
lookup-set_retired id k [] = ground arith
lookup-set_retired id k ((j, row) ∷ m) =
    ground (arith, eq_text_iff j k, eq_text_iff j id, eq_text_iff id k, lookup-set_retired id k m)

lookup-insert_or_ignore :
    (id v k : Text) (m : Map SourceRow)
    → lookup k (insert_or_ignore id v m)
      ≡ (if eq_text id k then add_if_absent (some v) (lookup k m) else lookup k m)
unfolding insert_or_ignore has
lookup-insert_or_ignore id v k m =
    ground
      (arith, eq_text_iff id k, lookup-insert id k (record { identity = v; retired = false }) m)

has-lookup {ℓ} : {V : Type ℓ} (k : Text) (m : Map V) → has k m ≡ not (is_none (lookup k m))
unfolding has
has-lookup k m = ground arith

-- The rows after the check: those that are read and not configured are retired.
lookup-check_rows :
    (fault : Faults) (ids : Map Text) (k : Text) (n : ℕ) (olds table : Map SourceRow) (n' : ℕ)
    (table' : Map SourceRow)
    → check_rows fault ids n olds table ≡ ok (n', table')
    → lookup k table' ≡ retire_if (has k olds && is_none (lookup k ids)) (lookup k table)
unfolding check_rows has lookup
lookup-check_rows fault ids k n [] table n' table' h = ground arith
lookup-check_rows fault ids k n ((id, row) ∷ olds) table n' table' h = ground (
  arith,
  eq_text_iff id k,
  lookup-check_rows fault ids k n olds table n' table',
  lookup-check_rows fault ids k (n + 1) olds (set_retired id table) n' table',
  lookup-set_retired id k table,
)

lookup-add_rows :
    (fault : Faults) (k : Text) (n : ℕ) (ids : Map Text) (table : Map SourceRow) (n' : ℕ)
    (table' : Map SourceRow)
    → add_rows fault n ids table ≡ ok (n', table')
    → lookup k table' ≡ add_if_absent (lookup k ids) (lookup k table)
unfolding add_rows lookup
lookup-add_rows fault k n [] table n' table' h = ground arith
lookup-add_rows fault k n ((id, v) ∷ ids) table n' table' h = ground (
  arith,
  eq_text_iff id k,
  lookup-add_rows fault k (n + 1) ids (insert_or_ignore id v table) n' table',
  lookup-insert_or_ignore id v k table,
)

-- What `Register` leaves of a row, from the row before and the configured identity.
abbrev pub registered : Option SourceRow → Option Text → Option SourceRow
registered none none = none
registered none (some v) = some (record { identity = v; retired = false })
registered (some row) none = some (record row { retired = true })
registered (some row) (some v) = some row

-- A successful run of the transaction, by its two loops.
record Parts (fault : Faults) (ids : Map Text) (db db' : Db) : Type 0 where
  n : ℕ
  checked : Map SourceRow
  n' : ℕ
  checking : check_rows fault ids 2 db.sources db.sources ≡ ok (n, checked)
  adding : add_rows fault n ids checked ≡ ok (n', db'.sources)

register-Parts :
    (fault : Faults) (ids : Map Text) (db db' : Db)
    → register fault ids db ≡ ok db'
    → Parts fault ids db db'
unfolding register
register-Parts fault ids db db' h =
    let rest = >>-eq-ok (statement fault 1) _ (>>-eq-ok (statement fault 0) _ h) in
    let ((n, checked), checking, adding) =
      >>=-eq-ok (check_rows fault ids 2 db.sources db.sources) _ rest in
    let ((n', table), added, closing) = >>=-eq-ok (add_rows fault n ids checked) _ adding in
    record {
      n = n;
      checked = checked;
      n' = n';
      checking = checking;
      adding =
          added ∙ ap (λ t. ok (n', t)) (ground (arith, >>-eq-ok (statement fault n') _ closing));
    }

-- A successful `Register` retires every known source that is not configured, adds every
-- configured source that is not known, not retired, and leaves every other row as it was.
pub register_rows :
    (fault : Faults) (ids : Map Text) (db : Db) {db' : Db}
    → register fault ids db ≡ ok db'
    → (k : Text) → lookup k db'.sources ≡ registered (lookup k db.sources) (lookup k ids)
register_rows fault ids db {db'} h k =
    let p = register-Parts fault ids db db' h in
    ground (
      arith,
      has-lookup k db.sources,
      lookup-check_rows fault ids k 2 db.sources db.sources p.n p.checked p.checking,
      lookup-add_rows fault k p.n ids p.checked p.n' db'.sources p.adding,
    )

check_rows_accepts :
    (fault : Faults) (ids : Map Text) (k v : Text) (row : SourceRow) (n : ℕ)
    (olds table : Map SourceRow) (n' : ℕ) (table' : Map SourceRow)
    → check_rows fault ids n olds table ≡ ok (n', table')
    → lookup k olds ≡ some row
    → lookup k ids ≡ some v
    → (row.retired ≡ false) × (row.identity ≡ v)
unfolding check_rows lookup
check_rows_accepts fault ids k v row n [] table n' table' h before now = cc
check_rows_accepts fault ids k v row n ((id, r) ∷ olds) table n' table' h before now = ground (
  arith,
  eq_text_iff id k,
  eq_text_iff v r.identity,
  check_rows_accepts fault ids k v row n olds table n' table',
  check_rows_accepts fault ids k v row (n + 1) olds (set_retired id table) n' table',
)

-- `Register` succeeds only if every configured source that is already known is in use and has
-- the plugin identity that it was registered with.
pub register_accepts :
    (fault : Faults) (ids : Map Text) (db : Db) {db' : Db} (k v : Text) (row : SourceRow)
    → register fault ids db ≡ ok db'
    → lookup k db.sources ≡ some row
    → lookup k ids ≡ some v
    → (row.retired ≡ false) × (row.identity ≡ v)
register_accepts fault ids db {db'} k v row h before now =
    let p = register-Parts fault ids db db' h in
    check_rows_accepts fault ids k v row 2 db.sources db.sources p.n p.checked p.checking before now

-- A start of the manager: a refused registration leaves the database as it was.
abbrev settle : Result Db → Db → Db
settle (ok db') db = db'
settle (err e) db = db

unfoldable pub restart : Faults × Map Text → Db → Db
restart (fault, ids) db = settle (register fault ids db) db

unfoldable pub restarts : List (Faults × Map Text) → Db → Db
unfolding restart
restarts [] db = db
restarts (s ∷ ss) db = restarts ss (restart s db)

restart_retired :
    (s : Faults × Map Text) (db : Db) (k : Text) (row : SourceRow)
    → lookup k db.sources ≡ some row
    → row.retired ≡ true
    → lookup k (restart s db).sources ≡ some row
unfolding restart
restart_retired (fault, ids) db k row h r = go (register fault ids db) refl
  where
    go : (o : Result Db) → register fault ids db ≡ o → lookup k (settle o db).sources ≡ some row
    go (err e) p = h
    go (ok db') p = ground (
      arith,
      register_rows fault ids db p k,
      λ (v : Text). register_accepts fault ids db k v row p h,
    )

-- A retired source stays retired, with its identity, whatever configurations later starts have.
pub restarts_retired :
    (ss : List (Faults × Map Text)) (db : Db) (k : Text) (row : SourceRow)
    → lookup k db.sources ≡ some row
    → row.retired ≡ true
    → lookup k (restarts ss db).sources ≡ some row
unfolding restarts
restarts_retired [] db k row h r = h
restarts_retired (s ∷ ss) db k row h r =
    restarts_retired ss (restart s db) k row (restart_retired s db k row h r) r
