-- ===== src/Catalog/History/Linear.antt =====
-- `Commit` keeps, for each source, one line of revisions from the first to the head.
use crawlbox.Common.{
  ◌≡◌, refl, sym, ◌∙◌, subst, ◌≢◌, ◌⊎◌, inl, inr, Bool, true, false, Option, none, some, List, [],
  ◌∷◌, Text, All, eq_text, eq_text_iff, lookup, insert, lookup-insert, if◌then◌else◌, arith,
}
use crawlbox.Common.Result.{Result, ok, err, no_rows}
use crawlbox.Model.{Revision}
use crawlbox.Catalog.Db.{Db, Faults}
use crawlbox.Catalog.Body.Fields.{as_stored, unmarshal-marshal}
use crawlbox.Catalog.History.{has_revision, head_of, commit, of_source}

abbrev pub top : List Revision → Option Text
top [] = none
top (r ∷ rs) = some r.id

abbrev pub or_empty : Option Text → Text
or_empty none = []
or_empty (some id) = id

-- Each revision has the one before it as its parent, and the first has none.
abbrev pub IsChain : List Revision → Type 0
IsChain [] = Unit
IsChain (r ∷ rs) = (r.parent ≡ or_empty (top rs)) × IsChain rs

abbrev pub HasDistinctIds : List Revision → Type 0
HasDistinctIds [] = Unit
HasDistinctIds (r ∷ rs) = (has_revision r.id rs ≡ false) × HasDistinctIds rs

pub record IsLinear (db : Db) : Type 0 where
  pub distinct : HasDistinctIds db.revisions
  pub named : All (λ r. r.id ≢ []) db.revisions
  pub chained : (s : Text) → IsChain (of_source s db.revisions)
  pub headed : (s : Text) → lookup s db.heads ≡ top (of_source s db.revisions)

-- What a successful `Commit` has done: nothing if the identifier was there, else one new row.
pub commit_cases :
    (fault : Faults) (r : Revision) (db : Db) {db' : Db}
    → commit fault r db ≡ ok db'
    → ((has_revision r.id db.revisions ≡ true) × (db' ≡ db))
      ⊎ ((has_revision r.id db.revisions ≡ false)
          × (head_of r.source db ≡ r.parent)
          × (db'.revisions ≡ as_stored r ∷ db.revisions)
          × (db'.heads ≡ insert r.source r.id db.heads))
unfolding commit
commit_cases fault r db h =
    ground (arith, eq_text_iff (head_of r.source db) r.parent, unmarshal-marshal r)

-- The abstract view: a source's revisions, newest first.
abbrev pub history : Text → Db → List Revision
history s db = of_source s db.revisions

-- What `Commit` promises of the abstract view.
abbrev pub Appended : Revision → Db → Db → Type 0
Appended r db db' =
    (has_revision r.id db.revisions ≡ false)
    × (r.parent ≡ or_empty (top (history r.source db)))
    × ((s : Text)
        → history s db' ≡ (if eq_text r.source s then as_stored r ∷ history s db else history s db))

history-cons :
    (r : Revision) (rs : List Revision) (s : Text)
    → of_source s (r ∷ rs) ≡ (if eq_text r.source s then r ∷ of_source s rs else of_source s rs)
history-cons r rs s = ground arith

IsChain-if :
    (b : Bool) (r : Revision) (rs : List Revision)
    → (b ≡ true → r.parent ≡ or_empty (top rs))
    → IsChain rs
    → IsChain (if b then r ∷ rs else rs)
IsChain-if true r rs h c = (h refl, c)
IsChain-if false r rs h c = c

top-if :
    (b : Bool) (r : Revision) (rs : List Revision)
    → (if b then some r.id else top rs) ≡ top (if b then r ∷ rs else rs)
top-if true r rs = refl
top-if false r rs = refl

head_of-top : (s : Text) (db : Db) → IsLinear db → head_of s db ≡ or_empty (top (history s db))
unfolding head_of
head_of-top s db l = ground (arith, l.headed s)

module _ (fault : Faults) (r : Revision) (db db' : Db) (l : IsLinear db) (named : r.id ≢ [])
    (fresh : has_revision r.id db.revisions ≡ false) (at_head : head_of r.source db ≡ r.parent)
    (rows : db'.revisions ≡ as_stored r ∷ db.revisions)
    (heads : db'.heads ≡ insert r.source r.id db.heads) where
  appended : Appended r db db'
  appended = (
    fresh,
    sym at_head ∙ head_of-top r.source db l,
    λ s. rw rows (history-cons (as_stored r) db.revisions s),
  )

  appended-IsLinear : IsLinear db'
  appended-IsLinear = record {
    distinct = rw rows (fresh, l.distinct);
    named = rw rows (named, l.named);
    chained = λ s.
        rw (rows, history-cons (as_stored r) db.revisions s)
          (IsChain-if (eq_text r.source s) (as_stored r) (history s db)
            (λ e.
              subst (λ t. r.parent ≡ or_empty (top (history t db))) ((eq_text_iff r.source s).0 e)
                (appended.1))
            (l.chained s));
    headed = λ s.
        rw (rows, heads, lookup-insert, history-cons (as_stored r) db.revisions s, l.headed s)
          (top-if (eq_text r.source s) (as_stored r) (history s db));
  }

-- From a database whose sources are linear, a successful `Commit` of a revision with an
-- identifier either finds the identifier and changes nothing, or puts the revision, with its raw
-- JSON as it is stored, at the head of its source, whose old head is its parent, and leaves every
-- other history; it stays linear.
pub commit-IsLinear :
    (fault : Faults) (r : Revision) (db db' : Db)
    → IsLinear db
    → r.id ≢ []
    → commit fault r db ≡ ok db'
    → IsLinear db' × (((has_revision r.id db.revisions ≡ true) × (db' ≡ db)) ⊎ Appended r db db')
commit-IsLinear fault r db db' l named h = elim (commit_cases fault r db h) [
  | inl (old, same) ↦ (subst IsLinear (sym same) l, inl (old, same))
  | inr (fresh, at_head, rows, heads) ↦ (
    appended-IsLinear fault r db db' l named fresh at_head rows heads,
    inr (appended fault r db db' l named fresh at_head rows heads),
  )
]

-- The newest revision, as the abstract view has it.
abbrev pub newest : List Revision → Result Revision
newest [] = err no_rows
newest (r ∷ rs) = ok r

-- A run of the manager: the commits that it tries, in turn; a refused one changes nothing.
abbrev pub settle : Result Db → Db → Db
settle (ok db') db = db'
settle (err e) db = db

unfoldable pub commits : List (Faults × Revision) → Db → Db
commits [] db = db
commits ((fault, r) ∷ rs) db = commits rs (settle (commit fault r db) db)

settle-IsLinear :
    (fault : Faults) (r : Revision) (db : Db)
    → IsLinear db
    → r.id ≢ []
    → IsLinear (settle (commit fault r db) db)
settle-IsLinear fault r db l named = go (commit fault r db) refl
  where
    go : (o : Result Db) → commit fault r db ≡ o → IsLinear (settle o db)
    go (ok db') e = (commit-IsLinear fault r db db' l named e).0
    go (err x) e = l

-- Whatever commits are tried, in whatever order and with whatever faults, every source keeps one
-- line of revisions that ends at its head, as long as the revisions have identifiers.
pub commits-IsLinear :
    (rs : List (Faults × Revision)) (db : Db)
    → IsLinear db
    → All (λ x. x.1.id ≢ []) rs
    → IsLinear (commits rs db)
unfolding commits
commits-IsLinear [] db l named = l
commits-IsLinear ((fault, r) ∷ rs) db l named =
    commits-IsLinear rs (settle (commit fault r db) db) (settle-IsLinear fault r db l named.0)
      named.1
