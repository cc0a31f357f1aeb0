-- ===== src/Catalog/Db.antt =====
-- The tables that `Open` creates (internal/catalog/catalog.go). A JSON body is the record that it
-- decodes to. Each operation that writes is a transaction: it returns the new tables, or an error
-- after which the tables are the old ones.
use crawlbox.Common.{ℕ, Bool, List, [], Option, Map, Text}
use crawlbox.Common.Result.{Result, external, fail_if}
use crawlbox.Model.{Revision, Run}

pub record SourceRow : Type 0 where
  pub identity : Text
  pub retired : Bool

pub record Token : Type 0 where
  pub id : Text
  pub name : Text
  pub sources : List Text
  pub created : ℕ
  pub expires : Option ℕ
  pub revoked : Bool

pub record TokenRow : Type 0 where
  pub digest : Text
  pub body : Token

-- `runs` and `tokens` hold their newest row first, as `ORDER BY rowid DESC` reads them.
pub record Db : Type 0 where
  pub sources : Map SourceRow
  pub revisions : List Revision
  pub heads : Map Text
  pub runs : Map Run
  pub settings : Map Bool
  pub tokens : Map TokenRow

abbrev pub empty : Db
empty = record { sources = []; revisions = []; heads = []; runs = []; settings = []; tokens = [] }

-- The outcome of the statements of a call, in the order in which it makes them: `fault n` says
-- that the statement numbered `n` fails, by a fault of the database or an ended context.
abbrev pub Faults : Type 0
Faults = ℕ → Bool

abbrev pub statement : Faults → ℕ → Result (Unit {0})
statement fault n = fail_if (fault n) (external n)
