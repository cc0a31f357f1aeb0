-- ===== src/Catalog/Settings.antt =====
-- `BoolSetting` and `SetBoolSetting` of internal/catalog/catalog.go.
use crawlbox.Common.{Bool, false, none, some, Text, lookup, insert}
use crawlbox.Common.Result.{Result, ok, ◌>>◌}
use crawlbox.Catalog.Db.{Db, Faults, statement}

-- A setting that has no row is off.
unfoldable pub bool_setting : Faults → Text → Db → Result Bool
bool_setting fault key db = do
  statement fault 0
  elim (lookup key db.settings) [ none ↦ ok false | some value ↦ ok value ]

unfoldable pub set_bool_setting : Faults → Text → Bool → Db → Result Db
set_bool_setting fault key value db = do
  statement fault 0
  ok (record db { settings = insert key value db.settings })
