-- ===== src/App/Perform/Blocked.antt =====
-- How a publication ends (internal/app/app.go): committed, or refused for good once its snapshot
-- may be there.
use crawlbox.Catalog.Db.{Db}
use crawlbox.App.Control.{App}
