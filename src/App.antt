-- ===== src/App.antt =====
-- The application (internal/app/app.go and internal/app/cancel.go): the runs, from the trigger to
-- the revision that they publish, the cache of the current tree, and the recovery of the catalog.
pub mod Changes
pub mod Confirm
pub mod Build
pub mod Control
pub mod Recovery
pub mod Cache
pub mod Perform
pub mod Start
mod Tests
