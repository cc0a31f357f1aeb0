-- ===== src/Lib.antt =====
-- The manager of crawlbox runs collector plugins, which are WebAssembly modules, and publishes
-- what they collect as revisions of a source. A plugin asks the host for everything it does; the
-- candidate that it leaves becomes a tree of files, the tree becomes a snapshot of the backup
-- program Kopia, and the revision is entered in the catalog, which the HTTP interface reads.
--
-- What is modelled, and where:
--   Common: Booleans, lists, byte texts, maps, results, sorting, splitting, decimal numbers and
--     64-bit integers that wrap around, for all other modules.
--   Wire and Model: the records of internal/wire/wire.go and internal/model/model.go. Raw JSON is
--     text, a time is a number of nanoseconds, and a status is one of the texts in use.
--   Paths: SafePath of internal/runtime/runtime.go and ValidID of internal/config/config.go, with
--     the cleaning and joining of paths that they and their callers use. Paths.Safety and
--     Paths.Containment have the theorems.
--   Config: Config.Validate of internal/config/config.go. A source is `Source`, the loop over the
--     sources is `validate_sources`. Theorems in Config.Bounds and Config.Settled.
--   Host: the type Host of internal/runtime/runtime.go. State has its fields, with the files it
--     works on; Objects, Network and Candidate have the operations of Call, and Calls has Call
--     itself, as `call`, and a run of a plugin as the list of its calls, as `run`. Moves and Steps
--     say which changes a call can make, as a relation on states, and Quota, Frozen, Changes,
--     Orderly, Published and Conflicts have the invariants of the relation and their theorems.
--   Catalog: the type Store of internal/catalog/catalog.go by its tables: Db has the tables,
--     Sources has Register, Body has the JSON body of a revision, History has Commit, Revision,
--     Revisions and RevisionsPage, Runs has SaveRun, Runs, RunsPage and InterruptRuns, Tokens has
--     CreateToken, Authenticate, Tokens and Revoke, and Settings has the two operations on
--     settings. Each has a child with its theorems.
--   App: internal/app/app.go and internal/app/cancel.go. Changes has diff, Confirm has sameEntries,
--     confirmRevision and verify, Build has build and copyFile, Control has Trigger, Cancel,
--     CanCancel and beginPublication, Recovery has Recover, with the type of a snapshot, Start has
--     New, and Cache has current, installCurrent and replaceCurrent. Perform has perform: its
--     closures in Perform itself, its body in Preparation and Publication, the deferred function
--     in Finish, and in Machine the goroutine that Trigger starts, as `advance`, which goes from
--     one segment to the next. Between two segments anything else may happen: a `Move` is one
--     segment, an event of Control, or the commit of another run. The children have the theorems.
--   Kopia: normalize, Create, List and Restore of internal/kopia/kopia.go, with what CLI knows of
--     the snapshots. Plugins: invoke, Load and Execute of internal/runtime/runtime.go. Files:
--     internal/fileutil. Proxy: New, SetEnabled and the check of the certificate of
--     internal/kopiaui/proxy.go.
--   Web: internal/web/web.go, with an answer as a `Response`. Access has bearer, scope and basic,
--     Pages has pagination and page, Api has the handlers under /api/v1 and `api_source`, which
--     puts them behind bearer and scope, Serving has serveFile, Archive has archive, Trim has
--     trimCache, Overview has what render computes, and Actions has the handlers of the forms and
--     `ui`, which puts them behind basic. Their children have the theorems.
--   Setup: setupHandler and resetPassword of cmd/manager/setup.go, with LoadCredentials of
--     internal/web/web.go. Setup.Ensured has ensureAdministrator.
--   The modules named Tests evaluate the definitions at concrete states and apply the theorems.
--
-- How the code is read. State is passed explicitly: an operation takes the state and returns the
-- new one beside its result. An operation of the catalog is a transaction, so an error leaves the
-- tables as they were; `fault n` tells whether its statement numbered `n` fails. The answers of the
-- file system and the network to one call are an argument of the call: Io in Host.State, Steps in
-- App.Build, and the other records of errors and answers. A Go map is an association list, and no
-- theorem assumes the order in which a loop visits it. Locks are not modelled where an operation
-- holds one from its first change to its last: the operations of a run are a sequence. A body of
-- JSON in the database is the record that it decodes to. For a revision this is computed by the
-- fields and the tags of its type, with raw JSON in compact form; the bodies of runs and tokens
-- have no raw JSON, and decode to the record that was encoded. Strings are UTF-8.
--
-- Loops are recursion on the list or the text that they visit, but for two. strings.Fields runs on
-- as many rounds as there are bytes, of which each round takes one at least. The outer loop of
-- Recover runs on as many passes as there are pending revisions. A pass after which the loop goes
-- on has committed at least one of them, so these are enough. The counter and the limits of the
-- staging quota and the limit of a plugin's output are 64-bit integers with wrap-around, where
-- `int` has 64 bits, and a decimal parameter of a request is refused outside of them; other numbers
-- are natural numbers or integers without a bound, on which the code does no arithmetic that could
-- overflow.
--
-- Parameters, for code that is not the repository's: SHA-256, the parser of URLs, the comparison
-- of host names and the patterns of the package glob, the time zones, the parser of schedules, the
-- parser of times, the decoders and encoders of JSON and YAML, the hash and the comparison of
-- passwords, the archive format, the text of a foreign error, what a WebAssembly module returns,
-- and whether a request of a browser came from another site.
--
-- Not modelled: wazero and extism, which run a plugin; Start and Close of the application, with
-- the timer of its schedules; the panics that perform recovers from and its log of a run that
-- is still active; the routes, the headers and the pages of the HTTP interface; the reverse proxy
-- itself; the command line of Kopia and its processes; cmd/manager/main.go, which reads flags
-- and serves. They wire packages together or belong to other projects.
pub mod Common
pub mod Wire
pub mod Model
pub mod Paths
pub mod Config
pub mod App
pub mod Web
pub mod Proxy
pub mod Kopia
pub mod Plugins
pub mod Files
pub mod Setup
pub mod Catalog
pub mod Host
