-- ===== src/Lib.antt =====
-- A verification library for MetaFusion, a Python program that inventories Plex libraries, fetches
-- metadata and artwork from TMDb and Fanart.tv, and writes the result for Kometa or Plex.
--
-- A run reads the items of a library and the cache of what was written for them, plans which items
-- need which work (Planning), processes the planned items in parallel under limits that adapt to
-- failures and load (Concurrency), records what failed for a later run (Retries), translates the
-- paths that Plex reports (Paths), claims the destination of each piece of artwork (Registry),
-- decides whether a file may be written and whether a new image is better (Artwork), keeps what the
-- checks of an item found (Observations), and at the end removes the output of items that are gone,
-- by way of a quarantine (Cleanup). The answers of TMDb are kept in a cache with a database under it
-- (Responses).
--
-- Files, with the code that they translate:
-- - Prelude: shared names, Boolean tests, lists over the native numbers, dictionaries.
-- - Concurrency: helper/concurrency.py. Lane is `LaneLease` and `AdaptiveLane`; a method is a function
--   of the clock's reading and the lane. Room is `runtime_slot` over one lane: its leases, the tasks
--   that wait, and their steps, a cancelled wait included. Controller is
--   `AdaptiveConcurrencyController`, Resources the detection of the machine and the ceilings, Pool
--   `bounded_map`. Times are milliseconds.
-- - Planning: helper/incremental.py, and `get_image_upgrade_days` of helper/config.py. Time holds
--   timestamps and intervals, Items the inputs, Causes what makes an item due, Plan `plan_items` and
--   `select_items`, Schedule the two summaries. Times are microseconds, and a number of days is that
--   many microseconds.
-- - Paths: `parse_path_mappings` and `translate_plex_path` of helper/plex_paths.py. A text is a list of
--   code points (Texts), a path its root and components.
-- - Registry: `AssetDestinationRegistry` of helper/asset_registry.py.
-- - Observations: what helper/cache.py keeps of the checks of an item's artwork. Canonical puts its
--   records together with the decision of modules/utils.py that reads them.
-- - Artwork: modules/utils.py. Ownership is `asset_write_allowed` and `claim_asset_destination`, Guard
--   is `stale_image`, the comparison, `_quality_guard_decision`, `_canonical_upgrade_decision` and
--   `smart_asset_upgrade` and `smart_season_asset_upgrade`.
-- - Responses: `PersistentTTLCache` of helper/tmdb_cache.py. Its root holds the data and the errors of
--   the database, Evict the expiry and the trims, Methods the methods, Run any sequence of them, Latest
--   the map that the cache promises. Whether a call of the database goes well, fails, or meets a
--   corrupt file is an argument, and so are the stage at which a flush fails and whether its rollback
--   does. A time is microseconds, and values are texts under a codec.
-- - Retries: the retry queue of helper/state_db.py, for one server and library: the start and the
--   failure of an item, the back-off, and the items that come back. Times are microseconds.
-- - Resume: the way of the retry queue's keys into the planner, in modules/processing.py.
-- - Cleanup: the cleanup tables of helper/state_db.py (Candidates, Quarantine), and
--   helper/quarantine.py (Disk, Assets). Times are microseconds.
--
-- State is passed explicitly: an operation takes the state and returns the one it leaves. Tasks that
-- run in turns are steps of a list, which a theorem quantifies over, so that each interleaving at the
-- awaits is covered. What the machine does (a clock, a file, a copy, a database that may fail) is an
-- argument. Every loop is over a finite list, or is a step that the theorem counts, or, for the two
-- trims of the response cache, runs on as much fuel as there are entries and one more, which is
-- enough since each turn takes an entry away.
--
-- Parameters stand for the platform: `str.lower`, `casefold`, the test for a part of a text, which
-- code points are white space, the local time zone, the resolution of paths, JSON with zlib,
-- SHA-256, MD5. A theorem holds for every such function, or names what it asks of it.
-- Floating-point numbers are whole numbers of a small unit. Values that the program converts by
-- `int` or `float` are numbers, or the case in which the conversion fails, where the code handles
-- it; other ill-typed values are not modelled.
--
-- Not modelled: the network clients, the builders of metadata, the orchestration of a run, the files
-- for Kometa, logging and reports; of the parts above, the text of messages, snapshots and report
-- queries, the exceptions inside a purge, the maintenance of the response cache, its `relieve_space`
-- and the files that its recovery moves, the advice on path mappings, the assembly of a cache entry,
-- and the quality score of an image, which the guard's comparison takes as given.
pub mod Artwork
pub mod Cleanup
pub mod Concurrency
pub mod Observations
pub mod Paths
pub mod Planning
pub mod Prelude
pub mod Registry
pub mod Responses
pub mod Resume
pub mod Retries
