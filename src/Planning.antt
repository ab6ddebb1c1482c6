-- ===== src/Planning.antt =====
-- helper/incremental.py: which items a run selects, for which work, and how it reports the schedule.
-- A time is whole microseconds in UTC, a span of days or hours is whole microseconds. Parameters:
-- `lower` is `str.lower`, `local` reads a local time as UTC (`astimezone`), `blank` says whether
-- `strip` leaves nothing, and `digest` is the SHA-256 of the JSON of the counters.
pub mod Time
pub mod Items
pub mod Causes
pub mod Plan
pub mod Schedule
mod Examples
