-- ===== src/Responses/Trips/Memory.antt =====
-- The limits of what the cache holds in memory.
use metafusion.Prelude.{Option}
