-- ===== src/Responses.antt =====
-- `PersistentTTLCache` of helper/tmdb_cache.py: the data, the errors of the database, and what the
-- methods share. A time is whole microseconds.
pub mod Evict
pub mod Methods
pub mod Run
pub mod Counted
pub mod Keyed
pub mod Sound
pub mod History
pub mod Trips
pub mod Latest
mod Examples
use metafusion.Prelude.{
  if◌then◌else◌, ◌+◌, [], String, Dict, ℕ, Bool, none, true, Option, some, false, is_some, total,
}

-- `_encode` and `_decode` (JSON and zlib), which raise where they give `none`, and `len` of an
-- encoded value.
pub record Codec : Type 0 where
  pub encode : String → Option String
  pub decode : String → Option String
  pub size : String → ℕ

-- A row of the table `tmdb_cache`.
pub record Row : Type 0 where
  pub response : String
  pub expires_at : ℕ
  pub touched_at : ℕ
  pub stored_bytes : ℕ

-- A value in memory, with what `_memory_expires` and `_memory_touched` hold at its key.
pub record Held : Type 0 where
  pub value : String
  pub expires_at : ℕ
  pub touched_at : ℕ

-- The last commit: the table, and the row of `tmdb_cache_meta`.
pub record Committed : Type 0 where
  pub table : Dict Row
  pub entry_count : ℕ
  pub stored_bytes : ℕ

-- An open database: the table as the open transaction sees it, and the last commit.
pub record Connection : Type 0 where
  pub table : Dict Row
  pub committed : Committed

-- `tie` is not a state of the cache: of two rows that are equally old, whether a query gives the one
-- with the first key before the other.
pub record Cache : Type 0 where
  pub ttl : ℕ
  pub max_entries : ℕ
  pub max_bytes : ℕ
  pub enabled : Bool
  pub writable : Bool
  pub connection : Option Connection
  pub memory : Dict Held
  pub pending_touches : Dict ℕ
  pub ignore_database : Bool
  pub entry_count : ℕ
  pub stored_bytes : ℕ
  pub dirty : Bool
  pub hits : ℕ
  pub misses : ℕ
  pub evictions : ℕ
  pub recoveries : ℕ
  pub has_error : Bool
  pub tie : String → String → Bool

-- How a call of the database goes: well, with an error, or with an error of a corrupt file, for
-- which it says whether a new database could be opened in its place.
pub data Fault : Type 0 where
  fine broken : Fault
  corrupt : Bool → Fault

-- The calls go well.
abbrev pub Fine : Fault → Type 0
Fine fine = Unit
Fine broken = ⊥
Fine (corrupt x) = ⊥

abbrev pub second : ℕ
second = 1000000

unfoldable pub empty_connection : Connection
empty_connection = record {
  table = [];
  committed = record { table = []; entry_count = 0; stored_bytes = 0 };
}

-- `_recover_database`
unfoldable pub recover : Bool → Cache → Cache
unfolding empty_connection
recover false c = record c { connection = none }
recover true c = record c {
  connection = some empty_connection;
  entry_count = 0;
  stored_bytes = 0;
  recoveries = c.recoveries + 1;
}

-- `_close_database`, and the totals after it.
unfoldable pub drop_database : Cache → Cache
drop_database c = record c { connection = none; entry_count = 0; stored_bytes = 0 }

-- `_handle_database_error`
unfoldable pub handle_database_error : Fault → Cache → Cache
unfolding recover drop_database
handle_database_error fine c = c
handle_database_error broken c =
    drop_database (record c { has_error = true; pending_touches = []; dirty = false })
handle_database_error (corrupt reopened) c =
    let c' : Cache = record c { has_error = true; pending_touches = []; dirty = false } in
    if c.writable then recover reopened c' else drop_database c'

-- The cache with another table in its database.
abbrev pub with_table : Dict Row → Option Connection → Option Connection
with_table t none = none
with_table t (some k) = some (record k { table = t })

abbrev pub table_of : Option Connection → Dict Row
table_of none = []
table_of (some k) = k.table

abbrev pub is_open : Cache → Bool
is_open c = is_some c.connection

abbrev pub bytes : Dict Row → ℕ
bytes t = total (λ (r : Row). r.stored_bytes) t

abbrev pub rows : Dict Row → ℕ
rows t = total (λ (r : Row). 1) t
