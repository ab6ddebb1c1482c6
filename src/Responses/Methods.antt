-- ===== src/Responses/Methods.antt =====
-- The methods of `PersistentTTLCache`: `_effective_limits`, `configure`, `_fetch`, `get`,
-- `__contains__`, `set`, `__delitem__`, `clear`, `flush`. A fault is the way that the
-- calls of the database in one method go: where they do not go well, the first of them fails.
use metafusion.Prelude.{
  if◌then◌else◌, ◌==◌, ◌+◌, ◌-◌, ◌*◌, ◌/◌, ◌&&◌, ◌||◌, ◌∷◌, [], ℕ, Option, Bool, String, max, some,
  not, remove, lookup, false, is_some, Dict, any, min, none, true, leb, insert, part, ltb, zero,
  suc,
}
use metafusion.Responses.{
  Committed, Cache, Fault, Codec, with_table, Row, Held, table_of, Connection, second, is_open,
  handle_database_error, fine, corrupt, recover, broken,
}
use metafusion.Responses.Evict.{
  trim_database, store_memory, delete_expired, trim_loop, over_limit, take_oldest, batch_size,
}

abbrev mebibyte : ℕ
mebibyte = 1048576

-- `configured or automatic`
abbrev or_default : ℕ → ℕ → ℕ
or_default n d = if n == 0 then d else n

-- `_effective_limits`, by the bytes that are free on the disk (`none`: unknown). A fiftieth of them
-- is 2 %.
unfoldable pub effective_limits : Option ℕ → ℕ → ℕ → ℕ × ℕ
effective_limits free entries bytes_limit =
    let automatic = min (1024 * mebibyte) (max (64 * mebibyte) (free_or free / 50)) in
    let limit = or_default bytes_limit automatic in
    (or_default entries (max 5000 (min 100000 (limit / 32768))), limit)
  where
    free_or : Option ℕ → ℕ
    free_or none = 4 * 1024 * mebibyte
    free_or (some n) = n

-- What `_open_database` comes to: no file to read, a database, or an error.
pub data Opening : Type 0 where
  no_file : Opening
  opened : Committed → Opening
  failed : Fault → Opening

-- The arguments of `configure`, after `max(0, …)`; `ttl` in microseconds. `tie` is how the database
-- orders equally old rows.
pub record Settings : Type 0 where
  pub ttl : ℕ
  pub max_entries : ℕ
  pub max_bytes : ℕ
  pub is_enabled : Bool
  pub is_writable : Bool
  pub tie : String → String → Bool

-- `reset_memory`, and the settings.
unfoldable pub configured : Settings → Option ℕ → Cache
unfolding effective_limits
configured o free =
    let (entries, limit) = effective_limits free o.max_entries o.max_bytes in
    record {
      ttl = max second o.ttl;
      max_entries = entries;
      max_bytes = limit;
      enabled = o.is_enabled;
      writable = o.is_writable;
      connection = none;
      memory = [];
      pending_touches = [];
      ignore_database = false;
      entry_count = 0;
      stored_bytes = 0;
      dirty = false;
      hits = 0;
      misses = 0;
      evictions = 0;
      recoveries = 0;
      has_error = false;
      tie = o.tie;
    }

-- `_open_database` and the `except` clauses around it.
abbrev pub open_with : Opening → Cache → Cache
open_with no_file c = c
open_with (opened k) c = record c {
  connection = some (record { table = k.table; committed = k });
  entry_count = k.entry_count;
  stored_bytes = k.stored_bytes;
}
open_with (failed fine) c = c
open_with (failed broken) c = record c { connection = none; has_error = true }
open_with (failed (corrupt reopened)) c =
    let c' : Cache = record c { has_error = true } in
    if c.writable then recover reopened c' else record c' { connection = none }

-- The maintenance at the end of `configure`.
abbrev pub settle : Fault → ℕ → Cache → Cache
settle fine now c = trim_database (delete_expired now c)
settle fault now c = handle_database_error fault c

-- `configure`
unfoldable pub configure : Settings → Option ℕ → Opening → Fault → ℕ → Cache
unfolding configured
configure o free opening fault now =
    let c = configured o free in
    let c' = open_with opening c in
    if not o.is_enabled then c else if is_open c' && c'.writable then settle fault now c' else c'

abbrev pub count_miss : Bool → Cache → Cache
count_miss stats c = if stats then record c { misses = c.misses + 1 } else c

abbrev pub count_hit : Bool → Cache → Cache
count_hit stats c = if stats then record c { hits = c.hits + 1 } else c

-- `_delete_fetched_row`
unfoldable pub delete_fetched_row : Fault → String → ℕ → Cache → Cache
delete_fetched_row fine key size c = record c {
  connection = with_table (remove key (table_of c.connection)) c.connection;
  entry_count = c.entry_count - 1;
  stored_bytes = c.stored_bytes - size;
  dirty = true;
}
delete_fetched_row fault key size c = handle_database_error fault c

-- The end of a fetch that finds a row it cannot use.
abbrev pub reject_row : Fault → Bool → String → Row → Cache → Cache × Option String
reject_row fault stats key r c = (
  count_miss stats (if c.writable then delete_fetched_row fault key r.stored_bytes c else c),
  none,
)

-- `max(60.0, min(3600.0, self.ttl_seconds / 4))`
abbrev pub touch_interval : Cache → ℕ
touch_interval c = max (60 * second) (min (3600 * second) (c.ttl / 4))

abbrev pub touch_row : String → Row → ℕ → Cache → Cache
touch_row key r now c =
    if c.writable && leb (r.touched_at + touch_interval c) now
    then record c { pending_touches = insert key now c.pending_touches }
    else c

abbrev pub use_value :
    Fault → Bool → String → ℕ → Row → Option String → Cache → Cache × Option String
use_value fault stats key now r none c = reject_row fault stats key r c
use_value fault stats key now r (some v) c = (touch_row key r now (count_hit stats c), some v)

abbrev pub without_held : String → Cache → Cache
without_held key c = record c { memory = remove key c.memory }

abbrev pub touch_held : String → Held → ℕ → Cache → Cache
touch_held key h now c = record c { memory = insert key (record h { touched_at = now }) c.memory }

-- The effective time to live of `set`.
abbrev pub effective_ttl : Option ℕ → Cache → ℕ
effective_ttl none c = c.ttl
effective_ttl (some t) c = max second (min c.ttl t)

-- What a call of `__delitem__` comes to: it deletes, raises a `KeyError`, or lets an error of the
-- database through.
pub data Deleted : Type 0 where
  deleted missing raised : Deleted

-- The call of a flush that fails before its commit is done: the touches, after so many of them; the
-- deletion of what has expired; the trim, or the writing of the totals, after so many batches
-- and, of the next, so many rows; the commit.
pub data Stage : Type 0 where
  at_touches : ℕ → Stage
  at_trim : ℕ → ℕ → Stage
  at_expiry at_commit : Stage

-- How the rollback goes: well, or with an error, which is ignored; then the transaction stays open,
-- and its row of totals reads as is given.
pub data Undo : Type 0 where
  rolls_back : Undo
  stays_open : ℕ → ℕ → Undo

-- How the calls of a flush go: well; with an error before the commit is done; or with an error of the
-- vacuum after it. After an error the reading of the totals goes as the fault says.
pub data Flushing : Type 0 where
  goes_well : Flushing
  fails : Stage → Undo → Fault → Flushing
  vacuum_fails : Fault → Flushing

abbrev pub first_touches : ℕ → Dict ℕ → Dict ℕ
first_touches zero touches = []
first_touches (suc n) [] = []
first_touches (suc n) (e ∷ touches) = e ∷ first_touches n touches

module _ (codec : Codec) where
  abbrev pub fetch_row : Fault → Bool → String → ℕ → Option Row → Cache → Cache × Option String
  fetch_row fault stats key now none c = (count_miss stats c, none)
  fetch_row fault stats key now (some r) c =
      if leb r.expires_at now
      then reject_row fault stats key r c
      else use_value fault stats key now r (codec.decode r.response) c

  abbrev pub select_row : Fault → Fault → Bool → String → ℕ → Cache → Cache × Option String
  select_row fine fault stats key now c =
      fetch_row fault stats key now (lookup key (table_of c.connection)) c
  select_row error fault stats key now c = (count_miss stats (handle_database_error error c), none)

  -- The part of `_fetch` that asks the database.
  abbrev pub fetch_database : Fault → Fault → Bool → String → ℕ → Cache → Cache × Option String
  fetch_database error fault stats key now c =
      if not (is_open c) || c.ignore_database
      then (count_miss stats c, none)
      else select_row error fault stats key now c

  abbrev pub fetch_held :
      Fault → Fault → Bool → String → ℕ → Option Held → Cache → Cache × Option String
  fetch_held error fault stats key now none c = fetch_database error fault stats key now c
  fetch_held error fault stats key now (some h) c =
      if leb h.expires_at now
      then fetch_database error fault stats key now (without_held key c)
      else (touch_held key h now (count_hit stats c), some h.value)

  -- `_fetch`, with `none` for a `KeyError`, and so `get`.
  unfoldable pub fetch : Fault → Fault → Bool → String → ℕ → Cache → Cache × Option String
  fetch error fault stats key now c = fetch_held error fault stats key now (lookup key c.memory) c

  -- `__contains__`
  unfoldable pub contains : Fault → Fault → String → ℕ → Cache → Cache × Bool
  contains error fault key now c =
      let (c', found) = fetch error fault false key now c in
      if is_some found then (c', true) else (record c' { misses = c'.misses + 1 }, false)

  -- The statement that writes the row of a key, and the totals after it.
  abbrev pub write_row : String → String → ℕ → ℕ → Cache → Cache
  write_row key payload now ttl c =
      let t = table_of c.connection in
      record c {
        connection =
            with_table
              (insert key
                (record {
                  response = payload;
                  expires_at = now + ttl;
                  touched_at = now;
                  stored_bytes = codec.size payload;
                })
                t)
              c.connection;
        entry_count = if is_some (lookup key t) then c.entry_count else c.entry_count + 1;
        stored_bytes =
            c.stored_bytes - part (λ (r : Row). r.stored_bytes) (lookup key t) + codec.size payload;
        pending_touches = remove key c.pending_touches;
        dirty = true;
      }

  abbrev pub after_write : Fault → String → String → ℕ → ℕ → Cache → Cache
  after_write fine key value now ttl c = trim_database c
  after_write fault key value now ttl c =
      store_memory codec key value now ttl (handle_database_error fault c)

  abbrev pub set_database : Fault → Fault → String → String → String → ℕ → ℕ → Cache → Cache
  set_database fine fault key value payload now ttl c =
      after_write fault key value now ttl (write_row key payload now ttl c)
  set_database error fault key value payload now ttl c =
      store_memory codec key value now ttl (handle_database_error error c)

  abbrev pub set_encoded : Fault → Fault → String → String → Option String → ℕ → ℕ → Cache → Cache
  set_encoded error fault key value none now ttl c = c
  set_encoded error fault key value (some payload) now ttl c =
      if not (is_open c) || not c.writable
      then store_memory codec key value now ttl c
      else set_database error fault key value payload now ttl c

  -- `set`: the calls up to the write go as `error` says, and those of the trim as `fault` says.
  unfoldable pub set : Fault → Fault → String → String → Option ℕ → ℕ → Cache → Cache
  set error fault key value ttl now c =
      if not c.enabled
      then c
      else set_encoded error fault key value (codec.encode value) now (effective_ttl ttl c) c

  abbrev pub delete_row : String → Option Row → Cache → Cache × Deleted
  delete_row key none c = (c, missing)
  delete_row key (some r) c = (
    record c {
      connection = with_table (remove key (table_of c.connection)) c.connection;
      entry_count = c.entry_count - 1;
      stored_bytes = c.stored_bytes - r.stored_bytes;
      pending_touches = remove key c.pending_touches;
      dirty = true;
    },
    deleted,
  )

  abbrev pub delete_database : Fault → String → Cache → Cache × Deleted
  delete_database fine key c = delete_row key (lookup key (table_of c.connection)) c
  delete_database error key c = (c, raised)

  -- `__delitem__`. An error of the database changes nothing, and is not caught.
  unfoldable pub delete : Fault → String → Cache → Cache × Deleted
  delete error key c =
      if is_some (lookup key c.memory)
      then (without_held key c, deleted)
      else if not (is_open c) || not c.writable
      then (c, missing)
      else delete_database error key c

  abbrev pub clear_database : Fault → Cache → Cache
  clear_database fine c = record c {
    connection = with_table [] c.connection;
    entry_count = 0;
    stored_bytes = 0;
    dirty = true;
  }
  clear_database fault c = handle_database_error fault c

  -- `clear`
  unfoldable pub clear : Fault → Cache → Cache
  clear fault c =
      let c' : Cache = record c { memory = []; pending_touches = [] } in
      if not (is_open c)
      then c'
      else if not c.writable
      then record c' { ignore_database = true }
      else if ltb 0 c.entry_count
      then clear_database fault c'
      else c'

  abbrev pub touch_at : String → ℕ → Option Row → Dict Row → Dict Row
  touch_at k at none t = t
  touch_at k at (some r) t = insert k (record r { touched_at = at }) t

  -- The UPDATE of `touched_at` of the pending keys.
  abbrev pub touch_all : Dict ℕ → Dict Row → Dict Row
  touch_all [] t = t
  touch_all ((k, at) ∷ touches) t = touch_all touches (touch_at k at (lookup k t) t)

  abbrev pub commit : Cache → Option Connection → Option Connection
  commit c none = none
  commit c (some k) = some (record {
    table = k.table;
    committed = record {
      table = k.table;
      entry_count = c.entry_count;
      stored_bytes = c.stored_bytes;
    };
  })

  -- What a rollback leaves of the database.
  abbrev pub uncommitted : Option Connection → Option Connection
  uncommitted none = none
  uncommitted (some k) = some (record k { table = k.committed.table })

  abbrev pub committed_totals : Option Connection → ℕ × ℕ
  committed_totals none = (0, 0)
  committed_totals (some k) = (k.committed.entry_count, k.committed.stored_bytes)

  -- `_refresh_totals`, by what it reads, and the `except` clause around it.
  abbrev pub refresh_totals : Fault → ℕ × ℕ → Cache → Cache
  refresh_totals fine totals c = record c { entry_count = totals.0; stored_bytes = totals.1 }
  refresh_totals error totals c = handle_database_error error c

  abbrev pub has_work : Cache → Bool
  has_work c = c.dirty || any (λ (e : String × ℕ). true) c.pending_touches

  abbrev pub with_touches : Dict ℕ → Cache → Cache
  with_touches touches c = record c {
    connection = with_table (touch_all touches (table_of c.connection)) c.connection;
    pending_touches = [];
  }

  -- Where the flush is when its call fails.
  abbrev pub reached : Stage → ℕ → Cache → Cache
  reached (at_touches n) now c = with_touches (first_touches n c.pending_touches) c
  reached at_expiry now c = with_touches c.pending_touches c
  reached (at_trim n m) now c =
      let r = trim_loop n (delete_expired now (with_touches c.pending_touches c)) in
      if over_limit r
      then record r {
        connection =
            with_table (take_oldest r.tie (min m (batch_size r)) (table_of r.connection)).1
              r.connection;
      }
      else r
  reached at_commit now c = trim_database (delete_expired now (with_touches c.pending_touches c))

  -- The rollback of a flush of `c` that got as far as `r`, and the reading of the totals after it.
  abbrev pub roll_back : Undo → Fault → Cache → Cache → Cache
  roll_back rolls_back fault c r = refresh_totals fault (committed_totals c.connection) (record c {
    connection = uncommitted c.connection;
    entry_count = r.entry_count;
    stored_bytes = r.stored_bytes;
    evictions = r.evictions;
    has_error = true;
    pending_touches = [];
    dirty = false;
  })
  roll_back (stays_open n b) fault c r =
      refresh_totals fault (n, b)
        (record r { has_error = true; pending_touches = []; dirty = false })

  -- The calls up to the commit.
  abbrev pub flush_all : ℕ → Cache → Cache
  flush_all now c =
      let trimmed = trim_database (delete_expired now (with_touches c.pending_touches c)) in
      record trimmed { connection = commit trimmed trimmed.connection; dirty = false }

  abbrev pub flush_work : Flushing → ℕ → Cache → Cache × Bool
  flush_work goes_well now c = (flush_all now c, true)
  flush_work (fails stage undo fault) now c = (roll_back undo fault c (reached stage now c), false)
  flush_work (vacuum_fails fault) now c =
      let done = flush_all now c in
      if done.evictions == 0 then (done, true) else (
        refresh_totals fault (done.entry_count, done.stored_bytes)
            (record done { has_error = true; pending_touches = [] }),
        false,
      )

  -- `flush`. The vacuum is called only where something was evicted, after the commit, so that the
  -- rollback then finds nothing to undo.
  unfoldable pub flush : Flushing → ℕ → Cache → Cache × Bool
  flush way now c =
      if not c.enabled || not c.writable || not (is_open c) || not (has_work c)
      then (c, false)
      else flush_work way now c
