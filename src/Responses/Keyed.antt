-- ===== src/Responses/Keyed.antt =====
-- No key stands twice in the table or in the committed one, whichever calls fail.
use mathlib.Core.Path.{subst}
use metafusion.Prelude.{
  ◌==◌, if◌then◌else◌, ◌+◌, ◌&&◌, ◌||◌, [], true, false, none, some, zero, suc, Option, Dict,
  String, Bool, ℕ, if_rule, Unique, not, sym, remove, ltb, leb, lookup, remove-Unique,
  insert-Unique, min, is_some,
}
use metafusion.Responses.{
  Cache, handle_database_error, Codec, Fault, Connection, Row, recover, drop_database, with_table,
  is_open, Held, corrupt, table_of, empty_connection, fine, rows, broken,
}
use metafusion.Responses.Counted.{touch_all-totals}
use metafusion.Responses.Evict.{
  delete_expired, trim_loop, trim_database, store_memory, take_oldest, over_limit, is_nil, expired,
  batch_size, unexpired, delete_batch,
}
use metafusion.Responses.Evict.Bounds.{CountedAs, take_oldest-facts, unexpired-Unique}
use metafusion.Responses.Latest.Changes.{store_memory-connection}
use metafusion.Responses.Methods.{
  set, delete_fetched_row, count_miss, count_hit, delete_database, clear_database, Stage, Flushing,
  reject_row, use_value, fetch_row, select_row, fetch_database, after_write, set_database,
  set_encoded, delete_row, with_touches, commit, uncommitted, refresh_totals, reached, flush_all,
  flush_work, fetch_held, write_row, touch_all, fetch, at_touches, fails, touch_interval,
  without_held, first_touches, delete, stays_open, clear, at_trim, vacuum_fails, flush, goes_well,
  at_expiry, at_commit, rolls_back, Deleted, has_work,
}
use metafusion.Responses.Run.{apply, Event, sets, fetches, deletes, clears, flushes}

abbrev pub KeyedAs : Option Connection → Type 0
KeyedAs none = Unit
KeyedAs (some k) = Unique k.table × Unique k.committed.table

abbrev pub Keyed : Cache → Type 0
Keyed c = KeyedAs c.connection

pub Counted-Keyed : (o : Option Connection) (n b : ℕ) → CountedAs o n b → KeyedAs o
Counted-Keyed none n b h = tt
Counted-Keyed (some k) n b (m, saved) = (m.unique, saved.unique)

pub KeyedAs-Unique : (o : Option Connection) → KeyedAs o → Unique (table_of o)
KeyedAs-Unique none h = tt
KeyedAs-Unique (some k) h = h.0

with_table-KeyedAs :
    (t : Dict Row) (o : Option Connection) → Unique t → KeyedAs o → KeyedAs (with_table t o)
with_table-KeyedAs t none u h = tt
with_table-KeyedAs t (some k) u h = (u, h.1)

handle_database_error-Keyed :
    (fault : Fault) (c : Cache) → Keyed c → Keyed (handle_database_error fault c)
unfolding handle_database_error recover drop_database empty_connection
handle_database_error-Keyed fine c h = h
handle_database_error-Keyed broken c h = tt
handle_database_error-Keyed (corrupt reopened) c h = by_mode c.writable reopened
  where
    c' : Cache
    c' = record c { has_error = true; pending_touches = []; dirty = false }

    by_mode : (w r : Bool) → Keyed (if w then recover r c' else drop_database c')
    by_mode true true = (tt, tt)
    by_mode true false = tt
    by_mode false r = tt

store_memory-Keyed :
    (codec : Codec) (key value : String) (now ttl : ℕ) (c : Cache)
    → Keyed c
    → Keyed (store_memory codec key value now ttl c)
store_memory-Keyed codec key value now ttl c h =
    subst KeyedAs (sym (store_memory-connection codec key value now ttl c)) h

removed-Keyed :
    (key : String) (o : Option Connection)
    → KeyedAs o
    → KeyedAs (with_table (remove key (table_of o)) o)
removed-Keyed key o h =
    with_table-KeyedAs (remove key (table_of o)) o
      (remove-Unique key (table_of o) (KeyedAs-Unique o h)) h

pub delete_expired-Keyed : (now : ℕ) (c : Cache) → Keyed c → Keyed (delete_expired now c)
unfolding delete_expired
delete_expired-Keyed now c h =
    if_rule Keyed (is_open c && c.writable && ltb 0 (rows (expired now (table_of c.connection))))
      (λ _.
        with_table-KeyedAs (unexpired now (table_of c.connection)) c.connection
          (unexpired-Unique now (table_of c.connection) (KeyedAs-Unique c.connection h)) h)
      (λ _. h)

oldest_dropped-KeyedAs :
    (tie : String → String → Bool) (n : ℕ) (o : Option Connection)
    → KeyedAs o
    → KeyedAs (with_table (take_oldest tie n (table_of o)).1 o)
oldest_dropped-KeyedAs tie n o h =
    with_table-KeyedAs (take_oldest tie n (table_of o)).1 o
      (take_oldest-facts tie n (table_of o) (KeyedAs-Unique o h)).0 h

trim_loop-Keyed : (n : ℕ) (c : Cache) → Keyed c → Keyed (trim_loop n c)
unfolding trim_loop
trim_loop-Keyed zero c h = h
trim_loop-Keyed (suc n) c h =
    if_rule Keyed (not (over_limit c)) (λ _. h)
      (λ _.
        if_rule Keyed (is_nil (take_oldest c.tie (batch_size c) (table_of c.connection)).0) (λ _. h)
          (λ _.
            trim_loop-Keyed n
              (delete_batch (take_oldest c.tie (batch_size c) (table_of c.connection)) c)
              (oldest_dropped-KeyedAs c.tie (batch_size c) c.connection h)))

trim_database-Keyed : (c : Cache) → Keyed c → Keyed (trim_database c)
unfolding trim_database
trim_database-Keyed c h =
    if_rule Keyed (is_open c && c.writable) (λ _. trim_loop-Keyed _ c h) (λ _. h)

delete_fetched_row-Keyed :
    (fault : Fault) (key : String) (size : ℕ) (c : Cache)
    → Keyed c
    → Keyed (delete_fetched_row fault key size c)
unfolding delete_fetched_row
delete_fetched_row-Keyed fine key size c h = removed-Keyed key c.connection h
delete_fetched_row-Keyed broken key size c h = handle_database_error-Keyed broken c h
delete_fetched_row-Keyed (corrupt x) key size c h = handle_database_error-Keyed (corrupt x) c h

count_miss-Keyed : (stats : Bool) (c : Cache) → Keyed c → Keyed (count_miss stats c)
count_miss-Keyed true c h = h
count_miss-Keyed false c h = h

count_hit-Keyed : (stats : Bool) (c : Cache) → Keyed c → Keyed (count_hit stats c)
count_hit-Keyed true c h = h
count_hit-Keyed false c h = h

reject_row-Keyed :
    (fault : Fault) (stats : Bool) (key : String) (r : Row) (c : Cache)
    → Keyed c
    → Keyed (reject_row fault stats key r c).0
reject_row-Keyed fault stats key r c h =
    count_miss-Keyed stats _ (
      if_rule Keyed c.writable (λ _. delete_fetched_row-Keyed fault key r.stored_bytes c h)
        (λ _. h))

use_value-Keyed :
    (fault : Fault) (stats : Bool) (key : String) (now : ℕ) (r : Row) (v : Option String)
    (c : Cache)
    → Keyed c
    → Keyed (use_value fault stats key now r v c).0
use_value-Keyed fault stats key now r none c h = reject_row-Keyed fault stats key r c h
use_value-Keyed fault stats key now r (some v) c h =
    let hit = count_hit-Keyed stats c h in
    if_rule Keyed
      ((count_hit stats c).writable && leb (r.touched_at + touch_interval (count_hit stats c)) now)
      (λ _. hit) (λ _. hit)

module _ (codec : Codec) where
  fetch_row-Keyed :
      (fault : Fault) (stats : Bool) (key : String) (now : ℕ) (o : Option Row) (c : Cache)
      → Keyed c
      → Keyed (fetch_row codec fault stats key now o c).0
  fetch_row-Keyed fault stats key now none c h = count_miss-Keyed stats c h
  fetch_row-Keyed fault stats key now (some r) c h =
      if_rule (λ (x : Cache × Option String). Keyed x.0) (leb r.expires_at now)
        (λ _. reject_row-Keyed fault stats key r c h)
        (λ _. use_value-Keyed fault stats key now r (codec.decode r.response) c h)

  select_row-Keyed :
      (error fault : Fault) (stats : Bool) (key : String) (now : ℕ) (c : Cache)
      → Keyed c
      → Keyed (select_row codec error fault stats key now c).0
  select_row-Keyed fine fault stats key now c h =
      fetch_row-Keyed fault stats key now (lookup key (table_of c.connection)) c h
  select_row-Keyed broken fault stats key now c h =
      count_miss-Keyed stats _ (handle_database_error-Keyed broken c h)
  select_row-Keyed (corrupt x) fault stats key now c h =
      count_miss-Keyed stats _ (handle_database_error-Keyed (corrupt x) c h)

  fetch_database-Keyed :
      (error fault : Fault) (stats : Bool) (key : String) (now : ℕ) (c : Cache)
      → Keyed c
      → Keyed (fetch_database codec error fault stats key now c).0
  fetch_database-Keyed error fault stats key now c h =
      if_rule (λ (x : Cache × Option String). Keyed x.0) (not (is_open c) || c.ignore_database)
        (λ _. count_miss-Keyed stats c h) (λ _. select_row-Keyed error fault stats key now c h)

  fetch_held-Keyed :
      (error fault : Fault) (stats : Bool) (key : String) (now : ℕ) (o : Option Held) (c : Cache)
      → Keyed c
      → Keyed (fetch_held codec error fault stats key now o c).0
  fetch_held-Keyed error fault stats key now none c h =
      fetch_database-Keyed error fault stats key now c h
  fetch_held-Keyed error fault stats key now (some held') c h =
      if_rule (λ (x : Cache × Option String). Keyed x.0) (leb held'.expires_at now)
        (λ _. fetch_database-Keyed error fault stats key now (without_held key c) h)
        (λ _. count_hit-Keyed stats c h)

  after_write-Keyed :
      (fault : Fault) (key value : String) (now ttl : ℕ) (c : Cache)
      → Keyed c
      → Keyed (after_write codec fault key value now ttl c)
  after_write-Keyed fine key value now ttl c h = trim_database-Keyed c h
  after_write-Keyed broken key value now ttl c h =
      store_memory-Keyed codec key value now ttl _ (handle_database_error-Keyed broken c h)
  after_write-Keyed (corrupt x) key value now ttl c h =
      store_memory-Keyed codec key value now ttl _ (handle_database_error-Keyed (corrupt x) c h)

  set_database-Keyed :
      (error fault : Fault) (key value payload : String) (now ttl : ℕ) (c : Cache)
      → Keyed c
      → Keyed (set_database codec error fault key value payload now ttl c)
  set_database-Keyed fine fault key value payload now ttl c h =
      after_write-Keyed fault key value now ttl (write_row codec key payload now ttl c) (
        with_table-KeyedAs _ c.connection
          (insert-Unique key _ (table_of c.connection) (KeyedAs-Unique c.connection h)) h)
  set_database-Keyed broken fault key value payload now ttl c h =
      store_memory-Keyed codec key value now ttl _ (handle_database_error-Keyed broken c h)
  set_database-Keyed (corrupt x) fault key value payload now ttl c h =
      store_memory-Keyed codec key value now ttl _ (handle_database_error-Keyed (corrupt x) c h)

  set_encoded-Keyed :
      (error fault : Fault) (key value : String) (payload : Option String) (now ttl : ℕ) (c : Cache)
      → Keyed c
      → Keyed (set_encoded codec error fault key value payload now ttl c)
  set_encoded-Keyed error fault key value none now ttl c h = h
  set_encoded-Keyed error fault key value (some payload) now ttl c h =
      if_rule Keyed (not (is_open c) || not c.writable)
        (λ _. store_memory-Keyed codec key value now ttl c h)
        (λ _. set_database-Keyed error fault key value payload now ttl c h)

  delete_database-Keyed :
      (fault : Fault) (key : String) (c : Cache)
      → Keyed c
      → Keyed (delete_database codec fault key c).0
  delete_database-Keyed fine key c h = by_row (lookup key (table_of c.connection))
    where
      by_row : (o : Option Row) → Keyed (delete_row codec key o c).0
      by_row none = h
      by_row (some r) = removed-Keyed key c.connection h
  delete_database-Keyed broken key c h = h
  delete_database-Keyed (corrupt x) key c h = h

  clear_database-Keyed :
      (fault : Fault) (c : Cache) → Keyed c → Keyed (clear_database codec fault c)
  clear_database-Keyed fine c h = with_table-KeyedAs [] c.connection tt h
  clear_database-Keyed broken c h = handle_database_error-Keyed broken c h
  clear_database-Keyed (corrupt x) c h = handle_database_error-Keyed (corrupt x) c h

  pub touched-Keyed :
      (touches : Dict ℕ) (c : Cache) → Keyed c → Keyed (with_touches codec touches c)
  touched-Keyed touches c h =
      with_table-KeyedAs (touch_all codec touches (table_of c.connection)) c.connection
        (touch_all-totals codec touches (table_of c.connection) (KeyedAs-Unique c.connection h)).0 h

  commit-KeyedAs : (c : Cache) (o : Option Connection) → KeyedAs o → KeyedAs (commit codec c o)
  commit-KeyedAs c none h = tt
  commit-KeyedAs c (some k) h = (h.0, h.0)

  uncommitted-KeyedAs : (o : Option Connection) → KeyedAs o → KeyedAs (uncommitted codec o)
  uncommitted-KeyedAs none h = tt
  uncommitted-KeyedAs (some k) h = (h.1, h.1)

  refresh_totals-Keyed :
      (fault : Fault) (totals : ℕ × ℕ) (c : Cache)
      → Keyed c
      → Keyed (refresh_totals codec fault totals c)
  refresh_totals-Keyed fine totals c h = h
  refresh_totals-Keyed broken totals c h = handle_database_error-Keyed broken c h
  refresh_totals-Keyed (corrupt x) totals c h = handle_database_error-Keyed (corrupt x) c h

  reached-Keyed :
      (stage : Stage) (now : ℕ) (c : Cache) → Keyed c → Keyed (reached codec stage now c)
  reached-Keyed (at_touches n) now c h = touched-Keyed (first_touches n c.pending_touches) c h
  reached-Keyed at_expiry now c h = touched-Keyed c.pending_touches c h
  reached-Keyed (at_trim n m) now c h =
      let r = trim_loop n (delete_expired now (with_touches codec c.pending_touches c)) in
      let keyed : Keyed r =
        trim_loop-Keyed n _ (delete_expired-Keyed now _ (touched-Keyed c.pending_touches c h)) in
      if_rule Keyed (over_limit r)
        (λ _. oldest_dropped-KeyedAs r.tie (min m (batch_size r)) r.connection keyed) (λ _. keyed)
  reached-Keyed at_commit now c h =
      trim_database-Keyed _ (delete_expired-Keyed now _ (touched-Keyed c.pending_touches c h))

  flush_all-Keyed : (now : ℕ) (c : Cache) → Keyed c → Keyed (flush_all codec now c)
  flush_all-Keyed now c h =
      commit-KeyedAs (trim_database (delete_expired now (with_touches codec c.pending_touches c))) _
        (trim_database-Keyed _ (delete_expired-Keyed now _ (touched-Keyed c.pending_touches c h)))

  flush_work-Keyed :
      (way : Flushing) (now : ℕ) (c : Cache) → Keyed c → Keyed (flush_work codec way now c).0
  flush_work-Keyed goes_well now c h = flush_all-Keyed now c h
  flush_work-Keyed (fails stage rolls_back fault) now c h =
      refresh_totals-Keyed fault _ _ (uncommitted-KeyedAs c.connection h)
  flush_work-Keyed (fails stage (stays_open n b) fault) now c h =
      refresh_totals-Keyed fault _ _ (reached-Keyed stage now c h)
  flush_work-Keyed (vacuum_fails fault) now c h =
      if_rule (λ (x : Cache × Bool). Keyed x.0) ((flush_all codec now c).evictions == 0)
        (λ _. flush_all-Keyed now c h)
        (λ _. refresh_totals-Keyed fault _ _ (flush_all-Keyed now c h))

  pub apply-Keyed : (event : Event) (c : Cache) → Keyed c → Keyed (apply codec event c)
  unfolding apply set fetch delete clear flush
  apply-Keyed (sets error fault key value ttl now) c h =
      if_rule Keyed (not c.enabled) (λ _. h)
        (λ _. set_encoded-Keyed error fault key value (codec.encode value) now _ c h)
  apply-Keyed (fetches error fault stats key now) c h =
      fetch_held-Keyed error fault stats key now (lookup key c.memory) c h
  apply-Keyed (deletes error key) c h =
      if_rule (λ (x : Cache × Deleted). Keyed x.0) (is_some (lookup key c.memory)) (λ _. h)
        (λ _.
          if_rule (λ (x : Cache × Deleted). Keyed x.0) (not (is_open c) || not c.writable) (λ _. h)
            (λ _. delete_database-Keyed error key c h))
  apply-Keyed (clears fault) c h =
      if_rule Keyed (not (is_open c)) (λ _. h)
        (λ _.
          if_rule Keyed (not c.writable) (λ _. h)
            (λ _.
              if_rule Keyed (ltb 0 c.entry_count)
                (λ _. clear_database-Keyed fault (record c { memory = []; pending_touches = [] }) h)
                (λ _. h)))
  apply-Keyed (flushes way now) c h =
      if_rule (λ (x : Cache × Bool). Keyed x.0)
        (not c.enabled || not c.writable || not (is_open c) || not (has_work codec c)) (λ _. h)
        (λ _. flush_work-Keyed way now c h)
