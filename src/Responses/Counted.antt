-- ===== src/Responses/Counted.antt =====
-- The totals that the cache keeps are right.
use metafusion.Prelude.{
  if◌then◌else◌, ◌+◌, ◌-◌, ◌≡◌, ◌&&◌, ◌||◌, refl, [], Option, Bool, ℕ, String, lookup, suc, true,
  if_rule, some, false, not, leb, none, remove, zero, remove-Unique, arith, total-remove, ap, part,
  ◌≤◌, ◌∷◌, insert, Dict, is_some, Unique, insert-Unique, total-insert, ◌∙◌, part-le-total, sym,
  List, ltb, ◌==◌,
}
use metafusion.Responses.{
  handle_database_error, Fault, Codec, recover, Connection, Cache, drop_database, Row, Held,
  corrupt, table_of, fine, with_table, is_open, broken, rows, bytes, Fine,
}
use metafusion.Responses.Evict.{
  trim_memory_loop, store_memory, trim_memory, evict_held, over_memory, oldest_held, trim_database,
  delete_expired,
}
use metafusion.Responses.Evict.Bounds.{
  Counted, CountedAs, Matches, trim_database-Counted, delete_expired-Counted,
}
use metafusion.Responses.Methods.{
  delete_fetched_row, count_miss, count_hit, select_row, fetch_database, fetch_held, reject_row,
  use_value, fetch_row, touch_interval, without_held, after_write, set_database, set_encoded,
  delete_row, clear_database, write_row, touch_all, touch_at, commit, flush_work, fetch, set,
  delete, clear, flush, has_work, uncommitted, refresh_totals, flush_all, Flushing,
  committed_totals, with_touches, delete_database, fails, Deleted, stays_open, vacuum_fails,
  goes_well, rolls_back,
}
use metafusion.Responses.Run.{
  apply, run, Event, sets, fetches, deletes, clears, flushes, RollsBack, AllRollBack,
}

-- An error leaves an empty database or none.
failed_error-Counted :
    (fault : Fault) (c : Cache) → (Fine fault → ⊥) → Counted (handle_database_error fault c)
unfolding handle_database_error recover drop_database
failed_error-Counted fine c bad = absurd (bad tt)
failed_error-Counted broken c bad = tt
failed_error-Counted (corrupt reopened) c bad = by_mode c.writable reopened
  where
    c' : Cache
    c' = record c { has_error = true; pending_touches = []; dirty = false }

    by_mode : (w r : Bool) → Counted (if w then recover r c' else drop_database c')
    by_mode true true = empty
      where
        nothing : Matches [] 0 0
        nothing = record { unique = tt; count = refl; size = refl }

        empty : Counted (recover true c')
        empty = (nothing, nothing)
    by_mode true false = tt
    by_mode false r = tt

handle_database_error-Counted :
    (fault : Fault) (c : Cache) → Counted c → Counted (handle_database_error fault c)
handle_database_error-Counted fine c h = unfold handle_database_error in h
handle_database_error-Counted broken c h = failed_error-Counted broken c (λ f. f)
handle_database_error-Counted (corrupt x) c h = failed_error-Counted (corrupt x) c (λ f. f)

trim_memory_loop-Counted :
    (codec : Codec) (n : ℕ) (c : Cache) → Counted c → Counted (trim_memory_loop codec n c)
unfolding trim_memory_loop
trim_memory_loop-Counted codec zero c h = h
trim_memory_loop-Counted codec (suc n) c h =
    if_rule Counted (over_memory codec c)
      (λ _. trim_memory_loop-Counted codec n _ (evicted (oldest_held codec c.memory))) (λ _. h)
  where
    evicted : (o : Option (String × Held)) → Counted (evict_held codec o c)
    evicted none = h
    evicted (some e) = h

store_memory-Counted :
    (codec : Codec) (key value : String) (now ttl : ℕ) (c : Cache)
    → Counted c
    → Counted (store_memory codec key value now ttl c)
unfolding store_memory trim_memory
store_memory-Counted codec key value now ttl c h = trim_memory_loop-Counted codec _ _ h

-- A row taken from the table, and from the totals.
removed-CountedAs :
    (o : Option Connection) (key : String) (r : Row) (n b : ℕ)
    → lookup key (table_of o) ≡ some r
    → CountedAs o n b
    → CountedAs (with_table (remove key (table_of o)) o) (n - 1) (b - r.stored_bytes)
removed-CountedAs none key r n b found h = tt
removed-CountedAs (some k) key r n b found (m, saved) = (
  record {
    unique = remove-Unique key k.table m.unique;
    count = omega (
      arith,
      m.count,
      total-remove (λ r. 1) key k.table m.unique,
      ap (part (λ (r : Row). 1)) found,
    );
    size = omega (
      arith,
      m.size,
      total-remove (λ r. r.stored_bytes) key k.table m.unique,
      ap (part (λ (r : Row). r.stored_bytes)) found,
    );
  },
  saved,
)

delete_fetched_row-Counted :
    (fault : Fault) (key : String) (r : Row) (c : Cache)
    → lookup key (table_of c.connection) ≡ some r
    → Counted c
    → Counted (delete_fetched_row fault key r.stored_bytes c)
unfolding delete_fetched_row
delete_fetched_row-Counted fine key r c found h =
    removed-CountedAs c.connection key r c.entry_count c.stored_bytes found h
delete_fetched_row-Counted broken key r c found h = handle_database_error-Counted broken c h
delete_fetched_row-Counted (corrupt x) key r c found h =
    handle_database_error-Counted (corrupt x) c h

count_miss-Counted : (stats : Bool) (c : Cache) → Counted c → Counted (count_miss stats c)
count_miss-Counted true c h = h
count_miss-Counted false c h = h

count_hit-Counted : (stats : Bool) (c : Cache) → Counted c → Counted (count_hit stats c)
count_hit-Counted true c h = h
count_hit-Counted false c h = h

reject_row-Counted :
    (fault : Fault) (stats : Bool) (key : String) (r : Row) (c : Cache)
    → lookup key (table_of c.connection) ≡ some r
    → Counted c
    → Counted (reject_row fault stats key r c).0
reject_row-Counted fault stats key r c found h =
    count_miss-Counted stats _
      (if_rule Counted c.writable (λ _. delete_fetched_row-Counted fault key r c found h) (λ _. h))

use_value-Counted :
    (fault : Fault) (stats : Bool) (key : String) (now : ℕ) (r : Row) (v : Option String)
    (c : Cache)
    → lookup key (table_of c.connection) ≡ some r
    → Counted c
    → Counted (use_value fault stats key now r v c).0
use_value-Counted fault stats key now r none c found h =
    reject_row-Counted fault stats key r c found h
use_value-Counted fault stats key now r (some v) c found h =
    let hit = count_hit-Counted stats c h in
    if_rule Counted
      ((count_hit stats c).writable && leb (r.touched_at + touch_interval (count_hit stats c)) now)
      (λ _. hit) (λ _. hit)

fetch_row-Counted :
    (codec : Codec) (fault : Fault) (stats : Bool) (key : String) (now : ℕ) (o : Option Row)
    (c : Cache)
    → lookup key (table_of c.connection) ≡ o
    → Counted c
    → Counted (fetch_row codec fault stats key now o c).0
fetch_row-Counted codec fault stats key now none c found h = count_miss-Counted stats c h
fetch_row-Counted codec fault stats key now (some r) c found h =
    if_rule (λ (x : Cache × Option String). Counted x.0) (leb r.expires_at now)
      (λ _. reject_row-Counted fault stats key r c found h)
      (λ _. use_value-Counted fault stats key now r (codec.decode r.response) c found h)

select_row-Counted :
    (codec : Codec) (error fault : Fault) (stats : Bool) (key : String) (now : ℕ) (c : Cache)
    → Counted c
    → Counted (select_row codec error fault stats key now c).0
select_row-Counted codec fine fault stats key now c h =
    fetch_row-Counted codec fault stats key now (lookup key (table_of c.connection)) c refl h
select_row-Counted codec broken fault stats key now c h =
    count_miss-Counted stats _ (handle_database_error-Counted broken c h)
select_row-Counted codec (corrupt x) fault stats key now c h =
    count_miss-Counted stats _ (handle_database_error-Counted (corrupt x) c h)

fetch_database-Counted :
    (codec : Codec) (error fault : Fault) (stats : Bool) (key : String) (now : ℕ) (c : Cache)
    → Counted c
    → Counted (fetch_database codec error fault stats key now c).0
fetch_database-Counted codec error fault stats key now c h =
    if_rule (λ (x : Cache × Option String). Counted x.0) (not (is_open c) || c.ignore_database)
      (λ _. count_miss-Counted stats c h)
      (λ _. select_row-Counted codec error fault stats key now c h)

fetch_held-Counted :
    (codec : Codec) (error fault : Fault) (stats : Bool) (key : String) (now : ℕ) (o : Option Held)
    (c : Cache)
    → Counted c
    → Counted (fetch_held codec error fault stats key now o c).0
fetch_held-Counted codec error fault stats key now none c h =
    fetch_database-Counted codec error fault stats key now c h
fetch_held-Counted codec error fault stats key now (some held') c h =
    if_rule (λ (x : Cache × Option String). Counted x.0) (leb held'.expires_at now)
      (λ _. fetch_database-Counted codec error fault stats key now (without_held key c) h)
      (λ _. count_hit-Counted stats c h)

pub written-CountedAs :
    (o : Option Connection) (key : String) (r : Row) (n b : ℕ)
    → CountedAs o n b
    → CountedAs
        (with_table (insert key r (table_of o)) o)
        (if is_some (lookup key (table_of o)) then n else n + 1)
        (b - part (λ (x : Row). x.stored_bytes) (lookup key (table_of o)) + r.stored_bytes)
written-CountedAs none key r n b h = tt
written-CountedAs (some k) key r n b (m, saved) = (
  record {
    unique = insert-Unique key r k.table m.unique;
    count = counted (lookup key k.table) (total-insert (λ r. 1) key r k.table);
    size =
        sized (part (λ (x : Row). x.stored_bytes) (lookup key k.table))
          (total-insert (λ r. r.stored_bytes) key r k.table)
          (part-le-total (λ r. r.stored_bytes) key k.table);
  },
  saved,
)
  where
    counted :
        (found : Option Row)
        → rows (insert key r k.table) + part (λ (x : Row). 1) found ≡ rows k.table + 1
        → (if is_some found then n else n + 1) ≡ rows (insert key r k.table)
    counted none e = omega (arith, e, m.count)
    counted (some x) e = omega (arith, e, m.count)

    sized :
        (p : ℕ)
        → bytes (insert key r k.table) + p ≡ bytes k.table + r.stored_bytes
        → p ≤ bytes k.table
        → b - p + r.stored_bytes ≡ bytes (insert key r k.table)
    sized p e le = omega (arith, e, le, m.size)

after_write-Counted :
    (codec : Codec) (fault : Fault) (key value : String) (now ttl : ℕ) (c : Cache)
    → Counted c
    → Counted (after_write codec fault key value now ttl c)
after_write-Counted codec fine key value now ttl c h = trim_database-Counted c h
after_write-Counted codec broken key value now ttl c h =
    store_memory-Counted codec key value now ttl _ (handle_database_error-Counted broken c h)
after_write-Counted codec (corrupt x) key value now ttl c h =
    store_memory-Counted codec key value now ttl _ (handle_database_error-Counted (corrupt x) c h)

set_database-Counted :
    (codec : Codec) (error fault : Fault) (key value payload : String) (now ttl : ℕ) (c : Cache)
    → Counted c
    → Counted (set_database codec error fault key value payload now ttl c)
set_database-Counted codec fine fault key value payload now ttl c h =
    after_write-Counted codec fault key value now ttl (write_row codec key payload now ttl c) (
      written-CountedAs c.connection key
        (record {
          response = payload;
          expires_at = now + ttl;
          touched_at = now;
          stored_bytes = codec.size payload;
        })
        c.entry_count c.stored_bytes h)
set_database-Counted codec broken fault key value payload now ttl c h =
    store_memory-Counted codec key value now ttl _ (handle_database_error-Counted broken c h)
set_database-Counted codec (corrupt x) fault key value payload now ttl c h =
    store_memory-Counted codec key value now ttl _ (handle_database_error-Counted (corrupt x) c h)

set_encoded-Counted :
    (codec : Codec) (error fault : Fault) (key value : String) (payload : Option String)
    (now ttl : ℕ) (c : Cache)
    → Counted c
    → Counted (set_encoded codec error fault key value payload now ttl c)
set_encoded-Counted codec error fault key value none now ttl c h = h
set_encoded-Counted codec error fault key value (some payload) now ttl c h =
    if_rule Counted (not (is_open c) || not c.writable)
      (λ _. store_memory-Counted codec key value now ttl c h)
      (λ _. set_database-Counted codec error fault key value payload now ttl c h)

delete_row-Counted :
    (codec : Codec) (key : String) (o : Option Row) (c : Cache)
    → lookup key (table_of c.connection) ≡ o
    → Counted c
    → Counted (delete_row codec key o c).0
delete_row-Counted codec key none c found h = h
delete_row-Counted codec key (some r) c found h =
    removed-CountedAs c.connection key r c.entry_count c.stored_bytes found h

clear_database-Counted :
    (codec : Codec) (fault : Fault) (c : Cache) → Counted c → Counted (clear_database codec fault c)
clear_database-Counted codec fine c h = cleared c.connection h
  where
    cleared :
        (o : Option Connection)
        → CountedAs o c.entry_count c.stored_bytes
        → CountedAs (with_table [] o) 0 0
    cleared none h = tt
    cleared (some k) (m, saved) = (record { unique = tt; count = refl; size = refl }, saved)
clear_database-Counted codec broken c h = handle_database_error-Counted broken c h
clear_database-Counted codec (corrupt x) c h = handle_database_error-Counted (corrupt x) c h

touch_at-totals :
    (codec : Codec) (k : String) (at : ℕ) (o : Option Row) (t : Dict Row)
    → lookup k t ≡ o
    → Unique t
    → Unique (touch_at codec k at o t)
      × (rows (touch_at codec k at o t) ≡ rows t)
      × (bytes (touch_at codec k at o t) ≡ bytes t)
touch_at-totals codec k at none t found u = (u, refl, refl)
touch_at-totals codec k at (some r) t found u =
    let r' : Row = record r { touched_at = at } in
    (
      insert-Unique k r' t u,
      omega (arith, total-insert (λ r. 1) k r' t, ap (part (λ (r : Row). 1)) found),
      omega (
        arith,
        total-insert (λ r. r.stored_bytes) k r' t,
        ap (part (λ (r : Row). r.stored_bytes)) found,
      ),
    )

pub touch_all-totals :
    (codec : Codec) (touches : Dict ℕ) (t : Dict Row)
    → Unique t
    → Unique (touch_all codec touches t)
      × (rows (touch_all codec touches t) ≡ rows t)
      × (bytes (touch_all codec touches t) ≡ bytes t)
touch_all-totals codec [] t u = (u, refl, refl)
touch_all-totals codec ((k, at) ∷ touches) t u =
    let (u', n, b) = touch_at-totals codec k at (lookup k t) t refl u in
    let (u'', n', b') = touch_all-totals codec touches (touch_at codec k at (lookup k t) t) u' in
    (u'', n' ∙ n, b' ∙ b)

touched-CountedAs :
    (codec : Codec) (touches : Dict ℕ) (o : Option Connection) (n b : ℕ)
    → CountedAs o n b
    → CountedAs (with_table (touch_all codec touches (table_of o)) o) n b
touched-CountedAs codec touches none n b h = tt
touched-CountedAs codec touches (some k) n b (m, saved) =
    let (u, same_count, same_size) = touch_all-totals codec touches k.table m.unique in
    (record { unique = u; count = m.count ∙ sym same_count; size = m.size ∙ sym same_size }, saved)

commit-CountedAs :
    (codec : Codec) (c : Cache) (o : Option Connection)
    → CountedAs o c.entry_count c.stored_bytes
    → CountedAs (commit codec c o) c.entry_count c.stored_bytes
commit-CountedAs codec c none h = tt
commit-CountedAs codec c (some k) (m, saved) = (m, m)

uncommitted-Counted :
    (codec : Codec) (o : Option Connection) (n b : ℕ)
    → CountedAs o n b
    → CountedAs (uncommitted codec o) (committed_totals codec o).0 (committed_totals codec o).1
uncommitted-Counted codec none n b h = tt
uncommitted-Counted codec (some k) n b (m, saved) = (saved, saved)

refresh_totals-Counted :
    (codec : Codec) (fault : Fault) (totals : ℕ × ℕ) (c : Cache)
    → CountedAs c.connection totals.0 totals.1
    → Counted (refresh_totals codec fault totals c)
refresh_totals-Counted codec fine totals c h = h
refresh_totals-Counted codec broken totals c h = failed_error-Counted broken c (λ f. f)
refresh_totals-Counted codec (corrupt x) totals c h = failed_error-Counted (corrupt x) c (λ f. f)

flush_all-Counted :
    (codec : Codec) (now : ℕ) (c : Cache) → Counted c → Counted (flush_all codec now c)
flush_all-Counted codec now c h =
    let start = with_touches codec c.pending_touches c in
    commit-CountedAs codec (trim_database (delete_expired now start)) _ (
      trim_database-Counted (delete_expired now start) (
        delete_expired-Counted now start
          (touched-CountedAs codec c.pending_touches c.connection c.entry_count c.stored_bytes h)))

flush_work-Counted :
    (codec : Codec) (way : Flushing) (now : ℕ) (c : Cache)
    → RollsBack (flushes way now)
    → Counted c
    → Counted (flush_work codec way now c).0
flush_work-Counted codec goes_well now c safe h = flush_all-Counted codec now c h
flush_work-Counted codec (fails stage rolls_back fault) now c safe h =
    refresh_totals-Counted codec fault _ _
      (uncommitted-Counted codec c.connection c.entry_count c.stored_bytes h)
flush_work-Counted codec (fails stage (stays_open n b) fault) now c safe h = absurd safe
flush_work-Counted codec (vacuum_fails fault) now c safe h =
    let done = flush_all codec now c in
    if_rule (λ (x : Cache × Bool). Counted x.0) (done.evictions == 0)
      (λ _. flush_all-Counted codec now c h)
      (λ _.
        refresh_totals-Counted codec fault (done.entry_count, done.stored_bytes)
          (record done { has_error = true; pending_touches = [] })
          (flush_all-Counted codec now c h))

pub apply-Counted :
    (codec : Codec) (e : Event) (c : Cache) → RollsBack e → Counted c → Counted (apply codec e c)
unfolding apply set fetch delete clear flush
apply-Counted codec (sets error fault key value ttl now) c safe h =
    if_rule Counted (not c.enabled) (λ _. h)
      (λ _. set_encoded-Counted codec error fault key value (codec.encode value) now _ c h)
apply-Counted codec (fetches error fault stats key now) c safe h =
    fetch_held-Counted codec error fault stats key now (lookup key c.memory) c h
apply-Counted codec (deletes error key) c safe h =
    if_rule (λ (x : Cache × Deleted). Counted x.0) (is_some (lookup key c.memory)) (λ _. h)
      (λ _.
        if_rule (λ (x : Cache × Deleted). Counted x.0) (not (is_open c) || not c.writable) (λ _. h)
          (λ _. deleted_in error))
  where
    deleted_in : (g : Fault) → Counted (delete_database codec g key c).0
    deleted_in fine = delete_row-Counted codec key _ c refl h
    deleted_in broken = h
    deleted_in (corrupt x) = h
apply-Counted codec (clears fault) c safe h =
    if_rule Counted (not (is_open c)) (λ _. h)
      (λ _.
        if_rule Counted (not c.writable) (λ _. h)
          (λ _.
            if_rule Counted (ltb 0 c.entry_count)
              (λ _.
                clear_database-Counted codec fault (record c { memory = []; pending_touches = [] })
                  h)
              (λ _. h)))
apply-Counted codec (flushes way now) c safe h =
    if_rule (λ (x : Cache × Bool). Counted x.0)
      (not c.enabled || not c.writable || not (is_open c) || not (has_work codec c)) (λ _. h)
      (λ _. flush_work-Counted codec way now c safe h)

-- Let the totals of a cache be right: the number of entries and of bytes that it keeps are those of its
-- table, and the committed ones are those of the committed table. They are right after any calls
-- of `set`, `get`, `__delitem__`, `clear` and `flush`, whichever calls of the database fail in
-- them, also by corruption, but for a rollback in a failing `flush`.
pub run-Counted :
    (codec : Codec) (es : List Event) (c : Cache)
    → AllRollBack es
    → Counted c
    → Counted (run codec es c)
unfolding run
run-Counted codec [] c safe h = h
run-Counted codec (e ∷ es) c (one, rest) h =
    run-Counted codec es (apply codec e c) rest (apply-Counted codec e c one h)
