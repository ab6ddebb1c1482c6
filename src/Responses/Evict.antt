-- ===== src/Responses/Evict.antt =====
-- `_delete_expired`, `_trim_database`, `_trim_memory`, `_store_memory` and `_delete_fetched_row`.
pub mod Bounds
use metafusion.Prelude.{
  if◌then◌else◌, ◌+◌, ◌-◌, ◌&&◌, ◌||◌, ◌∷◌, [], ℕ, String, Dict, Bool, min, Option, suc, insert,
  leb, ltb, none, max, true, total, zero, some, remove, false, not, ◌==◌,
}
use metafusion.Responses.{
  Cache, Codec, Row, is_open, Held, with_table, table_of, rows, bytes, second,
}

-- The rows that have not expired.
abbrev pub unexpired : ℕ → Dict Row → Dict Row
unexpired now [] = []
unexpired now ((k, r) ∷ t) =
    let rest = unexpired now t in if leb r.expires_at now then rest else (k, r) ∷ rest

abbrev pub expired : ℕ → Dict Row → Dict Row
expired now [] = []
expired now ((k, r) ∷ t) =
    let rest = expired now t in if leb r.expires_at now then (k, r) ∷ rest else rest

-- `_delete_expired`
unfoldable pub delete_expired : ℕ → Cache → Cache
delete_expired now c =
    if is_open c && c.writable && ltb 0 (rows (expired now (table_of c.connection)))
    then record c {
      connection = with_table (unexpired now (table_of c.connection)) c.connection;
      entry_count = c.entry_count - rows (expired now (table_of c.connection));
      stored_bytes = c.stored_bytes - bytes (expired now (table_of c.connection));
      dirty = true;
    }
    else c

-- The older of a row and the oldest of the others. (`tie`: whether, of two rows that are equally old,
-- the database gives the one with the first key before the other.)
abbrev older : (String → String → Bool) → String × Row → Option (String × Row) → String × Row
older tie e none = e
older tie e (some f) =
    if ltb e.1.touched_at f.1.touched_at || (e.1.touched_at == f.1.touched_at && tie e.0 f.0)
    then e
    else f

-- `ORDER BY touched_at ASC LIMIT 1`
unfoldable pub oldest : (String → String → Bool) → Dict Row → Option (String × Row)
oldest tie [] = none
oldest tie (e ∷ t) = some (older tie e (oldest tie t))

-- `ORDER BY touched_at ASC LIMIT n`, and the table without these rows.
unfoldable pub take_oldest : (String → String → Bool) → ℕ → Dict Row → Dict Row × Dict Row
take_oldest tie zero t = ([], t)
take_oldest tie (suc n) t = elim (oldest tie t) [
  | none ↦ ([], t)
  | some e ↦ let (taken, rest) = take_oldest tie n (remove e.0 t) in (e ∷ taken, rest)
]

abbrev pub over_limit : Cache → Bool
over_limit c =
    ltb c.max_entries c.entry_count || (ltb 0 c.max_bytes && ltb c.max_bytes c.stored_bytes)

abbrev pub batch_size : Cache → ℕ
batch_size c = min 100 (max 1 (c.entry_count - c.max_entries))

-- What one turn of the loop does with the rows that it found and the rest.
abbrev pub delete_batch : Dict Row × Dict Row → Cache → Cache
delete_batch (taken, rest) c = record c {
  connection = with_table rest c.connection;
  entry_count = c.entry_count - rows taken;
  stored_bytes = c.stored_bytes - bytes taken;
  evictions = c.evictions + rows taken;
  dirty = true;
}

abbrev pub is_nil : Dict Row → Bool
is_nil [] = true
is_nil (e ∷ t) = false

-- The loop of `_trim_database`, on fuel: each turn deletes a row.
unfoldable pub trim_loop : ℕ → Cache → Cache
trim_loop zero c = c
trim_loop (suc n) c =
    let batch = take_oldest c.tie (batch_size c) (table_of c.connection) in
    let next = trim_loop n (delete_batch batch c) in
    if not (over_limit c) then c else if is_nil batch.0 then c else next

-- `_trim_database`
unfoldable pub trim_database : Cache → Cache
trim_database c =
    if is_open c && c.writable then trim_loop (suc (rows (table_of c.connection))) c else c

module _ (codec : Codec) where
  abbrev pub encoded_size : Option String → ℕ
  encoded_size none = 0
  encoded_size (some payload) = codec.size payload

  abbrev pub memory_bytes : Dict Held → ℕ
  memory_bytes m = total (λ (h : Held). encoded_size (codec.encode h.value)) m

  abbrev pub held : Dict Held → ℕ
  held m = total (λ (h : Held). 1) m

  abbrev pub older_held : String × Held → Option (String × Held) → String × Held
  older_held e none = e
  older_held e (some f) = if leb e.1.touched_at f.1.touched_at then e else f

  -- The key that was touched first.
  unfoldable pub oldest_held : Dict Held → Option (String × Held)
  oldest_held [] = none
  oldest_held (e ∷ m) = some (older_held e (oldest_held m))

  abbrev pub over_memory : Cache → Bool
  over_memory c =
      ltb c.max_entries (held c.memory)
      || (ltb 0 c.max_bytes && ltb c.max_bytes (memory_bytes c.memory))

  abbrev pub evict_held : Option (String × Held) → Cache → Cache
  evict_held none c = c
  evict_held (some e) c = record c { memory = remove e.0 c.memory; evictions = c.evictions + 1 }

  -- The loop of `_trim_memory`, on fuel: each turn removes a value.
  unfoldable pub trim_memory_loop : ℕ → Cache → Cache
  trim_memory_loop zero c = c
  trim_memory_loop (suc n) c =
      let next = trim_memory_loop n (evict_held (oldest_held c.memory) c) in
      if over_memory c then next else c

  -- `_trim_memory`
  unfoldable pub trim_memory : Cache → Cache
  trim_memory c = trim_memory_loop (suc (held c.memory)) c

  -- `_store_memory`
  unfoldable pub store_memory : String → String → ℕ → ℕ → Cache → Cache
  store_memory key value now ttl c = trim_memory (record c {
    memory =
        insert key (record { value = value; expires_at = now + max second ttl; touched_at = now })
          c.memory;
  })
