-- ===== src/Responses/Sound.antt =====
-- What holds of every value that the cache holds, in memory and in its database, survives whatever
-- takes entries away.
pub mod Fetch
pub mod Flush
use metafusion.Prelude.{
  if◌then◌else◌, ◌+◌, ◌≡◌, ◌&&◌, ◌∷◌, refl, [], lookup, String, ℕ, Option, Bool, some, Dict,
  Entries, Unique, if_rule, suc, str_eq, none, arith, remove, Entries-nil, ltb, not, remove-Entries,
  false, eq_iff, lookup-remove, max, insert-Entries, true, zero,
}
use metafusion.Responses.{
  Codec, Held, Row, Connection, Cache, handle_database_error, recover, with_table, table_of,
  drop_database, is_open, empty_connection, Fault, rows, second, corrupt, fine, broken,
}
use metafusion.Responses.Evict.{
  take_oldest, delete_expired, trim_loop, trim_database, trim_memory_loop, store_memory,
  trim_memory, unexpired, batch_size, evict_held, over_limit, over_memory, oldest, expired, is_nil,
  oldest_held, delete_batch,
}
use metafusion.Responses.Methods.{touch_all, touch_at}

module _ (codec : Codec) (Q : String → String → ℕ → Type 0) where
  -- A predicate on keys, values and expiries, of a value in memory and of a row.
  abbrev pub HeldIs : String → Held → Type 0
  HeldIs k h = Q k h.value h.expires_at

  abbrev pub RowIs : String → Row → Type 0
  RowIs k r = (v : String) → codec.decode r.response ≡ some v → Q k v r.expires_at

-- What holds of the open database: of its table, and of the committed table.
abbrev pub Stored :
    Codec
    → (String → String → ℕ → Type 0)
    → (String → String → ℕ → Type 0)
    → Option Connection
    → Type 0
Stored codec Q R none = Unit
Stored codec Q R (some k) =
    Entries (RowIs codec Q) k.table × Entries (RowIs codec R) k.committed.table

-- The settings, and what holds in memory and in the database.
abbrev pub Sound :
    Codec
    → (String → String → ℕ → Type 0)
    → (String → String → ℕ → Type 0)
    → ℕ
    → Bool × Bool
    → Cache
    → Type 0
Sound codec Q R ttl mode c =
    ((c.ttl ≡ ttl) × ((c.writable, c.enabled) ≡ mode))
    × Entries (HeldIs codec Q) c.memory
    × Stored codec Q R c.connection

lookup-unexpired :
    (k : String) (r : Row) (now : ℕ) (t : Dict Row)
    → Unique t
    → lookup k (unexpired now t) ≡ some r
    → lookup k t ≡ some r
unfolding lookup
lookup-unexpired k r now [] u h = h
lookup-unexpired k r now ((j, x) ∷ t) (fresh, u) h =
    ground (arith, h, lookup-unexpired k r now t u, eq_iff j k, fresh)

pub lookup-take_oldest :
    (tie : String → String → Bool) (n : ℕ) (k : String) (r : Row) (t : Dict Row)
    → lookup k (take_oldest tie n t).1 ≡ some r
    → lookup k t ≡ some r
unfolding take_oldest
lookup-take_oldest tie zero k r t h = h
lookup-take_oldest tie (suc n) k r t h = split (oldest tie t) h (lookup-take_oldest tie n k r)
  where
    split :
        (o : Option (String × Row))
        → (let (taken, rest) : Dict Row × Dict Row = elim o [
          | none ↦ ([], t)
          | some e ↦ let (taken, rest) = take_oldest tie n (remove e.0 t) in (e ∷ taken, rest)
        ] in
            lookup k rest ≡ some r)
        → ((t' : Dict Row) → lookup k (take_oldest tie n t').1 ≡ some r → lookup k t' ≡ some r)
        → lookup k t ≡ some r
    split none at ih = at
    split (some e) at ih =
        let found = ih (remove e.0 t) at in ground (arith, found, lookup-remove e.0 k t)

module _ (codec : Codec) (Q R : String → String → ℕ → Type 0) (ttl : ℕ) (w : Bool × Bool) where
  pub Stored-table :
      (t : Dict Row) (o : Option Connection)
      → Entries (RowIs codec Q) t
      → Stored codec Q R o
      → Stored codec Q R (with_table t o)
  Stored-table t none h s = tt
  Stored-table t (some k) h s = (h, s.1)

  pub table-Entries :
      (o : Option Connection) → Stored codec Q R o → Entries (RowIs codec Q) (table_of o)
  table-Entries none s = Entries-nil (RowIs codec Q)
  table-Entries (some k) s = s.0

  pub handle_database_error-Sound :
      (fault : Fault) (c : Cache)
      → Sound codec Q R ttl w c
      → Sound codec Q R ttl w (handle_database_error fault c)
  unfolding handle_database_error recover drop_database empty_connection
  handle_database_error-Sound fine c s = s
  handle_database_error-Sound broken c (f, m, s) = (f, m, tt)
  handle_database_error-Sound (corrupt reopened) c (f, m, s) = by_mode c.writable reopened
    where
      c' : Cache
      c' = record c { has_error = true; pending_touches = []; dirty = false }

      by_mode : (b r : Bool) → Sound codec Q R ttl w (if b then recover r c' else drop_database c')
      by_mode true true = (f, m, (Entries-nil (RowIs codec Q), Entries-nil (RowIs codec R)))
      by_mode true false = (f, m, tt)
      by_mode false r = (f, m, tt)

  pub delete_expired-Sound :
      (now : ℕ) (c : Cache)
      → Unique (table_of c.connection)
      → Sound codec Q R ttl w c
      → Sound codec Q R ttl w (delete_expired now c)
  unfolding delete_expired
  delete_expired-Sound now c u (f, m, s) =
      if_rule (Sound codec Q R ttl w)
        (is_open c && c.writable && ltb 0 (rows (expired now (table_of c.connection))))
        (λ _. (
          f,
          m,
          Stored-table (unexpired now (table_of c.connection)) c.connection
              (λ k r found.
                table-Entries c.connection s k r
                  (lookup-unexpired k r now (table_of c.connection) u found))
              s,
        ))
        (λ _. (f, m, s))

  pub trim_loop-Sound :
      (n : ℕ) (c : Cache) → Sound codec Q R ttl w c → Sound codec Q R ttl w (trim_loop n c)
  unfolding trim_loop
  trim_loop-Sound zero c s = s
  trim_loop-Sound (suc n) c (f, m, s) =
      let batch = take_oldest c.tie (batch_size c) (table_of c.connection) in
      if_rule (Sound codec Q R ttl w) (not (over_limit c)) (λ _. (f, m, s))
        (λ _.
          if_rule (Sound codec Q R ttl w) (is_nil batch.0) (λ _. (f, m, s))
            (λ _. trim_loop-Sound n (delete_batch batch c) (
              f,
              m,
              Stored-table batch.1 c.connection
                  (λ k r found.
                    table-Entries c.connection s k r
                      (lookup-take_oldest c.tie (batch_size c) k r (table_of c.connection) found))
                  s,
            )))

  pub trim_database-Sound :
      (c : Cache) → Sound codec Q R ttl w c → Sound codec Q R ttl w (trim_database c)
  unfolding trim_database
  trim_database-Sound c s =
      if_rule (Sound codec Q R ttl w) (is_open c && c.writable) (λ _. trim_loop-Sound _ c s)
        (λ _. s)

  trim_memory_loop-Sound :
      (n : ℕ) (c : Cache)
      → Sound codec Q R ttl w c
      → Sound codec Q R ttl w (trim_memory_loop codec n c)
  unfolding trim_memory_loop
  trim_memory_loop-Sound zero c s = s
  trim_memory_loop-Sound (suc n) c s =
      if_rule (Sound codec Q R ttl w) (over_memory codec c)
        (λ _. trim_memory_loop-Sound n _ (evicted (oldest_held codec c.memory) s)) (λ _. s)
    where
      evicted :
          (o : Option (String × Held))
          → Sound codec Q R ttl w c
          → Sound codec Q R ttl w (evict_held codec o c)
      evicted none s = s
      evicted (some e) (f, m, s) =
          (f, remove-Entries (HeldIs codec Q) (HeldIs codec Q) e.0 c.memory (λ k x other p. p) m, s)

  -- The stored value comes on top of what holds of the memory for other keys.
  pub store_memory-Sound :
      (P : String → String → ℕ → Type 0) (key value : String) (now ttl' : ℕ) (c : Cache)
      → ((k v : String) (e : ℕ) → str_eq key k ≡ false → P k v e → Q k v e)
      → Q key value (now + max second ttl')
      → Entries (HeldIs codec P) c.memory
      → (c.ttl ≡ ttl) × ((c.writable, c.enabled) ≡ w)
      → Stored codec Q R c.connection
      → Sound codec Q R ttl w (store_memory codec key value now ttl' c)
  unfolding store_memory trim_memory
  store_memory-Sound P key value now ttl' c keep new m f s = trim_memory_loop-Sound _ _ (
    f,
    insert-Entries (HeldIs codec P) (HeldIs codec Q) key
        (record { value = value; expires_at = now + max second ttl'; touched_at = now }) c.memory
        (λ k x. keep k x.value x.expires_at) new m,
    s,
  )

  pub touched-Sound :
      (touches : Dict ℕ) (t : Dict Row)
      → Entries (RowIs codec Q) t
      → Entries (RowIs codec Q) (touch_all codec touches t)
  touched-Sound [] t h = h
  touched-Sound ((k, at) ∷ touches) t h =
      touched-Sound touches (touch_at codec k at (lookup k t) t) (one (lookup k t) refl)
    where
      one : (o : Option Row) → lookup k t ≡ o → Entries (RowIs codec Q) (touch_at codec k at o t)
      one none e = h
      one (some r) e =
          insert-Entries (RowIs codec Q) (RowIs codec Q) k (record r { touched_at = at }) t
            (λ j x other p. p) (h k r e) h
