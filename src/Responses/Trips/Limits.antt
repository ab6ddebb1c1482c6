-- ===== src/Responses/Trips/Limits.antt =====
-- The limits of the cache, in its database and in memory.
use mathlib.Core.Path.{subst}
use metafusion.Prelude.{
  if◌then◌else◌, ◌+◌, ◌≤◌, ◌<◌, ◌≡◌, ◌∙◌, ◌&&◌, ◌||◌, ◌∷◌, refl, [], ℕ, lookup, Dict, ltb, String,
  remove, suc, if_rule, false, true, Option, arith, is_some, some, not, Bool, str_eq, sym, zero,
  insert,
}
use metafusion.Responses.{Cache, Codec, is_open, Row, Held, rows, table_of, bytes, fine}
use metafusion.Responses.Counted.{written-CountedAs}
use metafusion.Responses.Evict.{
  trim_loop, trim_database, take_oldest, batch_size, held, over_limit, is_nil, delete_batch,
}
use metafusion.Responses.Evict.Bounds.{
  Counted, Counted-open, trim_database-Counted, trim_database-limits, is_some-with_table,
}
use metafusion.Responses.Methods.{set, effective_ttl, write_row}
use metafusion.Responses.Trips.{Writes, set-Writes}

-- An eviction leaves the limits as they are.
trim_loop-settings :
    (n : ℕ) (c : Cache)
    → ((trim_loop n c).max_entries ≡ c.max_entries) × ((trim_loop n c).max_bytes ≡ c.max_bytes)
unfolding trim_loop
trim_loop-settings zero c = (refl, refl)
trim_loop-settings (suc n) c =
    let batch = take_oldest c.tie (batch_size c) (table_of c.connection) in
    let Same = λ (d : Cache). (d.max_entries ≡ c.max_entries) × (d.max_bytes ≡ c.max_bytes) in
    if_rule Same (not (over_limit c)) (λ _. (refl, refl))
      (λ _.
        if_rule Same (is_nil batch.0) (λ _. (refl, refl))
          (λ _. trim_loop-settings n (delete_batch batch c)))

trim_loop-open : (n : ℕ) (c : Cache) → is_open (trim_loop n c) ≡ is_open c
unfolding trim_loop
trim_loop-open zero c = refl
trim_loop-open (suc n) c =
    let batch = take_oldest c.tie (batch_size c) (table_of c.connection) in
    if_rule (λ (d : Cache). is_open d ≡ is_open c) (not (over_limit c)) (λ _. refl)
      (λ _.
        if_rule (λ (d : Cache). is_open d ≡ is_open c) (is_nil batch.0) (λ _. refl)
          (λ _. trim_loop-open n (delete_batch batch c) ∙ is_some-with_table batch.1 c.connection))

trim_database-settings :
    (c : Cache)
    → ((trim_database c).max_entries ≡ c.max_entries)
      × ((trim_database c).max_bytes ≡ c.max_bytes)
      × (is_open (trim_database c) ≡ is_open c)
unfolding trim_database
trim_database-settings c =
    if_rule
      (λ (d : Cache).
        (d.max_entries ≡ c.max_entries) × (d.max_bytes ≡ c.max_bytes) × (is_open d ≡ is_open c))
      (is_open c && c.writable)
      (λ _.
        let (n, b) = trim_loop-settings (suc (rows (table_of c.connection))) c in
        (n, b, trim_loop-open (suc (rows (table_of c.connection))) c))
      (λ _. (refl, refl, refl))

-- The table is within the limits, of which the one on bytes may be absent.
abbrev pub Within : ℕ → ℕ → Dict Row → Type 0
Within entries limit t = (rows t ≤ entries) × (0 < limit → bytes t ≤ limit)

within :
    (n b entries limit : ℕ)
    → (ltb entries n || (ltb 0 limit && ltb limit b)) ≡ false
    → (n ≤ entries) × (0 < limit → b ≤ limit)
within n b entries limit h = (ground (arith, h), λ positive. ground (arith, h, positive))

trimmed-Within :
    (c : Cache)
    → is_open c ≡ true
    → c.writable ≡ true
    → Counted c
    → Within c.max_entries c.max_bytes (table_of (trim_database c).connection)
trimmed-Within c opened writes counts =
    let d = trim_database c in
    let (same_entries, same_limit, same_open) = trim_database-settings c in
    let (n, b) =
      Counted-open d.connection d.entry_count d.stored_bytes (same_open ∙ opened)
        (trim_database-Counted c counts) in
    let (few, small) =
      within d.entry_count d.stored_bytes d.max_entries d.max_bytes
        (trim_database-limits c opened writes counts) in
    (
      omega (arith, n, few, same_entries),
      λ positive. omega (arith, b, small (omega (arith, positive, same_limit)), same_limit),
    )

-- After a call of `set` that goes well, in an open, enabled cache that may write and whose totals are
-- right, of a value that can be encoded,
-- the table of the database has at most the configured number of entries and, where there is a limit
-- on bytes, at most so many bytes: the loop of the trim stops only there.
pub set-Within :
    (codec : Codec) (key value payload : String) (t : Option ℕ) (now : ℕ) (c : Cache)
    → Writes c
    → Counted c
    → codec.encode value ≡ some payload
    → Within c.max_entries c.max_bytes (table_of (set codec fine fine key value t now c).connection)
set-Within codec key value payload t now c can counts encoded =
    let row : Row = record {
      response = payload;
      expires_at = now + effective_ttl t c;
      touched_at = now;
      stored_bytes = codec.size payload;
    } in
    subst (λ (d : Cache). Within c.max_entries c.max_bytes (table_of d.connection))
      (sym (set-Writes codec fine fine key value payload t now c can encoded))
      (trimmed-Within (write_row codec key payload now (effective_ttl t c) c)
        (is_some-with_table (insert key row (table_of c.connection)) c.connection ∙ can.opened)
        can.may_write (written-CountedAs c.connection key row c.entry_count c.stored_bytes counts))

-- A value that is there to be evicted leaves fewer.
pub held-remove :
    (codec : Codec) (key : String) (m : Dict Held)
    → is_some (lookup key m) ≡ true
    → held codec (remove key m) < held codec m
unfolding lookup remove
held-remove codec key [] h = ground (arith, h)
held-remove codec key (e ∷ m) h = split (str_eq e.0 key) h (held-remove codec key m)
  where
    at_most : (t : Dict Held) → held codec (remove key t) ≤ held codec t
    at_most [] = omega arith
    at_most (x ∷ t) = one (str_eq x.0 key) (at_most t)
      where
        one :
            (b : Bool)
            → held codec (remove key t) ≤ held codec t
            → held codec (if b then remove key t else x ∷ remove key t) ≤ 1 + held codec t
        one true ih = omega (arith, ih)
        one false ih = omega (arith, ih)

    split :
        (b : Bool)
        → is_some (if b then some e.1 else lookup key m) ≡ true
        → (is_some (lookup key m) ≡ true → held codec (remove key m) < held codec m)
        → held codec (if b then remove key m else e ∷ remove key m) < 1 + held codec m
    split true there ih = omega (arith, at_most m)
    split false there ih = omega (arith, ih there)
