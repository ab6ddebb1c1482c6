-- ===== src/Responses/Trips.antt =====
-- A value that the cache stores and finds again, and one that it finds in the place of a newer one.
pub mod Limits
pub mod Memory
pub mod Stale
use mathlib.Core.Path.{subst}
use metafusion.Prelude.{
  if◌then◌else◌, ◌+◌, ◌-◌, ◌≤◌, ◌<◌, ◌≡◌, ◌∙◌, ◌&&◌, ◌||◌, refl, true, String, Bool, false, Option,
  ℕ, not, some, lookup, arith, none, if_rule, leb, sym, Dict, insert, lookup-insert, eq_refl, ltb,
  is_some, part, ap, not_negated, not_late,
}
use metafusion.Responses.{Cache, Codec, is_open, Fault, Row, table_of, fine, Held}
use metafusion.Responses.Evict.{trim_database, trim_loop, over_limit}
use metafusion.Responses.Evict.Bounds.{is_some-with_table, table_of-with_table}
use metafusion.Responses.Methods.{
  set, fetch, set_database, effective_ttl, set_encoded, write_row, fetch_held, fetch_row, use_value,
}

fits-trim_database : (c : Cache) → over_limit c ≡ false → trim_database c ≡ c
unfolding trim_database trim_loop
fits-trim_database c fits =
    if_rule (λ (d : Cache). d ≡ c) (is_open c && c.writable)
      (λ _.
        if_rule (λ (d : Cache). d ≡ c) (not (over_limit c)) (λ _. refl)
          (λ over. absurd (both (over_limit c) fits over)))
      (λ _. refl)
  where
    both : (b : Bool) → b ≡ false → not b ≡ false → ⊥
    both b p q = ground (arith, p, q)

-- A call of `set` that writes the database.
pub record Writes (c : Cache) : Type 0 where
  pub opened : is_open c ≡ true
  pub may_write : c.writable ≡ true
  pub is_on : c.enabled ≡ true

pub set-Writes :
    (codec : Codec) (error fault : Fault) (key value payload : String) (t : Option ℕ) (now : ℕ)
    (c : Cache)
    → Writes c
    → codec.encode value ≡ some payload
    → set codec error fault key value t now c
      ≡ set_database codec error fault key value payload now (effective_ttl t c) c
unfolding set
set-Writes codec error fault key value payload t now c can encoded =
    if_rule
      (λ (d : Cache).
        d ≡ set_database codec error fault key value payload now (effective_ttl t c) c)
      (not c.enabled) (λ off. absurd (not_negated c.enabled can.is_on off))
      (λ _.
        subst
          (λ (o : Option String).
            set_encoded codec error fault key value o now (effective_ttl t c) c
            ≡ set_database codec error fault key value payload now (effective_ttl t c) c)
          (sym encoded)
          (if_rule
            (λ (d : Cache).
              d ≡ set_database codec error fault key value payload now (effective_ttl t c) c)
            (not (is_open c) || not c.writable)
            (λ shut. absurd (neither (is_open c) c.writable can.opened can.may_write shut))
            (λ _. refl)))
  where
    neither : (a b : Bool) → a ≡ true → b ≡ true → (not a || not b) ≡ true → ⊥
    neither a b p q r = ground (arith, p, q, r)

-- What a fetch finds in the database, when memory holds nothing for the key.
fetch-row :
    (codec : Codec) (fault : Fault) (stats : Bool) (key value : String) (now : ℕ) (r : Row)
    (c : Cache)
    → lookup key c.memory ≡ none
    → is_open c ≡ true
    → c.ignore_database ≡ false
    → lookup key (table_of c.connection) ≡ some r
    → codec.decode r.response ≡ some value
    → now < r.expires_at
    → (fetch codec fine fault stats key now c).1 ≡ some value
unfolding fetch
fetch-row codec fault stats key value now r c unheld opened kept found decoded live =
    subst (λ (o : Option Held). (fetch_held codec fine fault stats key now o c).1 ≡ some value)
      (sym unheld)
      (if_rule (λ (x : Cache × Option String). x.1 ≡ some value)
        (not (is_open c) || c.ignore_database)
        (λ shut. absurd (usable (is_open c) c.ignore_database opened kept shut))
        (λ _.
          subst (λ (o : Option Row). (fetch_row codec fault stats key now o c).1 ≡ some value)
            (sym found)
            (if_rule (λ (x : Cache × Option String). x.1 ≡ some value) (leb r.expires_at now)
              (λ dead. absurd (not_late r.expires_at now live dead))
              (λ _.
                subst (λ (v : Option String). (use_value fault stats key now r v c).1 ≡ some value)
                  (sym decoded) refl))))
  where
    usable : (a b : Bool) → a ≡ true → b ≡ false → (not a || b) ≡ true → ⊥
    usable a b p q h = ground (arith, p, q, h)

-- In an open, enabled cache that may write and does not ignore its database, with room for one more
-- entry and its bytes, a value that is stored is found under its key at any time before it expires, whatever the cache held for that key
-- in its database, when memory holds nothing for it. The calls of the database go well.
pub fetch-set :
    (codec : Codec) (fault : Fault) (stats : Bool) (key value payload : String) (t : Option ℕ)
    (now later : ℕ) (c : Cache)
    → Writes c
    → c.ignore_database ≡ false
    → lookup key c.memory ≡ none
    → codec.encode value ≡ some payload
    → codec.decode payload ≡ some value
    → c.entry_count < c.max_entries
    → c.stored_bytes + codec.size payload ≤ c.max_bytes
    → later < now + effective_ttl t c
    → (fetch codec fine fault stats key later (set codec fine fine key value t now c)).1
      ≡ some value
fetch-set codec fault stats key value payload t now later c can kept unheld encoded decoded room
      space live =
    subst (λ (d : Cache). (fetch codec fine fault stats key later d).1 ≡ some value)
      (sym (
        set-Writes codec fine fine key value payload t now c can encoded
        ∙ fits-trim_database written (
            fits (is_some (lookup key (table_of c.connection)))
              (part (λ (r : Row). r.stored_bytes) (lookup key (table_of c.connection))))))
      (fetch-row codec fault stats key value later row written unheld
        (is_some-with_table (insert key row (table_of c.connection)) c.connection ∙ can.opened) kept
        (ap (lookup key)
            (table_of-with_table (insert key row (table_of c.connection)) c.connection can.opened)
          ∙ here (table_of c.connection))
        decoded live)
  where
    row : Row
    row = record {
      response = payload;
      expires_at = now + effective_ttl t c;
      touched_at = now;
      stored_bytes = codec.size payload;
    }

    written : Cache
    written = write_row codec key payload now (effective_ttl t c) c

    here : (table : Dict Row) → lookup key (insert key row table) ≡ some row
    here table = ground (arith, lookup-insert key key row table, eq_refl key)

    fits :
        (known : Bool) (old : ℕ)
        → (ltb c.max_entries (if known then c.entry_count else c.entry_count + 1)
            || (ltb 0 c.max_bytes && ltb c.max_bytes (c.stored_bytes - old + codec.size payload)))
          ≡ false
    fits known old = ground (arith, room, space)
