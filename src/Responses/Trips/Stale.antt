-- ===== src/Responses/Trips/Stale.antt =====
-- A value that is found in the place of a newer one, after a corrupt database was replaced.
use mathlib.Core.Path.{subst}
use metafusion.Prelude.{
  ◌+◌, ◌≤◌, ◌<◌, ◌≡◌, ◌∙◌, refl, [], String, Bool, ℕ, Option, true, lookup, false, some, max, leb,
  ap, insert, arith, sym, if_rule, eq_refl, ◌∷◌, Dict, not_late, not_both,
}
use metafusion.Responses.{
  Codec, Cache, Fault, Held, handle_database_error, recover, fine, empty_connection, corrupt,
  second,
}
use metafusion.Responses.Evict.{
  store_memory, trim_memory, trim_memory_loop, memory_bytes, encoded_size, held, over_memory,
}
use metafusion.Responses.Latest.Alone.{trim_database-memory}
use metafusion.Responses.Methods.{set, fetch, effective_ttl, fetch_held}
use metafusion.Responses.Trips.{Writes, set-Writes}

fetch-held :
    (codec : Codec) (fault : Fault) (stats : Bool) (key : String) (now : ℕ) (h : Held) (c : Cache)
    → lookup key c.memory ≡ some h
    → now < h.expires_at
    → (fetch codec fine fault stats key now c).1 ≡ some h.value
unfolding fetch
fetch-held codec fault stats key now h c found live =
    subst (λ (o : Option Held). (fetch_held codec fine fault stats key now o c).1 ≡ some h.value)
      (sym found)
      (if_rule (λ (x : Cache × Option String). x.1 ≡ some h.value) (leb h.expires_at now)
        (λ dead. absurd (not_late h.expires_at now live dead)) (λ _. refl))

-- What stands in memory for a key hides what a later `set` writes to the database.
held-set :
    (codec : Codec) (fault : Fault) (stats : Bool) (key new payload : String) (t : Option ℕ)
    (now later : ℕ) (h : Held) (c : Cache)
    → Writes c
    → codec.encode new ≡ some payload
    → lookup key c.memory ≡ some h
    → later < h.expires_at
    → (fetch codec fine fault stats key later (set codec fine fine key new t now c)).1
      ≡ some h.value
held-set codec fault stats key new payload t now later h c can encoded found live =
    fetch-held codec fault stats key later h (set codec fine fine key new t now c)
      (ap (λ (d : Cache). lookup key d.memory)
          (set-Writes codec fine fine key new payload t now c can encoded)
        ∙ ap (lookup key) (trim_database-memory _)
        ∙ found)
      live

-- The cache after the replacement.
abbrev replaced : Cache → String → Held → Cache
replaced c key h = record c {
  has_error = true;
  pending_touches = [];
  dirty = false;
  connection = some empty_connection;
  entry_count = 0;
  stored_bytes = 0;
  recoveries = c.recoveries + 1;
  memory = insert key h [];
}

replacement :
    (codec : Codec) (fault : Fault) (key old payload : String) (t : Option ℕ) (now : ℕ) (c : Cache)
    → Writes c
    → c.memory ≡ []
    → codec.encode old ≡ some payload
    → 1 ≤ c.max_entries
    → codec.size payload ≤ c.max_bytes
    → set codec (corrupt true) fault key old t now c
      ≡ replaced c key (record {
        value = old;
        expires_at = now + max second (effective_ttl t c);
        touched_at = now;
      })
unfolding store_memory trim_memory trim_memory_loop handle_database_error recover
replacement codec fault key old payload t now c can empty encoded room space =
    set-Writes codec (corrupt true) fault key old payload t now c can encoded ∙ remembered
  where
    h : Held
    h = record { value = old; expires_at = now + max second (effective_ttl t c); touched_at = now }

    recovered : Cache
    recovered = record c {
      has_error = true;
      pending_touches = [];
      dirty = false;
      connection = some empty_connection;
      entry_count = 0;
      stored_bytes = 0;
      recoveries = c.recoveries + 1;
    }

    handled : handle_database_error (corrupt true) c ≡ recovered
    handled =
        if_rule (λ (d : Cache). d ≡ recovered) c.writable (λ _. refl)
          (λ off. absurd (not_both c.writable can.may_write off))

    here : insert key h c.memory ≡ (key, h) ∷ []
    here = ap (insert key h) empty ∙ unfold insert in refl

    size : memory_bytes codec ((key, h) ∷ []) ≡ codec.size payload
    size = ap (λ (o : Option String). encoded_size codec o + 0) encoded ∙ omega arith

    stored :
        held codec (insert key h c.memory) ≡ 1
        → memory_bytes codec (insert key h c.memory) ≡ codec.size payload
        → store_memory codec key old now (effective_ttl t c) recovered ≡ replaced c key h
    stored n b =
        if_rule (λ (d : Cache). d ≡ replaced c key h)
          (over_memory codec (record recovered { memory = insert key h c.memory }))
          (λ over. absurd (fits n b over))
          (λ _. ap (λ (m : Dict Held). record (replaced c key h) { memory = insert key h m }) empty)
      where
        fits :
            held codec (insert key h c.memory) ≡ 1
            → memory_bytes codec (insert key h c.memory) ≡ codec.size payload
            → over_memory codec (record recovered { memory = insert key h c.memory }) ≡ true
            → ⊥
        fits n b over = ground (arith, n, b, over, room, space)

    remembered :
        store_memory codec key old now (effective_ttl t c) (handle_database_error (corrupt true) c)
        ≡ replaced c key h
    remembered =
        ap (store_memory codec key old now (effective_ttl t c)) handled
        ∙ stored (ap (held codec) here) (ap (memory_bytes codec) here ∙ size)

-- In an open, enabled cache that may write and holds nothing in memory, let a `set` meet a corrupt database, in
-- whose place a new one is opened, and let another `set` of the same key follow, all of whose calls
-- go well. Then a fetch answers with the older value, until that one expires. Both values can
-- be encoded, and the older fits into memory.
pub fetch-replaced :
    (codec : Codec) (fault fault' : Fault) (stats : Bool) (key old new p q : String)
    (t t' : Option ℕ) (now next later : ℕ) (c : Cache)
    → Writes c
    → c.memory ≡ []
    → codec.encode old ≡ some p
    → codec.encode new ≡ some q
    → 1 ≤ c.max_entries
    → codec.size p ≤ c.max_bytes
    → later < now + max second (effective_ttl t c)
    → (fetch codec fine fault' stats key later
        (set codec fine fine key new t' next (set codec (corrupt true) fault key old t now c))).1
      ≡ some old
fetch-replaced codec fault fault' stats key old new p q t t' now next later c can empty encoded
      encoded' room space live =
    let h : Held = record {
      value = old;
      expires_at = now + max second (effective_ttl t c);
      touched_at = now;
    } in
    subst
      (λ (d : Cache).
        (fetch codec fine fault' stats key later (set codec fine fine key new t' next d)).1
        ≡ some old)
      (sym (replacement codec fault key old p t now c can empty encoded room space))
      (held-set codec fault' stats key new q t' next later h (replaced c key h)
        (record { opened = refl; may_write = can.may_write; is_on = can.is_on }) encoded'
        (unfold insert lookup in ground (arith, eq_refl key)) live)
