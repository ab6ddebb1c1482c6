-- ===== src/Responses/Latest.antt =====
-- What the response cache promises: a map from keys to values with an expiry, in which a call of
-- `set` replaces the entry of its key, a deletion takes it away and `clear` takes all. The cache may
-- forget an entry at any time; it may not answer with anything else.
pub mod Alone
pub mod Changes
pub mod Keep
pub mod Stores
pub mod Removals
pub mod Refines
use metafusion.Prelude.{
  ◌+◌, ◌≡◌, ◌∷◌, [], String, Dict, List, ℕ, Option, lookup, some, insert, none, true, remove, false,
}
use metafusion.Responses.{Codec, Fault, corrupt, fine, broken}
use metafusion.Responses.History.{life}
use metafusion.Responses.Methods.{goes_well}
use metafusion.Responses.Run.{Event, sets, fetches, deletes, clears, flushes}

pub record Entry : Type 0 where
  pub value : String
  pub expires_at : ℕ

module _ (codec : Codec) where
  -- A value that cannot be encoded is not stored.
  abbrev pub promise_encoded : Option String → String → String → ℕ → Dict Entry → Dict Entry
  promise_encoded none key value end spec = spec
  promise_encoded (some payload) key value end spec =
      insert key (record { value = value; expires_at = end }) spec

  abbrev pub promise : ℕ → Event → Dict Entry → Dict Entry
  promise ttl (sets error fault key value t now) spec =
      promise_encoded (codec.encode value) key value (now + life ttl t) spec
  promise ttl (fetches error fault stats key now) spec = spec
  promise ttl (deletes fine key) spec = remove key spec
  promise ttl (deletes error key) spec = spec
  promise ttl (clears fault) spec = []
  promise ttl (flushes way now) spec = spec

  unfoldable pub promises : ℕ → List Event → Dict Entry → Dict Entry
  promises ttl [] spec = spec
  promises ttl (event ∷ es) spec = promises ttl es (promise ttl event spec)

-- The value that is promised for a key, and its expiry.
abbrev pub Promised : Dict Entry → String → String → ℕ → Type 0
Promised spec k v e = lookup k spec ≡ some (record { value = v; expires_at = e })

-- No new database is opened in a corrupt one's place.
abbrev pub Calm : Fault → Type 0
Calm fine = Unit
Calm broken = Unit
Calm (corrupt true) = ⊥
Calm (corrupt false) = Unit

-- The calls that the promise covers: no `set` replaces the database, and no flush fails.
abbrev pub Covered : List Event → Type 0
Covered [] = Unit
Covered (sets error fault key value t now ∷ es) = Calm error × Calm fault × Covered es
Covered (fetches error fault stats key now ∷ es) = Covered es
Covered (deletes error key ∷ es) = Covered es
Covered (clears fault ∷ es) = Covered es
Covered (flushes goes_well now ∷ es) = Covered es
Covered (flushes way now ∷ es) = ⊥
