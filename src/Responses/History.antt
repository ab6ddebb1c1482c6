-- ===== src/Responses/History.antt =====
-- Where the values come from that the cache answers with: the calls of `set` before.
pub mod Keep
pub mod Answers
use metafusion.Prelude.{◌+◌, ◌≤◌, ◌≡◌, ◌⊎◌, ◌∷◌, [], ℕ, Option, List, max, String, some, min, none}
use metafusion.Responses.{second}
use metafusion.Responses.Run.{Event, sets, fetches, deletes, clears, flushes}

-- How long `set` keeps a value, in a cache with this time to live.
abbrev pub life : ℕ → Option ℕ → ℕ
life ttl none = max second ttl
life ttl (some t) = max second (min ttl t)

-- A call of `set` that stores a value for a key and, at the latest, up to a time.
abbrev pub StoredBy : ℕ → List Event → String → String → ℕ → Type 0
StoredBy ttl [] k v e = ⊥
StoredBy ttl (sets error fault key value t now ∷ es) k v e =
    ((key ≡ k) × (value ≡ v) × (e ≤ now + life ttl t)) ⊎ StoredBy ttl es k v e
StoredBy ttl (fetches error fault stats key now ∷ es) k v e = StoredBy ttl es k v e
StoredBy ttl (deletes error key ∷ es) k v e = StoredBy ttl es k v e
StoredBy ttl (clears fault ∷ es) k v e = StoredBy ttl es k v e
StoredBy ttl (flushes way now ∷ es) k v e = StoredBy ttl es k v e
