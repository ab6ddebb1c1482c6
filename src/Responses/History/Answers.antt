-- ===== src/Responses/History/Answers.antt =====
-- What a fetch answers was stored before.
use metafusion.Prelude.{
  ◌≡◌, ◌⊎◌, ◌∷◌, refl, [], String, ℕ, Bool, List, some, Option, inr, inl, none,
}
use metafusion.Responses.{Codec, Cache, Fault, Connection}
use metafusion.Responses.Evict.Bounds.{Counted}
use metafusion.Responses.History.{StoredBy}
use metafusion.Responses.History.Keep.{set-Sound, delete-Sound, clear-Sound, flush-Sound}
use metafusion.Responses.Keyed.{Keyed, Counted-Keyed, apply-Keyed}
use metafusion.Responses.Methods.{fetch}
use metafusion.Responses.Run.{Event, apply, run, sets, fetches, deletes, clears, flushes}
use metafusion.Responses.Sound.{Sound, Stored}
use metafusion.Responses.Sound.Fetch.{Given-some, fetch-Answer, Live}

module _ (codec : Codec) (Q : String → String → ℕ → Type 0) (ttl : ℕ) (w : Bool × Bool)
    (round_trip : (v p : String) → codec.encode v ≡ some p → codec.decode p ≡ some v) where
  apply-Sound :
      (event : Event) (c : Cache)
      → ((k v : String) (e : ℕ) → StoredBy ttl (event ∷ []) k v e → Q k v e)
      → Keyed c
      → Sound codec Q Q ttl w c
      → Sound codec Q Q ttl w (apply codec event c)
  unfolding apply
  apply-Sound (sets error fault key value t now) c new keyed s =
      set-Sound codec Q ttl w round_trip error fault key value t now c
        (λ e ends. new key value e (inl (refl, refl, ends))) s
  apply-Sound (fetches error fault stats key now) c new keyed s =
      (fetch-Answer codec Q Q ttl w error fault stats key now c s).0
  apply-Sound (deletes error key) c new keyed s =
      delete-Sound codec Q ttl w round_trip error key c s
  apply-Sound (clears fault) c new keyed s = clear-Sound codec Q ttl w round_trip fault c s
  apply-Sound (flushes way now) c new keyed s =
      flush-Sound codec Q ttl w round_trip way now c keyed s

  StoredBy-head :
      (event : Event) (es : List Event) (k v : String) (e : ℕ)
      → StoredBy ttl (event ∷ []) k v e
      → StoredBy ttl (event ∷ es) k v e
  StoredBy-head (sets error fault key value t now) es k v e (inl h) = inl h
  StoredBy-head (sets error fault key value t now) es k v e (inr h) = absurd h
  StoredBy-head (fetches error fault stats key now) es k v e h = absurd h
  StoredBy-head (deletes error key) es k v e h = absurd h
  StoredBy-head (clears fault) es k v e h = absurd h
  StoredBy-head (flushes way now) es k v e h = absurd h

  StoredBy-tail :
      (event : Event) (es : List Event) (k v : String) (e : ℕ)
      → StoredBy ttl es k v e
      → StoredBy ttl (event ∷ es) k v e
  StoredBy-tail (sets error fault key value t now) es k v e h = inr h
  StoredBy-tail (fetches error fault stats key now) es k v e h = h
  StoredBy-tail (deletes error key) es k v e h = h
  StoredBy-tail (clears fault) es k v e h = h
  StoredBy-tail (flushes way now) es k v e h = h

  pub run-Sound :
      (es : List Event) (c : Cache)
      → ((k v : String) (e : ℕ) → StoredBy ttl es k v e → Q k v e)
      → Keyed c
      → Sound codec Q Q ttl w c
      → Sound codec Q Q ttl w (run codec es c)
  unfolding run
  run-Sound [] c new keyed s = s
  run-Sound (event ∷ es) c new keyed s =
      run-Sound es (apply codec event c) (λ k v e h. new k v e (StoredBy-tail event es k v e h))
        (apply-Keyed codec event c keyed)
        (apply-Sound event c (λ k v e h. new k v e (StoredBy-head event es k v e h)) keyed s)

Sound-weaker :
    (codec : Codec) (P Q : String → String → ℕ → Type 0) (ttl : ℕ) (w : Bool × Bool) (c : Cache)
    → ((k v : String) (e : ℕ) → P k v e → Q k v e)
    → Sound codec P P ttl w c
    → Sound codec Q Q ttl w c
Sound-weaker codec P Q ttl w c weaker (f, m, s) =
    (f, (λ k x found. weaker k x.value x.expires_at (m k x found)), table c.connection s)
  where
    table : (o : Option Connection) → Stored codec P P o → Stored codec Q Q o
    table none z = tt
    table (some k) (t, saved) = (
      (λ j r found v decoded. weaker j v r.expires_at (t j r found v decoded)),
      (λ j r found v decoded. weaker j v r.expires_at (saved j r found v decoded)),
    )

-- Start with a cache with the totals of its table, in which every held value, also every committed
-- one, has some origin `Known` with its expiry, make any calls, and let any calls of the database
-- fail. Then a fetch that answers gives a value that had such an origin for this key, or that a
-- `set` of this key among the calls stored, and it gives it before its expiry: for a call of `set`
-- at the latest the end of the life that its time to live and the cache's give. Encoded values are
-- decoded to themselves.
pub fetch-run-StoredBy :
    (codec : Codec) (Known : String → String → ℕ → Type 0) (es : List Event) (c : Cache)
    (error fault : Fault) (stats : Bool) (key value : String) (now : ℕ)
    → ((v p : String) → codec.encode v ≡ some p → codec.decode p ≡ some v)
    → Counted c
    → Sound codec Known Known c.ttl (c.writable, c.enabled) c
    → (fetch codec error fault stats key now (run codec es c)).1 ≡ some value
    → Live (λ (k v : String) (e : ℕ). StoredBy c.ttl es k v e ⊎ Known k v e) key now value
fetch-run-StoredBy codec Known es c error fault stats key value now round_trip counts s found =
    let Q = λ (k v : String) (e : ℕ). StoredBy c.ttl es k v e ⊎ Known k v e in
    let start = Sound-weaker codec Known Q c.ttl (c.writable, c.enabled) c (λ k v e h. inr h) s in
    let after =
      run-Sound codec Q c.ttl (c.writable, c.enabled) round_trip es c (λ k v e h. inl h)
        (Counted-Keyed c.connection c.entry_count c.stored_bytes counts) start in
    Given-some Q key now _ value
      (fetch-Answer codec Q Q c.ttl (c.writable, c.enabled) error fault stats key now
        (run codec es c) after).1
      found
