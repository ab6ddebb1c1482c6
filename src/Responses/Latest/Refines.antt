-- ===== src/Responses/Latest/Refines.antt =====
-- The response cache keeps its promise.
use metafusion.Prelude.{◌≤◌, ◌≡◌, ◌∷◌, [], ℕ, List, Dict, String, some, Bool, true}
use metafusion.Responses.{Codec, Cache, second, Fault}
use metafusion.Responses.Counted.{apply-Counted}
use metafusion.Responses.Evict.Bounds.{Counted}
use metafusion.Responses.Keyed.{Counted-Keyed}
use metafusion.Responses.Latest.{Entry, Covered, Promised, promises, promise}
use metafusion.Responses.Latest.Alone.{Alone, fetch-Alone}
use metafusion.Responses.Latest.Changes.{set-Alone, delete-Alone, clear-memory, flush-Alone}
use metafusion.Responses.Latest.Keep.{Anything}
use metafusion.Responses.Latest.Removals.{delete-Sound, clear-Sound}
use metafusion.Responses.Latest.Stores.{set-Sound, writes}
use metafusion.Responses.Methods.{fetch, fails, vacuum_fails, goes_well}
use metafusion.Responses.Run.{Event, apply, run, sets, fetches, deletes, clears, flushes, RollsBack}
use metafusion.Responses.Sound.{Sound}
use metafusion.Responses.Sound.Fetch.{Given-some, fetch-Answer, Live}
use metafusion.Responses.Sound.Flush.{flush_well-Sound}

-- The cache holds nothing but what is promised, nothing in memory while its database is open, and the
-- totals of its table.
abbrev pub Refines : Codec → ℕ → Dict Entry → Cache → Type 0
Refines codec ttl spec c =
    Sound codec (Promised spec) Anything ttl (true, true) c × Alone c × Counted c

module _ (codec : Codec) (ttl : ℕ)
    (round_trip : (v p : String) → codec.encode v ≡ some p → codec.decode p ≡ some v)
    (long_enough : second ≤ ttl) where
  -- The conditions on one call.
  apply-Refines :
      (event : Event) (spec : Dict Entry) (c : Cache)
      → Covered (event ∷ [])
      → Refines codec ttl spec c
      → Sound codec
          (Promised (promise codec ttl event spec))
          Anything
          ttl
          (true, true)
          (apply codec event c)
        × Alone (apply codec event c)
  unfolding apply
  apply-Refines (sets error fault key value t now) spec c (calm, calm', rest) (s, alone, counts) = (
    set-Sound codec ttl round_trip long_enough error fault key value t now spec c calm calm' alone
        s,
    set-Alone codec error fault key value t now c calm calm'
        (writes codec ttl round_trip long_enough c s.0.1) alone,
  )
  apply-Refines (fetches error fault stats key now) spec c covered (s, alone, counts) = (
    (fetch-Answer codec (Promised spec) Anything ttl (true, true) error fault stats key now c s).0,
    fetch-Alone codec error fault stats key now c alone,
  )
  apply-Refines (deletes error key) spec c covered (s, alone, counts) = (
    delete-Sound codec ttl round_trip long_enough error key spec c alone s,
    delete-Alone codec error key c alone,
  )
  apply-Refines (clears fault) spec c covered (s, alone, counts) = (
    clear-Sound codec ttl round_trip long_enough fault spec c counts s,
    λ opened. clear-memory codec fault c,
  )
  apply-Refines (flushes goes_well now) spec c covered (s, alone, counts) = (
    flush_well-Sound codec (Promised spec) Anything ttl (true, true) now c (λ k v e p. tt)
        (Counted-Keyed c.connection c.entry_count c.stored_bytes counts) s,
    flush-Alone codec now c alone,
  )
  apply-Refines (flushes (fails stage undo fault) now) spec c covered r = absurd covered
  apply-Refines (flushes (vacuum_fails fault) now) spec c covered r = absurd covered

  Covered-head : (event : Event) (es : List Event) → Covered (event ∷ es) → Covered (event ∷ [])
  Covered-head (sets error fault key value t now) es (a, b, rest) = (a, b, tt)
  Covered-head (fetches error fault stats key now) es rest = tt
  Covered-head (deletes error key) es rest = tt
  Covered-head (clears fault) es rest = tt
  Covered-head (flushes goes_well now) es rest = tt
  Covered-head (flushes (fails stage undo fault) now) es none_covered = none_covered
  Covered-head (flushes (vacuum_fails fault) now) es none_covered = none_covered

  Covered-tail : (event : Event) (es : List Event) → Covered (event ∷ es) → Covered es
  Covered-tail (sets error fault key value t now) es (a, b, rest) = rest
  Covered-tail (fetches error fault stats key now) es rest = rest
  Covered-tail (deletes error key) es rest = rest
  Covered-tail (clears fault) es rest = rest
  Covered-tail (flushes goes_well now) es rest = rest
  Covered-tail (flushes (fails stage undo fault) now) es none_covered = absurd none_covered
  Covered-tail (flushes (vacuum_fails fault) now) es none_covered = absurd none_covered

  Covered-RollsBack : (event : Event) → Covered (event ∷ []) → RollsBack event
  Covered-RollsBack (sets error fault key value t now) covered = tt
  Covered-RollsBack (fetches error fault stats key now) covered = tt
  Covered-RollsBack (deletes error key) covered = tt
  Covered-RollsBack (clears fault) covered = tt
  Covered-RollsBack (flushes goes_well now) covered = tt
  Covered-RollsBack (flushes (fails stage undo fault) now) covered = absurd covered
  Covered-RollsBack (flushes (vacuum_fails fault) now) covered = tt

  pub run-Refines :
      (es : List Event) (spec : Dict Entry) (c : Cache)
      → Covered es
      → Refines codec ttl spec c
      → Refines codec ttl (promises codec ttl es spec) (run codec es c)
  unfolding run promises
  run-Refines [] spec c covered r = r
  run-Refines (event ∷ es) spec c covered r =
      let (s, alone) = apply-Refines event spec c (Covered-head event es covered) r in
      run-Refines es (promise codec ttl event spec) (apply codec event c)
        (Covered-tail event es covered)
        (
          s,
          alone,
          apply-Counted codec event c (Covered-RollsBack event (Covered-head event es covered)) r.2,
        )

-- An enabled, writable cache, with the totals of its table, that holds nothing but what a map of
-- promises gives for each key, and nothing in memory while its database is open, refines that map:
-- after any calls, a fetch that answers gives the very value that the latest stored entry of
-- its key has in the map after these calls, where no later call cleared it, or deleted it without an
-- error of the database, and before that entry expires. Any calls of the database may fail, but no
-- `set` meets a corrupt database that is replaced by a new one, and no flush fails. The times to
-- live are at least a second, and encoded values are decoded to themselves.
pub fetch-run-Promised :
    (codec : Codec) (es : List Event) (spec : Dict Entry) (c : Cache) (error fault : Fault)
    (stats : Bool) (key value : String) (now : ℕ)
    → ((v p : String) → codec.encode v ≡ some p → codec.decode p ≡ some v)
    → second ≤ c.ttl
    → Covered es
    → Refines codec c.ttl spec c
    → (fetch codec error fault stats key now (run codec es c)).1 ≡ some value
    → Live (Promised (promises codec c.ttl es spec)) key now value
fetch-run-Promised codec es spec c error fault stats key value now round_trip enough covered r
      found =
    let (s, alone, counts) = run-Refines codec c.ttl round_trip enough es spec c covered r in
    let Q = Promised (promises codec c.ttl es spec) in
    Given-some Q key now _ value
      (fetch-Answer codec Q Anything c.ttl (true, true) error fault stats key now (run codec es c)
        s).1
      found
