-- ===== src/Responses/Run.antt =====
-- Runs of the response cache: any sequence of calls, with any faults of the database.
use metafusion.Prelude.{◌∷◌, [], String, List, Option, ℕ, Bool}
use metafusion.Responses.{Fault, Codec, Cache}
use metafusion.Responses.Methods.{set, fetch, delete, clear, flush, Flushing, fails, stays_open}

pub data Event : Type 0 where
  sets : Fault → Fault → String → String → Option ℕ → ℕ → Event
  fetches : Fault → Fault → Bool → String → ℕ → Event
  deletes : Fault → String → Event
  clears : Fault → Event
  flushes : Flushing → ℕ → Event

unfoldable pub apply : Codec → Event → Cache → Cache
apply codec (sets error fault key value ttl now) c = set codec error fault key value ttl now c
apply codec (fetches error fault stats key now) c = (fetch codec error fault stats key now c).0
apply codec (deletes error key) c = (delete codec error key c).0
apply codec (clears fault) c = clear codec fault c
apply codec (flushes way now) c = (flush codec way now c).0

unfoldable pub run : Codec → List Event → Cache → Cache
run codec [] c = c
run codec (e ∷ es) c = run codec es (apply codec e c)

-- No rollback of a failing flush fails.
abbrev pub RollsBack : Event → Type 0
RollsBack (flushes (fails stage (stays_open n b) fault) now) = ⊥
RollsBack event = Unit

abbrev pub AllRollBack : List Event → Type 0
AllRollBack [] = Unit
AllRollBack (e ∷ es) = RollsBack e × AllRollBack es
