-- ===== src/Responses/Examples.antt =====
-- The theorems on the response cache at concrete calls.
use metafusion.Prelude.{
  ◌≡◌, ◌∷◌, refl, [], ℕ, List, String, some, true, none, sym, ◌+◌, ◌≤◌, ◌<◌, ◌⊎◌, false, lookup,
  max, Entries-nil, arith, insert, remove,
}
use metafusion.Responses.{Codec, Cache, fine, second, table_of, corrupt, broken}
use metafusion.Responses.Counted.{run-Counted}
use metafusion.Responses.Evict.{store_memory, delete_expired, trim_database, trim_loop}
use metafusion.Responses.Evict.Bounds.{Counted}
use metafusion.Responses.History.{StoredBy}
use metafusion.Responses.History.Answers.{fetch-run-StoredBy}
use metafusion.Responses.Latest.{Promised, promises}
use metafusion.Responses.Latest.Keep.{Anything}
use metafusion.Responses.Latest.Refines.{Refines, fetch-run-Promised}
use metafusion.Responses.Methods.{
  set, configured, open_with, opened, fetch, effective_limits, effective_ttl, delete, flush,
  goes_well,
}
use metafusion.Responses.Run.{Event, run, sets, deletes, flushes, apply, AllRollBack}
use metafusion.Responses.Sound.{Sound, HeldIs, RowIs}
use metafusion.Responses.Sound.Fetch.{Live}
use metafusion.Responses.Trips.{Writes, fetch-set}
use metafusion.Responses.Trips.Limits.{Within, set-Within}
use metafusion.Responses.Trips.Stale.{fetch-replaced}

abbrev plain : Codec
plain = record { encode = some; decode = some; size = λ text. 10 }

abbrev hour : ℕ
hour = 3600000000

abbrev start : Cache
start =
    configured
      (record {
        ttl = hour;
        max_entries = 2;
        max_bytes = 100;
        is_enabled = true;
        is_writable = true;
        tie = λ k j. true;
      })
      none

abbrev opened_cache : Cache
opened_cache = open_with (opened (record { table = []; entry_count = 0; stored_bytes = 0 })) start

abbrev calls : List Event
calls =
    sets fine fine "movie/1" "old" none 1
    ∷ sets fine fine "movie/2" "other" (some 5000000) 2
    ∷ sets fine fine "movie/1" "new" none 3
    ∷ deletes broken "movie/1"
    ∷ deletes fine "movie/2"
    ∷ flushes goes_well 4
    ∷ []

opened_cache-Counted : Counted opened_cache
unfolding configured
opened_cache-Counted = (
  record { unique = tt; count = refl; size = refl },
  record { unique = tt; count = refl; size = refl },
)

round_trip : (v p : String) → plain.encode v ≡ some p → plain.decode p ≡ some v
round_trip v p h = sym h

calls-AllRollBack : AllRollBack calls
calls-AllRollBack = (tt, (tt, (tt, (tt, (tt, (tt, tt))))))

run-Counted_example : Counted (run plain calls opened_cache)
run-Counted_example = run-Counted plain calls opened_cache calls-AllRollBack opened_cache-Counted

abbrev Nothing : String → String → ℕ → Type 0
Nothing k v e = ⊥

opened_cache-Sound :
    (Q R : String → String → ℕ → Type 0)
    → Sound plain Q R opened_cache.ttl (true, true) opened_cache
unfolding configured
opened_cache-Sound Q R = (
  (refl, refl),
  Entries-nil (HeldIs plain Q),
  (Entries-nil (RowIs plain Q), Entries-nil (RowIs plain R)),
)

opened_cache-Known :
    Sound plain Nothing Nothing opened_cache.ttl
      (opened_cache.writable, opened_cache.enabled)
      opened_cache
unfolding configured
opened_cache-Known = opened_cache-Sound Nothing Nothing

found_new : (fetch plain fine fine true "movie/1" 9 (run plain calls opened_cache)).1 ≡ some "new"
unfolding fetch run apply set delete flush delete_expired trim_database trim_loop configured lookup
    insert remove store_memory
found_new = refl

fetch-run-StoredBy_example :
    Live
      (λ (k v : String) (e : ℕ). StoredBy opened_cache.ttl calls k v e ⊎ Nothing k v e)
      "movie/1"
      9
      "new"
fetch-run-StoredBy_example =
    fetch-run-StoredBy plain Nothing calls opened_cache fine fine true "movie/1" "new" 9 round_trip
      opened_cache-Counted opened_cache-Known found_new

opened_cache-Refines : Refines plain opened_cache.ttl [] opened_cache
unfolding configured
opened_cache-Refines =
    (opened_cache-Sound (Promised []) Anything, (λ opens. refl), opened_cache-Counted)

long_life : second ≤ opened_cache.ttl
unfolding configured
long_life = omega arith

kept : opened_cache.ignore_database ≡ false
unfolding configured
kept = refl

nothing_held : opened_cache.memory ≡ []
unfolding configured
nothing_held = refl

unheld : lookup "movie/1" opened_cache.memory ≡ none
unfolding configured lookup
unheld = refl

room : opened_cache.entry_count < opened_cache.max_entries
unfolding configured effective_limits
room = omega arith

entry_room : 1 ≤ opened_cache.max_entries
unfolding configured effective_limits
entry_room = omega arith

space : opened_cache.stored_bytes + 10 ≤ opened_cache.max_bytes
unfolding configured effective_limits
space = omega arith

byte_room : 10 ≤ opened_cache.max_bytes
unfolding configured effective_limits
byte_room = omega arith

live : 8 < 1 + effective_ttl (some 5000000) opened_cache
unfolding configured
live = omega arith

old_live : 8 < 1 + max second (effective_ttl none opened_cache)
unfolding configured
old_live = omega arith

fetch-run-Promised_example :
    Live (Promised (promises plain opened_cache.ttl calls [])) "movie/1" 9 "new"
fetch-run-Promised_example =
    fetch-run-Promised plain calls [] opened_cache fine fine true "movie/1" "new" 9 round_trip
      long_life (tt, tt, (tt, tt, (tt, tt, tt))) opened_cache-Refines found_new

opened_cache-Writes : Writes opened_cache
unfolding configured
opened_cache-Writes = record { opened = refl; may_write = refl; is_on = refl }

fetch-set_example :
    (fetch plain fine fine true "movie/1" 8
      (set plain fine fine "movie/1" "old" (some 5000000) 1 opened_cache)).1
    ≡ some "old"
fetch-set_example =
    fetch-set plain fine true "movie/1" "old" "old" (some 5000000) 1 8 opened_cache
      opened_cache-Writes kept unheld refl refl room space live

set-Within_example :
    Within opened_cache.max_entries opened_cache.max_bytes
      (table_of (set plain fine fine "movie/1" "old" none 1 opened_cache).connection)
set-Within_example =
    set-Within plain "movie/1" "old" "old" none 1 opened_cache opened_cache-Writes
      opened_cache-Counted refl

fetch-replaced_example :
    (fetch plain fine fine true "movie/1" 8 (
      set plain fine fine "movie/1" "new" none 3
        (set plain (corrupt true) fine "movie/1" "old" none 1 opened_cache))).1
    ≡ some "old"
fetch-replaced_example =
    fetch-replaced plain fine fine true "movie/1" "old" "new" "old" "new" none none 1 3 8
      opened_cache opened_cache-Writes nothing_held refl refl entry_room byte_room old_live
