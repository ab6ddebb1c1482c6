-- ===== src/Observations.antt =====
-- What helper/cache.py keeps of the checks of an item's artwork: `_record_artwork_observation`,
-- `_record_canonical_observation`, `_clear_applied_canonical_observation` and
-- `_record_destination_change`. A time is a number, and a missing key is `none`.
pub mod Canonical
pub mod Unchanged
pub mod History
mod Examples
use metafusion.Prelude.{
  ◌==◌, if◌then◌else◌, ◌+◌, ◌-◌, ◌&&◌, ◌||◌, ◌∷◌, ◌++◌, [], true, false, none, some, zero, suc,
  Option, not, String, Bool, ℕ, List, str_eq, ltb, length, any, min,
}

-- The fields of an entry that begin with one type of artwork.
pub record Tracked : Type 0 where
  pub candidate_fingerprint : Option String
  pub unchanged_checks : ℕ
  pub missing_checks : ℕ
  pub source_path : Option String
  pub canonical_pending_path : Option String
  pub canonical_pending_observations : Option ℕ
  pub canonical_pending_at : Option ℕ

abbrev pub or_blank : Option String → String
or_blank none = ""
or_blank (some s) = s

-- `previous is None or str(previous) != marker`, and otherwise one check more.
abbrev pub unchanged_after : Option String → String → ℕ → ℕ
unchanged_after none marker n = 0
unchanged_after (some previous) marker n = if str_eq previous marker then n + 1 else 0

-- `_record_artwork_observation`; the number of missing images is after `max(0, …)`.
unfoldable pub record_artwork_observation : Option String → ℕ → Tracked → Tracked
record_artwork_observation candidate missing e =
    let marker = or_blank candidate in
    let unchanged = unchanged_after e.candidate_fingerprint marker e.unchanged_checks in
    record e {
      candidate_fingerprint = some marker;
      missing_checks = if ltb 0 missing then e.missing_checks + 1 else 0;
      unchanged_checks = if ltb 0 missing then 0 else min 20 unchanged;
    }

abbrev pub known_count : Option ℕ → ℕ
known_count none = 0
known_count (some n) = n

abbrev pub forget_pending : Tracked → Tracked
forget_pending e = record e {
  canonical_pending_path = none;
  canonical_pending_observations = none;
  canonical_pending_at = none;
}

-- `_record_canonical_observation`
unfoldable pub record_canonical_observation : Option String → Bool → ℕ → Tracked → Tracked
record_canonical_observation candidate canonical now e =
    let source = or_blank candidate in
    if not canonical || str_eq source "" || str_eq (or_blank e.source_path) source
    then forget_pending e
    else if str_eq (or_blank e.canonical_pending_path) source
    then record e {
      canonical_pending_path = some source;
      canonical_pending_observations =
          some (min 2 (known_count e.canonical_pending_observations + 1));
    }
    else record e {
      canonical_pending_path = some source;
      canonical_pending_observations = some (min 2 1);
      canonical_pending_at = some now;
    }

-- `_clear_applied_canonical_observation`
unfoldable pub clear_applied_canonical_observation : Tracked → Tracked
clear_applied_canonical_observation e =
    if not (str_eq (or_blank e.canonical_pending_path) (or_blank e.source_path))
    then e
    else forget_pending e

-- An event of `destination_history`; a report sets its time later.
pub record Change : Type 0 where
  pub asset_type : String
  pub season_number : Option ℕ
  pub previous_destination : String
  pub new_destination : String
  pub previous_checksum : Option String
  pub detected_at : ℕ
  pub reported_at : Option ℕ

abbrev pub season_eq : Option ℕ → Option ℕ → Bool
season_eq none none = true
season_eq none (some n) = false
season_eq (some m) none = false
season_eq (some m) (some n) = m == n

abbrev pub same_change : Change → Change → Bool
same_change c d =
    str_eq d.asset_type c.asset_type
    && season_eq d.season_number c.season_number
    && str_eq d.previous_destination c.previous_destination
    && str_eq d.new_destination c.new_destination

abbrev pub drop : ℕ → List Change → List Change
drop zero l = l
drop (suc n) [] = []
drop (suc n) (c ∷ l) = drop n l

-- The last n of a list: `l[-n:]`.
unfoldable pub last_of : ℕ → List Change → List Change
last_of n l = drop (length l - n) l

abbrev pub append_change : Change → List Change → List Change
append_change c history =
    if any (same_change c) (last_of 20 history) then history else last_of 100 (history ++ (c ∷ []))

-- `_record_destination_change`, of two destinations of which the normal form is an argument.
unfoldable pub record_destination_change :
    (String → String)
    → String
    → Option ℕ
    → String
    → String
    → Option String
    → ℕ
    → List Change
    → List Change
record_destination_change normal asset_type season previous current checksum now history =
    if str_eq previous "" || str_eq current ""
    then history
    else if str_eq (normal previous) "" || str_eq (normal previous) (normal current)
    then history
    else append_change
        (record {
          asset_type = asset_type;
          season_number = season;
          previous_destination = normal previous;
          new_destination = normal current;
          previous_checksum = checksum;
          detected_at = now;
          reported_at = none;
        })
        history
