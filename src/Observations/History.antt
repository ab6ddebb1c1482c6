-- ===== src/Observations/History.antt =====
-- The history of destinations.
use metafusion.Observations.{last_of, Change, same_change}
use metafusion.Prelude.{◌≤◌, ◌≡◌, true, none, ℕ, String, List, Option, length, any}

-- A change is among the last 20 events, and the history has at most 100.
abbrev pub Recorded : Change → List Change → Type 0
Recorded c l = (any (same_change c) (last_of 20 l) ≡ true) × (length l ≤ 100)

-- The change of destinations that a call names.
abbrev pub named_change :
    (String → String) → String → Option ℕ → String → String → Option String → ℕ → Change
named_change normal asset_type season previous current checksum now = record {
  asset_type = asset_type;
  season_number = season;
  previous_destination = normal previous;
  new_destination = normal current;
  previous_checksum = checksum;
  detected_at = now;
  reported_at = none;
}
