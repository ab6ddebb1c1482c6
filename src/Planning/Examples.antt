-- ===== src/Planning/Examples.antt =====
-- The theorems about planning at concrete inputs.
use metafusion.Planning.Causes.{
  image_upgrade_reasons, due_selection_causes, due_causes, artwork_due, any_confirmation_due,
  poster, enabled_work_reasons,
}
use metafusion.Planning.Causes.Enabled.{has, due_reasons-enabled}
use metafusion.Planning.Items.{
  PlexItem, CacheEntry, Config, Flags, Counter, no_flags, media_type_of,
}
use metafusion.Planning.Plan.{plan_item, Query, select_items, find_cached, PlannedItem}
use metafusion.Planning.Plan.Due.{plan_item-covers-due}
use metafusion.Planning.Plan.Exact.{IsUnchanged, plan_item-skips}
use metafusion.Planning.Plan.Order.{Sublist, select_items-Sublist}
use metafusion.Planning.Time.{
  ArtworkState, aware, adapted, absent, unset, day, get_image_upgrade_days, adaptive_artwork_days,
  timestamp_due,
}
use metafusion.Planning.Time.Bounds.{adapted_bounds}
use metafusion.Prelude.{
  ◌*◌, ◌≤◌, ◌<◌, ◌≡◌, ◌↔◌, ◌∷◌, refl, [], String, ℕ, List, pos, Bool, some, none, false, true, max,
  min, arith,
}

abbrev same : String → String
same s = s

abbrev utc : ℕ → ℕ
utc t = t

abbrev never_blank : String → Bool
never_blank s = false

abbrev no_digest : List (String × Counter) → String
no_digest counters = "digest"

abbrev unchecked : ArtworkState
unchecked = record {
  last_checked = aware 1000;
  last_upgraded = absent;
  pending_path = none;
  pending_at = absent;
  missing_checks = pos 0;
  unchanged_checks = pos 0;
}

abbrev film : PlexItem
film = record {
  rating_key = "17";
  media_type = some "movie";
  updated_at = some "2024";
  child_count = none;
  season_count = none;
  leaf_count = none;
}

abbrev film_entry : CacheEntry
film_entry = record {
  rating_key = some "17";
  media_type = some "movie";
  plex_updated_at = some "2024";
  config_fingerprint = some "f";
  plex_child_fingerprint = none;
  metadata_pending_count = none;
  metadata_pending_at = absent;
  plex_metadata_last_checked = absent;
  poster = unchecked;
  background = unchecked;
  season = unchecked;
  seasons = [];
}

abbrev config : Config
config = record {
  run_poster = none;
  run_season = none;
  run_background = none;
  upgrades = record {
    movie_days = unset;
    series_days = unset;
    season_days = unset;
    default_days = unset;
  };
  metadata_pending_recheck = none;
  recheck_days = unset;
}

abbrev posters : Flags
posters = record no_flags { metadata_basic = some true; poster = some true }

abbrev at_time : ℕ → Query
at_time now = record {
  cache = some film_entry ∷ [];
  fingerprint = "f";
  is_full = false;
  rating_keys = [];
  config = some config;
  flags = some posters;
  now = now;
  retry_keys = [];
  change_keys = [];
}

adapted_bounds_example :
    let a = record unchecked { missing_checks = pos 3 } in
    (1 ≤ adapted a (30 * day))
    × (adapted a (30 * day) ≤ 30 * day * 8)
    × (adapted a (30 * day) ≤ max (30 * day) (180 * day))
    × (0 < 3
        → (adapted a (30 * day) ≤ 30 * day)
          × (adapted a (30 * day) ≤ 60 * day)
          × (min (30 * day) day ≤ adapted a (30 * day)))
    × (◌≡◌ {A = ℕ} 3 0 → 30 * day ≤ adapted a (30 * day))
adapted_bounds_example =
    adapted_bounds (record unchecked { missing_checks = pos 3 }) (30 * day) (omega arith)

plan_item-skips_example : (plan_item same utc never_blank no_digest (at_time 2000) film ≡ none) ↔ (
    (e : CacheEntry) × (find_cached "17" (some film_entry ∷ []) ≡ some e)
    × IsUnchanged same utc never_blank no_digest (at_time 2000) film e
    × (image_upgrade_reasons same utc (some e) (some "movie") (some config) (some posters) 2000
        ≡ []))
plan_item-skips_example = plan_item-skips same utc never_blank no_digest (at_time 2000) film

select_items-Sublist_case :
    Sublist (select_items same utc never_blank no_digest (at_time 2000) (film ∷ [])) (film ∷ [])
    × (◌≡◌ {A = Bool} false true
        → ◌≡◌ {A = Bool} false false
        → select_items same utc never_blank no_digest (at_time 2000) (film ∷ []) ≡ film ∷ [])
select_items-Sublist_case =
    select_items-Sublist same utc never_blank no_digest (at_time 2000) (film ∷ [])

due_reasons-enabled_case :
    has poster (enabled_work_reasons same utc (some "movie") (some posters)) ≡ true
unfolding image_upgrade_reasons due_selection_causes due_causes artwork_due any_confirmation_due
    get_image_upgrade_days adaptive_artwork_days timestamp_due no_flags media_type_of
due_reasons-enabled_case =
    due_reasons-enabled same utc poster film_entry (some "movie") config posters 2678400001000 refl
      refl refl

plan_item-covers-due_example :
    (p : PlannedItem) × (plan_item same utc never_blank no_digest (at_time 2678400001000) film
      ≡ some p)
    × (has poster p.reasons ≡ true)
unfolding image_upgrade_reasons due_selection_causes due_causes artwork_due any_confirmation_due
    get_image_upgrade_days adaptive_artwork_days timestamp_due no_flags media_type_of find_cached
plan_item-covers-due_example =
    plan_item-covers-due same utc never_blank no_digest poster (at_time 2678400001000) film
      film_entry config posters refl refl refl refl refl refl
