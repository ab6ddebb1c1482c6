-- ===== src/Resume/Examples.antt =====
-- The retry queue with the planner, at an item that its cache entry calls unchanged.
use metafusion.Planning.Items.{PlexItem, CacheEntry}
use metafusion.Planning.Plan.{Query, plan_item}
use metafusion.Planning.Time.{ArtworkState, absent}
use metafusion.Prelude.{
  ◌≡◌, ◌∷◌, refl, [], true, false, none, some, String, is_some, Bool, pos, List,
}
use metafusion.Resume.{keys_of, interrupted-planned}
use metafusion.Retries.{
  StartedItem, load_due_item_retries, mark_items_started, retry_events, RetryEvent, cleared,
  started,
}

abbrev unchecked : ArtworkState
unchecked = record {
  last_checked = absent;
  last_upgraded = absent;
  pending_path = none;
  pending_at = absent;
  missing_checks = pos 0;
  unchanged_checks = pos 0;
}

abbrev film : PlexItem
film = record {
  rating_key = "17";
  media_type = some "movie";
  updated_at = some "2024";
  child_count = none;
  season_count = none;
  leaf_count = none;
}

abbrev film_entry : CacheEntry
film_entry = record {
  rating_key = some "17";
  media_type = some "movie";
  plex_updated_at = some "2024";
  config_fingerprint = some "f";
  plex_child_fingerprint = none;
  metadata_pending_count = none;
  metadata_pending_at = absent;
  plex_metadata_last_checked = absent;
  poster = unchecked;
  background = unchecked;
  season = unchecked;
  seasons = [];
}

abbrev started_film : StartedItem
started_film = record {
  rating_key = some "17";
  library_name = some "Movies";
  media_type = some "movie";
  plex_updated_at = some "2024";
}

abbrev never_blank : String → Bool
never_blank s = false

-- Another item is completed, and the item is started once more.
abbrev later_calls : List RetryEvent
later_calls = cleared ("18" ∷ []) ∷ started 5 (started_film ∷ []) ∷ []

abbrev scan : Query
scan = record {
  cache = some film_entry ∷ [];
  fingerprint = "f";
  is_full = false;
  rating_keys = [];
  config = none;
  flags = none;
  now = 9;
  retry_keys = keys_of (
      load_due_item_retries 9
        (retry_events later_calls (mark_items_started 1 (started_film ∷ []) []).0));
  change_keys = [];
}

interrupted-planned_example :
    is_some (plan_item (λ s. s) (λ t. t) never_blank (λ counters. "digest") scan film) ≡ true
interrupted-planned_example =
    interrupted-planned (λ s. s) (λ t. t) never_blank (λ counters. "digest") scan film 1 9
      (started_film ∷ []) later_calls [] tt (refl, (tt, tt)) refl refl refl
