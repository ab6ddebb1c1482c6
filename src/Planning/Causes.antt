-- ===== src/Planning/Causes.antt =====
-- `due_selection_causes`, `image_upgrade_reasons` and `enabled_work_reasons` of
-- helper/incremental.py. A set of causes or of reasons is a list.
pub mod Enabled
use metafusion.Planning.Items.{
  Config, CacheEntry, Flags, no_flags, flag, or_flags, truthy, media_type_of, is_tv, or_text,
  is_movie,
}
use metafusion.Planning.Time.{
  Setting, ArtworkState, days, hour, Stamp, timestamp_is_due, day, timestamp_due,
  adaptive_artwork_days, or_stamp, unset, get_image_upgrade_days, season, movie, series,
}
use metafusion.Prelude.{
  if◌then◌else◌, ◌*◌, ◌/◌, ◌&&◌, ◌||◌, ◌∷◌, ◌++◌, [], Bool, List, String, true, Option, ℕ, false,
  some, ℤ, ltb, any, pos_part, pos, map, max, none, not, is_some,
}

pub data Cause : Type 0 where
  metadata_pending_recheck plex_metadata_recheck poster_refresh_due : Cause
  background_refresh_due season_refresh_due tmdb_change_detected deferred_retry_due : Cause
  new_rating_key missing_plex_update_marker plex_updated_at_changed configuration_changed : Cause
  tv_child_inventory_baseline tv_child_inventory_changed targeted_rating_key full_scan : Cause

pub data Reason : Type 0 where
  metadata poster background seasons identity : Reason

-- The set with one element if the test holds, and the empty one otherwise.
abbrev pub when {ℓ} : {A : Type ℓ} → Bool → A → List A
when true a = a ∷ []
when false a = []

abbrev pub is_poster_due : Cause → Bool
is_poster_due poster_refresh_due = true
is_poster_due _ = false

abbrev pub is_background_due : Cause → Bool
is_background_due background_refresh_due = true
is_background_due _ = false

abbrev pub is_season_due : Cause → Bool
is_season_due season_refresh_due = true
is_season_due _ = false

abbrev pub is_metadata_due : Cause → Bool
is_metadata_due metadata_pending_recheck = true
is_metadata_due plex_metadata_recheck = true
is_metadata_due _ = false

abbrev pub default_flags : Config → Flags
default_flags c = record no_flags {
  poster = some (flag c.run_poster true);
  season = some (flag c.run_season true);
  background = some (flag c.run_background false);
}

-- The loop of `_canonical_confirmation_due` over the records.
unfoldable pub any_confirmation_due : List (Option ArtworkState) → ℕ → Bool
any_confirmation_due [] now = false
any_confirmation_due (none ∷ records) now = any_confirmation_due records now
any_confirmation_due (some a ∷ records) now =
    (truthy a.pending_path && timestamp_is_due a.pending_at (24 * hour) now)
    || any_confirmation_due records now

-- `max(0.1, metadata_pending_recheck_hours)`
abbrev pub recheck_interval : Config → ℕ
recheck_interval c = max (hour / 10) (interval c.metadata_pending_recheck)
  where
    interval : Option ℤ → ℕ
    interval none = 24 * hour
    interval (some z) = pos_part z

abbrev pub pending_count : CacheEntry → ℕ
pending_count e = count e.metadata_pending_count
  where
    count : Option ℤ → ℕ
    count none = 0
    count (some z) = pos_part z

abbrev pub any_metadata : Flags → Bool
any_metadata f =
    flag f.metadata_basic false || flag f.metadata_enhanced false || flag f.plex_metadata false

-- `recheck_days`, which is 30 where the key is missing.
abbrev pub recheck_days_of : Config → Setting
recheck_days_of c = with_default c.recheck_days
  where
    with_default : Setting → Setting
    with_default unset = days (pos (30 * day))
    with_default s = s

-- The season records of an entry.
abbrev pub season_records : CacheEntry → List (Option ArtworkState)
season_records e = map (λ s. s.1) e.seasons

module _ (lower : String → String) (local : ℕ → ℕ) where
  -- Whether a kind of artwork is due, by the pending confirmations in `records`, or by the time of
  -- the last check.
  unfoldable pub artwork_due : List (Option ArtworkState) → Stamp → ArtworkState → ℕ → ℕ → Bool
  artwork_due records checked a interval now =
      (ltb 0 interval && any_confirmation_due records now)
      || timestamp_due local checked (adaptive_artwork_days (some a) (days (pos interval))) now

  -- `due_selection_causes` of an entry, from the choice of the interval on.
  unfoldable pub due_causes : CacheEntry → Bool → ℕ → Config → Bool → Flags → ℕ → List Cause
  due_causes e tv interval c metadata_enabled f now =
      when
        (ltb 0 (pending_count e)
          && metadata_enabled
          && timestamp_is_due e.metadata_pending_at (recheck_interval c) now)
        metadata_pending_recheck
      ++ when
          (flag f.plex_metadata false
            && timestamp_due local e.plex_metadata_last_checked (recheck_days_of c) now)
          plex_metadata_recheck
      ++ when
          (flag f.poster false
            && artwork_due (some e.poster ∷ [])
                (or_stamp e.poster.last_checked e.poster.last_upgraded) e.poster interval now)
          poster_refresh_due
      ++ when
          (flag f.background false
            && artwork_due (some e.background ∷ [])
                (or_stamp e.background.last_checked e.background.last_upgraded) e.background
                interval now)
          background_refresh_due
      ++ when
          (tv
            && flag f.season false
            && artwork_due (season_records e) e.season.last_checked e.season
                (get_image_upgrade_days c.upgrades season) now)
          season_refresh_due

  -- `due_selection_causes`. The configuration is `none` where it is missing, and where it is empty,
  -- which the code treats alike.
  unfoldable pub due_selection_causes :
      Option CacheEntry → Option String → Option Config → Option Flags → ℕ → List Cause
  unfolding due_causes
  due_selection_causes none media_type config flags now = []
  due_selection_causes (some e) media_type none flags now = []
  due_selection_causes (some e) media_type (some c) flags now =
      let f = or_flags flags (default_flags c) in
      let t = media_type_of lower (or_text media_type e.media_type) in
      let enabled = not (is_some flags) || any_metadata f in
      if is_movie t
      then due_causes e false (get_image_upgrade_days c.upgrades movie) c enabled f now
      else if is_tv t
      then due_causes e true (get_image_upgrade_days c.upgrades series) c enabled f now
      else []

  -- `image_upgrade_reasons`
  unfoldable pub image_upgrade_reasons :
      Option CacheEntry → Option String → Option Config → Option Flags → ℕ → List Reason
  image_upgrade_reasons cached media_type config flags now =
      let causes = due_selection_causes cached media_type config flags now in
      when (any is_metadata_due causes) metadata
      ++ when (any is_poster_due causes) poster
      ++ when (any is_background_due causes) background
      ++ when (any is_season_due causes) seasons

  -- `reasons or {"identity"}`
  abbrev pub or_identity : List Reason → List Reason
  or_identity [] = identity ∷ []
  or_identity (r ∷ rs) = r ∷ rs

  -- `enabled_work_reasons`
  unfoldable pub enabled_work_reasons : Option String → Option Flags → List Reason
  enabled_work_reasons media_type flags =
      let f = or_flags flags no_flags in
      or_identity (
        when
          (flag f.metadata_basic true
            || flag f.metadata_enhanced false
            || flag f.plex_metadata false)
          metadata
        ++ when (flag f.poster false) poster
        ++ when (flag f.background false) background
        ++ when (is_tv (media_type_of lower media_type) && flag f.season false) seasons)
