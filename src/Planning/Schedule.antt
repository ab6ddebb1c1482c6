-- ===== src/Planning/Schedule.antt =====
-- `artwork_schedule_summary` and `metadata_schedule_summary` of helper/incremental.py.
use metafusion.Planning.Causes.{
  Reason, Cause, metadata, poster, background, seasons, metadata_pending_recheck,
  due_selection_causes, any_metadata, plex_metadata_recheck, tmdb_change_detected,
  deferred_retry_due,
}
use metafusion.Planning.Items.{
  PlexItem, CacheEntry, Counter, or_text, text, Config, number, Flags, media_type_of, is_movie,
  flag, is_tv,
}
use metafusion.Planning.Plan.{PlannedItem, Query, find_cached, candidates}
use metafusion.Planning.Time.{
  Stamp, ArtworkState, absent, or_stamp, Setting, timestamp_due, adaptive_artwork_days, days,
  get_image_upgrade_days, season, series, movie,
}
use metafusion.Prelude.{
  ◌==◌, if◌then◌else◌, ◌+◌, ◌-◌, ◌&&◌, ◌||◌, ◌∷◌, ◌++◌, [], ℕ, String, Option, List, Bool, max,
  some, true, none, length, not, replicate, false, str_eq, is_some, pos, any, negsuc,
}

pub record Counts : Type 0 where
  pub destinations : ℕ
  pub due : ℕ
  pub required : ℕ
  pub forced : ℕ
  pub not_due : ℕ

unfoldable pub no_counts : Counts
no_counts = record { destinations = 0; due = 0; required = 0; forced = 0; not_due = 0 }

pub record Summary : Type 0 where
  pub poster : Counts
  pub background : Counts
  pub season_poster : Counts
  pub inventory_unknown : ℕ

-- The four states of a destination.
pub data State : Type 0 where
  required_state due_state forced_state not_due_state : State

unfoldable pub count : State → Counts → Counts
count required_state n = record n { destinations = n.destinations + 1; required = n.required + 1 }
count due_state n = record n { destinations = n.destinations + 1; due = n.due + 1 }
count forced_state n = record n { destinations = n.destinations + 1; forced = n.forced + 1 }
count not_due_state n = record n { destinations = n.destinations + 1; not_due = n.not_due + 1 }

abbrev pub is_absent : Stamp → Bool
is_absent absent = true
is_absent _ = false

-- The planned item of a rating key: of two, the last.
unfoldable pub find_planned : String → List PlannedItem → Option PlannedItem
find_planned k [] = none
find_planned k (p ∷ ps) = elim (find_planned k ps) [
  | some found ↦ some found
  | none ↦ if str_eq p.item.rating_key k then some p else none
]

abbrev pub reasons_of_planned : Option PlannedItem → List Reason
reasons_of_planned none = []
reasons_of_planned (some p) = p.reasons

abbrev pub causes_of_planned : Option PlannedItem → List Cause
causes_of_planned none = []
causes_of_planned (some p) = p.causes

-- `seasonCount` or `childCount`, if it is a number that is not negative.
abbrev pub inventory_count : Option Counter → Option ℕ
inventory_count none = none
inventory_count (some (text t)) = none
inventory_count (some (number (negsuc n))) = none
inventory_count (some (number (pos n))) = some n

abbrev pub or_zero : Option ℕ → ℕ
or_zero none = 0
or_zero (some n) = n

abbrev pub seasons_of : Option CacheEntry → List (String × Option ArtworkState)
seasons_of none = []
seasons_of (some e) = e.seasons

-- The records that are dictionaries.
abbrev pub dictionaries : List (String × Option ArtworkState) → List (Option ArtworkState)
dictionaries [] = []
dictionaries ((k, none) ∷ rest) = dictionaries rest
dictionaries ((k, some a) ∷ rest) = some a ∷ dictionaries rest

abbrev pub destination_count : PlexItem → Option CacheEntry → ℕ
destination_count item cached =
    max (length (seasons_of cached)) (
      max (or_zero (inventory_count item.season_count))
        (or_zero (inventory_count item.child_count)))

abbrev pub inventory_unknown : PlexItem → Option CacheEntry → Bool
inventory_unknown item cached =
    not (is_some (inventory_count item.season_count))
    && not (is_some (inventory_count item.child_count))
    && length (seasons_of cached) == 0

-- The season state of the entry itself, where it has been checked.
abbrev pub whole_show : Option CacheEntry → ℕ → List (Option ArtworkState)
whole_show none n = []
whole_show (some e) n = if is_absent e.season.last_checked then [] else replicate n (some e.season)

abbrev pub own_records :
    List (Option ArtworkState) → Option CacheEntry → ℕ → List (Option ArtworkState)
own_records [] cached n = whole_show cached n
own_records (r ∷ rs) cached n = r ∷ rs

-- `_season_destination_records`
unfoldable pub season_destination_records :
    PlexItem → Option CacheEntry → List (Option ArtworkState) × Bool
season_destination_records item cached =
    let n = destination_count item cached in
    let records = own_records (dictionaries (seasons_of cached)) cached n in
    (records ++ replicate (n - length records) none, inventory_unknown item cached)

-- An entry's state on one kind of artwork, or that of no entry.
abbrev pub no_artwork : ArtworkState
no_artwork = record {
  last_checked = absent;
  last_upgraded = absent;
  pending_path = none;
  pending_at = absent;
  missing_checks = pos 0;
  unchanged_checks = pos 0;
}

abbrev pub state_of : (CacheEntry → ArtworkState) → Option CacheEntry → ArtworkState
state_of kind none = no_artwork
state_of kind (some e) = kind e

abbrev pub season_stamp : ArtworkState → Option ArtworkState → Stamp
season_stamp show none = absent
season_stamp show (some a) =
    or_stamp a.last_checked
      (or_stamp a.last_upgraded (or_stamp show.last_checked show.last_upgraded))

-- The media type of an item, or else of its entry.
abbrev pub own_type : PlexItem → Option CacheEntry → Option String
own_type item none = or_text item.media_type none
own_type item (some e) = or_text item.media_type e.media_type

module _ (lower : String → String) (local : ℕ → ℕ) (blank : String → Bool)
    (digest : List (String × Counter) → String) where
  unfoldable pub classify : Stamp → Setting → Bool → ℕ → State
  classify stamp interval selected now =
      if is_absent stamp
      then required_state
      else if timestamp_due local stamp interval now
      then due_state
      else if selected
      then forced_state
      else not_due_state

  -- The loop over the season records.
  unfoldable pub count_seasons :
      List (Option ArtworkState) → ArtworkState → Setting → Bool → ℕ → Counts → Counts
  count_seasons [] show interval selected now n = n
  count_seasons (r ∷ rs) show interval selected now n =
      count_seasons rs show interval selected now
        (count (classify (season_stamp show r) interval selected now) n)

  -- The destination of an item's poster or background.
  abbrev pub count_lane : Bool → ArtworkState → ℕ → Bool → ℕ → Counts → Counts
  count_lane enabled a interval selected now n =
      if enabled
      then count
          (classify (or_stamp a.last_checked a.last_upgraded)
            (adaptive_artwork_days (some a) (days (pos interval))) selected now)
          n
      else n

  abbrev pub has_reason : (Reason → Bool) → Option PlannedItem → Bool
  has_reason p planned = any p (reasons_of_planned planned)

  abbrev pub is_metadata : Reason → Bool
  is_metadata metadata = true
  is_metadata _ = false

  abbrev pub is_poster : Reason → Bool
  is_poster poster = true
  is_poster _ = false

  abbrev pub is_background : Reason → Bool
  is_background background = true
  is_background _ = false

  abbrev pub is_seasons : Reason → Bool
  is_seasons seasons = true
  is_seasons _ = false

  unfoldable pub summarize_seasons :
      Query → Config → Flags → PlexItem → Option CacheEntry → Option PlannedItem → Summary → Summary
  summarize_seasons q c f item cached planned s =
      let show = state_of (λ e. e.season) cached in
      let (records, unknown) = season_destination_records item cached in
      record s {
        season_poster =
            count_seasons records show
              (adaptive_artwork_days (some show)
                (days (pos (get_image_upgrade_days c.upgrades season))))
              (has_reason is_seasons planned) q.now s.season_poster;
        inventory_unknown = if unknown then s.inventory_unknown + 1 else s.inventory_unknown;
      }

  -- The loop over the poster and the background.
  unfoldable pub count_lanes :
      ℕ → Flags → ℕ → Option CacheEntry → Option PlannedItem → Summary → Summary
  count_lanes now f interval cached planned s = record s {
    poster =
        count_lane (flag f.poster false) (state_of (λ e. e.poster) cached) interval
          (has_reason is_poster planned) now s.poster;
    background =
        count_lane (flag f.background false) (state_of (λ e. e.background) cached) interval
          (has_reason is_background planned) now s.background;
  }

  unfoldable pub summarize_typed :
      Query
      → Config
      → Flags
      → Bool
      → PlexItem
      → Option CacheEntry
      → Option PlannedItem
      → Summary
      → Summary
  summarize_typed q c f tv item cached planned s =
      let interval = get_image_upgrade_days c.upgrades (if tv then series else movie) in
      let s' = count_lanes q.now f interval cached planned s in
      if tv && flag f.season false then summarize_seasons q c f item cached planned s' else s'

  -- The body of the loop over the candidates.
  unfoldable pub summarize_item :
      Query → Config → Flags → List PlannedItem → PlexItem → Summary → Summary
  unfolding summarize_typed
  summarize_item q c f plan item s =
      let cached = find_cached item.rating_key q.cache in
      let planned = find_planned item.rating_key plan in
      let t = media_type_of lower (own_type item cached) in
      if is_movie t
      then summarize_typed q c f false item cached planned s
      else if is_tv t
      then summarize_typed q c f true item cached planned s
      else s

  unfoldable pub summarize_all :
      Query → Config → Flags → List PlannedItem → List PlexItem → Summary → Summary
  summarize_all q c f plan [] s = s
  summarize_all q c f plan (item ∷ items) s =
      summarize_all q c f plan items (summarize_item q c f plan item s)

  unfoldable pub no_summary : Summary
  unfolding no_counts
  no_summary = record {
    poster = no_counts;
    background = no_counts;
    season_poster = no_counts;
    inventory_unknown = 0;
  }

  -- `artwork_schedule_summary`
  unfoldable pub artwork_schedule_summary :
      Query → Config → Flags → List PlannedItem → List PlexItem → Summary
  artwork_schedule_summary q c f plan items =
      summarize_all q c f plan (candidates lower local blank digest q items) no_summary

  abbrev pub is_metadata_cause : Cause → Bool
  is_metadata_cause metadata_pending_recheck = true
  is_metadata_cause plex_metadata_recheck = true
  is_metadata_cause tmdb_change_detected = true
  is_metadata_cause deferred_retry_due = true
  is_metadata_cause _ = false

  -- The state of an item's metadata, which has an entry `e`.
  unfoldable pub metadata_state :
      Query → Config → Flags → String → CacheEntry → Option PlannedItem → State
  metadata_state q c f t e planned =
      let causes =
        causes_of_planned planned
        ++ due_selection_causes lower local (some e) (some t) (some c) (some f) q.now in
      if has_reason is_metadata planned && any is_metadata_cause causes
      then due_state
      else if has_reason is_metadata planned
      then forced_state
      else not_due_state

  abbrev pub metadata_state_of :
      Query → Config → Flags → String → Option CacheEntry → Option PlannedItem → State
  metadata_state_of q c f t none planned = required_state
  metadata_state_of q c f t (some e) planned = metadata_state q c f t e planned

  unfoldable pub count_metadata :
      Query → Config → Flags → List PlannedItem → List PlexItem → Counts → Counts
  count_metadata q c f plan [] n = n
  count_metadata q c f plan (item ∷ items) n =
      let cached = find_cached item.rating_key q.cache in
      let t = media_type_of lower (own_type item cached) in
      let state = metadata_state_of q c f t cached (find_planned item.rating_key plan) in
      count_metadata q c f plan items (if is_movie t || is_tv t then count state n else n)

  -- `metadata_schedule_summary`
  unfoldable pub metadata_schedule_summary :
      Query → Config → Flags → List PlannedItem → List PlexItem → Counts
  metadata_schedule_summary q c f plan items =
      if any_metadata f
      then count_metadata q c f plan (candidates lower local blank digest q items) no_counts
      else no_counts
