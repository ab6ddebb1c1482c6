-- ===== src/Planning/Items.antt =====
-- What the planner reads: items of the media server, cache entries, the configuration and the
-- feature flags; and `child_inventory_fingerprint` and `_media_type` of helper/incremental.py.
use metafusion.Planning.Time.{Stamp, Upgrades, ArtworkState, Setting}
use metafusion.Prelude.{
  if◌then◌else◌, ◌||◌, ◌∷◌, ◌++◌, [], ℤ, String, Option, none, Bool, List, not, false, str_eq, some,
  is_some,
}

-- A counter of the media server, after `int()`: a number, or a text that is none.
pub data Counter : Type 0 where
  number : ℤ → Counter
  text : String → Counter

pub record PlexItem : Type 0 where
  pub rating_key : String
  pub media_type : Option String
  pub updated_at : Option String
  pub child_count : Option Counter
  pub season_count : Option Counter
  pub leaf_count : Option Counter

-- `seasons` holds `none` for a value that is no dictionary.
pub record CacheEntry : Type 0 where
  pub rating_key : Option String
  pub media_type : Option String
  pub plex_updated_at : Option String
  pub config_fingerprint : Option String
  pub plex_child_fingerprint : Option String
  pub metadata_pending_count : Option ℤ
  pub metadata_pending_at : Stamp
  pub plex_metadata_last_checked : Stamp
  pub poster : ArtworkState
  pub background : ArtworkState
  pub season : ArtworkState
  pub seasons : List (String × Option ArtworkState)

-- `feature_flags`
pub record Flags : Type 0 where
  pub metadata_basic : Option Bool
  pub metadata_enhanced : Option Bool
  pub plex_metadata : Option Bool
  pub poster : Option Bool
  pub season : Option Bool
  pub background : Option Bool

-- `flags.get(name, default)`
abbrev pub flag : Option Bool → Bool → Bool
flag none d = d
flag (some b) d = b

unfoldable pub no_flags : Flags
no_flags = record {
  metadata_basic = none;
  metadata_enhanced = none;
  plex_metadata = none;
  poster = none;
  season = none;
  background = none;
}

abbrev pub is_empty : Flags → Bool
is_empty f = not (
    is_some f.metadata_basic
    || is_some f.metadata_enhanced
    || is_some f.plex_metadata
    || is_some f.poster
    || is_some f.season
    || is_some f.background)

-- `flags or default`
abbrev pub or_flags : Option Flags → Flags → Flags
or_flags none d = d
or_flags (some f) d = if is_empty f then d else f

-- `assets` holds the switches of the artwork; `metadata_pending_recheck` and `recheck_days` are
-- those of `incremental` and `plex_metadata`.
pub record Config : Type 0 where
  pub run_poster : Option Bool
  pub run_season : Option Bool
  pub run_background : Option Bool
  pub upgrades : Upgrades
  pub metadata_pending_recheck : Option ℤ
  pub recheck_days : Setting

-- Whether an optional text is there and not empty.
abbrev pub truthy : Option String → Bool
truthy none = false
truthy (some s) = not (str_eq s "")

abbrev pub or_text : Option String → Option String → Option String
or_text a b = if truthy a then a else b

abbrev pub text_of : Option String → String
text_of none = ""
text_of (some s) = s

abbrev pub is_tv : String → Bool
is_tv t = str_eq t "tv"

abbrev pub is_movie : String → Bool
is_movie t = str_eq t "movie"

abbrev normal_type : String → String
normal_type t =
    if str_eq t "show" || str_eq t "shows" then "tv" else if str_eq t "movies" then "movie" else t

-- `_media_type`
unfoldable pub media_type_of : (String → String) → Option String → String
media_type_of lower value = normal_type (lower (text_of value))

abbrev counters_of : PlexItem → List (String × Counter)
counters_of item =
    counter "children" item.child_count
    ++ counter "seasons" item.season_count
    ++ counter "episodes" item.leaf_count
  where
    counter : String → Option Counter → List (String × Counter)
    counter name none = []
    counter name (some c) = (name, c) ∷ []

-- `child_inventory_fingerprint`
unfoldable pub child_inventory_fingerprint :
    (String → String) → (List (String × Counter) → String) → PlexItem → Option String
child_inventory_fingerprint lower digest item =
    let t = lower (text_of item.media_type) in
    if str_eq t "show" || str_eq t "shows" || str_eq t "tv"
    then fingerprint (counters_of item)
    else none
  where
    fingerprint : List (String × Counter) → Option String
    fingerprint [] = none
    fingerprint (c ∷ cs) = some (digest (c ∷ cs))
