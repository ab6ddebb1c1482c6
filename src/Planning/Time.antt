-- ===== src/Planning/Time.antt =====
-- Timestamps and intervals: `_timestamp_is_due`, `timestamp_due`, `adaptive_artwork_days` and
-- `same_source_verification_days` of helper/incremental.py, `get_image_upgrade_days` of
-- helper/config.py.
pub mod Bounds
use metafusion.Prelude.{
  if◌then◌else◌, ◌==◌, ◌+◌, ◌*◌, ◌^◌, ℕ, ℤ, Option, Bool, pos_part, String, ltb, min, some, true,
  max, pos, leb, false, none,
}

-- A stored timestamp: missing or empty, no ISO time, without or with a zone.
pub data Stamp : Type 0 where
  absent malformed : Stamp
  naive aware : ℕ → Stamp

-- `a or b`
abbrev pub or_stamp : Stamp → Stamp → Stamp
or_stamp absent b = b
or_stamp a b = a

-- A configured number of days, which may be missing or no number.
pub data Setting : Type 0 where
  unset unreadable : Setting
  days : ℤ → Setting

abbrev pub hour : ℕ
hour = 3600000000

abbrev pub day : ℕ
day = 86400000000

-- `_timestamp_is_due`: a time without a zone is in UTC.
unfoldable pub timestamp_is_due : Stamp → ℕ → ℕ → Bool
timestamp_is_due absent interval now = true
timestamp_is_due malformed interval now = true
timestamp_is_due (naive t) interval now = leb (t + interval) now
timestamp_is_due (aware t) interval now = leb (t + interval) now

-- The comparison of `timestamp_due`: a time without a zone is local.
unfoldable pub stamp_due : (ℕ → ℕ) → Stamp → ℕ → ℕ → Bool
stamp_due local absent interval now = true
stamp_due local malformed interval now = true
stamp_due local (naive t) interval now = leb (local t + interval) now
stamp_due local (aware t) interval now = leb (t + interval) now

unfoldable pub timestamp_due : (ℕ → ℕ) → Stamp → Setting → ℕ → Bool
unfolding stamp_due
timestamp_due local value unset now = true
timestamp_due local value unreadable now = true
timestamp_due local value (days z) now =
    if pos_part z == 0 then false else stamp_due local value (pos_part z) now

-- `image_upgrades`
pub record Upgrades : Type 0 where
  pub movie_days : Setting
  pub series_days : Setting
  pub season_days : Setting
  pub default_days : Setting

pub data Interval : Type 0 where
  movie series season : Interval

abbrev own_days : Upgrades → Interval → Setting
own_days u movie = u.movie_days
own_days u series = u.series_days
own_days u season = u.season_days

-- `upgrades.get("default_days", 30.0)` in place of a value that is missing
abbrev pub effective_days : Setting → Setting → ℕ
effective_days unset unset = 30 * day
effective_days unset unreadable = 30 * day
effective_days unset (days z) = pos_part z
effective_days unreadable other = 30 * day
effective_days (days z) other = pos_part z

unfoldable pub get_image_upgrade_days : Upgrades → Interval → ℕ
get_image_upgrade_days u i = effective_days (own_days u i) u.default_days

-- What a cache entry holds on one kind of artwork.
pub record ArtworkState : Type 0 where
  pub last_checked : Stamp
  pub last_upgraded : Stamp
  pub pending_path : Option String
  pub pending_at : Stamp
  pub missing_checks : ℤ
  pub unchanged_checks : ℤ

-- `schedule[min(missing_checks - 1, 5)]`
abbrev pub missing_schedule : ℕ → ℕ
missing_schedule n =
    if leb n 1
    then day
    else if n == 2
    then 3 * day
    else if n == 3
    then 7 * day
    else if n == 4
    then 14 * day
    else if n == 5
    then 30 * day
    else 60 * day

unfoldable pub adapted : ArtworkState → ℕ → ℕ
adapted a base =
    if ltb 0 (pos_part a.missing_checks)
    then min base (missing_schedule (pos_part a.missing_checks))
    else min (max base (180 * day)) (base * 2 ^ min 3 (pos_part a.unchanged_checks))

unfoldable pub adaptive_artwork_days : Option ArtworkState → Setting → Setting
unfolding adapted
adaptive_artwork_days cached unset = unset
adaptive_artwork_days cached unreadable = unreadable
adaptive_artwork_days none (days z) = days z
adaptive_artwork_days (some a) (days z) =
    if pos_part z == 0 then days z else days (pos (adapted a (pos_part z)))

-- `same_source_verification_days`, of the interval's own length.
unfoldable pub same_source_verification_days : ℕ → ℕ
same_source_verification_days base =
    if base == 0 then 0 else min (365 * day) (max (90 * day) (base * 3))
