-- ===== src/Artwork/Guard.antt =====
-- `stale_image`, `_upgrade_quality_comparison`, `_quality_guard_decision`,
-- `_canonical_upgrade_decision`, `smart_asset_upgrade` and `smart_season_asset_upgrade` of
-- modules/utils.py. Scores and aspects are hundredths, votes ten-thousandths.
pub mod Accepts
pub mod Stable
pub mod Stale
pub mod Upgrade
use metafusion.Planning.Time.{
  Stamp, Setting, naive, aware, days, unset, unreadable, absent, malformed,
}
use metafusion.Prelude.{
  if◌then◌else◌, ◌==◌, ◌+◌, ◌-◌, ◌*◌, ◌&&◌, ◌||◌, ℕ, Bool, leb, Option, String, ltb, true, ℤ, not,
  false, some, max, str_eq, pos_part, none,
}

-- `stale_image`
abbrev pub stale_from : (ℕ → ℕ) → Stamp → ℕ → ℕ → Bool
stale_from local absent interval now = true
stale_from local malformed interval now = true
stale_from local (naive t) interval now = leb interval (now - local t) && leb (local t) now
stale_from local (aware t) interval now = leb interval (now - t) && leb t now

unfoldable pub stale_image : (ℕ → ℕ) → Stamp → Setting → ℕ → Bool
stale_image local last_upgraded unset now = true
stale_image local last_upgraded unreadable now = true
stale_image local last_upgraded (days z) now =
    if leb (pos_part z) 0 then false else stale_from local last_upgraded (pos_part z) now

-- An image as it is compared: its quality score, its provider's rating, and its size.
pub record Scored : Type 0 where
  pub score : ℕ
  pub aspect : ℕ
  pub blank_penalty : Bool
  pub average : ℕ
  pub count : ℕ
  pub width : ℕ
  pub height : ℕ

pub record Comparison : Type 0 where
  pub candidate_valid : Bool
  pub quality_improved : Bool
  pub quality_not_worse : Bool
  pub provider_improved : Bool
  pub provider_not_worse : Bool
  pub dimensions_no_worse : Bool
  pub material_dimension_gain : Bool
  pub aspect_not_worse : Bool

-- `_upgrade_quality_comparison`, of the scored images.
unfoldable pub compare_quality : Scored → Scored → Comparison
compare_quality new existing =
    let tiebreak =
      leb existing.average new.average
      && leb new.average (existing.average + 5000)
      && ltb existing.count new.count in
    let no_smaller = leb existing.width new.width && leb existing.height new.height in
    let existing_area = max 1 (existing.width * existing.height) in
    record {
      candidate_valid = not new.blank_penalty;
      quality_improved = leb (existing.score + 100) new.score;
      quality_not_worse = leb existing.score new.score;
      provider_improved = ltb existing.average new.average || tiebreak;
      provider_not_worse = leb existing.average new.average;
      dimensions_no_worse = no_smaller;
      material_dimension_gain =
          no_smaller && leb (existing_area * 11) (new.width * new.height * 10);
      aspect_not_worse = leb existing.aspect new.aspect;
    }

pub data Status : Type 0 where
  no_existing_asset already_up_to_date error_image_compare no_image_for_compare : Status
  upgrade_tmdb_canonical tmdb_canonical_change_pending : Status
  force_upgrade_stale stale_candidate_downgrade quality_guard_rejected upgrade_threshold : Status
  upgrade_relaxed upgrade_votes upgrade_zero_vote_season upgrade_dimensions upgrade_quality : Status

pub record Votes : Type 0 where
  pub new_votes : ℕ
  pub cached_votes : ℕ
  pub vote_relaxed : ℕ
  pub vote_threshold : ℕ

abbrev pub meets_floor : Votes → Bool
meets_floor v = v.new_votes == 0 || leb v.vote_relaxed v.new_votes

abbrev pub strict_no_downgrade : Comparison → Bool
strict_no_downgrade c =
    c.candidate_valid && c.quality_not_worse && c.provider_not_worse && c.dimensions_no_worse
    && c.aspect_not_worse

abbrev pub quality_upgrade : Comparison → Votes → Bool
quality_upgrade c v = meets_floor v && c.quality_improved

abbrev pub dimension_upgrade : Comparison → Votes → Bool
dimension_upgrade c v =
    meets_floor v
    && c.quality_not_worse
    && c.provider_not_worse
    && c.aspect_not_worse
    && c.material_dimension_gain

abbrev pub provider_upgrade : Comparison → Votes → Bool
provider_upgrade c v =
    meets_floor v
    && c.quality_not_worse
    && c.provider_improved
    && c.dimensions_no_worse
    && c.aspect_not_worse

abbrev pub accepts : Comparison → Votes → Bool
accepts c v =
    c.candidate_valid && (quality_upgrade c v || dimension_upgrade c v || provider_upgrade c v)

-- Which upgrade it is.
abbrev pub upgrade_status : Comparison → Votes → Bool → Status
upgrade_status c v season =
    if ltb v.cached_votes v.vote_threshold && leb v.vote_threshold v.new_votes
    then upgrade_threshold
    else if ltb v.cached_votes v.vote_relaxed
        && leb v.vote_relaxed v.new_votes
        && ltb v.new_votes v.vote_threshold
    then upgrade_relaxed
    else if ltb v.cached_votes v.new_votes || provider_upgrade c v
    then upgrade_votes
    else if dimension_upgrade c v
    then (if season && v.new_votes == 0 && v.cached_votes == 0
        then upgrade_zero_vote_season
        else upgrade_dimensions)
    else upgrade_quality

-- `_quality_guard_decision`; the suffix of a season's status is left out.
unfoldable pub quality_guard_decision : Comparison → Votes → Bool → Bool → Bool × Status
quality_guard_decision c v stale season =
    if stale
    then (if meets_floor v && strict_no_downgrade c
        then (true, force_upgrade_stale)
        else (false, stale_candidate_downgrade))
    else if not (accepts c v)
    then (false, quality_guard_rejected)
    else (true, upgrade_status c v season)

-- What the provider says of the new image; what the cache holds of the one in place.
pub record NewImage : Type 0 where
  pub tmdb_canonical : Bool
  pub provider : Option String
  pub file_path : Option String

pub record Applied : Type 0 where
  pub source_path : Option String
  pub pending_path : Option String
  pub pending_observations : Option ℤ

abbrev pub text_or : Option String → String → String
text_or none d = d
text_or (some s) d = if str_eq s "" then d else s

abbrev pub observations : Option ℤ → ℕ
observations none = 0
observations (some z) = pos_part z

-- `_canonical_upgrade_decision`
unfoldable pub canonical_upgrade_decision :
    (String → String) → Applied → NewImage → Option (Bool × Status)
canonical_upgrade_decision lower cached new =
    let source = text_or new.file_path "" in
    if not new.tmdb_canonical || not (str_eq (lower (text_or new.provider "tmdb")) "tmdb")
    then none
    else if str_eq source ""
    then none
    else if str_eq (text_or cached.source_path "") source
    then some (true, upgrade_tmdb_canonical)
    else if str_eq (text_or cached.pending_path "") source
        && leb 1 (observations cached.pending_observations)
    then some (true, upgrade_tmdb_canonical)
    else some (false, tmdb_canonical_change_pending)

-- The checksums of the image in place and of the new one; `raised` if one cannot be read.
pub data Checksums : Type 0 where
  raised : Checksums
  md5 : String → String → Checksums

-- What the file system answers: whether the asset exists, whether there is a new image, their
-- checksums, and whether the image in place can be opened.
pub record Files : Type 0 where
  pub asset_exists : Bool
  pub new_image_exists : Bool
  pub checksums : Checksums
  pub opens : Bool

-- From the comparison of the quality on.
abbrev pub by_canonical : Option (Bool × Status) → Bool × Status → Bool × Status
by_canonical none guarded = guarded
by_canonical (some d) guarded = d

abbrev pub after_checksums : Checksums → Bool → Bool × Status → Bool × Status
after_checksums raised opens decided = (false, error_image_compare)
after_checksums (md5 existing new) opens decided =
    if str_eq existing new
    then (false, already_up_to_date)
    else if opens
    then decided
    else (false, error_image_compare)

-- `smart_asset_upgrade`, and `smart_season_asset_upgrade` with `season` set.
unfoldable pub smart_upgrade :
    (String → String)
    → Bool
    → Files
    → Applied
    → NewImage
    → Scored
    → Scored
    → Votes
    → Bool
    → Bool × Status
smart_upgrade lower season files cached new scored existing votes stale =
    if not files.asset_exists
    then (true, no_existing_asset)
    else if not files.new_image_exists
    then (false, no_image_for_compare)
    else after_checksums files.checksums files.opens (
        by_canonical (canonical_upgrade_decision lower cached new)
          (quality_guard_decision (compare_quality scored existing) votes stale season))
