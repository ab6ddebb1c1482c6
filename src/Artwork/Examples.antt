-- ===== src/Artwork/Examples.antt =====
-- The theorems about artwork at concrete inputs.
use metafusion.Artwork.Guard.{
  Scored, Votes, Files, Applied, NewImage, smart_upgrade, quality_guard_decision, stale_image,
  canonical_upgrade_decision, compare_quality, md5,
}
use metafusion.Artwork.Guard.Accepts.{Accepted, smart_upgrade-Accepted}
use metafusion.Artwork.Guard.Stable.{guard_no_flip_flop}
use metafusion.Artwork.Guard.Stale.{stale_image-timestamp_due}
use metafusion.Artwork.Guard.Upgrade.{
  CachedImage, Sections, Offer, smart_asset_upgrade, IsSafe, smart_season_asset_upgrade, image_of,
  no_image, season_image_of, smart_upgrades-IsSafe,
}
use metafusion.Artwork.Ownership.{
  OwnedEntry, FileInPlace, asset_write_allowed, claim_asset_destination, poster, record_of,
  modified, claim_asset_destination-excludes, Proves, asset_write_allowed_lem, claim_all,
}
use metafusion.Planning.Time.{aware, days, timestamp_due}
use metafusion.Prelude.{
  ◌≡◌, ◌↔◌, ◌⊎◌, refl, [], String, ℕ, some, true, lookup, false, none, Bool, str_eq, pos, ◌∷◌,
}

abbrev same : String → String
same s = s

abbrev owned : OwnedEntry
owned = record {
  poster = record { checksum = some "sum"; path = some "p.jpg" };
  background = record { checksum = none; path = none };
  seasons = [];
}

abbrev in_place : FileInPlace
in_place = record { is_there = true; sha256 = some "sum" }

asset_write_allowed_lem_example :
    ((asset_write_allowed same same "managed" poster (some owned) "p.jpg" in_place).0 ≡ true) ↔ (
      (◌≡◌ {A = Bool} true false)
      ⊎ ((str_eq "managed" "overwrite" ≡ true)
          ⊎ ((str_eq "managed" "fill_missing" ≡ false)
              × Proves same same poster (some owned) "p.jpg" (some "sum"))))
asset_write_allowed_lem_example =
    asset_write_allowed_lem same same "managed" poster (some owned) "p.jpg" in_place

-- A file that was changed is not written.
changed_file :
    asset_write_allowed same same "managed" poster
      (some owned)
      "p.jpg"
      (record in_place { sha256 = some "other" })
    ≡ (false, modified)
unfolding asset_write_allowed record_of
changed_file = refl

claim_asset_destination-excludes_example :
    (claim_asset_destination same same
      (claim_all same same
        (("c", "q.jpg") ∷ ("b", "p.jpg") ∷ [])
        (claim_asset_destination same same [] "a" "p.jpg").0)
      "b"
      "p.jpg").1.0
    ≡ false
claim_asset_destination-excludes_example =
    claim_asset_destination-excludes same same [] "a" "b" "p.jpg" "p.jpg"
      (("c", "q.jpg") ∷ ("b", "p.jpg") ∷ []) refl refl
      (unfold claim_asset_destination lookup in refl)

abbrev sharp : Scored
sharp = record {
  score = 9000;
  aspect = 1000;
  blank_penalty = false;
  average = 80000;
  count = 20;
  width = 2000;
  height = 3000;
}

abbrev small : Scored
small = record sharp { score = 8000; width = 1000; height = 1500 }

abbrev votes : Votes
votes = record {
  new_votes = 80000;
  cached_votes = 40000;
  vote_relaxed = 35000;
  vote_threshold = 50000;
}

abbrev files : Files
files = record {
  asset_exists = true;
  new_image_exists = true;
  checksums = md5 "a" "b";
  opens = true;
}

abbrev applied : Applied
applied = record { source_path = none; pending_path = none; pending_observations = none }

abbrev offered : NewImage
offered = record { tmdb_canonical = false; provider = none; file_path = some "x.jpg" }

smart_upgrade-Accepted_case :
    (files.asset_exists ≡ false) ⊎ Accepted same files applied offered sharp small votes false
unfolding smart_upgrade canonical_upgrade_decision quality_guard_decision compare_quality
smart_upgrade-Accepted_case =
    smart_upgrade-Accepted same false applied offered sharp small votes false files refl

guard_no_flip_flop_example :
    (quality_guard_decision (compare_quality small sharp) votes false false).0 ≡ false
unfolding quality_guard_decision compare_quality
guard_no_flip_flop_example = guard_no_flip_flop sharp small votes votes false refl

abbrev same_time : ℕ → ℕ
same_time t = t

stale_image-timestamp_due_case :
    stale_image same_time (aware 5) (days (pos 10)) 20
    ≡ timestamp_due same_time (aware 5) (days (pos 10)) 20
stale_image-timestamp_due_case = stale_image-timestamp_due same_time (aware 5) (days (pos 10)) 20

abbrev rated_small : CachedImage → Scored
rated_small i = small

abbrev sections : Sections
sections = record {
  poster_set = record { relaxed = none; threshold = none };
  background_set = record { relaxed = none; threshold = none };
  season_set = record { relaxed = none; threshold = none };
}

abbrev offer : Offer
offer = record { image = offered; scored = sharp; vote_average = 80000 }

smart_upgrades-IsSafe_example :
    ((smart_asset_upgrade same same_time rated_small false sections none files offer
          (days (pos 30))
          50).0
        ≡ true
      → IsSafe same same_time rated_small files offer (image_of false none) (days (pos 30)) 50)
    × ((smart_season_asset_upgrade same same_time rated_small
            (some "1")
            sections
            none
            files
            offer
            (days (pos 30))
            50).0
          ≡ true
        → IsSafe same same_time rated_small files offer
            (season_image_of (some "1") none)
            (days (pos 30))
            50)
smart_upgrades-IsSafe_example =
    smart_upgrades-IsSafe same same_time rated_small (some "1") false sections none files offer
      (days (pos 30)) 50 refl

-- Both upgrades are accepted there.
both_accepted :
    ((smart_asset_upgrade same same_time rated_small false sections none files offer
        (days (pos 30))
        50).0
      ≡ true)
    × ((smart_season_asset_upgrade same same_time rated_small
          (some "1")
          sections
          none
          files
          offer
          (days (pos 30))
          50).0
        ≡ true)
unfolding smart_asset_upgrade smart_season_asset_upgrade smart_upgrade canonical_upgrade_decision
    quality_guard_decision compare_quality stale_image no_image
both_accepted = (refl, refl)
