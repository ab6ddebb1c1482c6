-- ===== src/Observations/Examples.antt =====
-- The theorems on observations at concrete entries.
use metafusion.Artwork.Guard.{canonical_upgrade_decision}
use metafusion.Observations.{Tracked, record_canonical_observation}
use metafusion.Observations.Canonical.{
  applied_of, canonical_image, answer, canonical_decision-observed,
}
use metafusion.Observations.Unchanged.{check_again, unchanged-check_again}
use metafusion.Prelude.{◌≡◌, ◌&&◌, ◌||◌, refl, true, none, some, min, str_eq}

abbrev first_entry : Tracked
first_entry = record {
  candidate_fingerprint = some "/old.jpg";
  unchanged_checks = 4;
  missing_checks = 0;
  source_path = some "/old.jpg";
  canonical_pending_path = none;
  canonical_pending_observations = none;
  canonical_pending_at = none;
}

canonical_decision-observed_example :
    canonical_upgrade_decision
      (λ s. s)
      (applied_of (record_canonical_observation (some "/new.jpg") true 5 first_entry))
      (canonical_image (some "tmdb") "/new.jpg")
    ≡ answer (str_eq "/old.jpg" "/new.jpg" || (true && str_eq "/new.jpg" "/new.jpg"))
canonical_decision-observed_example =
    canonical_decision-observed (λ s. s) (some "tmdb") (some "/new.jpg") true 5 first_entry
      "/new.jpg" refl refl

unchanged-check_again_example :
    (check_again 3 (some "/new.jpg") first_entry).unchanged_checks ≡ min 20 2
unchanged-check_again_example = unchanged-check_again 2 (some "/new.jpg") first_entry refl
