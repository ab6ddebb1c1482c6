-- ===== src/Artwork/Guard/Upgrade.antt =====
-- `smart_asset_upgrade` and `smart_season_asset_upgrade` of modules/utils.py, from the cached entry on.
-- `rate` stands for the quality score of the image in place, by what the cache holds of it and its
-- size.
use metafusion.Artwork.Guard.{
  Applied, NewImage, Scored, Files, Status, md5, smart_upgrade, stale_image,
  canonical_upgrade_decision, upgrade_tmdb_canonical,
}
use metafusion.Artwork.Guard.Accepts.{smart_upgrade-Accepted}
use metafusion.Artwork.Guard.Stale.{stale_image-timestamp_due}
use metafusion.Planning.Time.{absent, Stamp, Setting, timestamp_due}
use metafusion.Prelude.{
  if◌then◌else◌, ◌≤◌, ◌≡◌, ◌∙◌, ◌⊎◌, none, Dict, Option, Bool, String, ℕ, some, lookup, true, false,
  str_eq, arith, inl, inr,
}

-- What the cache holds of the image in place.
pub record CachedImage : Type 0 where
  pub applied : Applied
  pub average : ℕ
  pub count : ℕ
  pub last_upgraded : Stamp

unfoldable pub no_image : CachedImage
no_image = record {
  applied = record { source_path = none; pending_path = none; pending_observations = none };
  average = 0;
  count = 0;
  last_upgraded = absent;
}

pub record CachedImages : Type 0 where
  pub poster : CachedImage
  pub background : CachedImage
  pub seasons : Dict CachedImage

-- `vote_relaxed` and `vote_threshold` of one section of the configuration.
pub record VoteFloors : Type 0 where
  pub relaxed : Option ℕ
  pub threshold : Option ℕ

pub record Sections : Type 0 where
  pub poster_set : VoteFloors
  pub background_set : VoteFloors
  pub season_set : VoteFloors

abbrev pub or_number : Option ℕ → ℕ → ℕ
or_number none d = d
or_number (some n) d = n

-- The new image: what the provider says of it, its score, and its vote.
pub record Offer : Type 0 where
  pub image : NewImage
  pub scored : Scored
  pub vote_average : ℕ

abbrev pub or_no_image : Option CachedImage → CachedImage
or_no_image none = no_image
or_no_image (some i) = i

abbrev pub image_of : Bool → Option CachedImages → CachedImage
image_of is_background none = no_image
image_of true (some c) = c.background
image_of false (some c) = c.poster

abbrev pub season_image_of : Option String → Option CachedImages → CachedImage
season_image_of none cached = no_image
season_image_of (some n) none = no_image
season_image_of (some n) (some c) = or_no_image (lookup n c.seasons)

module _ (lower : String → String) (local : ℕ → ℕ) (rate : CachedImage → Scored) where
  abbrev pub upgrade_with :
      Bool → VoteFloors → ℕ → ℕ → CachedImage → Files → Offer → Setting → ℕ → Bool × Status
  upgrade_with season floors relaxed threshold cached files offer stale_days now =
      smart_upgrade lower season files cached.applied offer.image offer.scored (rate cached)
        (record {
          new_votes = offer.vote_average;
          cached_votes = cached.average;
          vote_relaxed = or_number floors.relaxed relaxed;
          vote_threshold = or_number floors.threshold threshold;
        })
        (stale_image local cached.last_upgraded stale_days now)

  -- `smart_asset_upgrade`, of a background or of a poster: the floors are 3.5 and 5 by default.
  unfoldable pub smart_asset_upgrade :
      Bool → Sections → Option CachedImages → Files → Offer → Setting → ℕ → Bool × Status
  smart_asset_upgrade is_background sections cached files offer stale_days now =
      upgrade_with false (if is_background then sections.background_set else sections.poster_set)
        35000 50000 (image_of is_background cached) files offer stale_days now

  -- `smart_season_asset_upgrade`: the floors are 0.5 and 3 by default.
  unfoldable pub smart_season_asset_upgrade :
      Option String → Sections → Option CachedImages → Files → Offer → Setting → ℕ → Bool × Status
  smart_season_asset_upgrade season_number sections cached files offer stale_days now =
      upgrade_with true sections.season_set 5000 30000 (season_image_of season_number cached) files
        offer stale_days now

  -- What is known of an upgrade that replaces artwork in place.
  pub record IsSafe (files : Files) (offer : Offer) (cached : CachedImage) (stale_days : Setting)
      (now : ℕ) : Type 0 where
    pub opens : files.opens ≡ true
    pub differs : (a b : String) × (files.checksums ≡ md5 a b) × (str_eq a b ≡ false)
    pub better :
        (canonical_upgrade_decision lower cached.applied offer.image
          ≡ some (true, upgrade_tmdb_canonical))
        ⊎ (((rate cached).score ≤ offer.scored.score)
            × (timestamp_due local cached.last_upgraded stale_days now ≡ true
                → ((rate cached).average ≤ offer.scored.average)
                  × ((rate cached).width ≤ offer.scored.width)
                  × ((rate cached).height ≤ offer.scored.height)))

  upgrade_with-IsSafe :
      (season : Bool) (floors : VoteFloors) (relaxed threshold : ℕ) (cached : CachedImage)
      (files : Files) (offer : Offer) (stale_days : Setting) (now : ℕ)
      → files.asset_exists ≡ true
      → (upgrade_with season floors relaxed threshold cached files offer stale_days now).0 ≡ true
      → IsSafe files offer cached stale_days now
  upgrade_with-IsSafe season floors relaxed threshold cached files offer stale_days now there h =
      elim (smart_upgrade-Accepted lower season cached.applied offer.image offer.scored
        (rate cached) _ (stale_image local cached.last_upgraded stale_days now) files h) [
          | inl gone ↦ absurd (not_gone files.asset_exists there gone)
          | inr a ↦ record { opens = a.opens; differs = a.differs; better = safer a.better }
        ]
    where
      not_gone : (b : Bool) → b ≡ true → b ≡ false → ⊥
      not_gone b p q = ground (arith, p, q)

      safer :
          {P Q R : Type 0}
          → ((canonical_upgrade_decision lower cached.applied offer.image
                ≡ some (true, upgrade_tmdb_canonical))
              ⊎ (P
                  × ((rate cached).score ≤ offer.scored.score)
                  × Q
                  × R
                  × (stale_image local cached.last_upgraded stale_days now ≡ true
                      → ((rate cached).average ≤ offer.scored.average)
                        × ((rate cached).width ≤ offer.scored.width)
                        × ((rate cached).height ≤ offer.scored.height)
                        × ((rate cached).aspect ≤ offer.scored.aspect))))
          → (canonical_upgrade_decision lower cached.applied offer.image
              ≡ some (true, upgrade_tmdb_canonical))
            ⊎ (((rate cached).score ≤ offer.scored.score)
                × (timestamp_due local cached.last_upgraded stale_days now ≡ true
                    → ((rate cached).average ≤ offer.scored.average)
                      × ((rate cached).width ≤ offer.scored.width)
                      × ((rate cached).height ≤ offer.scored.height)))
      safer (inl c) = inl c
      safer (inr (p, score, q, r, strict)) = inr (
        score,
        λ due.
            let (a, w, t, s) =
              strict (stale_image-timestamp_due local cached.last_upgraded stale_days now ∙ due) in
            (a, w, t),
      )

  -- An upgrade of either kind that is accepted while artwork is in place opened it, found it
  -- different from the new image, and replaces it by the provider's confirmed canonical image, or by
  -- one of no lower score; and where `timestamp_due` finds the time of the last upgrade in place due
  -- after the given stale days, by one of no smaller size and no lower average vote.
  pub smart_upgrades-IsSafe :
      (season_number : Option String) (is_background : Bool) (sections : Sections)
      (cached : Option CachedImages) (files : Files) (offer : Offer) (stale_days : Setting)
      (now : ℕ)
      → files.asset_exists ≡ true
      → ((smart_asset_upgrade is_background sections cached files offer stale_days now).0 ≡ true
          → IsSafe files offer (image_of is_background cached) stale_days now)
        × ((smart_season_asset_upgrade season_number sections cached files offer stale_days now).0
              ≡ true
            → IsSafe files offer (season_image_of season_number cached) stale_days now)
  unfolding smart_asset_upgrade smart_season_asset_upgrade
  smart_upgrades-IsSafe season_number is_background sections cached files offer stale_days now
        there =
      (
        upgrade_with-IsSafe false
            (if is_background then sections.background_set else sections.poster_set) 35000 50000
            (image_of is_background cached) files offer stale_days now there,
        upgrade_with-IsSafe true sections.season_set 5000 30000
            (season_image_of season_number cached) files offer stale_days now there,
      )
