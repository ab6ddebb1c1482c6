-- ===== src/Artwork/Guard/Accepts.antt =====
-- What the guard accepts.
use mathlib.Core.Option.{some-injective}
use metafusion.Artwork.Guard.{
  quality_guard_decision, Files, compare_quality, Applied, Scored, NewImage, Votes, md5,
  meets_floor, canonical_upgrade_decision, upgrade_tmdb_canonical, Status, Checksums, smart_upgrade,
  tmdb_canonical_change_pending, by_canonical, after_checksums, already_up_to_date,
  error_image_compare, no_existing_asset, no_image_for_compare, raised, text_or, observations,
}
use metafusion.Prelude.{
  ◌≤◌, ◌≡◌, ◌⊎◌, String, Bool, true, false, str_eq, some, none, arith, if◌then◌else◌, ◌∙◌, ◌&&◌,
  ◌||◌, refl, Option, sym, inr, not, inl, ap, leb,
}

-- What holds when a new image replaces one that is in place.
pub record Accepted (lower : String → String) (files : Files) (cached : Applied) (new : NewImage)
    (scored existing : Scored) (votes : Votes) (stale : Bool) : Type 0 where
  pub opens : files.opens ≡ true
  pub differs : (a b : String) × (files.checksums ≡ md5 a b) × (str_eq a b ≡ false)
  pub better :
      (canonical_upgrade_decision lower cached new ≡ some (true, upgrade_tmdb_canonical))
      ⊎ ((canonical_upgrade_decision lower cached new ≡ none)
          × (existing.score ≤ scored.score)
          × (scored.blank_penalty ≡ false)
          × (meets_floor votes ≡ true)
          × (stale ≡ true
              → (existing.average ≤ scored.average)
                × (existing.width ≤ scored.width)
                × (existing.height ≤ scored.height)
                × (existing.aspect ≤ scored.aspect)))

guard-accepts :
    (scored existing : Scored) (v : Votes) (stale season : Bool)
    → (quality_guard_decision (compare_quality scored existing) v stale season).0 ≡ true
    → (existing.score ≤ scored.score)
      × (scored.blank_penalty ≡ false)
      × (meets_floor v ≡ true)
      × (stale ≡ true
          → (existing.average ≤ scored.average)
            × (existing.width ≤ scored.width)
            × (existing.height ≤ scored.height)
            × (existing.aspect ≤ scored.aspect))
unfolding quality_guard_decision compare_quality
guard-accepts scored existing v true season h = ground (arith, h)
guard-accepts scored existing v false season h = ground (arith, h)

canonical_status :
    (lower : String → String) (cached : Applied) (new : NewImage) (d : Bool × Status)
    → canonical_upgrade_decision lower cached new ≡ some d
    → d.0 ≡ true
    → d ≡ (true, upgrade_tmdb_canonical)
unfolding canonical_upgrade_decision
canonical_status lower cached new d h t =
    by_tests (not new.tmdb_canonical || not (str_eq (lower (text_or new.provider "tmdb")) "tmdb"))
      (str_eq (text_or new.file_path "") "")
      (str_eq (text_or cached.source_path "") (text_or new.file_path ""))
      (str_eq (text_or cached.pending_path "") (text_or new.file_path "")
        && leb 1 (observations cached.pending_observations))
      h
  where
    by_tests :
        (a b c e : Bool)
        → (if a
            then none
            else if b
            then none
            else if c
            then some (true, upgrade_tmdb_canonical)
            else if e
            then some (true, upgrade_tmdb_canonical)
            else some (false, tmdb_canonical_change_pending))
          ≡ some d
        → d ≡ (true, upgrade_tmdb_canonical)
    by_tests true b c e h = ground (arith, h)
    by_tests false true c e h = ground (arith, h)
    by_tests false false true e h = sym (some-injective _ _ h)
    by_tests false false false true h = sym (some-injective _ _ h)
    by_tests false false false false h =
        ground (arith, t, ap (λ (x : Bool × Status). x.0) (some-injective _ _ h))

module _ (lower : String → String) (season : Bool) (cached : Applied) (new : NewImage)
    (scored existing : Scored) (votes : Votes) (stale : Bool) where
  unfoldable Better : Type 0
  Better =
      (canonical_upgrade_decision lower cached new ≡ some (true, upgrade_tmdb_canonical))
      ⊎ ((canonical_upgrade_decision lower cached new ≡ none)
          × (existing.score ≤ scored.score)
          × (scored.blank_penalty ≡ false)
          × (meets_floor votes ≡ true)
          × (stale ≡ true
              → (existing.average ≤ scored.average)
                × (existing.width ≤ scored.width)
                × (existing.height ≤ scored.height)
                × (existing.aspect ≤ scored.aspect)))

  by_canonical-better :
      (o : Option (Bool × Status))
      → canonical_upgrade_decision lower cached new ≡ o
      → (by_canonical o
          (quality_guard_decision (compare_quality scored existing) votes stale season)).0
        ≡ true
      → Better
  unfolding Better
  by_canonical-better none e h =
      let (score, blank, floor, strict) = guard-accepts scored existing votes stale season h in
      inr (e, score, blank, floor, strict)
  by_canonical-better (some d) e h = inl (e ∙ ap some (canonical_status lower cached new d e h))

  after_checksums-facts :
      (c : Checksums) (opens : Bool) (decided : Bool × Status)
      → (after_checksums c opens decided).0 ≡ true
      → (opens ≡ true)
        × ((a b : String) × (c ≡ md5 a b) × (str_eq a b ≡ false))
        × (decided.0 ≡ true)
  after_checksums-facts raised opens decided h = ground (arith, h)
  after_checksums-facts (md5 a b) opens decided h = by_tests (str_eq a b) opens refl h
    where
      by_tests :
          (e o : Bool)
          → str_eq a b ≡ e
          → (if e
              then (false, already_up_to_date)
              else if o
              then decided
              else (false, error_image_compare)).0
            ≡ true
          → (o ≡ true)
            × ((x y : String) × (md5 a b ≡ md5 x y) × (str_eq x y ≡ false))
            × (decided.0 ≡ true)
      by_tests true o e h = ground (arith, h)
      by_tests false true e h = (refl, (a, b, refl, e), h)
      by_tests false false e h = ground (arith, h)

  -- An upgrade is accepted only where no artwork is in place, or the one in place opens and differs
  -- from the new image, and either the provider's canonical image has been confirmed, or the new image
  -- has no lower score, is not blank and meets the floor of votes; and where the artwork is stale, no
  -- lower rating, no smaller size and no worse aspect either.
  pub smart_upgrade-Accepted :
      (files : Files)
      → (smart_upgrade lower season files cached new scored existing votes stale).0 ≡ true
      → (files.asset_exists ≡ false) ⊎ Accepted lower files cached new scored existing votes stale
  unfolding smart_upgrade
  smart_upgrade-Accepted files h = by_files files.asset_exists files.new_image_exists h
    where
      decided : Bool × Status
      decided =
          by_canonical (canonical_upgrade_decision lower cached new)
            (quality_guard_decision (compare_quality scored existing) votes stale season)

      by_files :
          (there fresh : Bool)
          → (if not there
              then (true, no_existing_asset)
              else if not fresh
              then (false, no_image_for_compare)
              else after_checksums files.checksums files.opens decided).0
            ≡ true
          → (there ≡ false) ⊎ Accepted lower files cached new scored existing votes stale
      by_files false fresh h = inl refl
      by_files true false h = ground (arith, h)
      by_files true true h =
          let (opens, differs, d) = after_checksums-facts files.checksums files.opens decided h in
          inr (record {
            opens = opens;
            differs = differs;
            better =
                unfold Better in
                by_canonical-better (canonical_upgrade_decision lower cached new) refl d;
          })
