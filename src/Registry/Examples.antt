-- ===== src/Registry/Examples.antt =====
-- The theorems about the registry at concrete inputs.
use metafusion.Prelude.{
  ◌≡◌, ◌∷◌, refl, [], String, List, Option, some, none, lookup, insert, all, false, true, is_some,
  arith, ◌⊎◌,
}
use metafusion.Registry.{
  Claim, Persisted, Registry, claim, shared_checksum, Artwork, add_persisted, claim_entry,
  canonical_asset_claim, entry_at, File, store, shareable, is_granted, current_checksum,
  same_shared_asset, others,
}
use metafusion.Registry.Agree.{run, granted_claims_agree}
use metafusion.Registry.Shared.{claim-allowed, shared_checksum_sound, OwnerVouches, VerifiedVouches}

abbrev same : String → String
same s = s

abbrev pick_first : List String → Option String
pick_first [] = none
pick_first (k ∷ ks) = some k

abbrev text_of_claim : Claim → String
text_of_claim c = c.media_type

abbrev poster_of : String → Artwork
poster_of source = record {
  media_type = some "movie";
  tmdb_id = some "949";
  asset_type = some "poster";
  source_path = some source;
  season_number = none;
}

abbrev stored : Persisted
stored = record {
  cache_key = some "b";
  destination = some "d";
  artwork = poster_of "x.jpg";
  checksum = some "sum";
}

abbrev registry : Registry
registry = add_persisted same same pick_first text_of_claim stored []

granted_claims_agree_example :
    canonical_asset_claim same same pick_first text_of_claim (poster_of "x.jpg")
    ≡ canonical_asset_claim same same pick_first text_of_claim (poster_of "x.jpg")
unfolding claim claim_entry canonical_asset_claim entry_at store lookup insert run shareable
    add_persisted
granted_claims_agree_example =
    granted_claims_agree same same pick_first text_of_claim "a" "c" "d" "d" (poster_of "x.jpg")
      (poster_of "x.jpg") [] registry refl refl refl

-- Another source is refused.
other_source :
    is_granted (claim same same pick_first text_of_claim "a" "d" (poster_of "y.jpg") registry).1
    ≡ false
unfolding claim claim_entry canonical_asset_claim entry_at store lookup insert shareable
    add_persisted
other_source = refl

claim-allowed_case :
    let e = entry_at same same pick_first text_of_claim "d" registry in
    let candidate = canonical_asset_claim same same pick_first text_of_claim (poster_of "x.jpg") in
    (all (λ o. same_shared_asset candidate o.claim) (others "a" e.owners) ≡ true)
    × (is_some (lookup "a" e.owners) ≡ false
        → all (λ o. shareable candidate o.claim) (others "a" e.owners) ≡ true)
unfolding claim claim_entry canonical_asset_claim entry_at store lookup insert shareable
    add_persisted
claim-allowed_case =
    claim-allowed same same pick_first text_of_claim "a" "d" (poster_of "x.jpg") registry refl

abbrev disk : String → Option File
disk p = some (record { signature = "s"; sha256 = some "sum" })

shared_checksum_sound_example :
    let e = entry_at same same pick_first text_of_claim "d" registry in
    let candidate = canonical_asset_claim same same pick_first text_of_claim (poster_of "x.jpg") in
    (f : File) × (disk "d" ≡ some f)
    × (f.sha256 ≡ some "sum")
    × (OwnerVouches "a" candidate "sum" e.owners ⊎ VerifiedVouches "a" candidate "sum" e.verified)
unfolding shared_checksum canonical_asset_claim entry_at store lookup insert shareable add_persisted
    current_checksum
shared_checksum_sound_example =
    shared_checksum_sound same same pick_first text_of_claim "a" "d" (poster_of "x.jpg") disk
      registry "sum" (λ f e h. ground (arith, h)) refl
