-- ===== src/Registry.antt =====
-- helper/asset_registry.py: who may write artwork at a destination during one job. Parameters:
-- `lower` is `str.lower`, `resolve` resolves a path, `pick` is the element that iterating over a set
-- of owners gives first, and `claim_text` is `str` of a claim.
pub mod Agree
pub mod Shared
mod Examples
use metafusion.Prelude.{
  if◌then◌else◌, ◌&&◌, ◌||◌, ◌∷◌, [], String, Option, Dict, Bool, none, List, false, str_eq, any,
  true, insert, all, not, is_some, lookup, some, opt_eq,
}

pub record Claim : Type 0 where
  pub media_type : String
  pub tmdb_id : Option String
  pub asset_type : String
  pub season : String
  pub source_path : Option String

-- The arguments that describe one piece of artwork.
pub record Artwork : Type 0 where
  pub media_type : Option String
  pub tmdb_id : Option String
  pub asset_type : Option String
  pub source_path : Option String
  pub season_number : Option String

-- A row that the state database keeps.
pub record Persisted : Type 0 where
  pub cache_key : Option String
  pub destination : Option String
  pub artwork : Artwork
  pub checksum : Option String

pub record Owner : Type 0 where
  pub cache_key : String
  pub destination : String
  pub claim : Claim
  pub checksum : Option String

pub record Entry : Type 0 where
  pub owners : Dict Owner
  pub runtime_claim : Option Claim
  pub runtime_owners : List String
  pub verified : Dict (Claim × String)
  pub checksum_signature : Option String
  pub checksum : Option String

abbrev pub Registry : Type 0
Registry = Dict Entry

pub data Outcome : Type 0 where
  collision self shared new : String → Outcome

abbrev pub is_granted : Outcome → Bool
is_granted (collision owner) = false
is_granted _ = true

-- A file, by `stat` and by its checksum (`none`: it cannot be read).
pub record File : Type 0 where
  pub signature : String
  pub sha256 : Option String

abbrev pub truthy : Option String → Bool
truthy none = false
truthy (some s) = not (str_eq s "")

abbrev pub or_else : Option String → String → String
or_else none d = d
or_else (some s) d = if str_eq s "" then d else s

-- `str(value)`
abbrev pub text_of : Option String → String
text_of none = "None"
text_of (some s) = s

abbrev pub season_of : Option String → String
season_of none = ""
season_of (some s) = s

abbrev pub claim_eq : Claim → Claim → Bool
claim_eq a b =
    str_eq a.media_type b.media_type
    && opt_eq a.tmdb_id b.tmdb_id
    && str_eq a.asset_type b.asset_type
    && str_eq a.season b.season
    && opt_eq a.source_path b.source_path

-- `_shareable`
unfoldable pub shareable : Claim → Claim → Bool
shareable a b =
    str_eq a.media_type "movie"
    && str_eq b.media_type "movie"
    && is_some a.tmdb_id
    && is_some a.source_path
    && is_some b.source_path
    && opt_eq a.tmdb_id b.tmdb_id
    && str_eq a.asset_type b.asset_type
    && str_eq a.season b.season
    && opt_eq a.source_path b.source_path

-- `_same_shared_asset`
unfoldable pub same_shared_asset : Claim → Claim → Bool
same_shared_asset a b =
    str_eq a.media_type "movie"
    && str_eq b.media_type "movie"
    && is_some a.tmdb_id
    && is_some a.source_path
    && is_some b.source_path
    && str_eq a.media_type b.media_type
    && opt_eq a.tmdb_id b.tmdb_id
    && str_eq a.asset_type b.asset_type
    && str_eq a.season b.season

-- The owners under another key.
abbrev pub others : String → Dict Owner → List Owner
others key [] = []
others key (owner ∷ owners) =
    let rest = others key owners in if str_eq owner.0 key then rest else owner.1 ∷ rest

-- A set with one more element.
abbrev pub add_member : String → List String → List String
add_member k ks = if any (λ j. str_eq j k) ks then ks else k ∷ ks

abbrev pub first_key : Dict Owner → String → String
first_key [] d = d
first_key ((k, owner) ∷ owners) d = k

abbrev pub is_empty {ℓ} : {A : Type ℓ} → List A → Bool
is_empty [] = true
is_empty (x ∷ xs) = false

abbrev pub or_text : Option String → String → String
or_text none d = d
or_text (some s) d = s

abbrev pub or_fresh : Option Entry → Entry
or_fresh none = record {
  owners = [];
  runtime_claim = none;
  runtime_owners = [];
  verified = [];
  checksum_signature = none;
  checksum = none;
}
or_fresh (some e) = e

module _ (lower resolve : String → String) (pick : List String → Option String)
    (claim_text : Claim → String) where
  abbrev pub tv_type : String → String
  tv_type t = if str_eq t "show" then "tv" else t

  -- `canonical_asset_claim`
  unfoldable pub canonical_asset_claim : Artwork → Claim
  canonical_asset_claim a = record {
    media_type = tv_type (lower (or_else a.media_type "unknown"));
    tmdb_id = a.tmdb_id;
    asset_type = text_of a.asset_type;
    season = season_of a.season_number;
    source_path = a.source_path;
  }

  -- The entry of a destination, which is a fresh one if there is none.
  unfoldable pub entry_at : String → Registry → Entry
  entry_at destination r = or_fresh (lookup (resolve destination) r)

  unfoldable pub store : String → Entry → Registry → Registry
  store destination e r = insert (resolve destination) e r

  abbrev pub add_at : Option String → Persisted → Registry → Registry
  add_at none record' r = r
  add_at (some destination) record' r =
      if str_eq destination ""
      then r
      else (let e = entry_at destination r in
          let key = or_else record'.cache_key "unknown" in
          store destination
            (record e {
              owners =
                  insert key
                    (record {
                      cache_key = key;
                      destination = resolve destination;
                      claim = canonical_asset_claim record'.artwork;
                      checksum = record'.checksum;
                    })
                    e.owners;
            })
            r)

  -- `add_persisted`
  unfoldable pub add_persisted : Persisted → Registry → Registry
  add_persisted record' r = add_at record'.destination record' r

  -- `AssetDestinationRegistry.__init__`
  unfoldable pub new_registry : List Persisted → Registry → Registry
  new_registry [] r = r
  new_registry (p ∷ ps) r = new_registry ps (add_persisted p r)

  abbrev pub claim_differs : Option Claim → Claim → Bool
  claim_differs none candidate = false
  claim_differs (some c) candidate = not (claim_eq c candidate)

  abbrev pub holder : Option Claim → List String → String
  holder none owners = or_text (pick owners) ""
  holder (some c) owners = or_text (pick owners) (claim_text c)

  -- Whether each other owner's record allows the claim.
  abbrev pub compatible : Bool → Claim → List Owner → Bool
  compatible same_owner candidate rest =
      if same_owner
      then all (λ o. same_shared_asset candidate o.claim) rest
      else all (λ o. shareable candidate o.claim) rest

  abbrev pub first_owner : List Owner → String
  first_owner [] = ""
  first_owner (o ∷ os) = o.cache_key

  abbrev pub granted_as : String → Bool → Entry → Outcome
  granted_as key same_owner e =
      if same_owner
      then self key
      else if not (is_empty e.owners) || not (is_empty e.runtime_owners)
      then shared (
          if is_empty e.owners
          then or_text (pick (add_member key e.runtime_owners)) key
          else first_key e.owners key)
      else new key

  unfoldable pub claim_entry : String → Claim → Entry → Entry × Outcome
  claim_entry key candidate e =
      let same_owner = is_some (lookup key e.owners) in
      let rest = others key e.owners in
      if claim_differs e.runtime_claim candidate
      then (e, collision (holder e.runtime_claim e.runtime_owners))
      else if not (is_empty rest) && not (compatible same_owner candidate rest)
      then (e, collision (first_owner rest))
      else (
        record e {
          runtime_claim = some candidate;
          runtime_owners = add_member key e.runtime_owners;
        },
        granted_as key same_owner e,
      )

  -- `claim`
  unfoldable pub claim : String → String → Artwork → Registry → Registry × Outcome
  claim key destination artwork r =
      let (e, outcome) = claim_entry key (canonical_asset_claim artwork) (entry_at destination r) in
      (store destination e r, outcome)

  abbrev pub after_read : Option String → String → Entry → Entry × Option String
  after_read none signature e = (record e { checksum = none; checksum_signature = none }, none)
  after_read (some c) signature e =
      (record e { checksum = some c; checksum_signature = some signature }, some c)

  -- `_current_checksum` of an entry, whose file is given.
  unfoldable pub current_checksum : Option File → Entry → Entry × Option String
  current_checksum none e = (record e { checksum = none; checksum_signature = none }, none)
  current_checksum (some f) e =
      if opt_eq e.checksum_signature (some f.signature)
      then (e, e.checksum)
      else after_read f.sha256 f.signature e

  -- The two loops of `shared_checksum`.
  abbrev pub owner_vouches : String → Claim → String → Dict Owner → Bool
  owner_vouches key candidate current [] = false
  owner_vouches key candidate current ((k, o) ∷ owners) =
      (not (str_eq k key) && shareable candidate o.claim && opt_eq o.checksum (some current))
      || owner_vouches key candidate current owners

  abbrev pub verified_vouches : String → Claim → String → Dict (Claim × String) → Bool
  verified_vouches key candidate current [] = false
  verified_vouches key candidate current ((k, v) ∷ verified) =
      (not (str_eq k key) && claim_eq v.0 candidate && str_eq v.1 current)
      || verified_vouches key candidate current verified

  abbrev pub vouched : String → Claim → Entry → Option String → Option String
  vouched key candidate e none = none
  vouched key candidate e (some current) =
      if str_eq current ""
      then none
      else if owner_vouches key candidate current e.owners
          || verified_vouches key candidate current e.verified
      then some current
      else none

  abbrev pub shared_at :
      String → String → Claim → Option File → Option Entry → Registry → Registry × Option String
  shared_at key destination candidate file none r = (r, none)
  shared_at key destination candidate none (some e) r = (r, none)
  shared_at key destination candidate (some f) (some e) r =
      let (e', current) = current_checksum (some f) e in
      (store destination e' r, vouched key candidate e' current)

  -- `shared_checksum`
  unfoldable pub shared_checksum :
      String → String → Artwork → (String → Option File) → Registry → Registry × Option String
  shared_checksum key destination artwork disk r =
      shared_at key destination (canonical_asset_claim artwork) (disk (resolve destination))
        (lookup (resolve destination) r) r

  abbrev pub verify_entry : String → Claim → Option String → Entry → Entry
  verify_entry key candidate checksum e =
      if truthy checksum
      then record e { verified = insert key (candidate, text_of checksum) e.verified }
      else e

  abbrev pub given_or_current : Option String → Option File → Entry → Entry × Option String
  given_or_current checksum file e =
      if truthy checksum then (e, checksum) else current_checksum file e

  -- `mark_verified`
  unfoldable pub mark_verified :
      String
      → String
      → Artwork
      → Option String
      → (String → Option File)
      → Registry
      → Registry × Option String
  mark_verified key destination artwork checksum disk r =
      let (e, value) =
        given_or_current checksum (disk (resolve destination)) (entry_at destination r) in
      (store destination (verify_entry key (canonical_asset_claim artwork) value e) r, value)
