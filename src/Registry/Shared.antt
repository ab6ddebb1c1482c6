-- ===== src/Registry/Shared.antt =====
-- What a shared checksum is worth, and which records allow a claim.
use mathlib.Core.Option.{some-injective}
use metafusion.Prelude.{
  ◌≡◌, ◌&&◌, ◌||◌, ◌∷◌, refl, [], Option, String, opt_eq, List, true, Bool, eq_refl, arith, all,
  not, some, eq_iff, false, is_some, if_rule, none, lookup, str_eq, if◌then◌else◌, ◌∙◌, sym, ap,
  Dict, ◌≢◌, ◌⊎◌, inl, inr, opt_eq_sound,
}
use metafusion.Registry.{
  Claim, shareable, claim_eq, same_shared_asset, Owner, claim_entry, claim, Entry, current_checksum,
  compatible, is_granted, Artwork, File, after_read, vouched, is_empty, Registry, owner_vouches,
  entry_at, verified_vouches, others, canonical_asset_claim, Outcome, claim_differs, or_fresh,
  shared_checksum, shared_at,
}
use metafusion.Registry.Agree.{claim_eq_sound}

opt_eq_refl : (o : Option String) → opt_eq o o ≡ true
opt_eq_refl none = refl
opt_eq_refl (some s) = eq_refl s

claim_eq_refl : (a : Claim) → claim_eq a a ≡ true
claim_eq_refl a = rw (eq_refl a.media_type) (
    rw (opt_eq_refl a.tmdb_id)
      (rw (eq_refl a.asset_type) (rw (eq_refl a.season) (opt_eq_refl a.source_path))))

shareable_same : (a b : Claim) → shareable a b ≡ true → same_shared_asset a b ≡ true
unfolding shareable same_shared_asset
shareable_same a b h = ground (
  arith,
  h,
  eq_iff a.media_type b.media_type,
  eq_iff a.media_type "movie",
  eq_iff b.media_type "movie",
)

all-shareable :
    (a : Claim) (os : List Owner)
    → all (λ o. shareable a o.claim) os ≡ true
    → all (λ o. same_shared_asset a o.claim) os ≡ true
all-shareable a [] h = refl
all-shareable a (o ∷ os) h = ground (arith, h, shareable_same a o.claim, all-shareable a os)

-- The list has the element.
abbrev pub Listed : {A : Type 0} → A → List A → Type 0
Listed x [] = ⊥
Listed x (y ∷ ys) = (x ≡ y) ⊎ Listed x ys

-- Another owner's record of the same shareable artwork, with this checksum.
pub record OwnerVouches (key : String) (candidate : Claim) (c : String) (owners : Dict Owner)
    : Type 0 where
  pub owner_key : String
  pub owner : Owner
  pub listed : Listed (owner_key, owner) owners
  pub other : owner_key ≢ key
  pub is_film : candidate.media_type ≡ "movie"
  pub owns_film : owner.claim.media_type ≡ "movie"
  pub known_id : is_some candidate.tmdb_id ≡ true
  pub same_id : owner.claim.tmdb_id ≡ candidate.tmdb_id
  pub same_kind : owner.claim.asset_type ≡ candidate.asset_type
  pub same_season : owner.claim.season ≡ candidate.season
  pub known_source : is_some candidate.source_path ≡ true
  pub same_source : owner.claim.source_path ≡ candidate.source_path
  pub same_checksum : owner.checksum ≡ some c

-- Another key verified the claim with this checksum.
pub record VerifiedVouches (key : String) (candidate : Claim) (c : String)
    (verified : Dict (Claim × String)) : Type 0 where
  pub verifier : String
  pub listed : Listed (verifier, (candidate, c)) verified
  pub other : verifier ≢ key

shareable_facts :
    (a b : Claim)
    → shareable a b ≡ true
    → (str_eq a.media_type "movie" ≡ true)
      × (str_eq b.media_type "movie" ≡ true)
      × (is_some a.tmdb_id ≡ true)
      × (is_some a.source_path ≡ true)
      × (is_some b.source_path ≡ true)
      × (opt_eq a.tmdb_id b.tmdb_id ≡ true)
      × (str_eq a.asset_type b.asset_type ≡ true)
      × (str_eq a.season b.season ≡ true)
      × (opt_eq a.source_path b.source_path ≡ true)
unfolding shareable
shareable_facts a b h = ground (arith, h)

either : (a b : Bool) → (a || b) ≡ true → (a ≡ true) ⊎ (b ≡ true)
either true b h = inl refl
either false b h = inr h

module _ (lower resolve : String → String) (pick : List String → Option String)
    (claim_text : Claim → String) where
  compatible_same :
      (same : Bool) (a : Claim) (os : List Owner)
      → compatible lower resolve pick claim_text same a os ≡ true
      → (all (λ o. same_shared_asset a o.claim) os ≡ true)
        × (same ≡ false → all (λ o. shareable a o.claim) os ≡ true)
  compatible_same true a os h = (h, (λ off. ground (arith, off)))
  compatible_same false a os h = (all-shareable a os h, (λ _. h))

  allowed :
      (os : List Owner) (same : Bool) (a : Claim)
      → (not (is_empty os) && not (compatible lower resolve pick claim_text same a os)) ≡ false
      → compatible lower resolve pick claim_text same a os ≡ true
  allowed [] true a h = refl
  allowed [] false a h = refl
  allowed (o ∷ os) same a h = ground (arith, h)

  claim_entry-allowed :
      (key : String) (candidate : Claim) (e : Entry)
      → is_granted (claim_entry lower resolve pick claim_text key candidate e).1 ≡ true
      → compatible lower resolve pick claim_text
          (is_some (lookup key e.owners))
          candidate
          (others key e.owners)
        ≡ true
  unfolding claim_entry
  claim_entry-allowed key candidate e =
      if_rule (λ (x : Entry × Outcome). is_granted x.1 ≡ true → Allowed)
        (claim_differs lower resolve pick claim_text e.runtime_claim candidate)
        (λ _ h. ground (arith, h))
        (λ _.
          if_rule (λ (x : Entry × Outcome). is_granted x.1 ≡ true → Allowed)
            (not (is_empty (others key e.owners))
              && not (
                  compatible lower resolve pick claim_text (is_some (lookup key e.owners)) candidate
                    (others key e.owners)))
            (λ _ h. ground (arith, h))
            (λ free _.
              allowed (others key e.owners) (is_some (lookup key e.owners)) candidate free))
    where
      Allowed : Type 0
      Allowed =
          compatible lower resolve pick claim_text (is_some (lookup key e.owners)) candidate
            (others key e.owners)
          ≡ true

  -- A claim is granted only where each record that another owner has of the destination is of a film
  -- with the same id, of the same kind of artwork, with a source; and of the same source, if the
  -- claimant has no record of its own there.
  pub claim-allowed :
      (key d : String) (a : Artwork) (r : Registry)
      → is_granted (claim lower resolve pick claim_text key d a r).1 ≡ true
      → let e = entry_at lower resolve pick claim_text d r in
        let candidate = canonical_asset_claim lower resolve pick claim_text a in
        (all (λ o. same_shared_asset candidate o.claim) (others key e.owners) ≡ true)
        × (is_some (lookup key e.owners) ≡ false
            → all (λ o. shareable candidate o.claim) (others key e.owners) ≡ true)
  unfolding claim
  claim-allowed key d a r h = compatible_same _ _ _ (
      claim_entry-allowed key (canonical_asset_claim lower resolve pick claim_text a)
        (entry_at lower resolve pick claim_text d r) h)

  -- The entry's checksum is the file's, if their signatures are one.
  abbrev pub Honest : Entry → File → Type 0
  Honest e f = opt_eq e.checksum_signature (some f.signature) ≡ true → e.checksum ≡ f.sha256

  after_read-sha :
      (sha : Option String) (signature : String) (e : Entry)
      → (after_read lower resolve pick claim_text sha signature e).1 ≡ sha
  after_read-sha none signature e = refl
  after_read-sha (some s) signature e = refl

  current_checksum-sha :
      (f : File) (e : Entry)
      → Honest e f
      → (current_checksum lower resolve pick claim_text (some f) e).1 ≡ f.sha256
  unfolding current_checksum
  current_checksum-sha f e honest =
      if_rule (λ (x : Entry × Option String). x.1 ≡ f.sha256)
        (opt_eq e.checksum_signature (some f.signature)) (λ s. honest s)
        (λ _. after_read-sha f.sha256 f.signature e)

  after_read-same :
      (sha : Option String) (signature : String) (e : Entry)
      → ((after_read lower resolve pick claim_text sha signature e).0.owners ≡ e.owners)
        × ((after_read lower resolve pick claim_text sha signature e).0.verified ≡ e.verified)
  after_read-same none signature e = (refl, refl)
  after_read-same (some s) signature e = (refl, refl)

  current_checksum-same :
      (f : File) (e : Entry)
      → ((current_checksum lower resolve pick claim_text (some f) e).0.owners ≡ e.owners)
        × ((current_checksum lower resolve pick claim_text (some f) e).0.verified ≡ e.verified)
  unfolding current_checksum
  current_checksum-same f e =
      if_rule (λ (x : Entry × Option String). (x.0.owners ≡ e.owners) × (x.0.verified ≡ e.verified))
        (opt_eq e.checksum_signature (some f.signature)) (λ _. (refl, refl))
        (λ _. after_read-same f.sha256 f.signature e)

  vouched_facts :
      (key : String) (candidate : Claim) (e : Entry) (current : Option String) (c : String)
      → vouched lower resolve pick claim_text key candidate e current ≡ some c
      → (current ≡ some c)
        × ((owner_vouches lower resolve pick claim_text key candidate c e.owners
              || verified_vouches lower resolve pick claim_text key candidate c e.verified)
            ≡ true)
  vouched_facts key candidate e none c h = ground (arith, h)
  vouched_facts key candidate e (some x) c h =
      let (same, v) =
        result (str_eq x "")
          (owner_vouches lower resolve pick claim_text key candidate x e.owners
            || verified_vouches lower resolve pick claim_text key candidate x e.verified)
          h in
      (ap some same, rw (← same) v)
    where
      result :
          (b v : Bool)
          → (if b then none else if v then some x else none) ≡ some c
          → (x ≡ c) × (v ≡ true)
      result true v q = ground (arith, q)
      result false true q = (some-injective _ _ q, refl)
      result false false q = ground (arith, q)

  same_vouch :
      (key c : String) (candidate : Claim) (os os' : Dict Owner) (vs vs' : Dict (Claim × String))
      → os ≡ os'
      → vs ≡ vs'
      → (owner_vouches lower resolve pick claim_text key candidate c os
          || verified_vouches lower resolve pick claim_text key candidate c vs)
        ≡ true
      → (owner_vouches lower resolve pick claim_text key candidate c os'
          || verified_vouches lower resolve pick claim_text key candidate c vs')
        ≡ true
  same_vouch key c candidate os os' vs vs' o v h = rw (← o) (rw (← v) h)

  shared_at_sound :
      (key d : String) (candidate : Claim) (file : Option File) (found : Option Entry)
      (r : Registry) (c : String)
      → ((f : File) → file ≡ some f → Honest (or_fresh found) f)
      → (shared_at lower resolve pick claim_text key d candidate file found r).1 ≡ some c
      → (f : File) × (file ≡ some f)
        × (f.sha256 ≡ some c)
        × ((owner_vouches lower resolve pick claim_text key candidate c (or_fresh found).owners
              || verified_vouches lower resolve pick claim_text key candidate c
                  (or_fresh found).verified)
            ≡ true)
  shared_at_sound key d candidate file none r c honest h = ground (arith, h)
  shared_at_sound key d candidate none (some e) r c honest h = ground (arith, h)
  shared_at_sound key d candidate (some f) (some e) r c honest h =
      let (current, v) =
        vouched_facts key candidate (current_checksum lower resolve pick claim_text (some f) e).0
          (current_checksum lower resolve pick claim_text (some f) e).1 c h in
      let (owners, verified) = current_checksum-same f e in
      (
        f,
        refl,
        sym (current_checksum-sha f e (honest f refl)) ∙ current,
        same_vouch key c candidate _ _ _ _ owners verified v,
      )

  three : (a b c : Bool) → (a && b && c) ≡ true → (a ≡ true) × (b ≡ true) × (c ≡ true)
  three a b c h = ground (arith, h)

  other_key : (k key : String) → not (str_eq k key) ≡ true → k ≢ key
  other_key k key h same = ground (arith, h, (eq_iff k key).1 same)

  OwnerVouches-here :
      (key k c : String) (candidate : Claim) (o : Owner) (owners : Dict Owner)
      → (not (str_eq k key) && shareable candidate o.claim && opt_eq o.checksum (some c)) ≡ true
      → OwnerVouches key candidate c ((k, o) ∷ owners)
  OwnerVouches-here key k c candidate o owners h =
      let (differs, shares, sum) =
        three (not (str_eq k key)) (shareable candidate o.claim) (opt_eq o.checksum (some c)) h in
      let (m, n, id, known, source, t, y, s, p) = shareable_facts candidate o.claim shares in
      record {
        owner_key = k;
        owner = o;
        listed = inl refl;
        other = other_key k key differs;
        is_film = (eq_iff candidate.media_type "movie").0 m;
        owns_film = (eq_iff o.claim.media_type "movie").0 n;
        known_id = id;
        same_id = sym (opt_eq_sound candidate.tmdb_id o.claim.tmdb_id t);
        same_kind = sym ((eq_iff candidate.asset_type o.claim.asset_type).0 y);
        same_season = sym ((eq_iff candidate.season o.claim.season).0 s);
        known_source = known;
        same_source = sym (opt_eq_sound candidate.source_path o.claim.source_path p);
        same_checksum = opt_eq_sound o.checksum (some c) sum;
      }

  OwnerVouches-there :
      (key c : String) (candidate : Claim) (e : String × Owner) (owners : Dict Owner)
      → OwnerVouches key candidate c owners
      → OwnerVouches key candidate c (e ∷ owners)
  OwnerVouches-there key c candidate e owners v = record {
    owner_key = v.owner_key;
    owner = v.owner;
    listed = inr v.listed;
    other = v.other;
    is_film = v.is_film;
    owns_film = v.owns_film;
    known_id = v.known_id;
    same_id = v.same_id;
    same_kind = v.same_kind;
    same_season = v.same_season;
    known_source = v.known_source;
    same_source = v.same_source;
    same_checksum = v.same_checksum;
  }

  owner_vouches_sound :
      (key c : String) (candidate : Claim) (owners : Dict Owner)
      → owner_vouches lower resolve pick claim_text key candidate c owners ≡ true
      → OwnerVouches key candidate c owners
  owner_vouches_sound key c candidate [] h = ground (arith, h)
  owner_vouches_sound key c candidate ((k, o) ∷ owners) h = elim (either _ _ h) [
    | inl here ↦ OwnerVouches-here key k c candidate o owners here
    | inr there ↦
        OwnerVouches-there key c candidate (k, o) owners
          (owner_vouches_sound key c candidate owners there)
  ]

  verified_vouches_sound :
      (key c : String) (candidate : Claim) (verified : Dict (Claim × String))
      → verified_vouches lower resolve pick claim_text key candidate c verified ≡ true
      → VerifiedVouches key candidate c verified
  verified_vouches_sound key c candidate [] h = ground (arith, h)
  verified_vouches_sound key c candidate ((k, v) ∷ verified) h = elim (either _ _ h) [
    | inl here ↦
        (let (differs, same, sum) =
            three (not (str_eq k key)) (claim_eq v.0 candidate) (str_eq v.1 c) here in
          record {
            verifier = k;
            listed = inl (
                ap (λ (x : Claim × String). (k, x))
                  (ap (λ (x : Claim). (x, c)) (sym (claim_eq_sound v.0 candidate same))
                    ∙ ap (λ (x : String). (v.0, x)) (sym ((eq_iff v.1 c).0 sum))));
            other = other_key k key differs;
          })
    | inr there ↦
        (let rest = verified_vouches_sound key c candidate verified there in
          record { verifier = rest.verifier; listed = inr rest.listed; other = rest.other })
  ]

  vouches_sound :
      (key c : String) (candidate : Claim) (owners : Dict Owner) (verified : Dict (Claim × String))
      → (owner_vouches lower resolve pick claim_text key candidate c owners
          || verified_vouches lower resolve pick claim_text key candidate c verified)
        ≡ true
      → OwnerVouches key candidate c owners ⊎ VerifiedVouches key candidate c verified
  vouches_sound key c candidate owners verified h = elim (either _ _ h) [
    | inl own ↦ inl (owner_vouches_sound key c candidate owners own)
    | inr seen ↦ inr (verified_vouches_sound key c candidate verified seen)
  ]

  -- A shared checksum is the checksum of the file at the destination, and another owner vouches for
  -- it: the registry has there a record of another key with that checksum, of a film with the same
  -- known id, for the same kind of artwork, the same season and the same known source; or another
  -- key verified exactly this claim with that checksum. Of a file with the signature of the last
  -- read, the kept checksum must be right.
  pub shared_checksum_sound :
      (key d : String) (a : Artwork) (disk : String → Option File) (r : Registry) (c : String)
      → ((f : File)
          → disk (resolve d) ≡ some f
          → Honest (entry_at lower resolve pick claim_text d r) f)
      → (shared_checksum lower resolve pick claim_text key d a disk r).1 ≡ some c
      → let e = entry_at lower resolve pick claim_text d r in
        let candidate = canonical_asset_claim lower resolve pick claim_text a in
        (f : File) × (disk (resolve d) ≡ some f)
        × (f.sha256 ≡ some c)
        × (OwnerVouches key candidate c e.owners ⊎ VerifiedVouches key candidate c e.verified)
  unfolding shared_checksum entry_at
  shared_checksum_sound key d a disk r c honest h =
      let e = entry_at lower resolve pick claim_text d r in
      let candidate = canonical_asset_claim lower resolve pick claim_text a in
      let (f, there, sum, v) =
        shared_at_sound key d candidate (disk (resolve d)) (lookup (resolve d) r) r c honest h in
      (
        f,
        there,
        sum,
        vouches_sound key c candidate (or_fresh (lookup (resolve d) r)).owners
            (or_fresh (lookup (resolve d) r)).verified v,
      )
