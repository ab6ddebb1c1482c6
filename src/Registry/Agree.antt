-- ===== src/Registry/Agree.antt =====
-- Claims on one destination agree.
use mathlib.Core.Option.{some-injective}
use metafusion.Prelude.{
  if◌then◌else◌, ◌≡◌, ◌∷◌, refl, [], Bool, String, not, List, true, false, Option, arith, some,
  str_eq, ◌∙◌, ◌&&◌, opt_eq, lookup-insert, eq_iff, if_rule, opt_eq_sound, lookup, ap, none, sym,
  is_some, eq_refl,
}
use metafusion.Registry.{
  Claim, claim_eq, Persisted, Registry, entry_at, Artwork, add_persisted, store, File, claim, Entry,
  shared_checksum, mark_verified, or_fresh, add_at, claim_entry, claim_differs, is_granted, Outcome,
  is_empty, others, compatible, after_read, current_checksum, verify_entry, given_or_current,
  shared_at, canonical_asset_claim, truthy,
}

all_five :
    (a b c d e : Bool)
    → (a && b && c && d && e) ≡ true
    → (a ≡ true) × (b ≡ true) × (c ≡ true) × (d ≡ true) × (e ≡ true)
all_five a b c d e h = ground (arith, h)

claim_path :
    (a b : Claim)
    → a.media_type ≡ b.media_type
    → a.tmdb_id ≡ b.tmdb_id
    → a.asset_type ≡ b.asset_type
    → a.season ≡ b.season
    → a.source_path ≡ b.source_path
    → a ≡ b
claim_path a b m t y s p = grind (arith, m, t, y, s, p)

pub claim_eq_sound : (a b : Claim) → claim_eq a b ≡ true → a ≡ b
claim_eq_sound a b h =
    let (m, t, y, s, p) =
      all_five (str_eq a.media_type b.media_type) (opt_eq a.tmdb_id b.tmdb_id)
        (str_eq a.asset_type b.asset_type) (str_eq a.season b.season)
        (opt_eq a.source_path b.source_path) h in
    claim_path a b ((eq_iff a.media_type b.media_type).0 m) (opt_eq_sound a.tmdb_id b.tmdb_id t)
      ((eq_iff a.asset_type b.asset_type).0 y) ((eq_iff a.season b.season).0 s)
      (opt_eq_sound a.source_path b.source_path p)

if_fresh :
    (b : Bool) (e : Entry) (o : Option Entry)
    → or_fresh (if b then some e else o) ≡ (if b then e else or_fresh o)
if_fresh true e o = refl
if_fresh false e o = refl

and_right_all : (a b : Bool) → not a ≡ false → a ≡ true
and_right_all a b h = ground (arith, h)

module _ (lower resolve : String → String) (pick : List String → Option String)
    (claim_text : Claim → String) where
  -- The operations of a registry.
  pub data Event : Type 0 where
    adds : Persisted → Event
    claims : String → String → Artwork → Event
    shares : String → String → Artwork → (String → Option File) → Event
    verifies : String → String → Artwork → Option String → (String → Option File) → Event

  unfoldable pub apply : Event → Registry → Registry
  apply (adds p) r = add_persisted lower resolve pick claim_text p r
  apply (claims key d a) r = (claim lower resolve pick claim_text key d a r).0
  apply (shares key d a disk) r = (shared_checksum lower resolve pick claim_text key d a disk r).0
  apply (verifies key d a checksum disk) r =
      (mark_verified lower resolve pick claim_text key d a checksum disk r).0

  unfoldable pub run : List Event → Registry → Registry
  run [] r = r
  run (e ∷ es) r = run es (apply e r)

  -- The destination is claimed, as `c`.
  At : Registry → String → Claim → Type 0
  At r d c = (entry_at lower resolve pick claim_text d r).runtime_claim ≡ some c

  entry_at-store :
      (d d' : String) (e : Entry) (r : Registry)
      → entry_at lower resolve pick claim_text d (store lower resolve pick claim_text d' e r) ≡ (
          if str_eq (resolve d') (resolve d) then e else entry_at lower resolve pick claim_text d r)
  unfolding entry_at store
  entry_at-store d d' e r =
      rw (lookup-insert (resolve d') (resolve d) e r)
        (if_fresh (str_eq (resolve d') (resolve d)) e (lookup (resolve d) r))

  -- An entry that keeps the claim of the one before.
  abbrev Keeps : Entry → Entry → Type 0
  Keeps old e = (c : Claim) → old.runtime_claim ≡ some c → e.runtime_claim ≡ some c

  same_entry :
      (d d' : String) (r : Registry)
      → str_eq (resolve d') (resolve d) ≡ true
      → entry_at lower resolve pick claim_text d' r ≡ entry_at lower resolve pick claim_text d r
  unfolding entry_at
  same_entry d d' r h = rw ((eq_iff (resolve d') (resolve d)).0 h) refl

  store-At :
      (d d' : String) (c : Claim) (e : Entry) (r : Registry)
      → Keeps (entry_at lower resolve pick claim_text d' r) e
      → At r d c
      → At (store lower resolve pick claim_text d' e r) d c
  unfolding At
  store-At d d' c e r keeps h = rw (entry_at-store d d' e r) (
      if_rule (λ (x : Entry). x.runtime_claim ≡ some c) (str_eq (resolve d') (resolve d))
        (λ same. keeps c (ap (λ (x : Entry). x.runtime_claim) (same_entry d d' r same) ∙ h))
        (λ _. h))

  add_at-At :
      (d : String) (c : Claim) (destination : Option String) (p : Persisted) (r : Registry)
      → At r d c
      → At (add_at lower resolve pick claim_text destination p r) d c
  add_at-At d c none p r h = h
  add_at-At d c (some d') p r h =
      if_rule (λ r'. At r' d c) (str_eq d' "") (λ _. h) (λ _. store-At d d' c _ r (λ k x. x) h)

  claim_entry-Keeps :
      (key : String) (candidate : Claim) (e : Entry)
      → Keeps e (claim_entry lower resolve pick claim_text key candidate e).0
  unfolding claim_entry
  claim_entry-Keeps key candidate e c h =
      if_rule (λ (x : Entry × Outcome). x.0.runtime_claim ≡ some c)
        (claim_differs lower resolve pick claim_text e.runtime_claim candidate) (λ _. h)
        (λ agrees.
          if_rule (λ (x : Entry × Outcome). x.0.runtime_claim ≡ some c)
            (not (is_empty (others key e.owners))
              && not (
                  compatible lower resolve pick claim_text (is_some (lookup key e.owners)) candidate
                    (others key e.owners)))
            (λ _. h) (λ _. agreed e.runtime_claim agrees h))
    where
      agreed :
          (o : Option Claim)
          → claim_differs lower resolve pick claim_text o candidate ≡ false
          → o ≡ some c
          → some candidate ≡ some c
      agreed none a x = ground (arith, x)
      agreed (some k) a x = sym (ap some (claim_eq_sound k candidate (ground (arith, a)))) ∙ x

  claim_entry-claims :
      (key : String) (candidate : Claim) (e : Entry)
      → is_granted (claim_entry lower resolve pick claim_text key candidate e).1 ≡ true
      → (claim_entry lower resolve pick claim_text key candidate e).0.runtime_claim ≡ some candidate
  unfolding claim_entry
  claim_entry-claims key candidate e =
      if_rule (λ (x : Entry × Outcome). is_granted x.1 ≡ true → x.0.runtime_claim ≡ some candidate)
        (claim_differs lower resolve pick claim_text e.runtime_claim candidate)
        (λ _ h. ground (arith, h))
        (λ _.
          if_rule
            (λ (x : Entry × Outcome). is_granted x.1 ≡ true → x.0.runtime_claim ≡ some candidate)
            (not (is_empty (others key e.owners))
              && not (
                  compatible lower resolve pick claim_text (is_some (lookup key e.owners)) candidate
                    (others key e.owners)))
            (λ _ h. ground (arith, h)) (λ _ _. refl))

  after_read-Keeps :
      (sha : Option String) (signature : String) (e : Entry)
      → Keeps e (after_read lower resolve pick claim_text sha signature e).0
  after_read-Keeps none signature e c h = h
  after_read-Keeps (some s) signature e c h = h

  current_checksum-Keeps :
      (file : Option File) (e : Entry)
      → Keeps e (current_checksum lower resolve pick claim_text file e).0
  unfolding current_checksum
  current_checksum-Keeps none e c h = h
  current_checksum-Keeps (some f) e c h =
      if_rule (λ (x : Entry × Option String). x.0.runtime_claim ≡ some c)
        (opt_eq e.checksum_signature (some f.signature)) (λ _. h)
        (λ _. after_read-Keeps f.sha256 f.signature e c h)

  verify_entry-Keeps :
      (key : String) (candidate : Claim) (checksum : Option String) (e : Entry)
      → Keeps e (verify_entry lower resolve pick claim_text key candidate checksum e)
  verify_entry-Keeps key candidate checksum e c h =
      if_rule (λ (x : Entry). x.runtime_claim ≡ some c) (truthy checksum) (λ _. h) (λ _. h)

  given_or_current-Keeps :
      (checksum : Option String) (file : Option File) (e : Entry)
      → Keeps e (given_or_current lower resolve pick claim_text checksum file e).0
  given_or_current-Keeps checksum file e c h =
      if_rule (λ (x : Entry × Option String). x.0.runtime_claim ≡ some c) (truthy checksum) (λ _. h)
        (λ _. current_checksum-Keeps file e c h)

  marked-Keeps :
      (key : String) (candidate : Claim) (checksum : Option String) (file : Option File) (e : Entry)
      → let (e', value) = given_or_current lower resolve pick claim_text checksum file e in
        Keeps e (verify_entry lower resolve pick claim_text key candidate value e')
  marked-Keeps key candidate checksum file e c h =
      verify_entry-Keeps key candidate
        (given_or_current lower resolve pick claim_text checksum file e).1
        (given_or_current lower resolve pick claim_text checksum file e).0 c
        (given_or_current-Keeps checksum file e c h)

  shared_at-At :
      (d key d' : String) (c candidate : Claim) (file : Option File) (found : Option Entry)
      (r : Registry)
      → lookup (resolve d') r ≡ found
      → At r d c
      → At (shared_at lower resolve pick claim_text key d' candidate file found r).0 d c
  unfolding entry_at
  shared_at-At d key d' c candidate file none r e h = h
  shared_at-At d key d' c candidate none (some k) r e h = h
  shared_at-At d key d' c candidate (some f) (some k) r e h =
      store-At d d' c _ r
        (λ x given.
          current_checksum-Keeps (some f) k x
            (sym (ap (λ o. (or_fresh o).runtime_claim) e) ∙ given))
        h

  apply-At : (ev : Event) (d : String) (c : Claim) (r : Registry) → At r d c → At (apply ev r) d c
  unfolding apply add_persisted claim shared_checksum mark_verified
  apply-At (adds p) d c r h = add_at-At d c p.destination p r h
  apply-At (claims key d' a) d c r h = store-At d d' c _ r (claim_entry-Keeps key _ _) h
  apply-At (shares key d' a disk) d c r h = shared_at-At d key d' c _ _ _ r refl h
  apply-At (verifies key d' a checksum disk) d c r h =
      store-At d d' c _ r
        (marked-Keeps key (canonical_asset_claim lower resolve pick claim_text a) checksum
          (disk (resolve d')) (entry_at lower resolve pick claim_text d' r))
        h

  run-At : (es : List Event) (d : String) (c : Claim) (r : Registry) → At r d c → At (run es r) d c
  unfolding run
  run-At [] d c r h = h
  run-At (e ∷ es) d c r h = run-At es d c (apply e r) (apply-At e d c r h)

  claim-At :
      (key d d' : String) (a : Artwork) (r : Registry)
      → resolve d ≡ resolve d'
      → is_granted (claim lower resolve pick claim_text key d a r).1 ≡ true
      → At
          (claim lower resolve pick claim_text key d a r).0
          d'
          (canonical_asset_claim lower resolve pick claim_text a)
  unfolding claim At
  claim-At key d d' a r same granted =
      rw (entry_at-store d' d _ r)
        (rw same (rw (eq_refl (resolve d')) (claim_entry-claims key _ _ granted)))

  granted_only :
      (key : String) (candidate c : Claim) (e : Entry)
      → e.runtime_claim ≡ some c
      → is_granted (claim_entry lower resolve pick claim_text key candidate e).1 ≡ true
      → c ≡ candidate
  granted_only key candidate c e h granted =
      some-injective _ _
        (sym (claim_entry-Keeps key candidate e c h) ∙ claim_entry-claims key candidate e granted)

  -- In one job, two claims on one destination that are both granted are for the same artwork,
  -- whatever records are added, and whatever is claimed, shared or verified between them.
  pub granted_claims_agree :
      (key₁ key₂ d₁ d₂ : String) (a₁ a₂ : Artwork) (es : List Event) (r : Registry)
      → resolve d₁ ≡ resolve d₂
      → is_granted (claim lower resolve pick claim_text key₁ d₁ a₁ r).1 ≡ true
      → is_granted
          (claim lower resolve pick claim_text key₂ d₂ a₂
            (run es (claim lower resolve pick claim_text key₁ d₁ a₁ r).0)).1
        ≡ true
      → canonical_asset_claim lower resolve pick claim_text a₁
        ≡ canonical_asset_claim lower resolve pick claim_text a₂
  granted_claims_agree key₁ key₂ d₁ d₂ a₁ a₂ es r same first second =
      granted_only key₂ _ _
        (entry_at lower resolve pick claim_text d₂
          (run es (claim lower resolve pick claim_text key₁ d₁ a₁ r).0))
        (unfold At in run-At es d₂ _ _ (claim-At key₁ d₁ d₂ a₁ r same first))
        (unfold claim in second)
