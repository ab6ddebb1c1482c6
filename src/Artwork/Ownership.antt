-- ===== src/Artwork/Ownership.antt =====
-- `asset_write_allowed` and `claim_asset_destination` of modules/utils.py. Parameters: `policy_of` is
-- `strip` and `lower` of the policy, and `absolute` makes a path absolute.
use metafusion.Prelude.{
  if◌then◌else◌, ◌≡◌, ◌&&◌, Option, Dict, String, Bool, lookup, false, not, some, true, insert,
  str_eq, none, refl, arith, ap, eq_iff, inl, inr, ◌↔◌, ◌⊎◌, eq_refl, lookup-insert, ◌∙◌, ◌∷◌, [],
  List, if_rule, sym,
}

pub record OwnershipRecord : Type 0 where
  pub checksum : Option String
  pub path : Option String

pub record OwnedEntry : Type 0 where
  pub poster : OwnershipRecord
  pub background : OwnershipRecord
  pub seasons : Dict OwnershipRecord

pub data AssetType : Type 0 where
  poster background : AssetType
  season : String → AssetType

pub data WriteReason : Type 0 where
  missing overwrite fill_missing no_ownership_record recorded_path_mismatch : WriteReason
  missing_checksum unverifiable modified managed : WriteReason

-- The file in place: whether it is there, and its checksum (`none`: it cannot be read).
pub record FileInPlace : Type 0 where
  pub is_there : Bool
  pub sha256 : Option String

abbrev pub truthy : Option String → Bool
truthy none = false
truthy (some s) = not (str_eq s "")

abbrev or_no_record : Option OwnershipRecord → OwnershipRecord
or_no_record none = record { checksum = none; path = none }
or_no_record (some r) = r

unfoldable pub record_of : AssetType → OwnedEntry → OwnershipRecord
record_of poster e = e.poster
record_of background e = e.background
record_of (season n) e = or_no_record (lookup n e.seasons)

not_refused :
    (b : Bool) (reason : WriteReason) (x : Bool × WriteReason)
    → (if b then (false, reason) else x).0 ≡ true
    → (b ≡ false) × (x.0 ≡ true)
not_refused true reason x h = ground (arith, h)
not_refused false reason x h = (refl, h)

module _ (policy_of absolute : String → String) where
  abbrev pub same_path : Option String → String → Bool
  same_path none path = false
  same_path (some p) path = str_eq (absolute p) (absolute path)

  -- From the reading of the file's checksum on.
  abbrev pub verify_file : Option String → String → Bool × WriteReason
  verify_file none expected = (false, unverifiable)
  verify_file (some current) expected =
      if str_eq current expected then (true, managed) else (false, modified)

  abbrev pub unproved : Option String → Bool × WriteReason
  unproved path = (false, (if truthy path then missing_checksum else no_ownership_record))

  abbrev pub verify_sum : Option String → Option String → Option String → Bool × WriteReason
  verify_sum none path current = unproved path
  verify_sum (some expected) path current =
      if str_eq expected "" then unproved path else verify_file current expected

  abbrev pub check_record : OwnershipRecord → String → Option String → Bool × WriteReason
  check_record r path current =
      if truthy r.path && not (same_path r.path path)
      then (false, recorded_path_mismatch)
      else verify_sum r.checksum r.path current

  abbrev pub check_entry :
      AssetType → Option OwnedEntry → String → Option String → Bool × WriteReason
  check_entry kind none path current = (false, no_ownership_record)
  check_entry kind (some e) path current = check_record (record_of kind e) path current

  -- `asset_write_allowed`
  unfoldable pub asset_write_allowed :
      String → AssetType → Option OwnedEntry → String → FileInPlace → Bool × WriteReason
  asset_write_allowed policy kind cached path file =
      if not file.is_there
      then (true, missing)
      else if str_eq (policy_of policy) "overwrite"
      then (true, overwrite)
      else if str_eq (policy_of policy) "fill_missing"
      then (false, fill_missing)
      else check_entry kind cached path file.sha256

  -- An entry proves that the file is the one that was written there.
  pub record Proves (kind : AssetType) (cached : Option OwnedEntry) (path : String)
      (current : Option String) : Type 0 where
    pub entry : OwnedEntry
    pub found : cached ≡ some entry
    pub sum : String
    pub expected : (record_of kind entry).checksum ≡ some sum
    pub full : str_eq sum "" ≡ false
    pub same : current ≡ some sum
    pub placed :
        (truthy (record_of kind entry).path && not (same_path (record_of kind entry).path path))
        ≡ false

  abbrev claim_free : Option String → String → Bool
  claim_free none key = true
  claim_free (some owner) key = str_eq owner key

  abbrev owner_or : Option String → String → String
  owner_or none key = key
  owner_or (some owner) key = owner

  -- `claim_asset_destination`
  unfoldable pub claim_asset_destination :
      Dict String → String → String → Dict String × (Bool × String)
  claim_asset_destination registry key path =
      let existing = lookup (absolute path) registry in
      if claim_free existing key
      then (insert (absolute path) key registry, (true, key))
      else (registry, (false, owner_or existing key))

  only_sum :
      (sum path current : Option String)
      → (verify_sum sum path current).0 ≡ true
      → (s : String) × (sum ≡ some s) × (str_eq s "" ≡ false) × (current ≡ some s)
  only_sum none path current h = ground (arith, h)
  only_sum (some s) path none h = ground (arith, h)
  only_sum (some s) path (some c) h =
      (s, refl, ground (arith, h), ap some ((eq_iff c s).0 (ground (arith, h))))

  check_entry-Proves :
      (kind : AssetType) (cached : Option OwnedEntry) (path : String) (current : Option String)
      → (check_entry kind cached path current).0 ≡ true
      → Proves kind cached path current
  check_entry-Proves kind none path current h = ground (arith, h)
  check_entry-Proves kind (some e) path current h =
      let r = record_of kind e in
      let (placed, rest) =
        not_refused (truthy r.path && not (same_path r.path path)) recorded_path_mismatch
          (verify_sum r.checksum r.path current) h in
      let (sum, expected, full, same) = only_sum r.checksum r.path current rest in
      record {
        entry = e;
        found = refl;
        sum = sum;
        expected = expected;
        full = full;
        same = same;
        placed = placed;
      }

  Proves-check_entry :
      (kind : AssetType) (cached : Option OwnedEntry) (path : String) (current : Option String)
      → Proves kind cached path current
      → (check_entry kind cached path current).0 ≡ true
  Proves-check_entry kind cached path current p =
      rw p.found (rw p.placed (rw p.expected (rw p.full (rw p.same (rw (eq_refl p.sum) refl)))))

  -- Artwork may be written exactly where no file is in place; or under the policy `overwrite`; or
  -- under a policy that is neither that nor `fill_missing`, where the cache has an entry whose record
  -- has the checksum of the file in place, and no other path.
  pub asset_write_allowed_lem :
      (policy : String) (kind : AssetType) (cached : Option OwnedEntry) (path : String)
      (file : FileInPlace)
      → ((asset_write_allowed policy kind cached path file).0 ≡ true) ↔ (
          (file.is_there ≡ false)
          ⊎ ((str_eq (policy_of policy) "overwrite" ≡ true)
              ⊎ ((str_eq (policy_of policy) "fill_missing" ≡ false)
                  × Proves kind cached path file.sha256)))
  unfolding asset_write_allowed
  asset_write_allowed_lem policy kind cached path file = (
    there file.is_there (str_eq (policy_of policy) "overwrite")
        (str_eq (policy_of policy) "fill_missing"),
    back file.is_there (str_eq (policy_of policy) "overwrite")
        (str_eq (policy_of policy) "fill_missing"),
  )
    where
      Decided : Bool → Bool → Bool → Type 0
      Decided is_there over fill =
          (if not is_there
            then (true, missing)
            else if over
            then (true, overwrite)
            else if fill
            then (false, fill_missing)
            else check_entry kind cached path file.sha256).0
          ≡ true

      Reason : Bool → Bool → Bool → Type 0
      Reason is_there over fill =
          (is_there ≡ false)
          ⊎ ((over ≡ true) ⊎ ((fill ≡ false) × Proves kind cached path file.sha256))

      there : (is_there over fill : Bool) → Decided is_there over fill → Reason is_there over fill
      there false over fill h = inl refl
      there true true fill h = inr (inl refl)
      there true false true h = ground (arith, h)
      there true false false h = inr (inr (refl, check_entry-Proves kind cached path file.sha256 h))

      back : (is_there over fill : Bool) → Reason is_there over fill → Decided is_there over fill
      back false over fill h = refl
      back true true fill h = refl
      back true false fill (inl h) = ground (arith, h)
      back true false fill (inr (inl h)) = ground (arith, h)
      back true false true (inr (inr (h, p))) = ground (arith, h)
      back true false false (inr (inr (h, p))) = Proves-check_entry kind cached path file.sha256 p

  -- The claims of a job, in order, each of a key and a path.
  abbrev pub claim_all : List (String × String) → Dict String → Dict String
  claim_all [] registry = registry
  claim_all ((key, path) ∷ claims) registry =
      claim_all claims (claim_asset_destination registry key path).0

  -- The end of a claim, by what the registry has of the path.
  abbrev claim_ended : Dict String → String → String → Option String → Dict String × (Bool × String)
  claim_ended registry key path existing =
      if claim_free existing key
      then (insert (absolute path) key registry, (true, key))
      else (registry, (false, owner_or existing key))

  granted-owner :
      (registry : Dict String) (key path : String)
      → (claim_asset_destination registry key path).1.0 ≡ true
      → lookup (absolute path) (claim_asset_destination registry key path).0 ≡ some key
  unfolding claim_asset_destination
  granted-owner registry key path h = free (lookup (absolute path) registry) h
    where
      free :
          (o : Option String)
          → (claim_ended registry key path o).1.0 ≡ true
          → lookup (absolute path) (claim_ended registry key path o).0 ≡ some key
      free o h' =
          if_rule
            (λ (r : Dict String × (Bool × String)).
              r.1.0 ≡ true → lookup (absolute path) r.0 ≡ some key)
            (claim_free o key)
            (λ _ _.
              lookup-insert (absolute path) (absolute path) key registry
              ∙ ap (λ (b : Bool). if b then some key else lookup (absolute path) registry)
                  (eq_refl (absolute path)))
            (λ _ refused. ground (arith, refused)) h'

  -- A claim leaves each path with its owner.
  claim-keeps :
      (registry : Dict String) (key path p owner : String)
      → lookup p registry ≡ some owner
      → lookup p (claim_asset_destination registry key path).0 ≡ some owner
  unfolding claim_asset_destination
  claim-keeps registry key path p owner held = kept (lookup (absolute path) registry) refl
    where
      kept :
          (o : Option String)
          → lookup (absolute path) registry ≡ o
          → lookup p (claim_ended registry key path o).0 ≡ some owner
      kept o e =
          if_rule (λ (r : Dict String × (Bool × String)). lookup p r.0 ≡ some owner)
            (claim_free o key)
            (λ free.
              lookup-insert (absolute path) p key registry
              ∙ here (str_eq (absolute path) p) refl o e free)
            (λ _. held)
        where
          here :
              (b : Bool)
              → str_eq (absolute path) p ≡ b
              → (x : Option String) → lookup (absolute path) registry ≡ x
              → claim_free x key ≡ true
              → (if b then some key else lookup p registry) ≡ some owner
          here false q x found free = held
          here true q x found free =
              own x
                (sym found
                  ∙ ap (λ (j : String). lookup j registry) ((eq_iff (absolute path) p).0 q)
                  ∙ held)
                free
            where
              own :
                  (y : Option String)
                  → y ≡ some owner
                  → claim_free y key ≡ true
                  → some key ≡ some owner
              own none miss free' = ground (arith, miss)
              own (some other) same free' = ap some (sym ((eq_iff other key).0 free')) ∙ same

  claim_all-keeps :
      (claims : List (String × String)) (registry : Dict String) (p owner : String)
      → lookup p registry ≡ some owner
      → lookup p (claim_all claims registry) ≡ some owner
  claim_all-keeps [] registry p owner held = held
  claim_all-keeps ((key, path) ∷ claims) registry p owner held =
      claim_all-keeps claims (claim_asset_destination registry key path).0 p owner
        (claim-keeps registry key path p owner held)

  owned-refused :
      (registry : Dict String) (owner key path : String)
      → str_eq owner key ≡ false
      → lookup (absolute path) registry ≡ some owner
      → (claim_asset_destination registry key path).1.0 ≡ false
  unfolding claim_asset_destination
  owned-refused registry owner key path differ held = rw held (rw differ refl)

  -- Once an owner is granted a path in a job, whatever the registry held before, each later claim of
  -- the same absolute path by another owner is refused, whatever claims of this and of other
  -- paths are made between the two.
  pub claim_asset_destination-excludes :
      (registry : Dict String) (key₁ key₂ path₁ path₂ : String) (between : List (String × String))
      → absolute path₁ ≡ absolute path₂
      → str_eq key₁ key₂ ≡ false
      → (claim_asset_destination registry key₁ path₁).1.0 ≡ true
      → (claim_asset_destination
          (claim_all between (claim_asset_destination registry key₁ path₁).0)
          key₂
          path₂).1.0
        ≡ false
  claim_asset_destination-excludes registry key₁ key₂ path₁ path₂ between same differ granted =
      owned-refused (claim_all between (claim_asset_destination registry key₁ path₁).0) key₁ key₂
        path₂ differ
        (ap
            (λ (p : String).
              lookup p (claim_all between (claim_asset_destination registry key₁ path₁).0))
            (sym same)
          ∙ claim_all-keeps between (claim_asset_destination registry key₁ path₁).0 (absolute path₁)
              key₁ (granted-owner registry key₁ path₁ granted))
