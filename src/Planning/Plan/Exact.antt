-- ===== src/Planning/Plan/Exact.antt =====
-- Which items an incremental scan leaves out.
use metafusion.Planning.Causes.{
  when, Reason, enabled_work_reasons, Cause, or_identity, image_upgrade_reasons, new_rating_key,
  tmdb_change_detected, deferred_retry_due, missing_plex_update_marker, plex_updated_at_changed,
  configuration_changed, tv_child_inventory_changed, tv_child_inventory_baseline,
}
use metafusion.Planning.Items.{
  Counter, PlexItem, CacheEntry, Flags, child_inventory_fingerprint, truthy,
}
use metafusion.Planning.Plan.{
  Query, selection_causes, plan_item, change_causes, contains, planned_if, plan_by, find_cached,
  given_keys, is_none,
}
use metafusion.Prelude.{
  ◌≡◌, ◌↔◌, ◌&&◌, ◌∷◌, ◌++◌, refl, [], Bool, String, List, ℕ, false, arith, Option, none, true,
  some, is_some, opt_eq, not, if◌then◌else◌,
}

empty-append : {A : Type 0} (xs ys : List A) → xs ++ ys ≡ [] → (xs ≡ []) × (ys ≡ [])
empty-append [] ys h = (refl, h)
empty-append (x ∷ xs) ys h = ground (arith, h)

empty_when : {A : Type 0} (b : Bool) (a : A) → when b a ≡ [] → b ≡ false
empty_when true a h = ground (arith, h)
empty_when false a h = refl

two_empty : (a b : Bool) (x y : Cause) → when a x ++ when b y ≡ [] → (a ≡ false) × (b ≡ false)
two_empty false b x y h = (refl, empty_when b y h)
two_empty true b x y h = ground (arith, h)

four_empty :
    (a b c d : Bool) (w x y z : Cause)
    → when a w ++ when b x ++ when c y ++ when d z ≡ []
    → ((a ≡ false) × (b ≡ false)) × (c ≡ false) × (d ≡ false)
four_empty a b c d w x y z h =
    let (abc, last) = empty-append (when a w ++ when b x ++ when c y) (when d z) h in
    let (ab, third) = empty-append (when a w ++ when b x) (when c y) abc in
    (two_empty a b w x ab, empty_when c y third, empty_when d z last)

module _ (lower : String → String) (local : ℕ → ℕ) (blank : String → Bool)
    (digest : List (String × Counter) → String) where
  -- Nothing has changed of the item since its entry was written, and no key names it.
  pub record IsUnchanged (q : Query) (item : PlexItem) (e : CacheEntry) : Type 0 where
    pub unnamed :
        contains item.rating_key (given_keys lower local blank digest q.change_keys) ≡ false
    pub no_retry :
        contains item.rating_key (given_keys lower local blank digest q.retry_keys) ≡ false
    pub marked : is_some item.updated_at ≡ true
    pub marker : opt_eq e.plex_updated_at item.updated_at ≡ true
    pub fingerprint : opt_eq e.config_fingerprint (some q.fingerprint) ≡ true
    pub child :
        (is_some (child_inventory_fingerprint lower digest item)
          && not (opt_eq e.plex_child_fingerprint (child_inventory_fingerprint lower digest item)))
        ≡ false

  IsUnchanged-causes :
      (q : Query) (item : PlexItem) (e : CacheEntry)
      → IsUnchanged q item e
      → selection_causes lower local blank digest q item (some e) ≡ []
  unfolding selection_causes change_causes
  IsUnchanged-causes q item e u =
      rw u.unnamed (rw u.no_retry (rw u.marked (rw u.marker (rw u.fingerprint (rw u.child refl)))))

  causes-IsUnchanged :
      (q : Query) (item : PlexItem) (e : CacheEntry)
      → selection_causes lower local blank digest q item (some e) ≡ []
      → IsUnchanged q item e
  unfolding selection_causes change_causes
  causes-IsUnchanged q item e h =
      let child = child_inventory_fingerprint lower digest item in
      let (named, changed) = empty-append _ (change_causes item child q.fingerprint e) h in
      let (unnamed, no_retry) =
        two_empty (contains item.rating_key (given_keys lower local blank digest q.change_keys))
          (contains item.rating_key (given_keys lower local blank digest q.retry_keys))
          tmdb_change_detected deferred_retry_due named in
      let ((unmarked, moved), configured, child_moved) =
        four_empty (is_none item.updated_at)
          (is_some item.updated_at && not (opt_eq e.plex_updated_at item.updated_at))
          (not (opt_eq e.config_fingerprint (some q.fingerprint)))
          (is_some child && not (opt_eq e.plex_child_fingerprint child)) missing_plex_update_marker
          plex_updated_at_changed configuration_changed
          (if truthy e.plex_child_fingerprint
            then tv_child_inventory_changed
            else tv_child_inventory_baseline)
          changed in
      record {
        unnamed = unnamed;
        no_retry = no_retry;
        marked = ground (arith, unmarked);
        marker = ground (arith, unmarked, moved);
        fingerprint = ground (arith, configured);
        child = child_moved;
      }

  not_new :
      (q : Query) (item : PlexItem) → selection_causes lower local blank digest q item none ≡ [] → ⊥
  unfolding selection_causes
  not_new q item h = let (_, new) = empty-append _ (new_rating_key ∷ []) h in ground (arith, new)

  planned_if-none :
      (item : PlexItem) (rs : List Reason) (cs : List Cause)
      → planned_if lower local blank digest item rs cs ≡ none
      → rs ≡ []
  planned_if-none item [] cs h = refl
  planned_if-none item (r ∷ rs) cs h = ground (arith, h)

  or_identity-full : (rs : List Reason) → or_identity lower local rs ≡ [] → ⊥
  or_identity-full [] h = ground (arith, h)
  or_identity-full (r ∷ rs) h = ground (arith, h)

  some_work :
      (media_type : Option String) (flags : Option Flags)
      → enabled_work_reasons lower local media_type flags ≡ []
      → ⊥
  unfolding enabled_work_reasons
  some_work media_type flags h = or_identity-full _ h

  plan_by-none :
      (q : Query) (item : PlexItem) (cached : Option CacheEntry) (cs : List Cause)
      → plan_by lower local blank digest q item cached cs ≡ none
      → (cs ≡ [])
        × (image_upgrade_reasons lower local cached item.media_type q.config q.flags q.now ≡ [])
  plan_by-none q item cached [] h = (refl, planned_if-none item _ _ h)
  plan_by-none q item cached (c ∷ cs) h =
      absurd (some_work item.media_type q.flags (planned_if-none item _ _ h))

  -- An incremental scan leaves an item out exactly when the cache has an entry for it, nothing has
  -- changed since, no change or retry names it, and nothing of it is due.
  pub plan_item-skips :
      (q : Query) (item : PlexItem)
      → (plan_item lower local blank digest q item ≡ none) ↔ (
          (e : CacheEntry) × (find_cached item.rating_key q.cache ≡ some e)
          × IsUnchanged q item e
          × (image_upgrade_reasons lower local (some e) item.media_type q.config q.flags q.now
              ≡ []))
  unfolding plan_item
  plan_item-skips q item = (there (find_cached item.rating_key q.cache) refl, back)
    where
      there :
          (cached : Option CacheEntry)
          → find_cached item.rating_key q.cache ≡ cached
          → plan_by lower local blank digest q item cached
              (selection_causes lower local blank digest q item cached)
            ≡ none
          → (e : CacheEntry) × (find_cached item.rating_key q.cache ≡ some e)
            × IsUnchanged q item e
            × (image_upgrade_reasons lower local (some e) item.media_type q.config q.flags q.now
                ≡ [])
      there none found h = absurd (
          not_new q item
            (plan_by-none q item none (selection_causes lower local blank digest q item none) h).0)
      there (some e) found h =
          let (none_found, idle) = plan_by-none q item (some e) _ h in
          (e, found, causes-IsUnchanged q item e none_found, idle)

      back :
          ((e : CacheEntry) × (find_cached item.rating_key q.cache ≡ some e)
            × IsUnchanged q item e
            × (image_upgrade_reasons lower local (some e) item.media_type q.config q.flags q.now
                ≡ []))
          → plan_by lower local blank digest q item (find_cached item.rating_key q.cache) (
              selection_causes lower local blank digest q item
                (find_cached item.rating_key q.cache))
            ≡ none
      back (e, found, unchanged, idle) =
          rw found (rw (IsUnchanged-causes q item e unchanged) (rw idle refl))
