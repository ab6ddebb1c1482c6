-- ===== src/Planning/Plan.antt =====
-- `plan_items` and `select_items` of helper/incremental.py. The cache is given as the entries of
-- the library's scope; `none` there is an entry that is no dictionary.
pub mod Exact
pub mod Order
pub mod Due
use metafusion.Planning.Causes.{
  Reason, Cause, when, new_rating_key, enabled_work_reasons, missing_plex_update_marker,
  tmdb_change_detected, image_upgrade_reasons, targeted_rating_key, plex_updated_at_changed,
  deferred_retry_due, due_selection_causes, full_scan, configuration_changed,
  tv_child_inventory_changed, tv_child_inventory_baseline,
}
use metafusion.Planning.Items.{
  PlexItem, CacheEntry, Config, Counter, Flags, child_inventory_fingerprint, truthy,
}
use metafusion.Prelude.{
  if◌then◌else◌, ◌&&◌, ◌||◌, ◌∷◌, ◌++◌, [], List, String, Option, Bool, ℕ, any, not, none, some,
  str_eq, is_some, opt_eq, true, map,
}

pub record PlannedItem : Type 0 where
  pub item : PlexItem
  pub reasons : List Reason
  pub causes : List Cause

-- The arguments of `plan_items`.
pub record Query : Type 0 where
  pub cache : List (Option CacheEntry)
  pub fingerprint : String
  pub is_full : Bool
  pub rating_keys : List String
  -- `none`: missing, or empty.
  pub config : Option Config
  pub flags : Option Flags
  pub now : ℕ
  pub retry_keys : List String
  pub change_keys : List String

abbrev pub contains : String → List String → Bool
contains k keys = any (λ j. str_eq j k) keys

abbrev pub is_none : Option String → Bool
is_none o = not (is_some o)

-- An entry of the cache under a rating key.
abbrev keyed : String → Option CacheEntry → Option CacheEntry
keyed k none = none
keyed k (some e) = if opt_eq e.rating_key (some k) then some e else none

-- `_scoped_cache_by_rating_key(…).get(k)`: of two entries with one rating key, the last.
unfoldable pub find_cached : String → List (Option CacheEntry) → Option CacheEntry
find_cached k [] = none
find_cached k (e ∷ es) = elim (find_cached k es) [ some found ↦ some found | none ↦ keyed k e ]

-- What differs between an item and its entry.
unfoldable pub change_causes : PlexItem → Option String → String → CacheEntry → List Cause
change_causes item child fingerprint e =
    when (is_none item.updated_at) missing_plex_update_marker
    ++ when (is_some item.updated_at && not (opt_eq e.plex_updated_at item.updated_at))
        plex_updated_at_changed
    ++ when (not (opt_eq e.config_fingerprint (some fingerprint))) configuration_changed
    ++ when (is_some child && not (opt_eq e.plex_child_fingerprint child)) (
        if truthy e.plex_child_fingerprint
        then tv_child_inventory_changed
        else tv_child_inventory_baseline)

abbrev pub cache_causes : PlexItem → Option String → String → Option CacheEntry → List Cause
cache_causes item child fingerprint none = new_rating_key ∷ []
cache_causes item child fingerprint (some e) = change_causes item child fingerprint e

module _ (lower : String → String) (local : ℕ → ℕ) (blank : String → Bool)
    (digest : List (String × Counter) → String) where
  -- The keys that are not blank.
  abbrev pub given_keys : List String → List String
  given_keys [] = []
  given_keys (k ∷ keys) = if blank k then given_keys keys else k ∷ given_keys keys

  abbrev pub is_targeted : Query → Bool
  is_targeted q = any (λ k. true) (given_keys q.rating_keys)

  abbrev pub is_candidate : Query → PlexItem → Bool
  is_candidate q item = not (is_targeted q) || contains item.rating_key (given_keys q.rating_keys)

  abbrev pub candidates : Query → List PlexItem → List PlexItem
  candidates q [] = []
  candidates q (item ∷ items) =
      if is_candidate q item then item ∷ candidates q items else candidates q items

  -- The causes that select an item whatever its schedule says.
  unfoldable pub selection_causes : Query → PlexItem → Option CacheEntry → List Cause
  selection_causes q item cached =
      when (contains item.rating_key (given_keys q.change_keys)) tmdb_change_detected
      ++ when (contains item.rating_key (given_keys q.retry_keys)) deferred_retry_due
      ++ cache_causes item (child_inventory_fingerprint lower digest item) q.fingerprint cached

  abbrev pub planned_if : PlexItem → List Reason → List Cause → Option PlannedItem
  planned_if item [] causes = none
  planned_if item (r ∷ rs) causes = some (record { item = item; reasons = r ∷ rs; causes = causes })

  abbrev pub plan_by : Query → PlexItem → Option CacheEntry → List Cause → Option PlannedItem
  plan_by q item cached (c ∷ cs) =
      planned_if item (enabled_work_reasons lower local item.media_type q.flags) (c ∷ cs)
  plan_by q item cached [] =
      planned_if item
        (image_upgrade_reasons lower local cached item.media_type q.config q.flags q.now)
        (due_selection_causes lower local cached item.media_type q.config q.flags q.now)

  -- The body of the loop over the candidates.
  unfoldable pub plan_item : Query → PlexItem → Option PlannedItem
  plan_item q item =
      let cached = find_cached item.rating_key q.cache in
      plan_by q item cached (selection_causes q item cached)

  abbrev pub cons_planned : Option PlannedItem → List PlannedItem → List PlannedItem
  cons_planned none ps = ps
  cons_planned (some p) ps = p ∷ ps

  abbrev pub plan_all : Query → List PlexItem → List PlannedItem
  plan_all q [] = []
  plan_all q (item ∷ items) = cons_planned (plan_item q item) (plan_all q items)

  -- The item of a full or a targeted scan.
  unfoldable pub plan_full : Query → PlexItem → PlannedItem
  plan_full q item = record {
    item = item;
    reasons = enabled_work_reasons lower local item.media_type q.flags;
    causes = (if is_targeted q then targeted_rating_key else full_scan) ∷ [];
  }

  -- `plan_items`
  unfoldable pub plan_items : Query → List PlexItem → List PlannedItem
  plan_items q items =
      if q.is_full || is_targeted q
      then map (plan_full q) (candidates q items)
      else plan_all q (candidates q items)

  -- `select_items`
  unfoldable pub select_items : Query → List PlexItem → List PlexItem
  unfolding plan_items
  select_items q items = map (λ p. p.item) (plan_items q items)
