-- ===== src/Planning/Plan/Due.antt =====
-- No work that is due is dropped from a plan.
use metafusion.Planning.Causes.{Reason, Cause, image_upgrade_reasons, enabled_work_reasons}
use metafusion.Planning.Causes.Enabled.{has, due_reasons-enabled}
use metafusion.Planning.Items.{Counter, PlexItem, CacheEntry, Config, Flags, is_empty, truthy}
use metafusion.Planning.Plan.{
  plan_item, Query, PlannedItem, find_cached, planned_if, plan_by, selection_causes,
}
use metafusion.Prelude.{
  ◌≡◌, ◌∙◌, ◌∷◌, refl, [], String, ℕ, Bool, List, true, some, arith, false, ap, sym,
}

module _ (lower : String → String) (local : ℕ → ℕ) (blank : String → Bool)
    (digest : List (String × Counter) → String) where
  planned_if-has :
      (r : Reason) (item : PlexItem) (rs : List Reason) (cs : List Cause)
      → has r rs ≡ true
      → (p : PlannedItem) × (planned_if lower local blank digest item rs cs ≡ some p)
        × (has r p.reasons ≡ true)
  planned_if-has r item [] cs h = absurd (ground (arith, h))
  planned_if-has r item (x ∷ rs) cs h =
      (record { item = item; reasons = x ∷ rs; causes = cs }, refl, h)

  plan_by-has :
      (r : Reason) (q : Query) (item : PlexItem) (e : CacheEntry) (c : Config) (f : Flags)
      (cs : List Cause)
      → q.config ≡ some c
      → q.flags ≡ some f
      → is_empty f ≡ false
      → truthy item.media_type ≡ true
      → has r (image_upgrade_reasons lower local (some e) item.media_type q.config q.flags q.now)
        ≡ true
      → (p : PlannedItem) × (plan_by lower local blank digest q item (some e) cs ≡ some p)
        × (has r p.reasons ≡ true)
  plan_by-has r q item e c f [] configured flagged given typed h = planned_if-has r item _ _ h
  plan_by-has r q item e c f (x ∷ cs) configured flagged given typed h =
      planned_if-has r item (enabled_work_reasons lower local item.media_type q.flags) (x ∷ cs) (
        ap (λ fs. has r (enabled_work_reasons lower local item.media_type fs)) flagged
        ∙ due_reasons-enabled lower local r e item.media_type c f q.now typed given (
            sym (
              ap
                (λ k.
                  has r
                    (image_upgrade_reasons lower local (some e) item.media_type k q.flags q.now))
                configured
              ∙ ap
                  (λ fs.
                    has r (
                      image_upgrade_reasons lower local (some e) item.media_type (some c) fs q.now))
                  flagged)
            ∙ h))

  -- Where the configuration, the feature flags and the item's media type are given, whatever work is
  -- due of an item with a cache entry is in the item's plan, also when it is something else that
  -- selects the item.
  pub plan_item-covers-due :
      (r : Reason) (q : Query) (item : PlexItem) (e : CacheEntry) (c : Config) (f : Flags)
      → find_cached item.rating_key q.cache ≡ some e
      → q.config ≡ some c
      → q.flags ≡ some f
      → is_empty f ≡ false
      → truthy item.media_type ≡ true
      → has r (image_upgrade_reasons lower local (some e) item.media_type q.config q.flags q.now)
        ≡ true
      → (p : PlannedItem) × (plan_item lower local blank digest q item ≡ some p)
        × (has r p.reasons ≡ true)
  unfolding plan_item
  plan_item-covers-due r q item e c f found configured flagged given typed h = rw found (
      plan_by-has r q item e c f (selection_causes lower local blank digest q item (some e))
        configured flagged given typed h)
