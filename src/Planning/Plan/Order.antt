-- ===== src/Planning/Plan/Order.antt =====
-- The plan keeps the order of the items, and drops no work that is due.
use mathlib.Core.Option.{some-injective}
use metafusion.Planning.Causes.{Reason, Cause}
use metafusion.Planning.Items.{Counter, PlexItem, CacheEntry}
use metafusion.Planning.Plan.{
  Query, plan_item, PlannedItem, plan_full, select_items, candidates, plan_items, plan_all,
  is_candidate, planned_if, plan_by, is_targeted, cons_planned,
}
use metafusion.Prelude.{
  ◌≡◌, ◌∷◌, refl, [], List, String, ℕ, Bool, Option, some, map, if_rule, ap, true, arith, false,
  sym, ◌∙◌, ◌||◌, none,
}

-- The first list is the second with some elements left out.
pub data Sublist {A : Type 0} : List A → List A → Type 0 where
  done : Sublist [] []
  skip : {x : A} {xs ys : List A} → Sublist xs ys → Sublist xs (x ∷ ys)
  keep : {x : A} {xs ys : List A} → Sublist xs ys → Sublist (x ∷ xs) (x ∷ ys)

Sublist-trans : {A : Type 0} {xs ys zs : List A} → Sublist xs ys → Sublist ys zs → Sublist xs zs
Sublist-trans s done = s
Sublist-trans s (skip t) = skip (Sublist-trans s t)
Sublist-trans (skip s) (keep t) = skip (Sublist-trans s t)
Sublist-trans (keep s) (keep t) = keep (Sublist-trans s t)

Sublist-refl : {A : Type 0} (xs : List A) → Sublist xs xs
Sublist-refl [] = done
Sublist-refl (x ∷ xs) = keep (Sublist-refl xs)

full_off : (a b : Bool) → a ≡ true → (a || b) ≡ false → ⊥
full_off a b h k = ground (arith, h, k)

module _ (lower : String → String) (local : ℕ → ℕ) (blank : String → Bool)
    (digest : List (String × Counter) → String) where
  candidates-Sublist :
      (q : Query) (items : List PlexItem)
      → Sublist (candidates lower local blank digest q items) items
  candidates-Sublist q [] = done
  candidates-Sublist q (item ∷ items) =
      if_rule (λ xs. Sublist xs (item ∷ items)) (is_candidate lower local blank digest q item)
        (λ _. keep (candidates-Sublist q items)) (λ _. skip (candidates-Sublist q items))

  untargeted_candidates :
      (q : Query) (items : List PlexItem)
      → is_targeted lower local blank digest q ≡ false
      → candidates lower local blank digest q items ≡ items
  untargeted_candidates q [] h = refl
  untargeted_candidates q (item ∷ items) h =
      rw h (ap (λ rest. item ∷ rest) (untargeted_candidates q items h))

  planned_if-item :
      (item : PlexItem) (rs : List Reason) (cs : List Cause) (p : PlannedItem)
      → planned_if lower local blank digest item rs cs ≡ some p
      → p.item ≡ item
  planned_if-item item [] cs p h = ground (arith, h)
  planned_if-item item (r ∷ rs) cs p h = ap (λ x. x.item) (sym (some-injective _ _ h))

  plan_by-item :
      (q : Query) (item : PlexItem) (cached : Option CacheEntry) (cs : List Cause) (p : PlannedItem)
      → plan_by lower local blank digest q item cached cs ≡ some p
      → p.item ≡ item
  plan_by-item q item cached [] p h = planned_if-item item _ _ p h
  plan_by-item q item cached (c ∷ cs) p h = planned_if-item item _ _ p h

  plan_item-item :
      (q : Query) (item : PlexItem) (p : PlannedItem)
      → plan_item lower local blank digest q item ≡ some p
      → p.item ≡ item
  unfolding plan_item
  plan_item-item q item p h = plan_by-item q item _ _ p h

  cons_planned-Sublist :
      (o : Option PlannedItem) (item : PlexItem) (ps : List PlannedItem) (items : List PlexItem)
      → ((p : PlannedItem) → o ≡ some p → p.item ≡ item)
      → Sublist (map (λ p. p.item) ps) items
      → Sublist (map (λ p. p.item) (cons_planned lower local blank digest o ps)) (item ∷ items)
  cons_planned-Sublist none item ps items same s = skip s
  cons_planned-Sublist (some p) item ps items same s = rw (same p refl) (keep s)

  plan_all-Sublist :
      (q : Query) (items : List PlexItem)
      → Sublist (map (λ p. p.item) (plan_all lower local blank digest q items)) items
  plan_all-Sublist q [] = done
  plan_all-Sublist q (item ∷ items) =
      cons_planned-Sublist (plan_item lower local blank digest q item) item _ items
        (plan_item-item q item) (plan_all-Sublist q items)

  full_items :
      (q : Query) (items : List PlexItem)
      → map (λ (p : PlannedItem). p.item) (map (plan_full lower local blank digest q) items) ≡ items
  unfolding plan_full
  full_items q [] = refl
  full_items q (item ∷ items) = ap (λ rest. item ∷ rest) (full_items q items)

  -- Every scan selects items in their order, each at most as often as it is given; a full scan
  -- without rating keys selects them all.
  pub select_items-Sublist :
      (q : Query) (items : List PlexItem)
      → Sublist (select_items lower local blank digest q items) items
        × (q.is_full ≡ true
            → is_targeted lower local blank digest q ≡ false
            → select_items lower local blank digest q items ≡ items)
  unfolding select_items plan_items
  select_items-Sublist q items =
      let all = candidates lower local blank digest q items in
      (
        if_rule (λ (ps : List PlannedItem). Sublist (map (λ (p : PlannedItem). p.item) ps) items)
            (q.is_full || is_targeted lower local blank digest q)
            (λ _. rw (full_items q all) (candidates-Sublist q items))
            (λ _. Sublist-trans (plan_all-Sublist q all) (candidates-Sublist q items)),
        λ full untargeted.
            if_rule (λ (ps : List PlannedItem). map (λ (p : PlannedItem). p.item) ps ≡ items)
              (q.is_full || is_targeted lower local blank digest q)
              (λ _. full_items q all ∙ untargeted_candidates q items untargeted)
              (λ off.
                absurd (full_off q.is_full (is_targeted lower local blank digest q) full off)),
      )
