-- ===== src/Resume.antt =====
-- The retry queue with the planner: what the call of `plan_items` in modules/processing.py is given as
-- `retry_rating_keys`, and what it makes of it.
mod Examples
use metafusion.Planning.Items.{Counter, PlexItem}
use metafusion.Planning.Plan.{Query, plan_item, contains, given_keys, PlannedItem}
use metafusion.Planning.Plan.Exact.{plan_item-skips}
use metafusion.Prelude.{
  if◌then◌else◌, ◌≡◌, ◌∙◌, ◌||◌, ◌∷◌, refl, [], true, false, none, some, Dict, lookup, String, ℕ,
  List, is_some, Bool, Unique, arith, str_eq, ap, sym, Option, eq_iff, not_both,
}
use metafusion.Retries.{
  RetryRow, load_due_item_retries, StartedItem, mark_items_started, RetryEvent, retry_events,
}
use metafusion.Retries.Due.{starts, mark_items_started-due}
use metafusion.Retries.Spared.{AllSpare, retry_events-keeps_due, mark_items_started-Unique}

-- The keys of a dictionary, in order.
abbrev pub keys_of : Dict RetryRow → List String
keys_of [] = []
keys_of ((key, r) ∷ t) = key ∷ keys_of t

contains-keys_of :
    (key : String) (t : Dict RetryRow)
    → is_some (lookup key t) ≡ true
    → contains key (keys_of t) ≡ true
unfolding lookup
contains-keys_of key [] h = ground (arith, h)
contains-keys_of key ((j, r) ∷ t) h = ground (arith, h, contains-keys_of key t)

module _ (lower : String → String) (local : ℕ → ℕ) (blank : String → Bool)
    (digest : List (String × Counter) → String) where
  contains-given_keys :
      (key : String) (keys : List String)
      → blank key ≡ false
      → contains key keys ≡ true
      → contains key (given_keys lower local blank digest keys) ≡ true
  contains-given_keys key [] there h = h
  contains-given_keys key (j ∷ keys) there h =
      by_blank (blank j) refl (contains-given_keys key keys there)
    where
      by_blank :
          (b : Bool)
          → blank j ≡ b
          → (contains key keys ≡ true
              → contains key (given_keys lower local blank digest keys) ≡ true)
          → contains key (
              if b
              then given_keys lower local blank digest keys
              else j ∷ given_keys lower local blank digest keys)
            ≡ true
      by_blank true e ih = ih (rest (str_eq j key) refl h)
        where
          rest :
              (same : Bool)
              → str_eq j key ≡ same
              → (same || contains key keys) ≡ true
              → contains key keys ≡ true
          rest true s f = absurd (both (ap blank (sym ((eq_iff j key).0 s)) ∙ e))
            where
              both : blank key ≡ true → ⊥
              both p = ground (arith, p, there)
          rest false s f = f
      by_blank false e ih = by_key (str_eq j key) h
        where
          by_key :
              (same : Bool)
              → (same || contains key keys) ≡ true
              → (same || contains key (given_keys lower local blank digest keys)) ≡ true
          by_key true f = refl
          by_key false f = ih f

  -- An incremental scan leaves out no item that the queue gives back.
  due-planned :
      (q : Query) (item : PlexItem) (later : ℕ) (queue : Dict RetryRow)
      → q.retry_keys ≡ keys_of (load_due_item_retries later queue)
      → blank item.rating_key ≡ false
      → is_some (lookup item.rating_key (load_due_item_retries later queue)) ≡ true
      → is_some (plan_item lower local blank digest q item) ≡ true
  due-planned q item later queue asked there due =
      by_plan (plan_item lower local blank digest q item) refl
    where
      named : contains item.rating_key (given_keys lower local blank digest q.retry_keys) ≡ true
      named =
          ap
            (λ (keys : List String).
              contains item.rating_key (given_keys lower local blank digest keys))
            asked
          ∙ contains-given_keys item.rating_key (keys_of (load_due_item_retries later queue)) there
              (contains-keys_of item.rating_key (load_due_item_retries later queue) due)

      clash :
          contains item.rating_key (given_keys lower local blank digest q.retry_keys) ≡ false → ⊥
      clash off = absurd (not_both _ named off)

      by_plan :
          (o : Option PlannedItem)
          → plan_item lower local blank digest q item ≡ o
          → is_some o ≡ true
      by_plan (some p) e = refl
      by_plan none e =
          let (entry, found, unchanged, nothing) =
            (plan_item-skips lower local blank digest q item).0 e in
          absurd (clash unchanged.no_retry)

  -- Let a run mark its items as started, in a queue in which no key stands twice, and let any calls of
  -- the queue follow, in this run and in later ones, of which none records a failure of the item or
  -- clears its key: the run stopped before the item failed or was completed. Then an incremental scan
  -- that is given what the queue gives back, at any later time, plans the item again, whatever the
  -- cache says of it, if it was among the marked ones or the queue gave it back before. Its key is
  -- not blank.
  pub interrupted-planned :
      (q : Query) (item : PlexItem) (now later : ℕ) (items : List StartedItem)
      (es : List RetryEvent) (t : Dict RetryRow)
      → Unique t
      → AllSpare item.rating_key es
      → q.retry_keys
        ≡ keys_of (load_due_item_retries later (retry_events es (mark_items_started now items t).0))
      → blank item.rating_key ≡ false
      → (starts item.rating_key items
          || is_some (lookup item.rating_key (load_due_item_retries later t)))
        ≡ true
      → is_some (plan_item lower local blank digest q item) ≡ true
  interrupted-planned q item now later items es t u spared asked there begun =
      let queue = (mark_items_started now items t).0 in
      due-planned q item later (retry_events es queue) asked there (
        retry_events-keeps_due es item.rating_key later queue
          (mark_items_started-Unique now items t u) spared
          (mark_items_started-due now later items t item.rating_key u ∙ begun))
