-- ===== src/Retries/Bounded.antt =====
-- Retries are bounded by the number of failures.
use mathlib.Core.Path.{subst}
use metafusion.Prelude.{
  if◌then◌else◌, ◌+◌, ◌≡◌, ◌∙◌, ◌∷◌, refl, [], none, ℕ, List, String, Option, Dict, Unique, remove,
  lookup, remove-Unique, str_eq, is_some, insert-Unique, eq_iff, any, ap, sym, Bool, eq_refl,
}
use metafusion.Retries.{
  clear_item_retries, retry_event, retry_events, record_item_failure, StartedItem,
  mark_items_started, RetryEvent, Texts, RetryRow, FailedItem, start_all, started, start_at,
  failing, load_due_item_retries, failure_row, cleared, normalized_class, attempts_after,
}
use metafusion.Retries.Due.{start_at-Unique, retried, record_item_failure-due}
use metafusion.Retries.Tally.{
  CountedAt, SameMarker, tally, insert-CountedAt, start_all-CountedAt, attempts_after-same,
  clear-CountedAt,
}

start_all-Unique :
    (now : ℕ) (items : List StartedItem) (t : Dict RetryRow)
    → Unique t
    → Unique (start_all now items t)
start_all-Unique now [] t u = u
start_all-Unique now (item ∷ items) t u =
    start_all-Unique now items (start_at now item item.rating_key t)
      (start_at-Unique now item item.rating_key t u)

pub clear-Unique :
    (keys : List String) (t : Dict RetryRow) → Unique t → Unique (clear_item_retries keys t).0
unfolding clear_item_retries
clear-Unique [] t u = u
clear-Unique (key ∷ keys) t u = clear-Unique keys (remove key t) (remove-Unique key t u)

pub retry_event-Unique :
    (event : RetryEvent) (t : Dict RetryRow) → Unique t → Unique (retry_event event t)
unfolding retry_event mark_items_started record_item_failure
retry_event-Unique (started now []) t u = u
retry_event-Unique (started now (item ∷ items)) t u = start_all-Unique now (item ∷ items) t u
retry_event-Unique (failing texts now item) t u =
    insert-Unique item.rating_key (failure_row texts now item (lookup item.rating_key t)) t u
retry_event-Unique (cleared keys) t u = clear-Unique keys t u

pub retry_events-Unique :
    (es : List RetryEvent) (t : Dict RetryRow) → Unique t → Unique (retry_events es t)
unfolding retry_events
retry_events-Unique [] t u = u
retry_events-Unique (event ∷ es) t u =
    retry_events-Unique es (retry_event event t) (retry_event-Unique event t u)

failing-CountedAt :
    (marker : Option String) (n : ℕ) (key : String) (texts : Texts) (now : ℕ) (item : FailedItem)
    (t : Dict RetryRow)
    → (item.rating_key ≡ key → item.plex_updated_at ≡ marker)
    → CountedAt marker n (lookup key t)
    → CountedAt marker
        (if str_eq item.rating_key key then n + 1 else n)
        (lookup key (record_item_failure texts now item t))
unfolding record_item_failure
failing-CountedAt marker n key texts now item t same h =
    insert-CountedAt marker n (if str_eq item.rating_key key then n + 1 else n) key item.rating_key
      (failure_row texts now item (lookup item.rating_key t)) t
      (λ e.
        let own : item.rating_key ≡ key = (eq_iff item.rating_key key).0 e in
        (
          attempts_after-same marker n item.plex_updated_at (lookup item.rating_key t) (same own)
                (subst (λ (j : String). CountedAt marker n (lookup j t)) (sym own) h)
              ∙ ap (λ (b : Bool). if b then n + 1 else n) (sym e),
          same own,
        ))
      (λ e. ap (λ (b : Bool). if b then n + 1 else n) (sym e)) h

retry_events-CountedAt :
    (marker : Option String) (key : String) (es : List RetryEvent) (n : ℕ) (t : Dict RetryRow)
    → SameMarker key marker es
    → CountedAt marker n (lookup key t)
    → CountedAt marker (tally key n es) (lookup key (retry_events es t))
unfolding retry_events retry_event mark_items_started
retry_events-CountedAt marker key [] n t same h = h
retry_events-CountedAt marker key (started now [] ∷ es) n t (same, rest) h =
    retry_events-CountedAt marker key es n t rest h
retry_events-CountedAt marker key (started now (item ∷ items) ∷ es) n t (same, rest) h =
    retry_events-CountedAt marker key es n (start_all now (item ∷ items) t) rest
      (start_all-CountedAt marker n now key (item ∷ items) t same h)
retry_events-CountedAt marker key (failing texts now item ∷ es) n t (same, rest) h =
    retry_events-CountedAt marker key es (if str_eq item.rating_key key then n + 1 else n)
      (record_item_failure texts now item t) rest
      (failing-CountedAt marker n key texts now item t same h)
retry_events-CountedAt marker key (cleared keys ∷ es) n t same h =
    retry_events-CountedAt marker key es (if any (str_eq key) keys then 0 else n)
      (clear_item_retries keys t).0 same (clear-CountedAt marker n key keys t h)

-- Let an item be absent from the queue, and let any calls follow, about it and others, that name the
-- same time of last change for it wherever they start it or record its failure. Then one more
-- failure of it lets it come back exactly if that failure is not permanent, it is at most
-- the fourth since the item was last cleared, and the wait of its number has passed: starts, also those
-- of processes that stopped, do not change the count, and after the fifth failure the item
-- never comes back by itself.
pub failures-retried :
    (es : List RetryEvent) (t : Dict RetryRow) (marker : Option String) (texts : Texts) (now : ℕ)
    (item : FailedItem) (later : ℕ)
    → Unique t
    → lookup item.rating_key t ≡ none
    → SameMarker item.rating_key marker es
    → item.plex_updated_at ≡ marker
    → is_some (
        lookup item.rating_key
          (load_due_item_retries later (record_item_failure texts now item (retry_events es t))))
      ≡ retried
          (normalized_class texts item.given_class item.failure.message)
          (tally item.rating_key 0 es + 1)
          now
          later
failures-retried es t marker texts now item later u absent same mark =
    let queue = retry_events es t in
    let class = normalized_class texts item.given_class item.failure.message in
    record_item_failure-due texts now item queue later item.rating_key (retry_events-Unique es t u)
    ∙ ap
        (λ (b : Bool).
          if b
          then retried class (attempts_after item.plex_updated_at (lookup item.rating_key queue))
              now later
          else is_some (lookup item.rating_key (load_due_item_retries later queue)))
        (eq_refl item.rating_key)
    ∙ ap (λ (n : ℕ). retried class n now later)
        (attempts_after-same marker (tally item.rating_key 0 es) item.plex_updated_at
          (lookup item.rating_key queue) mark
          (retry_events-CountedAt marker item.rating_key es 0 t same
            (subst (CountedAt marker 0) (sym absent) refl)))
