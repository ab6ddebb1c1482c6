-- ===== src/Retries/Spared.antt =====
-- The calls that leave an item of the queue due.
use metafusion.Prelude.{
  ◌≡◌, ◌∙◌, if◌then◌else◌, ◌||◌, ◌∷◌, refl, [], true, false, String, ℕ, List, Dict, any, Bool,
  Unique, str_eq, is_some, lookup, ap, arith, remove, lookup-remove, eq_iff, sym,
}
use metafusion.Retries.{
  clear_item_retries, retry_event, retry_events, RetryEvent, RetryRow, StartedItem, started,
  failing, mark_items_started, cleared, load_due_item_retries, normalized_class, attempts_after,
}
use metafusion.Retries.Bounded.{retry_event-Unique, clear-Unique}
use metafusion.Retries.Due.{
  mark_items_started-due, starts, record_item_failure-due, retried, lookup-load_due, due_only,
}

-- The call records no failure of the item and does not clear it.
abbrev pub Spares : String → RetryEvent → Type 0
Spares key (started now items) = Unit
Spares key (failing texts now item) = str_eq item.rating_key key ≡ false
Spares key (cleared keys) = any (str_eq key) keys ≡ false

abbrev pub AllSpare : String → List RetryEvent → Type 0
AllSpare key [] = Unit
AllSpare key (event ∷ es) = Spares key event × AllSpare key es

clear-keeps :
    (key : String) (keys : List String) (t : Dict RetryRow)
    → any (str_eq key) keys ≡ false
    → lookup key (clear_item_retries keys t).0 ≡ lookup key t
unfolding clear_item_retries
clear-keeps key [] t other = refl
clear-keeps key (k ∷ keys) t other =
    let (this, rest) = both (str_eq key k) (any (str_eq key) keys) other in
    clear-keeps key keys (remove k t) rest
    ∙ ground (arith, this, lookup-remove k key t, eq_iff key k, eq_iff k key)
  where
    both : (a b : Bool) → (a || b) ≡ false → (a ≡ false) × (b ≡ false)
    both a b h = ground (arith, h)

-- The item comes back at a time.
abbrev is_back : ℕ → String → Dict RetryRow → Bool
is_back later key t = is_some (lookup key (load_due_item_retries later t))

retry_event-keeps_due :
    (event : RetryEvent) (key : String) (later : ℕ) (t : Dict RetryRow)
    → Unique t
    → Spares key event
    → is_back later key t ≡ true
    → is_back later key (retry_event event t) ≡ true
unfolding retry_event
retry_event-keeps_due (started now items) key later t u other due =
    mark_items_started-due now later items t key u
    ∙ ap (λ (b : Bool). starts key items || b) due
    ∙ ground arith
retry_event-keeps_due (failing texts now item) key later t u other due =
    record_item_failure-due texts now item t later key u
    ∙ ap
        (λ (b : Bool).
          if b
          then retried (normalized_class texts item.given_class item.failure.message)
              (attempts_after item.plex_updated_at (lookup item.rating_key t)) now later
          else is_back later key t)
        other
    ∙ due
retry_event-keeps_due (cleared keys) key later t u other due =
    ap is_some (
      lookup-load_due later key (clear_item_retries keys t).0 (clear-Unique keys t u)
      ∙ ap (due_only later) (clear-keeps key keys t other)
      ∙ sym (lookup-load_due later key t u))
    ∙ due

pub retry_events-keeps_due :
    (es : List RetryEvent) (key : String) (later : ℕ) (t : Dict RetryRow)
    → Unique t
    → AllSpare key es
    → is_some (lookup key (load_due_item_retries later t)) ≡ true
    → is_some (lookup key (load_due_item_retries later (retry_events es t))) ≡ true
unfolding retry_events
retry_events-keeps_due [] key later t u spared due = due
retry_events-keeps_due (event ∷ es) key later t u (one, rest) due =
    retry_events-keeps_due es key later (retry_event event t) (retry_event-Unique event t u) rest
      (retry_event-keeps_due event key later t u one due)

pub mark_items_started-Unique :
    (now : ℕ) (items : List StartedItem) (t : Dict RetryRow)
    → Unique t
    → Unique (mark_items_started now items t).0
mark_items_started-Unique now items t u =
    unfold retry_event in retry_event-Unique (started now items) t u
