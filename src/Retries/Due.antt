-- ===== src/Retries/Due.antt =====
-- Which items the queue gives back.
use metafusion.Prelude.{
  if◌then◌else◌, ◌≡◌, ◌∷◌, refl, [], ℕ, lookup, Option, String, Dict, some, Unique, none, Bool,
  str_eq, true, false, arith, eq_iff, ◌+◌, ◌-◌, ◌≤◌, ◌∙◌, ◌&&◌, ◌||◌, is_some, List, not, insert,
  opt_eq, ap, insert-Unique, leb, lookup-insert, sym, get_elem?, ltb,
}
use metafusion.Retries.{
  load_due_item_retries, RetryRow, is_due, FailureClass, record_item_failure, StartedItem,
  mark_items_started, is_parked, Texts, start_row, start_at, start_all, is_permanent, parked,
  FailedItem, pending, normalized_class, retry_time, attempts_after, failure_row, retry_delays,
  deadline_passed, permanent, transient,
}
use metafusion.Retries.Valid.{wait_after, attempts_positive, retry_time-wait}

abbrev pub due_only : ℕ → Option RetryRow → Option RetryRow
due_only now none = none
due_only now (some r) = if is_due now r.status r.next_retry_at then some r else none

-- The query finds the row of a key exactly if it is due.
pub lookup-load_due :
    (now : ℕ) (key : String) (t : Dict RetryRow)
    → Unique t
    → lookup key (load_due_item_retries now t) ≡ due_only now (lookup key t)
unfolding lookup load_due_item_retries
lookup-load_due now key [] u = refl
lookup-load_due now key ((j, r) ∷ t) (fresh, u) =
    split (is_due now r.status r.next_retry_at) (str_eq j key) refl refl
      (lookup-load_due now key t u)
  where
    split :
        (due same : Bool)
        → is_due now r.status r.next_retry_at ≡ due
        → str_eq j key ≡ same
        → lookup key (load_due_item_retries now t) ≡ due_only now (lookup key t)
        → lookup key
            (if due then (j, r) ∷ load_due_item_retries now t else load_due_item_retries now t)
          ≡ due_only now (if same then some r else lookup key t)
    split true true d s ih = ground (arith, d, s)
    split true false d s ih = ground (arith, d, s, ih)
    split false true d s ih =
        let e : lookup key t ≡ none = ground (arith, (eq_iff j key).0 s, fresh) in
        ground (arith, d, ih, e)
    split false false d s ih = ih

-- A failure with this class and this number lets the item come back from its deadline on.
abbrev pub retried : FailureClass → ℕ → ℕ → ℕ → Bool
retried class n now later = not (is_permanent class) && leb n 4 && leb (now + wait_after n) later

failed-retried :
    (class : FailureClass) (n now later : ℕ)
    → 1 ≤ n
    → is_due later
        (if is_parked class n then parked else pending)
        (if is_parked class n then none else retry_time now (get_elem? retry_delays (n - 1)))
      ≡ retried class n now later
failed-retried permanent n now later low = refl
failed-retried transient n now later low = by_count (ltb 4 n) refl
  where
    by_count :
        (b : Bool)
        → ltb 4 n ≡ b
        → is_due later
            (if b then parked else pending)
            (if b then none else retry_time now (get_elem? retry_delays (n - 1)))
          ≡ (leb n 4 && leb (now + wait_after n) later)
    by_count true many = ground (arith, many)
    by_count false few =
        let high : n ≤ 4 = ground (arith, few) in
        ap (deadline_passed later) (retry_time-wait now n low high) ∙ ground (arith, high)

is_some-if : {A : Type 0} (b : Bool) (x : A) → is_some (if b then some x else none) ≡ b
is_some-if true x = refl
is_some-if false x = refl

-- A row that was just written for a key, and the rows of the other keys.
written-due :
    (later : ℕ) (key other : String) (r : RetryRow) (t : Dict RetryRow)
    → Unique t
    → is_some (lookup other (load_due_item_retries later (insert key r t))) ≡ (
        if str_eq key other
        then is_due later r.status r.next_retry_at
        else is_some (lookup other (load_due_item_retries later t)))
written-due later key other r t u =
    ap is_some (
      lookup-load_due later other (insert key r t) (insert-Unique key r t u)
      ∙ ap (due_only later) (lookup-insert key other r t))
    ∙ by_key (str_eq key other)
    ∙ ap
        (λ (o : Option RetryRow).
          if str_eq key other then is_due later r.status r.next_retry_at else is_some o)
        (sym (lookup-load_due later other t u))
  where
    by_key :
        (b : Bool)
        → is_some (due_only later (if b then some r else lookup other t)) ≡ (
            if b
            then is_due later r.status r.next_retry_at
            else is_some (due_only later (lookup other t)))
    by_key true = is_some-if (is_due later r.status r.next_retry_at) r
    by_key false = refl

-- In a table in which no key stands twice, a recorded failure lets its item come back exactly if the
-- failure is not permanent, it is at most the fourth since the item changed, and the time that
-- belongs to its number has passed. It changes for no other item whether that one comes back.
pub record_item_failure-due :
    (texts : Texts) (now : ℕ) (item : FailedItem) (t : Dict RetryRow) (later : ℕ) (key : String)
    → Unique t
    → is_some (lookup key (load_due_item_retries later (record_item_failure texts now item t))) ≡ (
        if str_eq item.rating_key key
        then retried
            (normalized_class texts item.given_class item.failure.message)
            (attempts_after item.plex_updated_at (lookup item.rating_key t))
            now
            later
        else is_some (lookup key (load_due_item_retries later t)))
unfolding record_item_failure
record_item_failure-due texts now item t later key u =
    let o = lookup item.rating_key t in
    written-due later item.rating_key key (failure_row texts now item o) t u
    ∙ ap
        (λ (b : Bool).
          if str_eq item.rating_key key
          then b
          else is_some (lookup key (load_due_item_retries later t)))
        (failed-retried (normalized_class texts item.given_class item.failure.message)
          (attempts_after item.plex_updated_at o) now later
          (attempts_positive item.plex_updated_at o))

-- The key is among those of the items.
abbrev pub starts : String → List StartedItem → Bool
starts key [] = false
starts key (item ∷ items) = opt_eq item.rating_key (some key) || starts key items

start_row-due :
    (now later : ℕ) (item : StartedItem) (o : Option RetryRow)
    → is_due later (start_row now item o).status (start_row now item o).next_retry_at ≡ true
start_row-due now later item none = refl
start_row-due now later item (some r) = refl

pub start_at-Unique :
    (now : ℕ) (item : StartedItem) (o : Option String) (t : Dict RetryRow)
    → Unique t
    → Unique (start_at now item o t)
start_at-Unique now item none t u = u
start_at-Unique now item (some key) t u = insert-Unique key (start_row now item (lookup key t)) t u

start_at-due :
    (now later : ℕ) (item : StartedItem) (o : Option String) (t : Dict RetryRow) (key : String)
    → Unique t
    → is_some (lookup key (load_due_item_retries later (start_at now item o t)))
      ≡ (opt_eq o (some key) || is_some (lookup key (load_due_item_retries later t)))
start_at-due now later item none t key u = refl
start_at-due now later item (some k) t key u =
    written-due later k key (start_row now item (lookup k t)) t u
    ∙ ground (arith, start_row-due now later item (lookup k t))

or_swap : (a b c : Bool) → (b || (a || c)) ≡ ((a || b) || c)
or_swap a b c = ground arith

start_all-due :
    (now later : ℕ) (items : List StartedItem) (t : Dict RetryRow) (key : String)
    → Unique t
    → is_some (lookup key (load_due_item_retries later (start_all now items t)))
      ≡ (starts key items || is_some (lookup key (load_due_item_retries later t)))
start_all-due now later [] t key u = refl
start_all-due now later (item ∷ items) t key u =
    start_all-due now later items (start_at now item item.rating_key t) key
      (start_at-Unique now item item.rating_key t u)
    ∙ ap (λ (b : Bool). starts key items || b) (start_at-due now later item item.rating_key t key u)
    ∙ or_swap (opt_eq item.rating_key (some key)) (starts key items)
        (is_some (lookup key (load_due_item_retries later t)))

-- In a table in which no key stands twice, the items that were marked as started come back at any
-- later time, so that those of a process that stopped are not lost, and nothing else changes about
-- which items come back. Items with no rating key are left out.
pub mark_items_started-due :
    (now later : ℕ) (items : List StartedItem) (t : Dict RetryRow) (key : String)
    → Unique t
    → is_some (lookup key (load_due_item_retries later (mark_items_started now items t).0))
      ≡ (starts key items || is_some (lookup key (load_due_item_retries later t)))
unfolding mark_items_started
mark_items_started-due now later [] t key u = refl
mark_items_started-due now later (item ∷ items) t key u =
    start_all-due now later (item ∷ items) t key u
