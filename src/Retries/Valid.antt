-- ===== src/Retries/Valid.antt =====
-- What each row of the retry queue says holds together.
use metafusion.Prelude.{
  if◌then◌else◌, ◌+◌, ◌-◌, ◌*◌, ◌≤◌, ◌<◌, ◌≡◌, ◌⊎◌, ◌∷◌, refl, [], ℕ, String, Option, is_some, List,
  true, get_elem?, Dict, suc, some, arith, Entries, zero, none, remove, inl, remove-Entries, Bool,
  insert-Entries, ltb, lookup, inr, ltb→lt, false,
}
use metafusion.Retries.{
  Status, FailureClass, Texts, clear_item_retries, retry_event, retry_events, minute, RetryRow,
  retry_time, is_parked, FailedItem, StartedItem, mark_items_started, attempts_after, parked,
  failure_row, start_row, record_item_failure, RetryEvent, retry_delays, pending, normalized_class,
  transient, start_all, started, permanent, start_at, failing, running, cleared,
}

-- How long a failed item waits, by its number of failures: the delay is 15 minutes, then one hour, then
-- six hours, then a day.
abbrev pub wait_after : ℕ → ℕ
wait_after zero = 15 * minute
wait_after (suc zero) = 15 * minute
wait_after (suc (suc zero)) = 60 * minute
wait_after (suc (suc (suc zero))) = 360 * minute
wait_after (suc (suc (suc (suc n)))) = 1440 * minute

-- By the status: what holds of the attempts, the class, the time of the last failure, the deadline and
-- the start.
abbrev pub ValidAs : Status → ℕ → Option FailureClass → Option ℕ → Option ℕ → Option ℕ → Type 0
ValidAs running n class last deadline start = is_some start ≡ true
ValidAs pending n class last deadline start =
    ((1 ≤ n) × (n ≤ 4) × (class ≡ some transient))
    × ((at : ℕ) × (last ≡ some at) × (deadline ≡ some (at + wait_after n)))
    × (start ≡ none)
ValidAs parked n class last deadline start =
    ((class ≡ some permanent) ⊎ (4 < n)) × (deadline ≡ none) × (start ≡ none)

abbrev pub ValidRow : String → RetryRow → Type 0
ValidRow key r =
    ValidAs r.status r.attempts r.failure_class r.last_failed_at r.next_retry_at r.started_at

pub retry_time-wait :
    (now n : ℕ)
    → 1 ≤ n
    → n ≤ 4
    → retry_time now (get_elem? retry_delays (n - 1)) ≡ some (now + wait_after n)
retry_time-wait now zero low high = absurd (omega (arith, low))
retry_time-wait now (suc zero) low high = refl
retry_time-wait now (suc (suc zero)) low high = refl
retry_time-wait now (suc (suc (suc zero))) low high = refl
retry_time-wait now (suc (suc (suc (suc zero)))) low high = refl
retry_time-wait now (suc (suc (suc (suc (suc n))))) low high = absurd (omega (arith, high))

pub attempts_positive : (marker : Option String) (o : Option RetryRow) → 1 ≤ attempts_after marker o
attempts_positive marker none = omega arith
attempts_positive marker (some r) = ground arith

failed-ValidAs :
    (class : FailureClass) (n now : ℕ)
    → 1 ≤ n
    → ValidAs
        (if is_parked class n then parked else pending)
        n
        (some class)
        (some now)
        (if is_parked class n then none else retry_time now (get_elem? retry_delays (n - 1)))
        none
failed-ValidAs permanent n now low = (inl refl, refl, refl)
failed-ValidAs transient n now low = by_count (ltb 4 n) refl
  where
    by_count :
        (b : Bool)
        → ltb 4 n ≡ b
        → ValidAs
            (if b then parked else pending)
            n
            (some transient)
            (some now)
            (if b then none else retry_time now (get_elem? retry_delays (n - 1)))
            none
    by_count true many = (inr (ltb→lt 4 n many), refl, refl)
    by_count false few =
        let high : n ≤ 4 = ground (arith, few) in
        ((low, high, refl), (now, refl, retry_time-wait now n low high), refl)

failure_row-ValidRow :
    (texts : Texts) (now : ℕ) (item : FailedItem) (o : Option RetryRow)
    → ValidRow item.rating_key (failure_row texts now item o)
failure_row-ValidRow texts now item o =
    failed-ValidAs (normalized_class texts item.given_class item.failure.message)
      (attempts_after item.plex_updated_at o) now (attempts_positive item.plex_updated_at o)

start_row-ValidRow :
    (now : ℕ) (item : StartedItem) (key : String) (o : Option RetryRow)
    → ValidRow key (start_row now item o)
start_row-ValidRow now item key none = refl
start_row-ValidRow now item key (some r) = refl

start_all-Valid :
    (now : ℕ) (items : List StartedItem) (t : Dict RetryRow)
    → Entries ValidRow t
    → Entries ValidRow (start_all now items t)
start_all-Valid now [] t h = h
start_all-Valid now (item ∷ items) t h =
    start_all-Valid now items (start_at now item item.rating_key t) (one item.rating_key)
  where
    one : (o : Option String) → Entries ValidRow (start_at now item o t)
    one none = h
    one (some key) =
        insert-Entries ValidRow ValidRow key (start_row now item (lookup key t)) t
          (λ k x other p. p) (start_row-ValidRow now item key (lookup key t)) h

clear-Valid :
    (keys : List String) (t : Dict RetryRow)
    → Entries ValidRow t
    → Entries ValidRow (clear_item_retries keys t).0
unfolding clear_item_retries
clear-Valid [] t h = h
clear-Valid (key ∷ keys) t h =
    clear-Valid keys (remove key t) (remove-Entries ValidRow ValidRow key t (λ k x other p. p) h)

retry_event-Valid :
    (event : RetryEvent) (t : Dict RetryRow)
    → Entries ValidRow t
    → Entries ValidRow (retry_event event t)
unfolding retry_event mark_items_started record_item_failure
retry_event-Valid (started now []) t h = h
retry_event-Valid (started now (item ∷ items)) t h = start_all-Valid now (item ∷ items) t h
retry_event-Valid (failing texts now item) t h =
    insert-Entries ValidRow ValidRow item.rating_key
      (failure_row texts now item (lookup item.rating_key t)) t (λ k x other p. p)
      (failure_row-ValidRow texts now item (lookup item.rating_key t)) h
retry_event-Valid (cleared keys) t h = clear-Valid keys t h

-- After any calls, each row of the queue is running and has a start; or it is pending, with one to four
-- transient failures, and its deadline is as long after its last failure as their number says;
-- or it is parked with no deadline, since its failure is permanent or it failed more than four times.
pub retry_events-Valid :
    (es : List RetryEvent) (t : Dict RetryRow)
    → Entries ValidRow t
    → Entries ValidRow (retry_events es t)
unfolding retry_events
retry_events-Valid [] t h = h
retry_events-Valid (event ∷ es) t h =
    retry_events-Valid es (retry_event event t) (retry_event-Valid event t h)
