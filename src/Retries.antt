-- ===== src/Retries.antt =====
-- The retry queue of helper/state_db.py: `classify_item_failure`, `mark_items_started`,
-- `record_item_failure`, `clear_item_retries`, `load_due_item_retries`. Each call names one server and
-- one library; the table here is the part of `item_retry_queue` that has these two, by its rating
-- keys. A time is microseconds.
pub mod Valid
pub mod Due
pub mod Tally
pub mod Bounded
pub mod Spared
mod Examples
use metafusion.Prelude.{
  if◌then◌else◌, ◌+◌, ◌-◌, ◌*◌, ◌||◌, ◌∷◌, [], Option, String, ℕ, List, Bool, any, some, Dict,
  false, ltb, true, opt_eq, insert, str_eq, not, length, none, remove, leb, lookup, get_elem?,
  is_some,
}

pub data Status : Type 0 where
  running pending parked : Status

pub data FailureClass : Type 0 where
  transient permanent : FailureClass

-- A row of `item_retry_queue`.
pub record RetryRow : Type 0 where
  pub library_name : Option String
  pub media_type : Option String
  pub plex_updated_at : Option String
  pub status : Status
  pub failure_class : Option FailureClass
  pub error_type : Option String
  pub error_message : Option String
  pub attempts : ℕ
  pub first_failed_at : Option ℕ
  pub last_failed_at : Option ℕ
  pub next_retry_at : Option ℕ
  pub started_at : Option ℕ

-- An item to start; an item with no rating key is left out.
pub record StartedItem : Type 0 where
  pub rating_key : Option String
  pub library_name : Option String
  pub media_type : Option String
  pub plex_updated_at : Option String

-- An error: `str(error)`, and the name of its type. The message is `none` where the error is `None` or
-- an empty text, which are falsy; an exception with an empty text has the message `some ""`.
pub record Failure : Type 0 where
  pub message : Option String
  pub type_name : String

-- What the code uses of texts: `strip` and `casefold`, `in`, and `replace` and the cut at 500.
pub record Texts : Type 0 where
  pub casefold : String → String
  pub has : String → String → Bool
  pub clip : String → String

abbrev pub minute : ℕ
minute = 60000000

-- `_RETRY_DELAYS`
abbrev pub retry_delays : List ℕ
retry_delays = (15 * minute) ∷ (60 * minute) ∷ (360 * minute) ∷ (1440 * minute) ∷ []

-- `_PERMANENT_FAILURE_MARKERS`
abbrev pub permanent_failure_markers : List String
permanent_failure_markers =
    "ambiguous artwork destination" ∷ "ambiguous edition" ∷ "cannot uniquely match"
    ∷ "identity mismatch" ∷ "identity rejected" ∷ "invalid path mapping" ∷ "mapping contains unsafe"
    ∷ "mapping source must be absolute" ∷ "recorded_path_mismatch" ∷ "unsupported library type"
    ∷ "unsupported metadata" ∷ []

abbrev or_empty : Option String → String
or_empty none = ""
or_empty (some s) = s

-- `classify_item_failure`: every error that is not permanent is transient.
unfoldable pub classify_item_failure : Texts → Option String → FailureClass
classify_item_failure texts message =
    if any (texts.has (texts.casefold (or_empty message))) permanent_failure_markers
    then permanent
    else transient

-- The row that starts a known item, or a new one.
abbrev pub start_row : ℕ → StartedItem → Option RetryRow → RetryRow
start_row now item none = record {
  library_name = item.library_name;
  media_type = item.media_type;
  plex_updated_at = item.plex_updated_at;
  status = running;
  failure_class = none;
  error_type = none;
  error_message = none;
  attempts = 0;
  first_failed_at = none;
  last_failed_at = none;
  next_retry_at = none;
  started_at = some now;
}
start_row now item (some r) = record r {
  library_name = item.library_name;
  media_type = item.media_type;
  attempts = if opt_eq r.plex_updated_at item.plex_updated_at then r.attempts else 0;
  first_failed_at =
      if opt_eq r.plex_updated_at item.plex_updated_at then r.first_failed_at else none;
  plex_updated_at = item.plex_updated_at;
  status = running;
  started_at = some now;
}

abbrev pub start_at : ℕ → StartedItem → Option String → Dict RetryRow → Dict RetryRow
start_at now item none t = t
start_at now item (some key) t = insert key (start_row now item (lookup key t)) t

abbrev pub start_all : ℕ → List StartedItem → Dict RetryRow → Dict RetryRow
start_all now [] t = t
start_all now (item ∷ items) t = start_all now items (start_at now item item.rating_key t)

-- `mark_items_started`
unfoldable pub mark_items_started : ℕ → List StartedItem → Dict RetryRow → Dict RetryRow × Bool
mark_items_started now [] t = (t, false)
mark_items_started now (item ∷ items) t = (start_all now (item ∷ items) t, true)

-- `failure_class or classify_item_failure(error)`, and any other class is transient.
abbrev pub normalized_class : Texts → Option String → Option String → FailureClass
normalized_class texts none message = classify_item_failure texts message
normalized_class texts (some given) message =
    if str_eq given ""
    then classify_item_failure texts message
    else if str_eq given "permanent"
    then permanent
    else transient

-- Both markers are known, and they differ.
abbrev pub changed_item : Option String → Option String → Bool
changed_item (some old) (some new) = not (str_eq old new)
changed_item none new = false
changed_item (some old) none = false

abbrev pub attempts_after : Option String → Option RetryRow → ℕ
attempts_after marker none = 1
attempts_after marker (some r) = if changed_item r.plex_updated_at marker then 1 else r.attempts + 1

abbrev pub known_or : ℕ → Option ℕ → ℕ
known_or now none = now
known_or now (some at) = at

abbrev pub first_failed_after : ℕ → Option String → Option RetryRow → ℕ
first_failed_after now marker none = now
first_failed_after now marker (some r) =
    if changed_item r.plex_updated_at marker then now else known_or now r.first_failed_at

abbrev pub is_permanent : FailureClass → Bool
is_permanent transient = false
is_permanent permanent = true

abbrev pub is_parked : FailureClass → ℕ → Bool
is_parked class attempts = is_permanent class || ltb (length retry_delays) attempts

-- `current + _RETRY_DELAYS[attempts - 1]`
abbrev pub retry_time : ℕ → Option ℕ → Option ℕ
retry_time now none = none
retry_time now (some delay) = some (now + delay)

abbrev pub unknown_failure : Option String → String
unknown_failure none = "Unknown item failure"
unknown_failure (some s) = s

-- The arguments of `record_item_failure` on the item.
pub record FailedItem : Type 0 where
  pub rating_key : String
  pub failure : Failure
  pub library_name : Option String
  pub media_type : Option String
  pub plex_updated_at : Option String
  pub given_class : Option String

abbrev pub failure_row : Texts → ℕ → FailedItem → Option RetryRow → RetryRow
failure_row texts now item existing =
    let class = normalized_class texts item.given_class item.failure.message in
    let attempts = attempts_after item.plex_updated_at existing in
    let is_stopped = is_parked class attempts in
    record {
      library_name = item.library_name;
      media_type = item.media_type;
      plex_updated_at = item.plex_updated_at;
      status = if is_stopped then parked else pending;
      failure_class = some class;
      error_type = some item.failure.type_name;
      error_message = some (texts.clip (unknown_failure item.failure.message));
      attempts = attempts;
      first_failed_at = some (first_failed_after now item.plex_updated_at existing);
      last_failed_at = some now;
      next_retry_at =
          if is_stopped then none else retry_time now (get_elem? retry_delays (attempts - 1));
      started_at = none;
    }

-- `record_item_failure`. The caller is given the new row's status, attempts, deadline and class.
unfoldable pub record_item_failure : Texts → ℕ → FailedItem → Dict RetryRow → Dict RetryRow
record_item_failure texts now item t =
    insert item.rating_key (failure_row texts now item (lookup item.rating_key t)) t

-- `clear_item_retries`, and the number of rows that it deletes.
unfoldable pub clear_item_retries : List String → Dict RetryRow → Dict RetryRow × ℕ
clear_item_retries [] t = (t, 0)
clear_item_retries (key ∷ keys) t =
    let (left, removed) = clear_item_retries keys (remove key t) in
    (left, if is_some (lookup key t) then removed + 1 else removed)

abbrev pub deadline_passed : ℕ → Option ℕ → Bool
deadline_passed now none = false
deadline_passed now (some at) = leb at now

-- The condition of the query: an interrupted item, or a deadline that has passed.
abbrev pub is_due : ℕ → Status → Option ℕ → Bool
is_due now running deadline = true
is_due now pending deadline = deadline_passed now deadline
is_due now parked deadline = false

-- `load_due_item_retries`
unfoldable pub load_due_item_retries : ℕ → Dict RetryRow → Dict RetryRow
load_due_item_retries now [] = []
load_due_item_retries now ((key, r) ∷ t) =
    let rest = load_due_item_retries now t in
    if is_due now r.status r.next_retry_at then (key, r) ∷ rest else rest

-- The calls on one library's part of the queue.
pub data RetryEvent : Type 0 where
  started : ℕ → List StartedItem → RetryEvent
  failing : Texts → ℕ → FailedItem → RetryEvent
  cleared : List String → RetryEvent

unfoldable pub retry_event : RetryEvent → Dict RetryRow → Dict RetryRow
retry_event (started now items) t = (mark_items_started now items t).0
retry_event (failing texts now item) t = record_item_failure texts now item t
retry_event (cleared keys) t = (clear_item_retries keys t).0

unfoldable pub retry_events : List RetryEvent → Dict RetryRow → Dict RetryRow
retry_events [] t = t
retry_events (event ∷ es) t = retry_events es (retry_event event t)
