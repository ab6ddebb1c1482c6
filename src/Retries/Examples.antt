-- ===== src/Retries/Examples.antt =====
-- The theorems on the retry queue at concrete calls.
use metafusion.Prelude.{
  if◌then◌else◌, ◌+◌, ◌≡◌, ◌||◌, ◌∷◌, refl, [], none, some, List, Entries, is_some, lookup, str_eq,
  Entries-nil,
}
use metafusion.Retries.{
  Texts, StartedItem, FailedItem, RetryEvent, load_due_item_retries, started, retry_events,
  record_item_failure, mark_items_started, RetryRow, failing, normalized_class, attempts_after,
}
use metafusion.Retries.Bounded.{failures-retried}
use metafusion.Retries.Due.{retried, starts, mark_items_started-due, record_item_failure-due}
use metafusion.Retries.Tally.{tally}
use metafusion.Retries.Valid.{ValidRow, retry_events-Valid}

abbrev english : Texts
english = record { casefold = λ s. s; has = λ text marker. str_eq text marker; clip = λ s. s }

abbrev film : StartedItem
film = record {
  rating_key = some "7";
  library_name = some "Movies";
  media_type = some "movie";
  plex_updated_at = some "2026-01-01";
}

abbrev film_failure : FailedItem
film_failure = record {
  rating_key = "7";
  failure = record { message = some "timeout"; type_name = "TimeoutError" };
  library_name = some "Movies";
  media_type = some "movie";
  plex_updated_at = some "2026-01-01";
  given_class = none;
}

abbrev history : List RetryEvent
history =
    started 1 (film ∷ [])
    ∷ failing english 2 film_failure
    ∷ started 3 (film ∷ [])
    ∷ failing english 4 film_failure
    ∷ []

no_rows : Entries ValidRow []
no_rows = Entries-nil ValidRow

retry_events-Valid_example : Entries ValidRow (retry_events history [])
retry_events-Valid_example = retry_events-Valid history [] no_rows

record_item_failure-due_example :
    is_some (lookup "8" (load_due_item_retries 9 (record_item_failure english 2 film_failure [])))
    ≡ (if str_eq "7" "8"
        then retried
            (normalized_class english none (some "timeout"))
            (attempts_after (some "2026-01-01") (lookup "7" []))
            2
            9
        else is_some (lookup "8" (load_due_item_retries 9 [])))
record_item_failure-due_example = record_item_failure-due english 2 film_failure [] 9 "8" tt

mark_items_started-due_example :
    is_some (lookup "7" (load_due_item_retries 9 (mark_items_started 1 (film ∷ []) []).0))
    ≡ (starts "7" (film ∷ []) || is_some (lookup "7" (load_due_item_retries 9 [])))
mark_items_started-due_example = mark_items_started-due 1 9 (film ∷ []) [] "7" tt

absent_film : lookup {V = RetryRow} "7" [] ≡ none
unfolding lookup
absent_film = refl

failures-retried_example :
    is_some (
      lookup "7" (
        load_due_item_retries 99
          (record_item_failure english 5 film_failure (retry_events history []))))
    ≡ retried (normalized_class english none (some "timeout")) (tally "7" 0 history + 1) 5 99
failures-retried_example =
    failures-retried history [] (some "2026-01-01") english 5 film_failure 99 tt absent_film
      (((λ e. refl), tt), ((λ e. refl), (((λ e. refl), tt), ((λ e. refl), tt)))) refl
