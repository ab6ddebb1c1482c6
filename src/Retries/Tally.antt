-- ===== src/Retries/Tally.antt =====
-- How often an item failed, and how often it comes back.
use mathlib.Core.Path.{subst}
use metafusion.Prelude.{
  if◌then◌else◌, ◌+◌, ◌≡◌, ◌∙◌, ◌||◌, ◌∷◌, refl, [], true, false, none, some, String, Option, ℕ,
  List, opt_eq, eq_refl, ap, Dict, not, str_eq, lookup, sym, arith, insert, any, Bool, remove,
  lookup-insert, eq_iff, lookup-remove,
}
use metafusion.Retries.{
  clear_item_retries, changed_item, RetryEvent, StartedItem, RetryRow, start_row, attempts_after,
  started, start_all, failing, start_at, cleared,
}

-- The failures of an item, counted by the calls: deleting its row starts a new count.
abbrev pub tally : String → ℕ → List RetryEvent → ℕ
tally key n [] = n
tally key n (started now items ∷ es) = tally key n es
tally key n (failing texts now item ∷ es) =
    tally key (if str_eq item.rating_key key then n + 1 else n) es
tally key n (cleared keys ∷ es) = tally key (if any (str_eq key) keys then 0 else n) es

-- All that is said about the item names the same time of its last change.
abbrev pub SameStarts : String → Option String → List StartedItem → Type 0
SameStarts key marker [] = Unit
SameStarts key marker (item ∷ items) =
    (item.rating_key ≡ some key → item.plex_updated_at ≡ marker) × SameStarts key marker items

abbrev pub SameMarker : String → Option String → List RetryEvent → Type 0
SameMarker key marker [] = Unit
SameMarker key marker (started now items ∷ es) =
    SameStarts key marker items × SameMarker key marker es
SameMarker key marker (failing texts now item ∷ es) =
    (item.rating_key ≡ key → item.plex_updated_at ≡ marker) × SameMarker key marker es
SameMarker key marker (cleared keys ∷ es) = SameMarker key marker es

abbrev pub CountedAt : Option String → ℕ → Option RetryRow → Type 0
CountedAt marker n none = n ≡ 0
CountedAt marker n (some r) = (r.attempts ≡ n) × (r.plex_updated_at ≡ marker)

opt_eq-same : (a b : Option String) → a ≡ b → opt_eq a b ≡ true
opt_eq-same a b e = subst (λ (x : Option String). opt_eq a x ≡ true) e (own a)
  where
    own : (o : Option String) → opt_eq o o ≡ true
    own none = refl
    own (some s) = eq_refl s

changed_item-same : (a b : Option String) → a ≡ b → changed_item a b ≡ false
changed_item-same a b e = subst (λ (x : Option String). changed_item a x ≡ false) e (own a)
  where
    own : (o : Option String) → changed_item o o ≡ false
    own none = refl
    own (some s) = ap not (eq_refl s)

start_row-CountedAt :
    (marker : Option String) (n now : ℕ) (item : StartedItem) (o : Option RetryRow)
    → item.plex_updated_at ≡ marker
    → CountedAt marker n o
    → CountedAt marker n (some (start_row now item o))
start_row-CountedAt marker n now item none same h = (sym h, same)
start_row-CountedAt marker n now item (some r) same (counts, mark) = (
  ap (λ (b : Bool). if b then r.attempts else 0)
        (opt_eq-same r.plex_updated_at item.plex_updated_at (mark ∙ sym same))
      ∙ counts,
  same,
)

pub attempts_after-same :
    (marker : Option String) (n : ℕ) (given : Option String) (o : Option RetryRow)
    → given ≡ marker
    → CountedAt marker n o
    → attempts_after given o ≡ n + 1
attempts_after-same marker n given none same h = omega (arith, h)
attempts_after-same marker n given (some r) same (counts, mark) =
    ap (λ (b : Bool). if b then 1 else r.attempts + 1)
      (changed_item-same r.plex_updated_at given (mark ∙ sym same))
    ∙ ap (λ (k : ℕ). k + 1) counts

-- What an insertion at a key does to the count of another, and of the same.
pub insert-CountedAt :
    (marker : Option String) (n m : ℕ) (key k : String) (r : RetryRow) (t : Dict RetryRow)
    → (str_eq k key ≡ true → CountedAt marker m (some r))
    → (str_eq k key ≡ false → n ≡ m)
    → CountedAt marker n (lookup key t)
    → CountedAt marker m (lookup key (insert k r t))
insert-CountedAt marker n m key k r t here there h =
    subst (CountedAt marker m) (sym (lookup-insert k key r t)) (by_key (str_eq k key) refl)
  where
    by_key : (b : Bool) → str_eq k key ≡ b → CountedAt marker m (if b then some r else lookup key t)
    by_key true e = here e
    by_key false e = subst (λ (j : ℕ). CountedAt marker j (lookup key t)) (there e) h

pub start_all-CountedAt :
    (marker : Option String) (n now : ℕ) (key : String) (items : List StartedItem)
    (t : Dict RetryRow)
    → SameStarts key marker items
    → CountedAt marker n (lookup key t)
    → CountedAt marker n (lookup key (start_all now items t))
start_all-CountedAt marker n now key [] t same h = h
start_all-CountedAt marker n now key (item ∷ items) t (one, rest) h =
    start_all-CountedAt marker n now key items (start_at now item item.rating_key t) rest
      (by_key item.rating_key one)
  where
    by_key :
        (o : Option String)
        → (o ≡ some key → item.plex_updated_at ≡ marker)
        → CountedAt marker n (lookup key (start_at now item o t))
    by_key none same = h
    by_key (some k) same =
        insert-CountedAt marker n n key k (start_row now item (lookup k t)) t
          (λ e.
            let own : k ≡ key = (eq_iff k key).0 e in
            start_row-CountedAt marker n now item (lookup k t) (same (ap some own))
              (subst (λ (j : String). CountedAt marker n (lookup j t)) (sym own) h))
          (λ e. refl) h

pub clear-CountedAt :
    (marker : Option String) (n : ℕ) (key : String) (keys : List String) (t : Dict RetryRow)
    → CountedAt marker n (lookup key t)
    → CountedAt marker
        (if any (str_eq key) keys then 0 else n)
        (lookup key (clear_item_retries keys t).0)
unfolding clear_item_retries
clear-CountedAt marker n key [] t h = h
clear-CountedAt marker n key (k ∷ keys) t h =
    by_key (str_eq key k) refl (clear-CountedAt marker 0 key keys (remove k t))
      (clear-CountedAt marker n key keys (remove k t))
  where
    absent : str_eq key k ≡ true → lookup key (remove k t) ≡ none
    absent e = ground (arith, e, lookup-remove k key t, eq_iff key k, eq_iff k key)

    kept : str_eq key k ≡ false → lookup key (remove k t) ≡ lookup key t
    kept e = ground (arith, e, lookup-remove k key t, eq_iff key k, eq_iff k key)

    by_key :
        (b : Bool)
        → str_eq key k ≡ b
        → (CountedAt marker 0 (lookup key (remove k t))
            → CountedAt marker
                (if any (str_eq key) keys then 0 else 0)
                (lookup key (clear_item_retries keys (remove k t)).0))
        → (CountedAt marker n (lookup key (remove k t))
            → CountedAt marker
                (if any (str_eq key) keys then 0 else n)
                (lookup key (clear_item_retries keys (remove k t)).0))
        → CountedAt marker
            (if b || any (str_eq key) keys then 0 else n)
            (lookup key (clear_item_retries keys (remove k t)).0)
    by_key true e zeroed left =
        subst (λ (j : ℕ). CountedAt marker j (lookup key (clear_item_retries keys (remove k t)).0))
          (same (any (str_eq key) keys)) (zeroed (subst (CountedAt marker 0) (sym (absent e)) refl))
      where
        same : (c : Bool) → ◌≡◌ {A = ℕ} (if c then 0 else 0) 0
        same true = refl
        same false = refl
    by_key false e zeroed left = left (subst (CountedAt marker n) (sym (kept e)) h)
