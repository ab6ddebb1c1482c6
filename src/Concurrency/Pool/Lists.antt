-- ===== src/Concurrency/Pool/Lists.antt =====
-- Facts about lists and indices that the proofs about `bounded_map` use.
use metafusion.Concurrency.Room.{remove_at}
use metafusion.Prelude.{
  ◌==◌, if◌then◌else◌, ◌≤◌, ◌<◌, ◌≡◌, ◌≢◌, ◌⊎◌, ◌&&◌, ◌||◌, ◌∷◌, refl, [], List, ℕ, Option, Bool,
  length, false, get_elem?, inl, arith, true, suc, set, some, map, inr, ap, all, zero, is_some,
}

module _ {ℓ} {A : Type ℓ} where
  -- Two lists of one length that agree at every index are equal.
  pub pointwise :
      (xs ys : List A)
      → length xs ≡ length ys
      → ((i : ℕ) → i < length ys → get_elem? xs i ≡ get_elem? ys i)
      → xs ≡ ys
  pointwise [] [] e h = refl
  pointwise [] (y ∷ ys) e h = absurd (omega arith)
  pointwise (x ∷ xs) [] e h = absurd (omega arith)
  pointwise (x ∷ xs) (y ∷ ys) e h =
      cc (h 0 (omega arith), pointwise xs ys (omega arith) (λ i lt. h (suc i) (omega arith)))

  pub length-set : (xs : List A) (i : ℕ) (v : A) → length (set xs i v) ≡ length xs
  length-set [] i v = refl
  length-set (x ∷ xs) zero v = refl
  length-set (x ∷ xs) (suc i) v = ap suc (length-set xs i v)

  pub get_elem?-set :
      (xs : List A) (i j : ℕ) (v : A)
      → i < length xs
      → get_elem? (set xs i v) j ≡ (if i == j then some v else get_elem? xs j)
  get_elem?-set [] i j v lt = absurd (omega arith)
  get_elem?-set (x ∷ xs) zero zero v lt = refl
  get_elem?-set (x ∷ xs) zero (suc j) v lt = ground arith
  get_elem?-set (x ∷ xs) (suc i) zero v lt = ground arith
  get_elem?-set (x ∷ xs) (suc i) (suc j) v lt = ground (arith, get_elem?-set xs i j v (omega arith))

abbrev pub has : ℕ → List ℕ → Bool
has i [] = false
has i (x ∷ xs) = i == x || has i xs

pub has-remove_at :
    (i j : ℕ) (xs : List ℕ) (k : ℕ)
    → get_elem? xs j ≡ some k
    → has i xs ≡ true
    → (i ≡ k) ⊎ (has i (remove_at j xs) ≡ true)
has-remove_at i j [] k e h = cc
has-remove_at i zero (x ∷ xs) k e h = ground arith
has-remove_at i (suc j) (x ∷ xs) k e h = ground (arith, has-remove_at i j xs k e)

pub has_of_elem : (j : ℕ) (xs : List ℕ) (k : ℕ) → get_elem? xs j ≡ some k → has k xs ≡ true
has_of_elem j [] k e = cc
has_of_elem zero (x ∷ xs) k e = ground arith
has_of_elem (suc j) (x ∷ xs) k e = ground (arith, has_of_elem j xs k e)

pub has_of_removed : (i j : ℕ) (xs : List ℕ) → has i (remove_at j xs) ≡ true → has i xs ≡ true
has_of_removed i j [] h = h
has_of_removed i zero (x ∷ xs) h = ground arith
has_of_removed i (suc j) (x ∷ xs) h = ground (arith, has_of_removed i j xs)

pub length-remove_at_le {ℓ} :
    {A : Type ℓ} (j : ℕ) (xs : List A) → length (remove_at j xs) ≤ length xs
length-remove_at_le j [] = omega arith
length-remove_at_le zero (x ∷ xs) = omega arith
length-remove_at_le (suc j) (x ∷ xs) = omega (arith, length-remove_at_le j xs)

pub all-is_some {ℓ κ} :
    {A : Type ℓ} {B : Type κ} (f : A → Option B) (xs : List A)
    → ((i : ℕ) → i < length xs → (b : B) × (get_elem? (map f xs) i ≡ some (some b)))
    → all (λ x. is_some (f x)) xs ≡ true
all-is_some f [] h = refl
all-is_some f (x ∷ xs) h =
    let (b, e) = h 0 (omega arith) in
    let now : f x ≡ some b = cc e in rw now (all-is_some f xs (λ i lt. h (suc i) (omega arith)))

pub list_cases {ℓ} :
    {A : Type ℓ} (xs : List A) → (xs ≡ []) ⊎ ((x : A) × (rest : List A) × (xs ≡ x ∷ rest))
list_cases [] = inl refl
list_cases (x ∷ rest) = inr (x, rest, refl)

pub elem_in {ℓ} :
    {A : Type ℓ} (xs : List A) (i : ℕ) → i < length xs → (v : A) × (get_elem? xs i ≡ some v)
elem_in [] i lt = absurd (omega arith)
elem_in (x ∷ xs) zero lt = (x, refl)
elem_in (x ∷ xs) (suc i) lt = elem_in xs i (omega arith)

pub not_has : (i x : ℕ) (xs : List ℕ) → has i (x ∷ xs) ≡ false → (i ≢ x) × (has i xs ≡ false)
not_has i x xs h = ground arith

pub still_has :
    (i j : ℕ) (xs : List ℕ) (k : ℕ)
    → get_elem? xs j ≡ some k
    → has i (remove_at j xs) ≡ false
    → ((i == k) ≡ true) ⊎ (((i == k) ≡ false) × (has i xs ≡ false))
still_has i j xs k e h = ground (arith, has-remove_at i j xs k e)

pub eq_comm : (i j : ℕ) → (i == j) ≡ (j == i)
eq_comm i j = ground arith

pub eq_of_test : (i j : ℕ) → (i == j) ≡ true → i ≡ j
eq_of_test i j h = ground arith

pub or_false : (a b : Bool) → (a || b) ≡ true → b ≡ false → a ≡ true
or_false a b h e = ground arith

pub fits : (a b : Bool) → (a && b) ≡ true → (a ≡ true) × (b ≡ true)
fits a b h = ground arith

pub elem-map {ℓ κ} :
    {A : Type ℓ} {B : Type κ} (f : A → B) (xs : List A) (i : ℕ) {x : A}
    → get_elem? xs i ≡ some x
    → get_elem? (map f xs) i ≡ some (f x)
elem-map f [] i e = cc
elem-map f (x ∷ xs) zero e = cc
elem-map f (x ∷ xs) (suc i) e = elem-map f xs i e
