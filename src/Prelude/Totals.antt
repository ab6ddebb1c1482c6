-- ===== src/Prelude/Totals.antt =====
-- Sums over the values of a dictionary, and how an insertion and a removal change them.
use Prim.Native.Nat.{ℕ, ◌+◌, ◌≤◌}
use Prim.Native.String.{String}
use mathlib.Core.Bool.{Bool, true, false}
use mathlib.Core.List.{[], ◌∷◌}
use mathlib.Core.Option.{Option, none, some}
use mathlib.Core.Path.{◌≡◌, refl}
use native.Mathlib.Omega.{arith}
use metafusion.Prelude.Tables.{Dict, lookup, insert, remove, lookup-insert, lookup-remove}
use metafusion.Prelude.Tests.{str_eq, eq_iff, if◌then◌else◌}

module _ {V : Type 0} where
  abbrev pub total : (V → ℕ) → Dict V → ℕ
  total f [] = 0
  total f ((k, v) ∷ t) = f v + total f t

  -- What the value at a key adds to the sum.
  abbrev pub part : (V → ℕ) → Option V → ℕ
  part f none = 0
  part f (some v) = f v

  -- No key stands twice.
  abbrev pub Unique : Dict V → Type 0
  Unique [] = Unit
  Unique (e ∷ t) = (lookup e.0 t ≡ none) × Unique t

  remove_absent : (k : String) (t : Dict V) → lookup k t ≡ none → remove k t ≡ t
  unfolding lookup remove
  remove_absent k [] h = refl
  remove_absent k (e ∷ t) h = ground (arith, h, remove_absent k t)

  pub total-insert :
      (f : V → ℕ) (k : String) (v : V) (t : Dict V)
      → total f (insert k v t) + part f (lookup k t) ≡ total f t + f v
  unfolding lookup insert
  total-insert f k v [] = omega arith
  total-insert f k v (e ∷ t) = split (str_eq e.0 k) (total-insert f k v t)
    where
      split :
          (b : Bool)
          → total f (insert k v t) + part f (lookup k t) ≡ total f t + f v
          → total f (if b then (e.0, v) ∷ t else e ∷ insert k v t)
              + part f (if b then some e.1 else lookup k t)
            ≡ f e.1 + total f t + f v
      split true ih = omega arith
      split false ih = omega (arith, ih)

  pub total-remove :
      (f : V → ℕ) (k : String) (t : Dict V)
      → Unique t
      → total f (remove k t) + part f (lookup k t) ≡ total f t
  unfolding lookup remove
  total-remove f k [] u = omega arith
  total-remove f k (e ∷ t) (fresh, u) = split (str_eq e.0 k) refl (total-remove f k t u)
    where
      split :
          (b : Bool)
          → str_eq e.0 k ≡ b
          → total f (remove k t) + part f (lookup k t) ≡ total f t
          → total f (if b then remove k t else e ∷ remove k t)
              + part f (if b then some e.1 else lookup k t)
            ≡ f e.1 + total f t
      split true h ih =
          let same : e.0 ≡ k = (eq_iff e.0 k).0 h in
          let gone = remove_absent k t (rw (← same) fresh) in rw gone (omega arith)
      split false h ih = omega (arith, ih)

  pub insert-Unique : (k : String) (v : V) (t : Dict V) → Unique t → Unique (insert k v t)
  unfolding insert
  insert-Unique k v [] u = (unfold lookup in refl, tt)
  insert-Unique k v (e ∷ t) (fresh, u) = split (str_eq e.0 k) refl (insert-Unique k v t u)
    where
      split :
          (b : Bool)
          → str_eq e.0 k ≡ b
          → Unique (insert k v t)
          → Unique (if b then (e.0, v) ∷ t else e ∷ insert k v t)
      split true h ih = (fresh, u)
      split false h ih =
          let other : str_eq k e.0 ≡ false = ground (arith, h, eq_iff e.0 k, eq_iff k e.0) in
          (rw (lookup-insert k e.0 v t) (rw other fresh), ih)

  pub remove-Unique : (k : String) (t : Dict V) → Unique t → Unique (remove k t)
  unfolding remove
  remove-Unique k [] u = tt
  remove-Unique k (e ∷ t) (fresh, u) = split (str_eq e.0 k) refl (remove-Unique k t u)
    where
      split :
          (b : Bool)
          → str_eq e.0 k ≡ b
          → Unique (remove k t)
          → Unique (if b then remove k t else e ∷ remove k t)
      split true h ih = ih
      split false h ih =
          let other : str_eq k e.0 ≡ false = ground (arith, h, eq_iff e.0 k, eq_iff k e.0) in
          (rw (lookup-remove k e.0 t) (rw other fresh), ih)

  pub part-le-total : (f : V → ℕ) (k : String) (t : Dict V) → part f (lookup k t) ≤ total f t
  unfolding lookup
  part-le-total f k [] = omega arith
  part-le-total f k (e ∷ t) = split (str_eq e.0 k) (part-le-total f k t)
    where
      split :
          (b : Bool)
          → part f (lookup k t) ≤ total f t
          → part f (if b then some e.1 else lookup k t) ≤ f e.1 + total f t
      split true ih = omega arith
      split false ih = omega (arith, ih)
