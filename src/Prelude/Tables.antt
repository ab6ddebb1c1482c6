-- ===== src/Prelude/Tables.antt =====
-- Dictionaries with text keys, as association lists: Python's `dict`, and the tables of the state
-- database by their primary key.
use Prim.Native.String.{String}
use mathlib.Core.Bool.{Bool, true, false}
use mathlib.Core.List.{List, [], ◌∷◌}
use mathlib.Core.Option.{Option, none, some}
use mathlib.Core.Path.{◌≡◌, refl}
use native.Mathlib.Omega.{arith}
use metafusion.Prelude.Tests.{str_eq, eq_iff, if◌then◌else◌}

abbrev pub Dict {ℓ} : Type ℓ → Type ℓ
Dict V = List (String × V)

-- Equality of two texts that may be missing.
abbrev pub opt_eq : Option String → Option String → Bool
opt_eq none none = true
opt_eq none (some _) = false
opt_eq (some _) none = false
opt_eq (some a) (some b) = str_eq a b

pub opt_eq_sound : (a b : Option String) → opt_eq a b ≡ true → a ≡ b
opt_eq_sound none none h = refl
opt_eq_sound none (some b) h = ground arith
opt_eq_sound (some a) none h = ground arith
opt_eq_sound (some a) (some b) h = ground (arith, eq_iff a b)

module _ {ℓ} {V : Type ℓ} where
  unfoldable pub lookup : String → Dict V → Option V
  lookup key [] = none
  lookup key (entry ∷ table) =
      let rest = lookup key table in if str_eq entry.0 key then some entry.1 else rest

  -- A new key goes to the end, a known one keeps its place.
  unfoldable pub insert : String → V → Dict V → Dict V
  insert key value [] = (key, value) ∷ []
  insert key value (entry ∷ table) =
      let rest = insert key value table in
      if str_eq entry.0 key then (entry.0, value) ∷ table else entry ∷ rest

  unfoldable pub remove : String → Dict V → Dict V
  remove key [] = []
  remove key (entry ∷ table) =
      let rest = remove key table in if str_eq entry.0 key then rest else entry ∷ rest

module _ {V : Type 0} where
  pub lookup-insert :
      (key other : String) (value : V) (table : Dict V)
      → lookup other (insert key value table)
        ≡ (if str_eq key other then some value else lookup other table)
  unfolding lookup insert
  lookup-insert key other value [] = refl
  lookup-insert key other value (entry ∷ table) = ground (
    lookup-insert key other value table,
    eq_iff entry.0 key,
    eq_iff entry.0 other,
    eq_iff key other,
    arith,
  )

  pub lookup-remove :
      (key other : String) (table : Dict V)
      → lookup other (remove key table) ≡ (if str_eq key other then none else lookup other table)
  unfolding lookup remove
  lookup-remove key other [] = ground arith
  lookup-remove key other (entry ∷ table) = ground (
    lookup-remove key other table,
    eq_iff entry.0 key,
    eq_iff entry.0 other,
    eq_iff key other,
    arith,
  )

pub ruleset dict_laws = (lookup-insert, lookup-remove)
