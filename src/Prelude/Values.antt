-- ===== src/Prelude/Values.antt =====
-- What holds of every entry of a dictionary, and how an insertion and a removal change it.
use Prim.Native.String.{String}
use mathlib.Core.Bool.{Bool, true, false}
use mathlib.Core.List.{[]}
use mathlib.Core.Option.{none, some, some-injective}
use mathlib.Core.Path.{◌≡◌, refl, sym, ◌∙◌, subst}
use native.Mathlib.Omega.{arith}
use metafusion.Prelude.Tables.{Dict, lookup, insert, remove, lookup-insert, lookup-remove}
use metafusion.Prelude.Tests.{str_eq, eq_iff, if◌then◌else◌}

module _ {V : Type 0} where
  abbrev pub Entries : (String → V → Type 0) → Dict V → Type 0
  Entries P t = (k : String) (x : V) → lookup k t ≡ some x → P k x

  pub Entries-nil : (P : String → V → Type 0) → Entries P []
  unfolding lookup
  Entries-nil P k x found = ground (arith, found)

  -- What an insertion changes at other keys than its own is up to the second predicate.
  pub insert-Entries :
      (P Q : String → V → Type 0) (key : String) (v : V) (t : Dict V)
      → ((k : String) (x : V) → str_eq key k ≡ false → P k x → Q k x)
      → Q key v
      → Entries P t
      → Entries Q (insert key v t)
  insert-Entries P Q key v t keep new h k x found =
      split (str_eq key k) refl (sym (lookup-insert key k v t) ∙ found)
    where
      split : (b : Bool) → str_eq key k ≡ b → (if b then some v else lookup k t) ≡ some x → Q k x
      split true e at =
          subst (λ (y : V). Q k y) (some-injective _ _ at)
            (subst (λ (j : String). Q j v) ((eq_iff key k).0 e) new)
      split false e at = keep k x e (h k x at)

  pub remove-Entries :
      (P Q : String → V → Type 0) (key : String) (t : Dict V)
      → ((k : String) (x : V) → str_eq key k ≡ false → P k x → Q k x)
      → Entries P t
      → Entries Q (remove key t)
  remove-Entries P Q key t keep h k x found =
      split (str_eq key k) refl (sym (lookup-remove key k t) ∙ found)
    where
      split : (b : Bool) → str_eq key k ≡ b → (if b then none else lookup k t) ≡ some x → Q k x
      split true e at = ground (arith, at)
      split false e at = keep k x e (h k x at)
