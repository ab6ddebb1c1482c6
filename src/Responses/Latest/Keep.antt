-- ===== src/Responses/Latest/Keep.antt =====
-- What is promised for a key, under the changes of the promise, and what follows for the entries.
use mathlib.Core.Path.{subst}
use metafusion.Prelude.{
  if◌then◌else◌, ◌≡◌, ◌∙◌, refl, String, Bool, ℕ, Dict, is_some, str_eq, lookup, false, insert,
  Entries, lookup-insert, remove, some, lookup-remove, arith, sym, none, Bool-cases, eq_refl, inl,
  ap, eq_iff, inr,
}
use metafusion.Responses.Latest.{Entry, Promised}

-- Nothing is said of the committed table.
abbrev pub Anything : String → String → ℕ → Type 0
Anything k v e = Unit

abbrev pub Mode : Type 0
Mode = Bool × Bool

pub absent-Entries :
    {V : Type 0} (P Q : String → V → Type 0) (key : String) (t : Dict V)
    → is_some (lookup key t) ≡ false
    → ((k : String) (x : V) → str_eq key k ≡ false → P k x → Q k x)
    → Entries P t
    → Entries Q t
absent-Entries P Q key t absent keep h k x found = elim (Bool-cases (str_eq key k)) [
  | inl same ↦
      absurd (missing (ap is_some (ap (λ (j : String). lookup j t) ((eq_iff key k).0 same))) found)
  | inr other ↦ keep k x other (h k x found)
]
  where
    missing : is_some (lookup key t) ≡ is_some (lookup k t) → lookup k t ≡ some x → ⊥
    missing e found = ground (arith, e, found, absent)

-- What is promised for other keys stays so when one is stored, and when one is deleted.
pub keep-insert :
    (key : String) (entry : Entry) (spec : Dict Entry) (k v : String) (e : ℕ)
    → str_eq key k ≡ false
    → Promised spec k v e
    → Promised (insert key entry spec) k v e
keep-insert key entry spec k v e other held =
    lookup-insert key k entry spec
    ∙ subst
        (λ (b : Bool).
          (if b then some entry else lookup k spec) ≡ some (record { value = v; expires_at = e }))
        (sym other) held

pub keep-remove :
    (key : String) (spec : Dict Entry) (k v : String) (e : ℕ)
    → str_eq key k ≡ false
    → Promised spec k v e
    → Promised (remove key spec) k v e
keep-remove key spec k v e other held =
    lookup-remove key k spec
    ∙ subst
        (λ (b : Bool).
          (if b then none else lookup k spec) ≡ some (record { value = v; expires_at = e }))
        (sym other) held

pub new_promise :
    (key value : String) (e : ℕ) (spec : Dict Entry)
    → Promised (insert key (record { value = value; expires_at = e }) spec) key value e
new_promise key value e spec =
    lookup-insert key key (record { value = value; expires_at = e }) spec
    ∙ subst
        (λ (b : Bool).
          (if b then some (record { value = value; expires_at = e }) else lookup key spec)
          ≡ some (record { value = value; expires_at = e }))
        (sym (eq_refl key)) refl
