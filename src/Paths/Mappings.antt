-- ===== src/Paths/Mappings.antt =====
-- What `parse_path_mappings` accepts.
use metafusion.Paths.{
  ◌>>=◌, Result, Mapping, insert_mapping, sort_mappings, ok, PathError, refuse, raised,
}
use metafusion.Paths.Texts.{chars_eq, Chars, is_absolute, has_parent, components}
use metafusion.Prelude.{
  ◌≤◌, ◌≡◌, ◌∷◌, refl, [], true, false, Bool, List, length, if_rule, arith, ap, leb, sym, leb→le,
}

pub chars_eq-same : (s : Chars) → chars_eq s s ≡ true
unfolding chars_eq
chars_eq-same [] = refl
chars_eq-same (c ∷ s) = ground (arith, chars_eq-same s)

pub chars_eq_sound : (s t : Chars) → chars_eq s t ≡ true → s ≡ t
unfolding chars_eq
chars_eq_sound [] [] h = refl
chars_eq_sound [] (d ∷ t) h = ground (arith, h)
chars_eq_sound (c ∷ s) [] h = ground (arith, h)
chars_eq_sound (c ∷ s) (d ∷ t) h = ground (arith, h, chars_eq_sound s t)

pub bind-ok :
    {A B : Type 0} (r : Result A) (f : A → Result B) (b : B)
    → (r >>= f) ≡ ok b
    → (a : A) × (r ≡ ok a) × (f a ≡ ok b)
bind-ok (ok a) f b h = (a, refl, h)
bind-ok (raised e) f b h = ground (arith, h)

pub refuse-ok :
    {B : Type 0} (test : Bool) (e : PathError) (f : Bool → Result B) (b : B)
    → (refuse test e >>= f) ≡ ok b
    → (test ≡ false) × (f true ≡ ok b)
refuse-ok false e f b h = (refl, h)
refuse-ok true e f b h = ground (arith, h)

pub ok-injective : {A : Type 0} (a b : A) → ◌≡◌ {A = Result A} (ok a) (ok b) → a ≡ b
ok-injective {A} a b h = ap (λ (r : Result A). elim r [ ok x ↦ x | raised e ↦ a ]) h

-- Both ends are absolute, with no component that goes up.
pub record SafeMapping (m : Mapping) : Type 0 where
  pub source_absolute : is_absolute m.0 ≡ true
  pub destination_absolute : is_absolute m.1 ≡ true
  pub source_stays : has_parent (components m.0) ≡ false
  pub destination_stays : has_parent (components m.1) ≡ false

abbrev pub AllMappings : (Mapping → Type 0) → List Mapping → Type 0
AllMappings P [] = Unit
AllMappings P (m ∷ ms) = P m × AllMappings P ms

-- No two mappings have the same source.
abbrev pub Distinct : List Mapping → Type 0
Distinct [] = Unit
Distinct (m ∷ ms) = AllMappings (λ n. m.0 ≡ n.0 → ⊥) ms × Distinct ms

-- The longest sources stand in front.
abbrev pub Descending : List Mapping → Type 0
Descending [] = Unit
Descending (m ∷ ms) = AllMappings (λ n. length n.0 ≤ length m.0) ms × Descending ms

pub AllMappings-map :
    (P Q : Mapping → Type 0) (ms : List Mapping)
    → ((m : Mapping) → P m → Q m)
    → AllMappings P ms
    → AllMappings Q ms
AllMappings-map P Q [] f h = tt
AllMappings-map P Q (m ∷ ms) f (p, h) = (f m p, AllMappings-map P Q ms f h)

insert_mapping-All :
    (P : Mapping → Type 0) (m : Mapping) (ms : List Mapping)
    → P m
    → AllMappings P ms
    → AllMappings P (insert_mapping m ms)
unfolding insert_mapping
insert_mapping-All P m [] p h = (p, tt)
insert_mapping-All P m (n ∷ ms) p (q, h) =
    let rest = insert_mapping-All P m ms p h in
    if_rule (AllMappings P) (leb (length n.0) (length m.0)) (λ _. (p, (q, h))) (λ _. (q, rest))

pub sort_mappings-All :
    (P : Mapping → Type 0) (ms : List Mapping) → AllMappings P ms → AllMappings P (sort_mappings ms)
unfolding sort_mappings
sort_mappings-All P [] h = tt
sort_mappings-All P (m ∷ ms) (p, h) =
    insert_mapping-All P m (sort_mappings ms) p (sort_mappings-All P ms h)

insert_mapping-Distinct :
    (m : Mapping) (ms : List Mapping)
    → AllMappings (λ n. m.0 ≡ n.0 → ⊥) ms
    → Distinct ms
    → Distinct (insert_mapping m ms)
unfolding insert_mapping
insert_mapping-Distinct m [] h d = (tt, tt)
insert_mapping-Distinct m (n ∷ ms) (differs, h) (others, d) =
    let rest = insert_mapping-Distinct m ms h d in
    if_rule Distinct (leb (length n.0) (length m.0)) (λ _. ((differs, h), (others, d)))
      (λ _. (insert_mapping-All (λ x. n.0 ≡ x.0 → ⊥) m ms (λ e. differs (sym e)) others, rest))

pub sort_mappings-Distinct : (ms : List Mapping) → Distinct ms → Distinct (sort_mappings ms)
unfolding sort_mappings
sort_mappings-Distinct [] d = tt
sort_mappings-Distinct (m ∷ ms) (differs, d) =
    insert_mapping-Distinct m (sort_mappings ms) (sort_mappings-All (λ n. m.0 ≡ n.0 → ⊥) ms differs)
      (sort_mappings-Distinct ms d)

insert_mapping-Descending :
    (m : Mapping) (ms : List Mapping) → Descending ms → Descending (insert_mapping m ms)
unfolding insert_mapping
insert_mapping-Descending m [] d = (tt, tt)
insert_mapping-Descending m (n ∷ ms) (shorter, d) =
    let rest = insert_mapping-Descending m ms d in
    if_rule Descending (leb (length n.0) (length m.0))
      (λ longer.
        let le = leb→le (length n.0) (length m.0) longer in
        (
          (
            le,
            AllMappings-map (λ x. length x.0 ≤ length n.0) (λ x. length x.0 ≤ length m.0) ms
                (λ x p. omega (arith, p, le)) shorter,
          ),
          (shorter, d),
        ))
      (λ short. (
        insert_mapping-All (λ x. length x.0 ≤ length n.0) m ms (ground (arith, short)) shorter,
        rest,
      ))

pub sort_mappings-Descending : (ms : List Mapping) → Descending (sort_mappings ms)
unfolding sort_mappings
sort_mappings-Descending [] = tt
sort_mappings-Descending (m ∷ ms) =
    insert_mapping-Descending m (sort_mappings ms) (sort_mappings-Descending ms)
