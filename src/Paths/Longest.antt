-- ===== src/Paths/Longest.antt =====
-- Which mapping the translation takes, and what it makes of the path.
use mathlib.Core.List.{append_assoc}
use mathlib.Core.Option.{some-injective}
use metafusion.Paths.{Mapping, translate_with, below, join_suffix}
use metafusion.Paths.Mappings.{
  Descending, chars_eq_sound, AllMappings, chars_eq-same, AllMappings-map,
}
use metafusion.Paths.Texts.{Chars, after_prefix, slash, chars_eq, lstrip, is_slash}
use metafusion.Prelude.{
  if◌then◌else◌, ◌==◌, ◌≤◌, ◌≡◌, ◌∙◌, ◌⊎◌, ◌∷◌, ◌++◌, refl, [], true, false, none, some, inl, inr,
  List, arith, Bool, ap, ℕ, sym, Option, length,
}

-- The path is the source, or lies under it.
abbrev pub Under : Chars → Chars → Type 0
Under original source =
    (original ≡ source) ⊎ ((suffix : Chars) × (original ≡ source ++ (slash ∷ suffix)))

abbrev pub In : Mapping → List Mapping → Type 0
In m [] = ⊥
In m (n ∷ ms) = (m ≡ n) ⊎ In m ms

pub after_prefix_sound : (p s rest : Chars) → after_prefix p s ≡ some rest → s ≡ p ++ rest
unfolding after_prefix
after_prefix_sound [] s rest h = some-injective _ _ h
after_prefix_sound (c ∷ p) [] rest h = ground (arith, h)
after_prefix_sound (c ∷ p) (d ∷ s) rest h =
    let (same, found) = both (c == d) h in
    ap (λ (x : ℕ). x ∷ s) (ground (arith, same))
    ∙ ap (λ (t : Chars). c ∷ t) (after_prefix_sound p s rest found)
  where
    both :
        (b : Bool)
        → (if b then after_prefix p s else none) ≡ some rest
        → (b ≡ true) × (after_prefix p s ≡ some rest)
    both true e = (refl, e)
    both false e = ground (arith, e)

after_prefix-found : (p rest : Chars) → after_prefix p (p ++ rest) ≡ some rest
unfolding after_prefix
after_prefix-found [] rest = refl
after_prefix-found (c ∷ p) rest = ground (arith, after_prefix-found p rest)

pub below-Under :
    (original source suffix : Chars) → below original source ≡ some suffix → Under original source
below-Under original source suffix h = by_eq (chars_eq original source) refl h
  where
    by_eq :
        (b : Bool)
        → chars_eq original source ≡ b
        → (if b then some [] else after_prefix (source ++ (slash ∷ [])) original) ≡ some suffix
        → Under original source
    by_eq true e f = inl (chars_eq_sound original source e)
    by_eq false e f = inr (
      suffix,
      after_prefix_sound (source ++ (slash ∷ [])) original suffix f
          ∙ append_assoc source (slash ∷ []) suffix,
    )

below-none : (original source : Chars) → below original source ≡ none → Under original source → ⊥
below-none original source h (inl same) =
    missing (ap (chars_eq original) (sym same) ∙ chars_eq-same original)
  where
    missing : chars_eq original source ≡ true → ⊥
    missing e = ground (arith, h, e)
below-none original source h (inr (suffix, e)) = missing (
    ap (after_prefix (source ++ (slash ∷ []))) (e ∙ sym (append_assoc source (slash ∷ []) suffix))
    ∙ after_prefix-found (source ++ (slash ∷ [])) suffix)
  where
    missing : after_prefix (source ++ (slash ∷ [])) original ≡ some suffix → ⊥
    missing f = ground (arith, h, f)

-- The mapping that was taken, and what follows its source.
pub record Taken (original : Chars) (ms : List Mapping) (translated : Chars) : Type 0 where
  pub mapping : Mapping
  pub suffix : Chars
  pub among : In mapping ms
  pub matching : below original mapping.0 ≡ some suffix
  pub result : translated ≡ join_suffix mapping.1 (lstrip is_slash suffix)
  pub longest : AllMappings (λ n. Under original n.0 → length n.0 ≤ length mapping.0) ms

pub translate_with-Taken :
    (original : Chars) (ms : List Mapping)
    → Descending ms
    → (AllMappings (λ n. Under original n.0 → ⊥) ms × (translate_with original ms ≡ original))
      ⊎ Taken original ms (translate_with original ms)
unfolding translate_with
translate_with-Taken original [] d = inl (tt, refl)
translate_with-Taken original (m ∷ ms) (shorter, d) =
    by_match (below original m.0) refl (translate_with-Taken original ms d)
  where
    Outcome : Chars → Type 0
    Outcome t =
        (AllMappings (λ n. Under original n.0 → ⊥) (m ∷ ms) × (t ≡ original))
        ⊎ Taken original (m ∷ ms) t

    by_match :
        (o : Option Chars)
        → below original m.0 ≡ o
        → (AllMappings (λ n. Under original n.0 → ⊥) ms × (translate_with original ms ≡ original))
          ⊎ Taken original ms (translate_with original ms)
        → Outcome (elim o [
          | none ↦ translate_with original ms
          | some suffix ↦ join_suffix m.1 (lstrip is_slash suffix)
        ])
    by_match (some suffix) e rest = inr (record {
      mapping = m;
      suffix = suffix;
      among = inl refl;
      matching = e;
      result = refl;
      longest = (
        (λ u. omega arith),
        AllMappings-map (λ n. length n.0 ≤ length m.0)
            (λ n. Under original n.0 → length n.0 ≤ length m.0) ms (λ n le u. le) shorter,
      );
    })
    by_match none e (inl (nothing, same)) = inl ((below-none original m.0 e, nothing), same)
    by_match none e (inr t) = inr (record {
      mapping = t.mapping;
      suffix = t.suffix;
      among = inr t.among;
      matching = t.matching;
      result = t.result;
      longest = ((λ u. absurd (below-none original m.0 e u)), t.longest);
    })
