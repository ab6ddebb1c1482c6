-- ===== src/Paths/Contained.antt =====
-- Where a translated path lies.
use mathlib.Core.List.{append-nil, append_assoc}
use mathlib.Core.Option.{some-injective}
use mathlib.Core.Path.{subst}
use metafusion.Paths.{
  join_suffix, below, Mapping, translate_plex_path, Normal, parse_path_mappings, ok, translate_with,
  empty_path, relative_path, unsafe_path,
}
use metafusion.Paths.Longest.{
  In, Taken, Under, below-Under, after_prefix_sound, translate_with-Taken,
}
use metafusion.Paths.Mappings.{
  chars_eq_sound, AllMappings, Descending, refuse-ok, bind-ok, ok-injective,
}
use metafusion.Paths.Parsed.{parse_path_mappings_sound}
use metafusion.Paths.Texts.{
  split_slashes, components, lstrip, Chars, push, slash, components_of, is_slash, chars_eq,
  is_component, after_prefix, has_parent, replace_backslashes, strip, is_blank, is_absolute,
  root_of,
}
use metafusion.Prelude.{
  ◌==◌, if◌then◌else◌, ◌≡◌, ◌∙◌, ◌∷◌, ◌++◌, refl, [], true, false, some, ℕ, List, Bool, ap, sym,
  ◌≤◌, ◌⊎◌, inl, inr, ltb, length, not, arith,
}

split_slashes-there : (s : Chars) → (w : Chars) × (ws : List Chars) × (split_slashes s ≡ w ∷ ws)
unfolding split_slashes
split_slashes-there [] = ([], [], refl)
split_slashes-there (c ∷ s) = by_slash (c == slash) (split_slashes-there s)
  where
    by_slash :
        (b : Bool)
        → (w : Chars) × (ws : List Chars) × (split_slashes s ≡ w ∷ ws)
        → (w : Chars) × (ws : List Chars) × ((if b
              then [] ∷ split_slashes s
              else push c (split_slashes s))
            ≡ w ∷ ws)
    by_slash true t = ([], split_slashes s, refl)
    by_slash false (w, ws, e) = (c ∷ w, ws, ap (push c) e)

push-append :
    (c : ℕ) (w : Chars) (l ws rest : List Chars)
    → l ≡ w ∷ ws
    → push c (l ++ rest) ≡ push c l ++ rest
push-append c w l ws rest e =
    subst (λ (k : List Chars). push c (k ++ rest) ≡ push c k ++ rest) (sym e) refl

split_slashes-append :
    (a b : Chars) → split_slashes (a ++ (slash ∷ b)) ≡ split_slashes a ++ split_slashes b
unfolding split_slashes
split_slashes-append [] b = refl
split_slashes-append (c ∷ a) b =
    by_slash (c == slash) (split_slashes-append a b) (split_slashes-there a)
  where
    by_slash :
        (slashed : Bool)
        → split_slashes (a ++ (slash ∷ b)) ≡ split_slashes a ++ split_slashes b
        → (w : Chars) × (ws : List Chars) × (split_slashes a ≡ w ∷ ws)
        → (if slashed
            then [] ∷ split_slashes (a ++ (slash ∷ b))
            else push c (split_slashes (a ++ (slash ∷ b))))
          ≡ (if slashed then [] ∷ split_slashes a else push c (split_slashes a)) ++ split_slashes b
    by_slash true ih t = ap (λ (l : List Chars). [] ∷ l) ih
    by_slash false ih (w, ws, e) =
        ap (push c) ih ∙ push-append c w (split_slashes a) ws (split_slashes b) e

components_of-append :
    (l k : List Chars) → components_of (l ++ k) ≡ components_of l ++ components_of k
components_of-append [] k = refl
components_of-append (w ∷ l) k = by_test (is_component w) (components_of-append l k)
  where
    by_test :
        (b : Bool)
        → components_of (l ++ k) ≡ components_of l ++ components_of k
        → (if b then w ∷ components_of (l ++ k) else components_of (l ++ k))
          ≡ (if b then w ∷ components_of l else components_of l) ++ components_of k
    by_test true ih = ap (λ (r : List Chars). w ∷ r) ih
    by_test false ih = ih

pub components-append : (a b : Chars) → components (a ++ (slash ∷ b)) ≡ components a ++ components b
unfolding components
components-append a b =
    ap components_of (split_slashes-append a b)
    ∙ components_of-append (split_slashes a) (split_slashes b)

components-lstrip : (s : Chars) → components (lstrip is_slash s) ≡ components s
unfolding lstrip components
components-lstrip [] = refl
components-lstrip (c ∷ s) = by_slash (c == slash) refl (components-lstrip s)
  where
    by_slash :
        (b : Bool)
        → (c == slash) ≡ b
        → components (lstrip is_slash s) ≡ components s
        → components (if b then lstrip is_slash s else c ∷ s) ≡ components (c ∷ s)
    by_slash true e ih =
        ih
        ∙ unfold split_slashes chars_eq in
          ap
            (λ (b : Bool).
              components_of (if b then [] ∷ split_slashes s else push c (split_slashes s)))
            (sym e)
    by_slash false e ih = refl

join_suffix-components : (d t : Chars) → components (join_suffix d t) ≡ components d ++ components t
join_suffix-components d [] =
    sym (append-nil (components d)) ∙ ap (λ (l : List Chars). components d ++ l) none_left
  where
    none_left : [] ≡ components []
    none_left = unfold components split_slashes in refl
join_suffix-components d (c ∷ t) = components-append d (c ∷ t)

below-components :
    (original source suffix : Chars)
    → below original source ≡ some suffix
    → components original ≡ components source ++ components suffix
below-components original source suffix h = by_eq (chars_eq original source) refl h
  where
    by_eq :
        (b : Bool)
        → chars_eq original source ≡ b
        → (if b then some [] else after_prefix (source ++ (slash ∷ [])) original) ≡ some suffix
        → components original ≡ components source ++ components suffix
    by_eq true e f =
        ap components (chars_eq_sound original source e)
        ∙ join_suffix-components source []
        ∙ ap (λ (s : Chars). components source ++ components s) (some-injective _ _ f)
    by_eq false e f =
        ap components (
          after_prefix_sound (source ++ (slash ∷ [])) original suffix f
          ∙ append_assoc source (slash ∷ []) suffix)
        ∙ components-append source suffix

-- A mapping with the longest source that fits: the path is the source, or lies under it, and the
-- components of the source are replaced by those of the destination.
pub record Moved (original : Chars) (ms : List Mapping) (parts : List Chars) : Type 0 where
  pub mapping : Mapping
  pub rest : List Chars
  pub among : In mapping ms
  pub under : Under original mapping.0
  pub before : components original ≡ components mapping.0 ++ rest
  pub after : parts ≡ components mapping.1 ++ rest
  pub longest : AllMappings (λ n. Under original n.0 → length n.0 ≤ length mapping.0) ms

-- No mapping fits, and the path keeps its components.
pub record Kept (original : Chars) (ms : List Mapping) (parts : List Chars) : Type 0 where
  pub no_match : AllMappings (λ n. Under original n.0 → ⊥) ms
  pub same : parts ≡ components original

-- The result is absolute and never goes up.
pub record Translated (original : Chars) (ms : List Mapping) (result : Normal) : Type 0 where
  pub absolute : ltb 0 result.0 ≡ true
  pub stays : has_parent result.1 ≡ false
  pub parts : Kept original ms result.1 ⊎ Moved original ms result.1

-- By the mappings that were accepted.
abbrev pub TranslatedBy : (ℕ → Bool) → Chars → List Chars → Normal → Type 0
TranslatedBy is_space value values result =
    (ms : List Mapping) × (parse_path_mappings is_space values ≡ ok ms)
    × Translated (replace_backslashes (strip is_space value)) ms result

Taken-Moved :
    (original : Chars) (ms : List Mapping) (translated : Chars)
    → Taken original ms translated
    → Moved original ms (components translated)
Taken-Moved original ms translated t = record {
  mapping = t.mapping;
  rest = components t.suffix;
  among = t.among;
  under = below-Under original t.mapping.0 t.suffix t.matching;
  before = below-components original t.mapping.0 t.suffix t.matching;
  after =
      ap components t.result
      ∙ join_suffix-components t.mapping.1 (lstrip is_slash t.suffix)
      ∙ ap (λ (l : List Chars). components t.mapping.1 ++ l) (components-lstrip t.suffix);
  longest = t.longest;
}

sorted-Descending :
    (is_space : ℕ → Bool) (values : List Chars) (ms : List Mapping)
    → parse_path_mappings is_space values ≡ ok ms
    → Descending ms
sorted-Descending is_space values ms h = (parse_path_mappings_sound is_space values ms h).3

-- Where a path is translated, the mappings were accepted, and the result is absolute, with no component
-- that goes up. Either no source of a mapping is the path or above it, and the path keeps its
-- components; or the components of a source that is the path or above it, and no such source is
-- longer, are replaced by those of its destination, so that the result lies at or under
-- that destination, and a source never fits a path that only begins with the same letters.
pub translate_plex_path-Translated :
    (is_space : ℕ → Bool) (value : Chars) (values : List Chars) (result : Normal)
    → translate_plex_path is_space value values ≡ ok result
    → (ms : List Mapping) × (parse_path_mappings is_space values ≡ ok ms)
      × Translated (replace_backslashes (strip is_space value)) ms result
unfolding translate_plex_path
translate_plex_path-Translated is_space value values result h =
    let original = replace_backslashes (strip is_space value) in
    let (there, h1) = refuse-ok (is_blank original) empty_path _ result h in
    let (ms, parsed, h2) = bind-ok (parse_path_mappings is_space values) _ result h1 in
    let translated = translate_with original ms in
    let (absolute, h3) = refuse-ok (not (is_absolute translated)) relative_path _ result h2 in
    let (stays, h4) = refuse-ok (has_parent (components translated)) unsafe_path _ result h3 in
    let same = ok-injective (root_of translated, components translated) result h4 in
    (
      ms,
      parsed,
      subst (Translated original ms) same (record {
        absolute = ground (arith, absolute);
        stays = stays;
        parts =
            by_match original ms
              (translate_with-Taken original ms (sorted-Descending is_space values ms parsed));
      }),
    )
  where
    by_match :
        (original : Chars) (ms : List Mapping)
        → (AllMappings (λ n. Under original n.0 → ⊥) ms × (translate_with original ms ≡ original))
          ⊎ Taken original ms (translate_with original ms)
        → Kept original ms (components (translate_with original ms))
          ⊎ Moved original ms (components (translate_with original ms))
    by_match original ms (inl (nothing, e)) =
        inl (record { no_match = nothing; same = ap components e })
    by_match original ms (inr t) = inr (Taken-Moved original ms (translate_with original ms) t)
