-- ===== src/Paths/Parsed.antt =====
-- The mappings that are parsed, and how one is written.
use mathlib.Core.Path.{subst}
use metafusion.Paths.{
  parse_mapping, parse_all, insert_mapping, sort_mappings, parse_path_mappings, Mapping, ok,
  separated, relative_source, relative_destination, unsafe_mapping, duplicate_source, clean, ◌>>=◌,
  check_mapping, PathError, Result, refuse, raised, malformed_mapping,
}
use metafusion.Paths.Mappings.{
  chars_eq-same, SafeMapping, AllMappings, bind-ok, Distinct, Descending, refuse-ok, ok-injective,
  AllMappings-map, sort_mappings-All, sort_mappings-Distinct, sort_mappings-Descending,
}
use metafusion.Paths.Texts.{
  Chars, partition_arrow, chars_eq, after_prefix, is_absolute, has_parent, components, is_blank,
  cut_front,
}
use metafusion.Prelude.{
  ◌==◌, ◌≡◌, ◌∙◌, ◌||◌, ◌∷◌, ◌++◌, refl, [], true, false, none, some, suc, Bool, arith, ℕ, List,
  not, length, any, ap, if_rule, sym, leb, if◌then◌else◌, Option, or_false,
}

any-cons : (a b : Bool) → (a || b) ≡ false → (a ≡ false) × (b ≡ false)
any-cons a b h = (ground (arith, h), ground (arith, h))

differs : (s t : Chars) → chars_eq s t ≡ false → s ≡ t → ⊥
differs s t h e = absurd (both (ap (chars_eq s) e ∙ h))
  where
    both : chars_eq s s ≡ false → ⊥
    both q = ground (arith, q, chars_eq-same s)

-- One accepted mapping is safe, and none of the sources so far is its source.
parse_mapping-safe :
    (is_space : ℕ → Bool) (sources : List Chars) (raw : Chars) (m : Mapping)
    → parse_mapping is_space sources raw ≡ ok m
    → SafeMapping m × (any (chars_eq m.0) sources ≡ false)
unfolding parse_mapping check_mapping
parse_mapping-safe is_space sources raw m h =
    let (pair, e, h1) = bind-ok (separated is_space (partition_arrow raw)) _ m h in
    let (a, h2) = refuse-ok (not (is_absolute pair.0)) relative_source _ m h1 in
    let (b, h3) = refuse-ok (not (is_absolute pair.1)) relative_destination _ m h2 in
    let (c, h4) =
      refuse-ok (has_parent (components pair.0) || has_parent (components pair.1)) unsafe_mapping _
        m h3 in
    let (d, h5) = refuse-ok (any (chars_eq pair.0) sources) duplicate_source _ m h4 in
    let same = ok-injective pair m h5 in
    let (c0, c1) = any-cons (has_parent (components pair.0)) (has_parent (components pair.1)) c in
    (
      subst SafeMapping same (record {
        source_absolute = ground (arith, a);
        destination_absolute = ground (arith, b);
        source_stays = c0;
        destination_stays = c1;
      }),
      subst (λ (x : Mapping). any (chars_eq x.0) sources ≡ false) same d,
    )

parse_all_sound :
    (is_space : ℕ → Bool) (values sources : List Chars) (ms : List Mapping)
    → parse_all is_space sources values ≡ ok ms
    → AllMappings SafeMapping ms
      × AllMappings (λ m. any (chars_eq m.0) sources ≡ false) ms
      × Distinct ms
      × (length ms ≡ length values)
unfolding parse_all
parse_all_sound is_space [] sources ms h =
    subst
      (λ (l : List Mapping).
        AllMappings SafeMapping l
        × AllMappings (λ m. any (chars_eq m.0) sources ≡ false) l
        × Distinct l
        × (length l ≡ 0))
      (ok-injective [] ms h) (tt, tt, tt, refl)
parse_all_sound is_space (raw ∷ values) sources ms h =
    let (m, e, h1) = bind-ok (parse_mapping is_space sources raw) _ ms h in
    let (rest, e', h2) = bind-ok (parse_all is_space (m.0 ∷ sources) values) _ ms h1 in
    let (safe, fresh) = parse_mapping-safe is_space sources raw m e in
    let (all_safe, unseen, apart, count) =
      parse_all_sound is_space values (m.0 ∷ sources) rest e' in
    subst
      (λ (l : List Mapping).
        AllMappings SafeMapping l
        × AllMappings (λ n. any (chars_eq n.0) sources ≡ false) l
        × Distinct l
        × (length l ≡ suc (length values)))
      (ok-injective (m ∷ rest) ms h2)
      (
        (safe, all_safe),
        (
          fresh,
          AllMappings-map (λ n. any (chars_eq n.0) (m.0 ∷ sources) ≡ false)
              (λ n. any (chars_eq n.0) sources ≡ false) rest
              (λ n p. (any-cons (chars_eq n.0 m.0) (any (chars_eq n.0) sources) p).1) unseen,
        ),
        (
          AllMappings-map (λ n. any (chars_eq n.0) (m.0 ∷ sources) ≡ false) (λ n. m.0 ≡ n.0 → ⊥)
              rest
              (λ n p e.
                differs n.0 m.0 (any-cons (chars_eq n.0 m.0) (any (chars_eq n.0) sources) p).0
                  (sym e))
              unseen,
          apart,
        ),
        ap suc count,
      )

insert_mapping-length :
    (m : Mapping) (ms : List Mapping) → length (insert_mapping m ms) ≡ suc (length ms)
unfolding insert_mapping
insert_mapping-length m [] = refl
insert_mapping-length m (n ∷ ms) =
    let rest = insert_mapping-length m ms in
    if_rule (λ (l : List Mapping). length l ≡ suc (suc (length ms))) (leb (length n.0) (length m.0))
      (λ _. refl) (λ _. ap suc rest)

sort_mappings-length : (ms : List Mapping) → length (sort_mappings ms) ≡ length ms
unfolding sort_mappings
sort_mappings-length [] = refl
sort_mappings-length (m ∷ ms) =
    insert_mapping-length m (sort_mappings ms) ∙ ap suc (sort_mappings-length ms)

-- Where the mappings are accepted, there is one for each value, both ends of each are absolute and have
-- no component that goes up, no two have the same source, and the longest sources stand in front.
pub parse_path_mappings_sound :
    (is_space : ℕ → Bool) (values : List Chars) (ms : List Mapping)
    → parse_path_mappings is_space values ≡ ok ms
    → (length ms ≡ length values) × AllMappings SafeMapping ms × Distinct ms × Descending ms
unfolding parse_path_mappings
parse_path_mappings_sound is_space values ms h =
    let (parsed, e, h1) = bind-ok (parse_all is_space [] values) _ ms h in
    let (safe, unseen, apart, count) = parse_all_sound is_space values [] parsed e in
    subst
      (λ (l : List Mapping).
        (length l ≡ length values) × AllMappings SafeMapping l × Distinct l × Descending l)
      (ok-injective (sort_mappings parsed) ms h1)
      (
        sort_mappings-length parsed ∙ count,
        sort_mappings-All SafeMapping parsed safe,
        sort_mappings-Distinct parsed apart,
        sort_mappings-Descending parsed,
      )

-- The arrow of a mapping.
abbrev pub arrow : Chars
arrow = 61 ∷ 62 ∷ []

abbrev pub no_equals : Chars → Bool
no_equals s = not (any (λ c. c == 61) s)

partition_arrow-written :
    (s d : Chars) → no_equals s ≡ true → partition_arrow (s ++ (arrow ++ d)) ≡ some (s, d)
unfolding partition_arrow after_prefix
partition_arrow-written [] d h = refl
partition_arrow-written (c ∷ s) d h =
    subst
      (λ (b : Bool).
        (let found : Option Chars =
            if b then after_prefix (62 ∷ []) (s ++ (arrow ++ d)) else none in
          let cut : Option (Chars × Chars) = elim found [
            | some back ↦ some ([], back)
            | none ↦ cut_front c (partition_arrow (s ++ (arrow ++ d)))
          ] in
          cut ≡ some (c ∷ s, d)))
      (no_match h) (ap (cut_front c) (partition_arrow-written s d (rest h)))
  where
    no_match : no_equals (c ∷ s) ≡ true → ◌≡◌ {A = Bool} false (61 == c)
    no_match h = ground (arith, h)

    rest : no_equals (c ∷ s) ≡ true → no_equals s ≡ true
    rest h = ground (arith, h)

sort-one : (m : Mapping) → sort_mappings (m ∷ []) ≡ m ∷ []
unfolding sort_mappings insert_mapping
sort-one m = refl

refuse-pass :
    {B : Type 0} (test : Bool) (e : PathError) (f : Bool → Result B)
    → test ≡ false
    → (refuse test e >>= f) ≡ f true
refuse-pass false e f h = refl
refuse-pass true e f h = ground (arith, h)

check_mapping-safe : (m : Mapping) → SafeMapping m → check_mapping [] m ≡ ok m
unfolding check_mapping
check_mapping-safe m safe =
    refuse-pass (not (is_absolute m.0)) relative_source _ (ap not safe.source_absolute)
    ∙ refuse-pass (not (is_absolute m.1)) relative_destination _ (ap not safe.destination_absolute)
    ∙ refuse-pass (has_parent (components m.0) || has_parent (components m.1)) unsafe_mapping _ (
        or_false (has_parent (components m.0)) (has_parent (components m.1)) safe.source_stays
          safe.destination_stays)
    ∙ refuse-pass false duplicate_source (λ _. ok m) refl

absolute_there : (s : Chars) → is_absolute s ≡ true → is_blank s ≡ false
absolute_there [] h = ground (arith, h)
absolute_there (c ∷ s) h = refl

separated-clean :
    (is_space : ℕ → Bool) (s d : Chars)
    → clean is_space s ≡ s
    → clean is_space d ≡ d
    → is_blank s ≡ false
    → is_blank d ≡ false
    → separated is_space (some (s, d)) ≡ ok (s, d)
separated-clean is_space s d s_clean d_clean s_there d_there =
    ap (λ (x : Chars). pair_of x (clean is_space d)) s_clean
    ∙ ap (λ (y : Chars). pair_of s y) d_clean
    ∙ ap (λ (b : Bool). if b then raised malformed_mapping else ok (s, d))
        (or_false (is_blank s) (is_blank d) s_there d_there)
  where
    pair_of : Chars → Chars → Result Mapping
    pair_of x y = if is_blank x || is_blank y then raised malformed_mapping else ok (x, y)

-- A mapping that is written with an arrow is read back as it is, when both ends are absolute, have no
-- component that goes up, and are left alone by the cleaning, and the source has no equals sign.
pub parse-written :
    (is_space : ℕ → Bool) (s d : Chars)
    → no_equals s ≡ true
    → clean is_space s ≡ s
    → clean is_space d ≡ d
    → SafeMapping (s, d)
    → parse_path_mappings is_space ((s ++ (arrow ++ d)) ∷ []) ≡ ok ((s, d) ∷ [])
unfolding parse_path_mappings parse_all
parse-written is_space s d plain s_clean d_clean safe =
    ap (λ (r : Result Mapping). sorted (r >>= λ m. ok (m ∷ []))) one ∙ ap ok (sort-one (s, d))
  where
    sorted : Result (List Mapping) → Result (List Mapping)
    sorted r = r >>= λ ms. ok (sort_mappings ms)

    one : parse_mapping is_space [] (s ++ (arrow ++ d)) ≡ ok (s, d)
    one = parse_mapping-pair (
        ap (separated is_space) (partition_arrow-written s d plain)
        ∙ separated-clean is_space s d s_clean d_clean (absolute_there s safe.source_absolute)
            (absolute_there d safe.destination_absolute))
      where
        parse_mapping-pair :
            separated is_space (partition_arrow (s ++ (arrow ++ d))) ≡ ok (s, d)
            → parse_mapping is_space [] (s ++ (arrow ++ d)) ≡ ok (s, d)
        parse_mapping-pair e =
            unfold parse_mapping in
            ap (λ (r : Result Mapping). r >>= check_mapping []) e ∙ check_mapping-safe (s, d) safe
