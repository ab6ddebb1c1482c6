-- ===== src/Observations/Canonical.antt =====
-- The observations of canonical artwork, with the decision of modules/utils.py that reads them.
use metafusion.Artwork.Guard.{
  Status, Applied, canonical_upgrade_decision, NewImage, text_or, observations,
  upgrade_tmdb_canonical, tmdb_canonical_change_pending,
}
use metafusion.Observations.{Tracked, record_canonical_observation, or_blank, known_count}
use metafusion.Prelude.{
  if◌then◌else◌, ◌≡◌, ◌&&◌, ◌||◌, refl, true, false, none, some, Option, String, Bool, ℕ, str_eq, ℤ,
  arith, pos, eq_iff, leb, eq_refl, ◌≤◌, ◌∙◌, not, ap, if_rule, ◌+◌, sym, min,
}

abbrev pub shown_count : Option ℕ → Option ℤ
shown_count none = none
shown_count (some n) = some (pos n)

-- What the decision on an upgrade is given of an entry.
abbrev pub applied_of : Tracked → Applied
applied_of e = record {
  source_path = e.source_path;
  pending_path = e.canonical_pending_path;
  pending_observations = shown_count e.canonical_pending_observations;
}

-- A canonical image, with its provider and its path.
abbrev pub canonical_image : Option String → String → NewImage
canonical_image provider source = record {
  tmdb_canonical = true;
  provider = provider;
  file_path = some source;
}

-- The answer to a canonical image that may replace the one in place, and to one that may not yet.
abbrev pub answer : Bool → Option (Bool × Status)
answer b = some (b, if b then upgrade_tmdb_canonical else tmdb_canonical_change_pending)

text_or-blank : (o : Option String) → text_or o "" ≡ or_blank o
text_or-blank none = refl
text_or-blank (some s) = ground (arith, eq_iff s "")

-- What the decision reads of the entry.
accepted_by : Applied → String → Bool
accepted_by a s =
    str_eq (or_blank a.source_path) s
    || (str_eq (or_blank a.pending_path) s && leb 1 (observations a.pending_observations))

decision-accepted_by :
    (lower : String → String) (provider : Option String) (a : Applied) (s : String)
    → lower (text_or provider "tmdb") ≡ "tmdb"
    → str_eq s "" ≡ false
    → canonical_upgrade_decision lower a (canonical_image provider s) ≡ answer (accepted_by a s)
unfolding canonical_upgrade_decision accepted_by
decision-accepted_by lower provider a s own there =
    if_rule Right (not true || not (str_eq (lower (text_or provider "tmdb")) "tmdb"))
      (λ h. absurd (
        known (str_eq (lower (text_or provider "tmdb")) "tmdb")
          (ap (λ (x : String). str_eq x "tmdb") own ∙ eq_refl "tmdb") h))
      (λ _.
        if_rule Right (str_eq (text_or (some s) "") "")
          (λ h. absurd (blank (ap (λ (x : String). str_eq x "") (sym kept) ∙ h)))
          (λ _.
            ap (decide (text_or a.source_path "") (text_or a.pending_path "")) kept
            ∙ ap (λ (x : String). decide x (text_or a.pending_path "") s)
                (text_or-blank a.source_path)
            ∙ ap (λ (y : String). decide (or_blank a.source_path) y s)
                (text_or-blank a.pending_path)
            ∙ decided (str_eq (or_blank a.source_path) s) (str_eq (or_blank a.pending_path) s)
                (leb 1 (observations a.pending_observations))))
  where
    Right : Option (Bool × Status) → Type 0
    Right d = d ≡ answer (accepted_by a s)

    decide : String → String → String → Option (Bool × Status)
    decide x y z =
        if str_eq x z
        then some (true, upgrade_tmdb_canonical)
        else if str_eq y z && leb 1 (observations a.pending_observations)
        then some (true, upgrade_tmdb_canonical)
        else some (false, tmdb_canonical_change_pending)

    decided :
        (p q r : Bool)
        → ◌≡◌ {A = Option (Bool × Status)}
            (if p
              then some (true, upgrade_tmdb_canonical)
              else if q && r
              then some (true, upgrade_tmdb_canonical)
              else some (false, tmdb_canonical_change_pending))
            (answer (p || (q && r)))
    decided true q r = refl
    decided false true true = refl
    decided false true false = refl
    decided false false r = refl

    kept : text_or (some s) "" ≡ s
    kept = ap (λ (b : Bool). if b then "" else s) there

    known : (b : Bool) → b ≡ true → (not true || not b) ≡ true → ⊥
    known b p h = ground (arith, p, h)

    blank : str_eq s "" ≡ true → ⊥
    blank h = ground (arith, h, there)

observed :
    (candidate : Option String) (canonical : Bool) (now : ℕ) (e : Tracked) (s : String)
    → str_eq s "" ≡ false
    → accepted_by (applied_of (record_canonical_observation candidate canonical now e)) s
      ≡ (str_eq (or_blank e.source_path) s || (canonical && str_eq (or_blank candidate) s))
unfolding accepted_by record_canonical_observation
observed candidate canonical now e s there =
    if_rule After
      (not canonical
        || str_eq (or_blank candidate) ""
        || str_eq (or_blank e.source_path) (or_blank candidate))
      (λ h. forgotten (or_blank candidate) (or_blank e.source_path) h)
      (λ h.
        if_rule After (str_eq (or_blank e.canonical_pending_path) (or_blank candidate))
          (λ _.
            waiting (or_blank candidate) (or_blank e.source_path)
              (min 2 (known_count e.canonical_pending_observations + 1)) h (omega arith))
          (λ _. waiting (or_blank candidate) (or_blank e.source_path) (min 2 1) h (omega arith)))
  where
    After : Tracked → Type 0
    After d =
        accepted_by (applied_of d) s
        ≡ (str_eq (or_blank e.source_path) s || (canonical && str_eq (or_blank candidate) s))

    forgotten :
        (source applied : String)
        → (not canonical || str_eq source "" || str_eq applied source) ≡ true
        → (str_eq applied s || (str_eq "" s && leb 1 0))
          ≡ (str_eq applied s || (canonical && str_eq source s))
    forgotten source applied h = ground (
      arith,
      there,
      h,
      eq_iff source s,
      eq_iff source "",
      eq_iff applied source,
      eq_iff applied s,
      eq_iff s "",
    )

    waiting :
        (source applied : String) (n : ℕ)
        → (not canonical || str_eq source "" || str_eq applied source) ≡ false
        → 1 ≤ n
        → (str_eq applied s || (str_eq source s && leb 1 n))
          ≡ (str_eq applied s || (canonical && str_eq source s))
    waiting source applied n h some_seen = ground (arith, h, some_seen)

-- After a check of the artwork is recorded, whatever was kept before, the decision on a canonical image
-- of TMDb lets it replace the one in place exactly if it is the image that is in place, or the check
-- found the same image, and found it canonical. So a change of the canonical image is followed
-- only when the check just before saw it too. The image's provider is TMDb, in whatever case, or is
-- not given.
pub canonical_decision-observed :
    (lower : String → String) (provider candidate : Option String) (canonical : Bool) (now : ℕ)
    (e : Tracked) (s : String)
    → lower (text_or provider "tmdb") ≡ "tmdb"
    → str_eq s "" ≡ false
    → canonical_upgrade_decision lower
        (applied_of (record_canonical_observation candidate canonical now e))
        (canonical_image provider s)
      ≡ answer (str_eq (or_blank e.source_path) s || (canonical && str_eq (or_blank candidate) s))
canonical_decision-observed lower provider candidate canonical now e s own there =
    decision-accepted_by lower provider
      (applied_of (record_canonical_observation candidate canonical now e)) s own there
    ∙ ap answer (observed candidate canonical now e s there)
