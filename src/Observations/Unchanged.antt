-- ===== src/Observations/Unchanged.antt =====
-- How often a candidate stayed the same.
use mathlib.Core.Option.{some-injective}
use metafusion.Observations.{Tracked, record_artwork_observation, or_blank, unchanged_after}
use metafusion.Prelude.{
  if◌then◌else◌, ◌+◌, ◌≡◌, ◌∙◌, refl, false, none, some, zero, suc, ℕ, Option, String, opt_eq, min,
  arith, ap, Bool, eq_iff,
}

-- Checks in a row that find the same candidate, and miss nothing.
unfoldable pub check_again : ℕ → Option String → Tracked → Tracked
check_again zero candidate e = e
check_again (suc n) candidate e = check_again n candidate (record_artwork_observation candidate 0 e)

steady :
    (n k : ℕ) (candidate : Option String) (e : Tracked)
    → e.candidate_fingerprint ≡ some (or_blank candidate)
    → e.unchanged_checks ≡ min 20 k
    → (check_again n candidate e).unchanged_checks ≡ min 20 (k + n)
unfolding check_again
steady zero k candidate e mark count = omega (arith, count)
steady (suc n) k candidate e mark count =
    steady n (k + 1) candidate (record_artwork_observation candidate 0 e) marked counted
    ∙ ap (min 20) (omega arith)
  where
    marked :
        (record_artwork_observation candidate 0 e).candidate_fingerprint ≡ some (or_blank candidate)
    marked = unfold record_artwork_observation in refl

    one_more :
        (o : Option String)
        → o ≡ some (or_blank candidate)
        → min 20 (unchanged_after o (or_blank candidate) e.unchanged_checks) ≡ min 20 (k + 1)
    one_more none h = ground (arith, h)
    one_more (some s) h =
        ap (λ (b : Bool). min 20 (if b then e.unchanged_checks + 1 else 0))
          ((eq_iff s (or_blank candidate)).1 (some-injective _ _ h))
        ∙ omega (arith, count)

    counted : (record_artwork_observation candidate 0 e).unchanged_checks ≡ min 20 (k + 1)
    counted = unfold record_artwork_observation in one_more e.candidate_fingerprint mark

-- Where a check finds another candidate than the one before, and the next n checks find it again, none
-- of them with a missing image, n is kept as the number of unchanged checks, but never more than 20.
pub unchanged-check_again :
    (n : ℕ) (candidate : Option String) (e : Tracked)
    → opt_eq e.candidate_fingerprint (some (or_blank candidate)) ≡ false
    → (check_again (suc n) candidate e).unchanged_checks ≡ min 20 n
unfolding check_again
unchanged-check_again n candidate e changed =
    steady n 0 candidate (record_artwork_observation candidate 0 e)
      (unfold record_artwork_observation in refl)
      (unfold record_artwork_observation in fresh e.candidate_fingerprint changed)
    ∙ ap (min 20) (omega arith)
  where
    fresh :
        (o : Option String)
        → opt_eq o (some (or_blank candidate)) ≡ false
        → min 20 (unchanged_after o (or_blank candidate) e.unchanged_checks) ≡ min 20 0
    fresh none h = refl
    fresh (some s) h = ap (λ (b : Bool). min 20 (if b then e.unchanged_checks + 1 else 0)) h
