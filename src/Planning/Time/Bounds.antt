-- ===== src/Planning/Time/Bounds.antt =====
-- The bounds of the intervals between checks.
use metafusion.Planning.Time.{adapted, day, ArtworkState, missing_schedule}
use metafusion.Prelude.{
  if◌then◌else◌, ◌*◌, ◌^◌, ◌≤◌, ◌<◌, ◌≡◌, ℕ, min, arith, max, pos_part, suc, ltb, zero,
}

pow_bounds : (n : ℕ) → (1 ≤ 2 ^ min 3 n) × (2 ^ min 3 n ≤ 8)
pow_bounds zero = omega arith
pow_bounds (suc zero) = omega arith
pow_bounds (suc (suc zero)) = omega arith
pow_bounds (suc (suc (suc n))) =
    let three : min 3 (suc (suc (suc n))) ≡ 3 = omega arith in rw three (omega arith)

schedule_bounds : (n : ℕ) → (day ≤ missing_schedule n) × (missing_schedule n ≤ 60 * day)
schedule_bounds n = ground arith

scale_bounds : (b k : ℕ) → 1 ≤ k → k ≤ 8 → (b ≤ b * k) × (b * k ≤ b * 8)
scale_bounds b k l u = (grind arith, grind arith)

-- With `b` the configured interval, not 0, and `d` the adapted one: `d` is not 0 and at most eight
-- times `b`, and at most `b` or 180 days if that is more. Where artwork was missing at the last
-- check, `d` is at most `b` and at most 60 days, and `b` or at least a day; elsewhere it is at least `b`.
pub adapted_bounds :
    (a : ArtworkState) (b : ℕ)
    → 0 < b
    → (1 ≤ adapted a b)
      × (adapted a b ≤ b * 8)
      × (adapted a b ≤ max b (180 * day))
      × (0 < pos_part a.missing_checks
          → (adapted a b ≤ b) × (adapted a b ≤ 60 * day) × (min b day ≤ adapted a b))
      × (pos_part a.missing_checks ≡ 0 → b ≤ adapted a b)
unfolding adapted
adapted_bounds a b h =
    let (pl, pu) = pow_bounds (pos_part a.unchanged_checks) in
    let (sl, su) = schedule_bounds (pos_part a.missing_checks) in
    let (ml, mu) = scale_bounds b (2 ^ min 3 (pos_part a.unchanged_checks)) pl pu in
    bounds (pos_part a.missing_checks) (missing_schedule (pos_part a.missing_checks))
      (b * 2 ^ min 3 (pos_part a.unchanged_checks)) sl su ml mu
  where
    bounds :
        (m s k : ℕ)
        → day ≤ s
        → s ≤ 60 * day
        → b ≤ k
        → k ≤ b * 8
        → let d = if ltb 0 m then min b s else min (max b (180 * day)) k in
          (1 ≤ d)
          × (d ≤ b * 8)
          × (d ≤ max b (180 * day))
          × (0 < m → (d ≤ b) × (d ≤ 60 * day) × (min b day ≤ d))
          × (m ≡ 0 → b ≤ d)
    bounds m s k sl su ml mu = ground arith
