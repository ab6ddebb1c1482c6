-- ===== src/Artwork/Guard/Stable.antt =====
-- The guard does not go back and forth.
use metafusion.Artwork.Guard.{
  quality_guard_decision, compare_quality, Scored, Votes, Status, meets_floor, accepts,
  quality_guard_rejected, upgrade_status,
}
use metafusion.Prelude.{
  ◌*◌, ◌≤◌, ◌≡◌, ℕ, arith, Bool, false, true, ◌+◌, ◌<◌, ◌⊎◌, ◌&&◌, ◌||◌, refl, max, inl, Bool-cases,
  inr, if◌then◌else◌, not,
}

area_le : (w w' h h' : ℕ) → w ≤ w' → h ≤ h' → w * h ≤ w' * h'
area_le w w' h h' p q = grind (arith, p, q)

-- The three ways to be an upgrade: by the score, by the size, and by the rating.
ByScore : Scored → Scored → Type 0
ByScore a b = b.score + 100 ≤ a.score

BySize : Scored → Scored → Type 0
BySize a b = (b.score ≤ a.score) × (max 1 (b.width * b.height) * 11 ≤ a.width * a.height * 10)

ByRating : Scored → Scored → Type 0
ByRating a b =
    (b.score ≤ a.score)
    × ((b.average < a.average) ⊎ ((b.average ≤ a.average) × (b.count < a.count)))
    × (b.width ≤ a.width)
    × (b.height ≤ a.height)

IsUpgrade : Scored → Scored → Type 0
IsUpgrade a b = ByScore a b ⊎ ((BySize a b × (b.average ≤ a.average)) ⊎ ByRating a b)

one_of :
    (c f i n p d g s r : Bool)
    → (c && (f && i || f && n && p && s && g || f && n && r && d && s)) ≡ true
    → (i ≡ true) ⊎ (((n ≡ true) × (p ≡ true) × (g ≡ true)) ⊎ ((n ≡ true) × (r ≡ true) × (d ≡ true)))
one_of c f true n p d g s r h = inl refl
one_of c f false n p d g s r h = ground (arith, h)

accepted :
    (x : Bool) (s : Status)
    → (let d : Bool × Status = if not x then (false, quality_guard_rejected) else (true, s) in d.0)
      ≡ true
    → x ≡ true
accepted true s h = refl
accepted false s h = ground (arith, h)

accepts-IsUpgrade :
    (a b : Scored) (v : Votes) (season : Bool)
    → (quality_guard_decision (compare_quality a b) v false season).0 ≡ true
    → IsUpgrade a b
unfolding quality_guard_decision compare_quality IsUpgrade ByScore BySize ByRating
accepts-IsUpgrade a b v season h =
    let c = compare_quality a b in
    elim (one_of c.candidate_valid (meets_floor v) c.quality_improved c.quality_not_worse
      c.provider_not_worse c.dimensions_no_worse c.material_dimension_gain c.aspect_not_worse
      c.provider_improved (accepted (accepts c v) (upgrade_status c v season) h)) [
        | inl i ↦ inl (ground (arith, i))
        | inr (inl (n, p, g)) ↦
            inr (inl ((ground (arith, n), ground (arith, g)), ground (arith, p)))
        | inr (inr (n, r, d)) ↦
            inr (inr (ground (arith, n), ground (arith, r), ground (arith, d), ground (arith, d)))
      ]

clash : (a b : Scored) → IsUpgrade a b → IsUpgrade b a → ⊥
unfolding IsUpgrade ByScore BySize ByRating
clash a b (inl p) (inl q) = omega (arith, p, q)
clash a b (inl p) (inr (inl (q, r))) = omega (arith, p, q)
clash a b (inl p) (inr (inr q)) = omega (arith, p, q.0)
clash a b (inr (inl (p, r))) (inl q) = omega (arith, p, q)
clash a b (inr (inl (p, r))) (inr (inl (q, s))) = omega (arith, p.1, q.1)
clash a b (inr (inl (p, r))) (inr (inr (q, s, w, h))) =
    omega (arith, p.1, area_le a.width b.width a.height b.height w h)
clash a b (inr (inr p)) (inl q) = omega (arith, p.0, q)
clash a b (inr (inr (q, s, w, h))) (inr (inl (p, r))) =
    omega (arith, p.1, area_le b.width a.width b.height a.height w h)
clash a b (inr (inr (p, s, w, h))) (inr (inr (q, t, x, y))) = grind (arith, s, t)

-- Of two images that are compared for artwork that is not stale, whatever the votes on either side,
-- the guard does not accept each in place of the other.
pub guard_no_flip_flop :
    (a b : Scored) (v v' : Votes) (season : Bool)
    → (quality_guard_decision (compare_quality a b) v false season).0 ≡ true
    → (quality_guard_decision (compare_quality b a) v' false season).0 ≡ false
guard_no_flip_flop a b v v' season h =
    elim (Bool-cases (quality_guard_decision (compare_quality b a) v' false season).0) [
      | inl k ↦
          absurd (clash a b (accepts-IsUpgrade a b v season h) (accepts-IsUpgrade b a v' season k))
      | inr k ↦ k
    ]
