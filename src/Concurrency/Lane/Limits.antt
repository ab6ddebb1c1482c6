-- ===== src/Concurrency/Lane/Limits.antt =====
-- How the limit of an `AdaptiveLane` moves, and how the lane accounts for its moves.
use metafusion.Concurrency.Lane.{Kind, AdaptiveLane, release, release_healthy, free_slot, is_slow}
use metafusion.Concurrency.Lane.Circuit.{Departure, depart, depart_all}
use metafusion.Concurrency.Lane.Invariant.{IsValid, release-IsValid}
use metafusion.Prelude.{
  ◌+◌, ◌-◌, ◌*◌, ◌<◌, ◌≡◌, ◌⊎◌, ◌∷◌, List, ℕ, false, true, arith, [], ◌≤◌, suc, length, inl, inr,
}

-- A release that was neither failed nor slow, under no pressure.
pub record IsHealthy (kind : Kind) (d : Departure) : Type 0 where
  pub succeeded : d.lease.failed ≡ false
  pub fast : is_slow kind d.duration ≡ false
  pub unpressed : d.allow ≡ true

abbrev pub AllHealthy : Kind → List Departure → Type 0
AllHealthy kind [] = Unit
AllHealthy kind (d ∷ ds) = IsHealthy kind d × AllHealthy kind ds

-- How many more healthy releases the lane needs to reach its ceiling.
abbrev pub to_ceiling : AdaptiveLane → ℕ
to_ceiling l = (l.ceiling - l.limit) * l.healthy_window - l.healthy_count

-- A healthy release below the ceiling: the count moves, or the limit and the count start anew.
record GrewOrCounted (l l' : AdaptiveLane) : Type 0 where
  kind : l'.kind ≡ l.kind
  ceiling : l'.ceiling ≡ l.ceiling
  window : l'.healthy_window ≡ l.healthy_window
  moved :
      ((l'.limit ≡ l.limit) × (l'.healthy_count ≡ l.healthy_count + 1))
      ⊎ ((l'.limit ≡ l.limit + 1)
          × (l'.healthy_count ≡ 0)
          × (l.healthy_window ≡ l.healthy_count + 1))

healthy-grows :
    (d : Departure) (l : AdaptiveLane)
    → IsHealthy l.kind d
    → IsValid l
    → l.limit < l.ceiling
    → GrewOrCounted l (depart d l)
unfolding release release_healthy free_slot
healthy-grows d l h v lt = ground arith

one_round : (g w : ℕ) → suc g * w ≡ g * w + w
one_round g w = grind arith

gap_pos : (c k : ℕ) → k < c → c - k ≡ suc (c - (k + 1))
gap_pos c k lt = omega arith

measure_grows : (c k w h : ℕ) → w ≡ h + 1 → k < c → (c - (k + 1)) * w - 0 + 1 ≡ (c - k) * w - h
measure_grows c k w h e lt = rw (gap_pos c k lt) (omega (arith, one_round (c - (k + 1)) w))

measure_counts : (c k w h : ℕ) → h < w → k < c → (c - k) * w - (h + 1) + 1 ≡ (c - k) * w - h
measure_counts c k w h e lt = rw (gap_pos c k lt) (omega (arith, one_round (c - (k + 1)) w))

to_ceiling-falls :
    (l l' : AdaptiveLane)
    → IsValid l
    → l.limit < l.ceiling
    → GrewOrCounted l l'
    → to_ceiling l' + 1 ≡ to_ceiling l
to_ceiling-falls l l' v lt g = elim g.moved [
  | inl (same, counted) ↦
      rw (same, counted, g.ceiling, g.window)
        (measure_counts l.ceiling l.limit l.healthy_window l.healthy_count v.count_below_window lt)
  | inr (grew, anew, full) ↦
      rw (grew, anew, g.ceiling, g.window)
        (measure_grows l.ceiling l.limit l.healthy_window l.healthy_count full lt)
]

at_ceiling_stays :
    (d : Departure) (l : AdaptiveLane)
    → IsHealthy l.kind d
    → l.limit ≡ l.ceiling
    → ((depart d l).limit ≡ (depart d l).ceiling) × ((depart d l).kind ≡ l.kind)
unfolding release release_healthy free_slot
at_ceiling_stays d l h e = ground arith

all_at_ceiling_stay :
    (ds : List Departure) (l : AdaptiveLane)
    → AllHealthy l.kind ds
    → l.limit ≡ l.ceiling
    → (depart_all ds l).limit ≡ (depart_all ds l).ceiling
all_at_ceiling_stay [] l hs e = e
all_at_ceiling_stay (d ∷ ds) l hs e =
    let (e', k) = at_ceiling_stays d l hs.0 e in all_at_ceiling_stay ds (depart d l) (rw k hs.1) e'

below_or_at : (l : AdaptiveLane) → IsValid l → (l.limit < l.ceiling) ⊎ (l.limit ≡ l.ceiling)
below_or_at l v = grind arith

to_ceiling-pos : (l : AdaptiveLane) → IsValid l → l.limit < l.ceiling → 0 < to_ceiling l
to_ceiling-pos l v lt =
    let e = gap_pos l.ceiling l.limit lt in
    rw e (omega (arith, v, one_round (l.ceiling - (l.limit + 1)) l.healthy_window))

-- The limit reaches the ceiling, and stays there, after as many healthy releases in a row as
-- `to_ceiling` says: a window's length for each step of the limit, less what is counted.
pub healthy-reaches-ceiling :
    (ds : List Departure) (l : AdaptiveLane)
    → IsValid l
    → AllHealthy l.kind ds
    → to_ceiling l ≤ length ds
    → (depart_all ds l).limit ≡ (depart_all ds l).ceiling
healthy-reaches-ceiling [] l v hs h = elim (below_or_at l v) [
  | inl lt ↦ absurd (omega (arith, to_ceiling-pos l v lt))
  | inr e ↦ e
]
healthy-reaches-ceiling (d ∷ ds) l v hs h = elim (below_or_at l v) [
  | inl lt ↦
      let g = healthy-grows d l hs.0 v lt in
      healthy-reaches-ceiling ds (depart d l) (release-IsValid d.at d.lease d.duration d.allow l v)
        (rw (GrewOrCounted.kind g) hs.1) (omega (arith, to_ceiling-falls l (depart d l) v lt g))
  | inr e ↦ all_at_ceiling_stay (d ∷ ds) l hs e
]
