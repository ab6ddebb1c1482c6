-- ===== src/Concurrency/Lane/Account.antt =====
-- How an `AdaptiveLane` accounts for the moves of its limit, and how it gives way.
use native.Mathlib.Nat.{pow-suc}
use metafusion.Concurrency.Lane.{
  AdaptiveLane, release_failed, release_healthy, release, reduce_for_pressure, Adjustment,
  LaneLease, free_slot, Reason, rate_limit,
}
use metafusion.Concurrency.Lane.Circuit.{Departure, depart_all, depart}
use metafusion.Concurrency.Lane.Invariant.{IsValid, release-IsValid, free_slot-IsValid}
use metafusion.Prelude.{
  if◌then◌else◌, ◌+◌, ◌/◌, ◌^◌, ◌≤◌, ◌≡◌, ◌∷◌, [], List, ℕ, ltb, Bool, true, arith, if_rule, some,
  length, max, ◌*◌, suc, zero, ◌==◌, ◌&&◌,
}

abbrev pub rises : List Adjustment → ℕ
rises [] = 0
rises (e ∷ es) = (if ltb e.previous e.current then 1 else 0) + rises es

abbrev pub falls : List Adjustment → ℕ
falls [] = 0
falls (e ∷ es) = (if ltb e.current e.previous then 1 else 0) + falls es

-- Whether the adjustments lead from the one limit to the other, each from where the last one ended.
abbrev pub leads : ℕ → List Adjustment → ℕ → Bool
leads from [] to = from == to
leads from (e ∷ es) to = (e.previous == from) && leads e.current es to

-- The reported adjustments are the moves of the limit, in order and with none left out; they are the
-- counted ones, and bound the move: a rise is by one, a fall by one or more.
pub record Accounts (l : AdaptiveLane) (r : AdaptiveLane × List Adjustment) : Type 0 where
  pub reported : leads l.limit r.1 r.0.limit ≡ true
  pub rises_counted : r.0.increases ≡ l.increases + rises r.1
  pub falls_counted : r.0.decreases ≡ l.decreases + falls r.1
  pub limit_bounded : r.0.limit + falls r.1 ≤ l.limit + rises r.1

release_failed-Accounts :
    (now : ℕ) (lease : LaneLease) (l : AdaptiveLane)
    → IsValid l
    → Accounts l (release_failed now lease l)
unfolding release_failed
release_failed-Accounts now lease l v = ground arith

release_healthy-Accounts :
    (lease : LaneLease) (d : ℕ) (allow : Bool) (l : AdaptiveLane)
    → IsValid l
    → Accounts l (release_healthy lease d allow l)
unfolding release_healthy
release_healthy-Accounts lease d allow l v = ground arith

Accounts-free_slot :
    (d : ℕ) (l : AdaptiveLane) (r : AdaptiveLane × List Adjustment)
    → Accounts (free_slot d l) r
    → Accounts l r
unfolding free_slot
Accounts-free_slot d l r a = record {
  reported = a.reported;
  rises_counted = a.rises_counted;
  falls_counted = a.falls_counted;
  limit_bounded = a.limit_bounded;
}

-- A release of a valid lane reports each change of its limit: the reported adjustments lead from the
-- limit before to the limit after. It counts the rises and the falls that it reports, a rise is by
-- one, and a fall by one or more.
pub release-Accounts :
    (now : ℕ) (lease : LaneLease) (d : ℕ) (allow : Bool) (l : AdaptiveLane)
    → IsValid l
    → Accounts l (release now lease d allow l)
unfolding release
release-Accounts now lease d allow l v =
    if_rule (λ (r : AdaptiveLane × List Adjustment). Accounts l r) lease.failed
      (λ _.
        Accounts-free_slot d l _
          (release_failed-Accounts now lease (free_slot d l) (free_slot-IsValid d l v)))
      (λ _.
        Accounts-free_slot d l _
          (release_healthy-Accounts lease d allow (free_slot d l) (free_slot-IsValid d l v)))

pub reduce_for_pressure-Accounts :
    (r : Reason) (l : AdaptiveLane) → IsValid l → Accounts l (reduce_for_pressure r l)
unfolding reduce_for_pressure
reduce_for_pressure-Accounts r l v = ground arith

abbrev pub AllRateLimited : List Departure → Type 0
AllRateLimited [] = Unit
AllRateLimited (d ∷ ds) =
    (d.lease.failed ≡ true) × (d.lease.reason ≡ some rate_limit) × AllRateLimited ds

rate_limit_halves :
    (d : Departure) (l : AdaptiveLane)
    → l.floor ≡ 1
    → d.lease.failed ≡ true
    → d.lease.reason ≡ some rate_limit
    → ((depart d l).limit ≡ max 1 ((l.limit + 1) / 2)) × ((depart d l).floor ≡ 1)
unfolding release release_failed free_slot
rate_limit_halves d l fl f r = ground arith

halved_bound : (n p : ℕ) → n ≤ p * 2 → 1 ≤ p → max 1 ((n + 1) / 2) ≤ p
halved_bound n p h q = omega arith

pow_pos : (k : ℕ) → 1 ≤ 2 ^ k
pow_pos zero = omega arith
pow_pos (suc k) = rw pow-suc (omega (arith, pow_pos k))

-- `k` rate limits in a row bring any limit up to 2 ^ k down to the floor of one slot.
pub rate_limits-reach-floor :
    (ds : List Departure) (l : AdaptiveLane)
    → IsValid l
    → AllRateLimited ds
    → l.limit ≤ 2 ^ length ds
    → (depart_all ds l).limit ≡ 1
rate_limits-reach-floor [] l v rs h = omega (arith, v)
rate_limits-reach-floor (d ∷ ds) l v rs h =
    let (e, _) = rate_limit_halves d l v.floor_one rs.0 rs.1 in
    rate_limits-reach-floor ds (depart d l) (release-IsValid d.at d.lease d.duration d.allow l v)
      rs.2 (rw e (halved_bound l.limit (2 ^ length ds) (rw pow-suc at h) (pow_pos (length ds))))
