-- ===== src/Concurrency/Lane/Circuit.antt =====
-- The circuit breaker of `AdaptiveLane`: what opens it, what it refuses, and what closes it.
use metafusion.Concurrency.Lane.{
  AdaptiveLane, acquire, release, LaneLease, rejected, wake, release_failed, free_slot, cooldown_of,
  Reason, reduce_for_pressure, release_healthy,
}
use metafusion.Prelude.{
  ◌+◌, ◌-◌, ◌≤◌, ◌<◌, ◌≡◌, ◌⊎◌, ◌∷◌, ℕ, List, true, length, Bool, arith, inr, [], refl, ◌||◌, not,
}

-- One call of `release`.
pub record Departure : Type 0 where
  pub at : ℕ
  pub lease : LaneLease
  pub duration : ℕ
  pub allow : Bool

abbrev pub depart : Departure → AdaptiveLane → AdaptiveLane
depart d l = (release d.at d.lease d.duration d.allow l).0

abbrev pub depart_all : List Departure → AdaptiveLane → AdaptiveLane
depart_all [] l = l
depart_all (d ∷ ds) l = depart_all ds (depart d l)

abbrev pub AllFailed : List Departure → Type 0
AllFailed [] = Unit
AllFailed (d ∷ ds) = (d.lease.failed ≡ true) × AllFailed ds

-- Before the time `until` neither a new caller nor a waiter gets a slot.
pub record IsBlocked (l : AdaptiveLane) (until : ℕ) : Type 0 where
  pub newcomer :
      (now : ℕ)
      → now < until
      → (wait : ℕ) × ((acquire now l).1 ≡ rejected wait) × (until ≤ now + wait)
  pub waiter :
      (now : ℕ) (half_open : Bool)
      → now < until
      → (wait : ℕ) × ((wake now half_open l).1 ≡ rejected wait) × (until ≤ now + wait)

open-IsBlocked : (l : AdaptiveLane) (until : ℕ) → until ≤ l.open_until → IsBlocked l until
unfolding acquire wake
open-IsBlocked l until h = record {
  newcomer = λ now lt. (l.open_until - now, ground arith, omega arith);
  waiter = λ now half_open lt. (l.open_until - now, ground arith, omega arith);
}

opens_until :
    (d : Departure) (l : AdaptiveLane)
    → d.lease.failed ≡ true
    → (d.lease.half_open ≡ true)
      ⊎ (d.lease.immediate_open ≡ true)
      ⊎ (l.failure_threshold ≤ l.consecutive_failures + 1)
    → d.at + cooldown_of d.lease l ≤ (depart d l).open_until
unfolding release release_failed free_slot
opens_until d l f why = ground arith

-- A failed release of the half-open probe, one that asks for an open circuit, or one that reaches
-- the threshold of failures in a row: no caller gets a slot until its cooldown is over, and each
-- refusal tells its caller to wait until then or longer.
pub failure-IsBlocked :
    (d : Departure) (l : AdaptiveLane)
    → d.lease.failed ≡ true
    → (d.lease.half_open ≡ true)
      ⊎ (d.lease.immediate_open ≡ true)
      ⊎ (l.failure_threshold ≤ l.consecutive_failures + 1)
    → IsBlocked (depart d l) (d.at + cooldown_of d.lease l)
failure-IsBlocked d l f why = open-IsBlocked (depart d l) _ (opens_until d l f why)

failed_counts :
    (d : Departure) (l : AdaptiveLane)
    → d.lease.failed ≡ true
    → ((depart d l).consecutive_failures ≡ l.consecutive_failures + 1)
      × ((depart d l).failure_threshold ≡ l.failure_threshold)
      × ((depart d l).circuit_cooldown ≡ l.circuit_cooldown)
unfolding release release_failed free_slot
failed_counts d l f = ground arith

AllFailed-counts :
    (ds : List Departure) (l : AdaptiveLane)
    → AllFailed ds
    → ((depart_all ds l).consecutive_failures ≡ l.consecutive_failures + length ds)
      × ((depart_all ds l).failure_threshold ≡ l.failure_threshold)
      × ((depart_all ds l).circuit_cooldown ≡ l.circuit_cooldown)
AllFailed-counts [] l f = (omega arith, refl, refl)
AllFailed-counts (d ∷ ds) l f =
    let (a, b, c) = failed_counts d l f.0 in
    let (a', b', c') = AllFailed-counts ds (depart d l) f.1 in
    (omega arith, omega arith, omega arith)

-- A later call of a method of the lane. (A caller that stops to wait calls none.)
pub data LaneCall : Type 0 where
  acquires : ℕ → LaneCall
  wakes : ℕ → Bool → LaneCall
  releases : Departure → LaneCall
  reduces : Reason → LaneCall

unfoldable pub after_call : LaneCall → AdaptiveLane → AdaptiveLane
after_call (acquires now) l = (acquire now l).0
after_call (wakes now half_open) l = (wake now half_open l).0
after_call (releases d) l = depart d l
after_call (reduces reason) l = (reduce_for_pressure reason l).0

unfoldable pub after_calls : List LaneCall → AdaptiveLane → AdaptiveLane
after_calls [] l = l
after_calls (call ∷ calls) l = after_calls calls (after_call call l)

-- None of the calls releases a half-open probe that succeeded.
abbrev pub NoProbeSucceeds : List LaneCall → Type 0
NoProbeSucceeds [] = Unit
NoProbeSucceeds (releases d ∷ calls) =
    ((d.lease.failed || not d.lease.half_open) ≡ true) × NoProbeSucceeds calls
NoProbeSucceeds (call ∷ calls) = NoProbeSucceeds calls

depart-open_until :
    (d : Departure) (l : AdaptiveLane)
    → (d.lease.failed || not d.lease.half_open) ≡ true
    → l.open_until ≤ (depart d l).open_until
unfolding release release_failed release_healthy free_slot
depart-open_until d l fails = ground (arith, fails)

acquire-open_until : (now : ℕ) (l : AdaptiveLane) → (acquire now l).0.open_until ≡ l.open_until
unfolding acquire
acquire-open_until now l = ground arith

wake-open_until :
    (now : ℕ) (half_open : Bool) (l : AdaptiveLane)
    → (wake now half_open l).0.open_until ≡ l.open_until
unfolding wake
wake-open_until now half_open l = ground arith

reduce-open_until :
    (reason : Reason) (l : AdaptiveLane)
    → (reduce_for_pressure reason l).0.open_until ≡ l.open_until
unfolding reduce_for_pressure
reduce-open_until reason l = ground arith

after_calls-open_until :
    (calls : List LaneCall) (l : AdaptiveLane) (until : ℕ)
    → NoProbeSucceeds calls
    → until ≤ l.open_until
    → until ≤ (after_calls calls l).open_until
unfolding after_calls after_call
after_calls-open_until [] l until none_closes h = h
after_calls-open_until (acquires now ∷ calls) l until none_closes h =
    after_calls-open_until calls (acquire now l).0 until none_closes
      (omega (arith, h, acquire-open_until now l))
after_calls-open_until (wakes now half_open ∷ calls) l until none_closes h =
    after_calls-open_until calls (wake now half_open l).0 until none_closes
      (omega (arith, h, wake-open_until now half_open l))
after_calls-open_until (releases d ∷ calls) l until (fails, rest) h =
    after_calls-open_until calls (depart d l) until rest
      (omega (arith, h, depart-open_until d l fails))
after_calls-open_until (reduces reason ∷ calls) l until none_closes h =
    after_calls-open_until calls (reduce_for_pressure reason l).0 until none_closes
      (omega (arith, h, reduce-open_until reason l))

-- Let as many releases in a row fail as the threshold, whatever the lane counted before, and let any
-- calls of its methods follow, among them no release of a half-open probe that succeeded. Then
-- no caller gets a slot until the cooldown of the last failed release is over: each new caller and
-- each waiter is refused, and told to wait until then or longer.
pub threshold-IsBlocked :
    (ds : List Departure) (last : Departure) (calls : List LaneCall) (l : AdaptiveLane)
    → AllFailed ds
    → last.lease.failed ≡ true
    → l.failure_threshold ≤ length ds + 1
    → NoProbeSucceeds calls
    → IsBlocked
        (after_calls calls (depart last (depart_all ds l)))
        (last.at + cooldown_of last.lease l)
threshold-IsBlocked ds last calls l fs f h none_closes =
    let (a, b, c) = AllFailed-counts ds l fs in
    let same : cooldown_of last.lease (depart_all ds l) ≡ cooldown_of last.lease l = rw c in
    open-IsBlocked (after_calls calls (depart last (depart_all ds l))) _ (
      after_calls-open_until calls (depart last (depart_all ds l)) _ none_closes
        (rw (← same) (opens_until last (depart_all ds l) f (inr (omega arith)))))
