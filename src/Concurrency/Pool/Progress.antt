-- ===== src/Concurrency/Pool/Progress.antt =====
-- `bounded_map` ends.
use native.Mathlib.Decide.{dec_lt}
use metafusion.Concurrency.Pool.{
  Pool, take_next, complete, turn, ended, Turn, turns, fresh_pool, Returned, takes, completes,
}
use metafusion.Concurrency.Pool.Lists.{list_cases, elem_in, has_of_elem}
use metafusion.Concurrency.Pool.Sound.{IsSound, turns-IsSound, fresh-IsSound}
use metafusion.Prelude.{
  ◌+◌, ◌-◌, ◌*◌, ◌<◌, ◌≡◌, ◌⊎◌, ◌∷◌, refl, [], Option, List, ℕ, length, false, ltb, true, lt→ltb,
  inr, arith, some, inl, none, get_elem?,
}

module _ {ℓ κ} {A : Type ℓ} {B : Type κ} (operation : A → Option B) (values : List A) where
  -- What is left to do: two turns for an input that nobody has taken, one for a busy worker.
  abbrev pub work_left : Pool B → ℕ
  work_left p = 2 * (length values - p.cursor) + length p.busy

  take_less :
      (w : ℕ) (p : Pool B)
      → 0 < w
      → p.raised ≡ false
      → p.busy ≡ []
      → p.cursor < length values
      → work_left (take_next operation values w p) < work_left p
  unfolding take_next
  take_less w p h un idle lt =
      let free : ltb (length p.busy) w ≡ true = rw idle (lt→ltb 0 w h) in
      rw (free, lt→ltb p.cursor (length values) lt) (omega arith)

  ended_less :
      (p : Pool B) (i : ℕ) (rest : List ℕ) (o : Option B)
      → p.busy ≡ i ∷ rest
      → (work_left (ended 0 i o p) < work_left p) ⊎ ((ended 0 i o p).raised ≡ true)
  ended_less p i rest none e = inr refl
  ended_less p i rest (some b) e = inl (simp e (omega arith))

  complete_less :
      (w : ℕ) (p : Pool B) (i : ℕ) (rest : List ℕ)
      → IsSound operation values w p
      → p.raised ≡ false
      → p.busy ≡ i ∷ rest
      → (work_left (complete operation values 0 p) < work_left p)
        ⊎ ((complete operation values 0 p).raised ≡ true)
  unfolding complete
  complete_less w p i rest s un e =
      let at : get_elem? p.busy 0 ≡ some i = rw e refl in
      let (v, value) =
        elem_in values i (omega (arith, s.busy_passed i (has_of_elem 0 p.busy i at), s.in_range)) in
      simp (at, value) (ended_less p i rest (operation v) e)

  progress :
      (w : ℕ) (p : Pool B)
      → IsSound operation values w p
      → 0 < w
      → p.raised ≡ false
      → (Returned operation values p)
        ⊎ ((t : Turn operation values) × ((work_left (turn operation values w t p) < work_left p)
              ⊎ ((turn operation values w t p).raised ≡ true)))
  unfolding turn
  progress w p s h un = elim (list_cases p.busy) [
    | inl idle ↦ elim (dec_lt p.cursor (length values)) [
      | yes lt ↦ inr (takes, inl (take_less w p h un idle lt))
      | no ge ↦ inl (record { exhausted = omega (arith, s.in_range); idle = idle; unraised = un })
    ]
    | inr (i, rest, e) ↦ inr (completes 0, complete_less w p i rest s un e)
  ]

  -- A pool that has neither returned nor raised has a turn to make, which raises or leaves less to
  -- do; so `bounded_map` ends, however the loop chooses among such turns.
  pub bounded_map_progress :
      (w : ℕ) (ts : List (Turn operation values))
      → 0 < w
      → let p = turns operation values w ts (fresh_pool operation values) in
        p.raised ≡ false
        → (Returned operation values p)
          ⊎ ((t : Turn operation values) × ((work_left (turn operation values w t p) < work_left p)
                ⊎ ((turn operation values w t p).raised ≡ true)))
  bounded_map_progress w ts h un =
      progress w (turns operation values w ts (fresh_pool operation values))
        (turns-IsSound operation values w ts (fresh_pool operation values)
          (fresh-IsSound operation values w))
        h un
