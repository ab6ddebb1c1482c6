-- ===== src/Concurrency/Pool/Sound.antt =====
-- What holds of `bounded_map`'s workers and results between two turns.
use metafusion.Concurrency.Pool.{
  take_next, complete, turn, turns, fresh_pool, Pool, Turn, completes, end_of, ended, outcome,
  takes,
}
use metafusion.Concurrency.Pool.Lists.{
  has, fits, has_of_elem, not_has, get_elem?-set, length-set, length-remove_at_le, eq_of_test,
  has_of_removed, or_false, still_has, eq_comm, elem-map,
}
use metafusion.Concurrency.Room.{remove_at}
use metafusion.Prelude.{
  ◌+◌, ◌≤◌, ◌<◌, ◌≡◌, ◌∙◌, ◌&&◌, ◌∷◌, refl, [], Option, List, ℕ, length-replicate, length, if_rule,
  get_elem?, true, some, none, false, Bool-cases, ltb, arith, map, set, inl, tests, inr, ap,
}

module _ {ℓ κ} {A : Type ℓ} {B : Type κ} (operation : A → Option B) (values : List A) where
  -- Between two turns: the workers are enough for the busy ones, and every index that the iterator
  -- has passed is being worked on or has its result.
  pub record IsSound (workers : ℕ) (p : Pool B) : Type κ where
    pub same_length : length p.results ≡ length values
    pub in_range : p.cursor ≤ length values
    pub few_busy : length p.busy ≤ workers
    pub busy_passed : (i : ℕ) → has i p.busy ≡ true → i < p.cursor
    pub filled :
        (i : ℕ)
        → i < p.cursor
        → has i p.busy ≡ false
        → (b : B) × (get_elem? p.results i ≡ some (some b))
          × (get_elem? (map operation values) i ≡ some (some b))

  pub passed_or_next :
      (i : ℕ) (p : Pool B)
      → has i (p.cursor ∷ p.busy) ≡ true
      → ((i : ℕ) → has i p.busy ≡ true → i < p.cursor)
      → i < p.cursor + 1
  passed_or_next i p h f = elim (Bool-cases (has i p.busy)) [
    | inl e ↦ omega (arith, f i e)
    | inr e ↦ omega (arith, eq_of_test i p.cursor (or_false _ _ h e))
  ]

  pub take_next-IsSound :
      (w : ℕ) (p : Pool B) → IsSound w p → IsSound w (take_next operation values w p)
  unfolding take_next
  take_next-IsSound w p s =
      if_rule (IsSound w) (ltb (length p.busy) w && ltb p.cursor (length values))
        (λ e.
          let (free, more) = fits (ltb (length p.busy) w) _ e in
          record {
            same_length = s.same_length;
            in_range = omega (tests, more);
            few_busy = omega (tests, free);
            busy_passed = λ i h. passed_or_next i p h s.busy_passed;
            filled = λ i lt h.
                let (other, old) = not_has i p.cursor p.busy h in s.filled i (omega arith) old;
          })
        (λ _. s)

  pub store_result :
      (w i j : ℕ) (v : A) (b : B) (p : Pool B)
      → IsSound w p
      → get_elem? p.busy j ≡ some i
      → get_elem? values i ≡ some v
      → operation v ≡ some b
      → IsSound w (record p { busy = remove_at j p.busy; results = set p.results i (some b) })
  store_result w i j v b p s at value ok =
      let passed = s.busy_passed i (has_of_elem j p.busy i at) in
      let stored = λ (k : ℕ).
        get_elem?-set p.results i k (some b) (omega (arith, s.same_length, s.in_range)) in
      record {
        same_length = length-set p.results i (some b) ∙ s.same_length;
        in_range = s.in_range;
        few_busy = omega (arith, s.few_busy, length-remove_at_le j p.busy);
        busy_passed = λ k h. s.busy_passed k (has_of_removed k j p.busy h);
        filled = λ k lt h. elim (still_has k j p.busy i at h) [
          | inl same ↦ (
            b,
            rw (stored k, eq_comm i k, same),
            rw (eq_of_test k i same) (elem-map operation values i value ∙ ap some ok),
          )
          | inr (other, old) ↦
              let (b', kept, is) = s.filled k lt old in
              (b', rw (stored k, eq_comm i k, other) kept, is)
        ];
      }

  pub record_ends :
      (w j i : ℕ) (v : A) (o : Option B) (p : Pool B)
      → get_elem? p.busy j ≡ some i
      → get_elem? values i ≡ some v
      → operation v ≡ o
      → IsSound w p
      → IsSound w (ended j i o p)
  record_ends w j i v none p at value ok s = record {
    same_length = s.same_length;
    in_range = s.in_range;
    few_busy = s.few_busy;
    busy_passed = s.busy_passed;
    filled = s.filled;
  }
  record_ends w j i v (some b) p at value ok s = store_result w i j v b p s at value ok

  pub outcome-IsSound :
      (w j i : ℕ) (o : Option A) (p : Pool B)
      → get_elem? p.busy j ≡ some i
      → get_elem? values i ≡ o
      → IsSound w p
      → IsSound w (outcome operation values j i o p)
  outcome-IsSound w j i none p at value s = s
  outcome-IsSound w j i (some v) p at value s = record_ends w j i v (operation v) p at value refl s

  pub end_of-IsSound :
      (w j : ℕ) (o : Option ℕ) (p : Pool B)
      → get_elem? p.busy j ≡ o
      → IsSound w p
      → IsSound w (end_of operation values j o p)
  end_of-IsSound w j none p e s = s
  end_of-IsSound w j (some i) p e s = outcome-IsSound w j i (get_elem? values i) p e refl s

  pub complete-IsSound :
      (w j : ℕ) (p : Pool B) → IsSound w p → IsSound w (complete operation values j p)
  unfolding complete
  complete-IsSound w j p s = end_of-IsSound w j (get_elem? p.busy j) p refl s

  pub turn-IsSound :
      (w : ℕ) (t : Turn operation values) (p : Pool B)
      → IsSound w p
      → IsSound w (turn operation values w t p)
  unfolding turn
  turn-IsSound w takes p s = take_next-IsSound w p s
  turn-IsSound w (completes j) p s = complete-IsSound w j p s

  pub turns-IsSound :
      (w : ℕ) (ts : List (Turn operation values)) (p : Pool B)
      → IsSound w p
      → IsSound w (turns operation values w ts p)
  unfolding turns
  turns-IsSound w [] p s = s
  turns-IsSound w (t ∷ ts) p s = turns-IsSound w ts _ (turn-IsSound w t p s)

  pub fresh-IsSound : (w : ℕ) → IsSound w (fresh_pool operation values)
  unfolding fresh_pool
  fresh-IsSound w = record {
    same_length = length-replicate (length values) none;
    in_range = omega arith;
    few_busy = omega arith;
    busy_passed = λ i h. cc;
    filled = λ i lt h. absurd (omega arith);
  }
