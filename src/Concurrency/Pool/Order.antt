-- ===== src/Concurrency/Pool/Order.antt =====
-- `bounded_map` gives the results in the order of the inputs, whatever order they come in.
use metafusion.Concurrency.Pool.{Pool, Turn, turns, worker_count, fresh_pool, Returned}
use metafusion.Concurrency.Pool.Lists.{pointwise, all-is_some}
use metafusion.Concurrency.Pool.Sound.{IsSound, turns-IsSound, fresh-IsSound}
use metafusion.Prelude.{
  ◌≤◌, ◌<◌, ◌≡◌, ◌∙◌, refl, Option, List, ℕ, ℤ, length, max, pos_part, map, all, get_elem?, is_some,
  some, true, arith, sym, length-map,
}

module _ {ℓ κ} {A : Type ℓ} {B : Type κ} (operation : A → Option B) (values : List A) where
  Returned-results :
      (w : ℕ) (p : Pool B)
      → IsSound operation values w p
      → Returned operation values p
      → (i : ℕ) → i < length values
      → (b : B) × (get_elem? p.results i ≡ some (some b))
        × (get_elem? (map operation values) i ≡ some (some b))
  Returned-results w p s r i lt = s.filled i (omega (arith, r.exhausted)) (rw r.idle refl)

  -- Whatever order the workers run and end in, no more inputs are being worked on at once than
  -- there are workers; and when all have returned, each operation has succeeded, and the results
  -- stand in the order of the inputs.
  pub bounded_map_order :
      (limit : ℤ) (ts : List (Turn operation values))
      → let p =
          turns operation values
            (worker_count limit (length values))
            ts
            (fresh_pool operation values) in
        (length p.busy ≤ max 1 (pos_part limit))
        × (Returned operation values p
            → (p.results ≡ map operation values) × (all (λ v. is_some (operation v)) values ≡ true))
  bounded_map_order limit ts =
      let w = worker_count limit (length values) in
      let p = turns operation values w ts (fresh_pool operation values) in
      let s =
        turns-IsSound operation values w ts (fresh_pool operation values)
          (fresh-IsSound operation values w) in
      (
        unfold worker_count in omega (arith, s.few_busy),
        λ r. (
          pointwise p.results (map operation values)
              (s.same_length ∙ sym (length-map operation values))
              (λ i lt.
                let (b, got, is) =
                  Returned-results w p s r i (omega (arith, length-map operation values)) in
                got ∙ sym is),
          all-is_some operation values
              (λ i lt. let (b, got, is) = Returned-results w p s r i lt in (b, is)),
        ),
      )
