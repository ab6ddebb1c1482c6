-- ===== src/Concurrency/Pool.antt =====
-- `bounded_map` of helper/concurrency.py: workers that share one iterator over the inputs. A step
-- is a moment at which one task runs; which task runs, the event loop chooses. `operation` gives
-- `none` where the awaited operation raises.
mod Lists
mod Sound
pub mod Order
pub mod Progress
use metafusion.Concurrency.Room.{remove_at}
use metafusion.Prelude.{
  if◌then◌else◌, ◌+◌, ◌≡◌, ◌&&◌, ◌∷◌, [], ℕ, ℤ, Option, List, min, Bool, max, replicate, not,
  get_elem?, length, some, pos_part, none, ltb, false, true, set,
}

-- `cursor` is the iterator's next index; `busy` holds the index that each working worker has taken,
-- and that of a worker whose operation raised, which takes no other; `raised` is set when an
-- operation raises. (A second end of that operation would change nothing.) The other workers may
-- then take turns until `gather` has raised and they are cancelled, after which there are no more
-- turns.
pub record Pool {κ} (B : Type κ) : Type κ where
  pub cursor : ℕ
  pub busy : List ℕ
  pub results : List (Option B)
  pub raised : Bool

-- `min(max(1, int(limit)), len(values))`
unfoldable pub worker_count : ℤ → ℕ → ℕ
worker_count limit size = min (max 1 (pos_part limit)) size

-- What the end of an operation does to the pool: its result is stored at index `i`, or it raises.
abbrev pub ended {κ} : {B : Type κ} → ℕ → ℕ → Option B → Pool B → Pool B
ended j i none p = record p { raised = true }
ended j i (some b) p = record p { busy = remove_at j p.busy; results = set p.results i (some b) }

module _ {ℓ κ} {A : Type ℓ} {B : Type κ} (operation : A → Option B) (values : List A) where
  -- `results = [None] * len(values)`
  unfoldable pub fresh_pool : Pool B
  fresh_pool = record {
    cursor = 0;
    busy = [];
    results = replicate (length values) none;
    raised = false;
  }

  -- A free worker takes the iterator's next input, if there is one.
  unfoldable pub take_next : ℕ → Pool B → Pool B
  take_next workers p =
      if ltb (length p.busy) workers && ltb p.cursor (length values)
      then record p { cursor = p.cursor + 1; busy = p.cursor ∷ p.busy }
      else p

  abbrev pub outcome : ℕ → ℕ → Option A → Pool B → Pool B
  outcome j i none p = p
  outcome j i (some v) p = ended j i (operation v) p

  abbrev pub end_of : ℕ → Option ℕ → Pool B → Pool B
  end_of j none p = p
  end_of j (some i) p = outcome j i (get_elem? values i) p

  -- The operation of the `j`-th busy worker ends.
  unfoldable pub complete : ℕ → Pool B → Pool B
  complete j p = end_of j (get_elem? p.busy j) p

  pub data Turn : Type 0 where
    takes : Turn
    completes : ℕ → Turn

  unfoldable pub turn : ℕ → Turn → Pool B → Pool B
  unfolding take_next complete
  turn workers takes p = take_next workers p
  turn workers (completes j) p = complete j p

  unfoldable pub turns : ℕ → List Turn → Pool B → Pool B
  turns workers [] p = p
  turns workers (t ∷ ts) p = turns workers ts (turn workers t p)

  -- `gather` returns, with nothing raised.
  pub record Returned (p : Pool B) : Type 0 where
    pub exhausted : p.cursor ≡ length values
    pub idle : p.busy ≡ []
    pub unraised : p.raised ≡ false
