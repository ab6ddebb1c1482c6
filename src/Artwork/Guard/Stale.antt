-- ===== src/Artwork/Guard/Stale.antt =====
-- `stale_image` of modules/utils.py and `timestamp_due` of helper/incremental.py agree.
use metafusion.Artwork.Guard.{stale_image}
use metafusion.Planning.Time.{
  absent, malformed, timestamp_due, stamp_due, Stamp, Setting, days, naive, aware, unset,
  unreadable,
}
use metafusion.Prelude.{◌+◌, ◌-◌, ◌≡◌, ◌&&◌, refl, ℕ, leb, arith, pos_part}

later : (t i n : ℕ) → (leb i (n - t) && leb t n) ≡ leb (t + i) n
later t i n = ground arith

-- `stale_image`, by which the guard calls artwork stale, decides as `timestamp_due` does on the same
-- time, interval and setting.
pub stale_image-timestamp_due :
    (local : ℕ → ℕ) (last_upgraded : Stamp) (interval : Setting) (now : ℕ)
    → stale_image local last_upgraded interval now ≡ timestamp_due local last_upgraded interval now
unfolding stale_image timestamp_due stamp_due
stale_image-timestamp_due local last_upgraded unset now = refl
stale_image-timestamp_due local last_upgraded unreadable now = refl
stale_image-timestamp_due local absent (days z) now = ground arith
stale_image-timestamp_due local malformed (days z) now = ground arith
stale_image-timestamp_due local (naive t) (days z) now =
    ground (arith, later (local t) (pos_part z) now)
stale_image-timestamp_due local (aware t) (days z) now = ground (arith, later t (pos_part z) now)
