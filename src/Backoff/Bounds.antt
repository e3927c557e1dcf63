-- ===== src/Backoff/Bounds.antt =====
-- The delay lies between 0 and the cap, and the cap grows with the retries up to 24 hours.
use renuzi_ops_platform.Prelude.{ℕ, suc, ◌+◌, ◌*◌, ◌/◌, ◌≤◌, ◌<◌, ◌≡◌, min, arith}
use native.Mathlib.Nat.{pow-suc, le_trans}
use renuzi_ops_platform.Backoff.{default_max_seconds, capped_seconds, jittered_ms, backoff_delay_ms}

below_product : (r s m : ℕ) → r < s → r * m ≤ s * m
below_product r s m h = grind arith

div_bound : (a s m : ℕ) → 0 < s → a ≤ s * m → (2 * a + s) / (2 * s) ≤ m
div_bound a s m h k = grind arith

-- For a random number below 1 the jittered delay is at most the capped backoff, and at most 24
-- hours, whatever the retry count.
pub backoff_delay_ms-le :
    (base retry_count random random_scale : ℕ)
    → random < random_scale
    → (backoff_delay_ms base retry_count random random_scale
        ≤ capped_seconds base default_max_seconds retry_count * 1000)
      × (backoff_delay_ms base retry_count random random_scale ≤ 86400000)
unfolding backoff_delay_ms jittered_ms
backoff_delay_ms-le base n r s h =
    let capped = capped_seconds base default_max_seconds n in
    let bound =
      div_bound (r * (capped * 1000)) s (capped * 1000) (omega arith)
        (below_product r s (capped * 1000) h) in
    (bound, le_trans bound (omega (arith, capped-le base n)))
  where
    capped-le : (b k : ℕ) → capped_seconds b default_max_seconds k ≤ 86400
    capped-le b k = unfold capped_seconds in omega arith

-- The cap on the delay never falls from one retry to the next, and doubles until it reaches the
-- maximum.
pub capped_seconds-suc :
    (base max_seconds n : ℕ)
    → (capped_seconds base max_seconds n ≤ capped_seconds base max_seconds (suc n))
      × (capped_seconds base max_seconds (suc n)
          ≡ min (2 * capped_seconds base max_seconds n) max_seconds)
unfolding capped_seconds
capped_seconds-suc base max_seconds n = rw (pow-suc 2 n) (omega arith, omega arith)
