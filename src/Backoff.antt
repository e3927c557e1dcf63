-- ===== src/Backoff.antt =====
-- backend/src/utils/backoff.js: exponential backoff with full jitter. The random number is a
-- fraction random / random_scale below 1, and the arithmetic is exact where the code has doubles.
pub mod Bounds
use renuzi_ops_platform.Prelude.{ℕ, ◌+◌, ◌*◌, ◌/◌, ◌^◌, min}

abbrev pub default_base_seconds : ℕ
default_base_seconds = 30

-- 24 hours
abbrev pub default_max_seconds : ℕ
default_max_seconds = 86400

-- base * 2 ^ retryCount, capped, in seconds.
unfoldable pub capped_seconds : ℕ → ℕ → ℕ → ℕ
capped_seconds base max_seconds retry_count = min (base * 2 ^ retry_count) max_seconds

-- Math.round(random * capped * 1000)
unfoldable pub jittered_ms : ℕ → ℕ → ℕ → ℕ
jittered_ms random random_scale capped =
    (2 * (random * (capped * 1000)) + random_scale) / (2 * random_scale)

unfoldable pub backoff_delay_ms : ℕ → ℕ → ℕ → ℕ → ℕ
backoff_delay_ms base retry_count random random_scale =
    jittered_ms random random_scale (capped_seconds base default_max_seconds retry_count)
