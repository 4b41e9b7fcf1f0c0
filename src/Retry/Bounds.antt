-- ===== src/Retry/Bounds.antt =====
-- How long a retry waits.
use native.Mathlib.Nat.{mod-lt}
use sica_rust.Prelude.{
  ℕ, zero, suc, ◌+◌, ◌-◌, ◌*◌, ◌/◌, ◌%◌, ◌^◌, ◌≤◌, ◌<◌, min, ◌==◌, if◌then◌else◌, arith,
}
use sica_rust.Retry.{base_delay, backoff}

base_delay-range : (attempt : ℕ) → (500 ≤ base_delay attempt) × (base_delay attempt ≤ 10000)
unfolding base_delay
base_delay-range attempt = (omega (arith, pow_pos (min (attempt - 1) 16)), omega arith)
  where
    pow_pos : (e : ℕ) → 1 ≤ 2 ^ e
    pow_pos zero = omega arith
    pow_pos (suc e) = omega (arith, pow_pos e)

-- A retry waits between half its base delay and half as much again, and never more than ten seconds,
-- whatever the clock says; the base delay is between half a second and ten seconds.
pub backoff-range :
    (attempt nanos : ℕ)
    → (base_delay attempt ≤ 2 * backoff attempt nanos + 1)
      × (backoff attempt nanos ≤ 10000)
      × (2 * backoff attempt nanos ≤ 3 * base_delay attempt + 1)
      × (500 ≤ base_delay attempt)
      × (base_delay attempt ≤ 10000)
unfolding backoff
backoff-range attempt nanos =
    in_band (base_delay attempt) (base_delay-range attempt).0 (base_delay-range attempt).1
      (nanos % (base_delay attempt / 2 * 2 + 1)) (mod-lt nanos (omega arith))
  where
    in_band :
        (base : ℕ)
        → 500 ≤ base
        → base ≤ 10000
        → (offset : ℕ) → offset < base / 2 * 2 + 1
        → (let ms = min (base - base / 2 + (if base / 2 == 0 then 0 else offset)) 10000 in
            (base ≤ 2 * ms + 1)
            × (ms ≤ 10000)
            × (2 * ms ≤ 3 * base + 1)
            × (500 ≤ base)
            × (base ≤ 10000))
    in_band base least most offset small = (ground arith, omega arith, ground arith, least, most)
