-- ===== src/Retry.antt =====
-- crates/llm/src/retry.rs: the delay before another attempt.
pub mod Bounds
pub mod Classify
pub mod Hints
use sica_rust.Prelude.{ℕ, ◌+◌, ◌-◌, ◌*◌, ◌/◌, ◌%◌, ◌^◌, min, ◌==◌, if◌then◌else◌}

abbrev pub retry_max : ℕ
retry_max = 5

abbrev pub initial_delay_ms : ℕ
initial_delay_ms = 500

abbrev pub max_delay_ms : ℕ
max_delay_ms = 10000

-- The delay with no jitter. `1u64 << exp` with `exp` at most 16 does not overflow.
unfoldable pub base_delay : ℕ → ℕ
base_delay attempt = min (initial_delay_ms * 2 ^ min (attempt - 1) 16) max_delay_ms

-- `nanos` are the clock's sub-second nanoseconds.
unfoldable pub backoff : ℕ → ℕ → ℕ
backoff attempt nanos =
    let base = base_delay attempt in
    let span = base / 2 in
    let offset = if span == 0 then 0 else nanos % (span * 2 + 1) in
    min (base - span + offset) max_delay_ms
