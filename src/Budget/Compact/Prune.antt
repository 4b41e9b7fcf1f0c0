-- ===== src/Budget/Compact/Prune.antt =====
-- A pruned text is short enough that it is never pruned again.
use sica_rust.Prelude.{ℕ, ◌+◌, ◌^◌, ◌≤◌, ◌<◌, ◌≡◌, refl, true, false, none, some, arith, leb}
use sica_rust.Prelude.Str.{Str, len}
use sica_rust.Retain.{TextWindow, bytes, notice, render}
use sica_rust.Retain.Windows.{head_tail_long, len-render, len-notice}
use sica_rust.Budget.Compact.{prune_summary, prune_hint, truncated_reply, truncated_hint}

hint_len : len prune_hint ≡ 91
unfolding len
hint_len = refl

len-truncated_hint : len truncated_hint ≡ 134
unfolding len
len-truncated_hint = refl

window_len :
    (h t hint : Str) (n : ℕ)
    → n < 2 ^ 64
    → len h + len t ≤ 5120
    → len hint ≤ 135
    → len (render (record { head = h; tail = t; omitted = bytes n }) (notice (bytes n) hint)) < 8192
window_len h t hint n small fits hint_fits =
    let w : TextWindow = record { head = h; tail = t; omitted = bytes n } in
    omega (arith, len-render w (notice (bytes n) hint) n refl, len-notice n hint small)

short_pruned : (s : Str) → len s ≤ 8192 → prune_summary s ≡ some none
unfolding prune_summary
short_pruned s h = rw (fits (len s) h) refl
  where
    fits : (l : ℕ) → l ≤ 8192 → leb l 8192 ≡ true
    fits l h = ground arith

long_test : (l : ℕ) → 8192 < l → leb l 8192 ≡ false
long_test l h = ground arith

-- Pruning a text over the threshold never panics and gives one that is shorter than it, which a second
-- pass leaves alone. (A text in memory has fewer than 2^64 bytes.)
pub prune_summary_once :
    (s : Str)
    → len s < 2 ^ 64
    → 8192 < len s
    → (p : Str) × (prune_summary s ≡ some (some p)) × (len p < 8192) × (prune_summary p ≡ some none)
unfolding prune_summary
prune_summary_once s small long =
    let (h, t, n, window, fits, counted) = head_tail_long s 4096 1024 (omega arith) in
    let p : Str =
      render (record { head = h; tail = t; omitted = bytes n }) (notice (bytes n) prune_hint) in
    let short = window_len h t prune_hint n (omega arith) fits (omega (arith, hint_len)) in
    (p, rw (long_test (len s) long, window) refl, short, short_pruned p (omega arith))

-- A cut reply over the threshold is cut to a text that is shorter than it, and never panics.
pub truncated_reply_short :
    (s : Str)
    → len s < 2 ^ 64
    → 8192 < len s
    → (p : Str) × (truncated_reply s ≡ some (some p)) × (len p < 8192)
unfolding truncated_reply
truncated_reply_short s small long =
    let (h, t, n, window, fits, counted) = head_tail_long s 4096 1024 (omega arith) in
    let p : Str =
      render (record { head = h; tail = t; omitted = bytes n }) (notice (bytes n) truncated_hint) in
    let short =
      window_len h t truncated_hint n (omega arith) fits (omega (arith, len-truncated_hint)) in
    (p, rw (long_test (len s) long, window) refl, short)
