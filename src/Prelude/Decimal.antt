-- ===== src/Prelude/Decimal.antt =====
-- Printing a number in decimal, as `{n}` of a format string does.
use Prim.Native.Nat.{ℕ, zero, suc, ◌+◌, ◌/◌, ◌%◌, ◌^◌, ◌≤◌, ◌<◌}
use mathlib.Core.Path.{◌≡◌}
use mathlib.Core.List.{[], ◌∷◌, ◌++◌}
use mathlib.Core.Logic.{inl, inr}
use native.Mathlib.Nat.{pow-suc}
use native.Mathlib.Omega.{arith}
use sica_rust.Prelude.Tests.{ltb, ltb→lt, lt→ltb, if◌then◌else◌, Bool-cases}
use sica_rust.Prelude.Str.{Str, len, len-append}

unfoldable pub digits_on : ℕ → ℕ → Str
digits_on zero n = []
digits_on (suc fuel) n =
    let more = digits_on fuel (n / 10) ++ (48 + n % 10) ∷ [] in
    if ltb n 10 then (48 + n) ∷ [] else more

-- A number has at most one digit more than its value counts.
unfoldable pub decimal : ℕ → Str
unfolding digits_on
decimal n = digits_on (suc n) n

len-digit : (d : ℕ) → d < 10 → len ((48 + d) ∷ []) ≡ 1
unfolding len
len-digit d h = ground arith

div-lt-pow : (k n : ℕ) → n < 10 ^ suc (suc k) → n / 10 < 10 ^ suc k
div-lt-pow k n h = omega (arith, pow-suc 10 (suc k))

len-digits_on : (fuel k n : ℕ) → n < 10 ^ suc k → len (digits_on fuel n) ≤ suc k
unfolding digits_on
len-digits_on zero k n h = unfold len in omega arith
len-digits_on (suc fuel) zero n h =
    rw (lt→ltb n 10 (omega (arith, pow-suc 10 0))) (omega (arith, len-digit n (omega arith)))
len-digits_on (suc fuel) (suc k) n h = elim (Bool-cases (ltb n 10)) [
  | inl small ↦ rw small (omega (arith, len-digit n (ltb→lt n 10 small)))
  | inr large ↦ rw large (
      omega (
        arith,
        len-append (digits_on fuel (n / 10)) ((48 + n % 10) ∷ []),
        len-digit (n % 10) (omega arith),
        len-digits_on fuel k (n / 10) (div-lt-pow k n h),
      ))
]

-- A number of 64 bits has at most twenty digits.
pub len-decimal : (n : ℕ) → n < 2 ^ 64 → len (decimal n) ≤ 20
unfolding decimal
len-decimal n h = len-digits_on (suc n) 19 n (omega arith)
