-- ===== src/Budget/Tokens.antt =====
-- crates/llm/src/tokenize.rs: the heuristic price of a text; and `u32` arithmetic.
use Prim.Native.Nat.{ℕ, ◌+◌, ◌/◌, ◌%◌, ◌<◌, min}
use mathlib.Core.Path.{◌≡◌}
use native.Mathlib.Omega.{arith}
use sica_rust.Prelude.{List, [], ◌∷◌, length}
use sica_rust.Prelude.Str.{Str}

abbrev pub u32_mod : ℕ
u32_mod = 4294967296

-- Arithmetic on `u32` wraps in a release build.
abbrev pub u32 : ℕ → ℕ
u32 n = n % 4294967296

-- `u32::saturating_add`.
abbrev pub saturating_add : ℕ → ℕ → ℕ
saturating_add a b = min (a + b) 4294967295

-- Four characters to a token, rounded up. A `str`'s characters are its scalar values.
unfoldable pub approx_tokens : Str → ℕ
approx_tokens text = u32 ((length text + 3) / 4)

-- The sum of the prices of a list, wrapping at each addition.
abbrev pub sum_u32 {ℓ} : {A : Type ℓ} → (A → ℕ) → List A → ℕ
sum_u32 price [] = 0
sum_u32 price (x ∷ xs) = u32 (price x + sum_u32 price xs)

-- The same with no wrap-around.
abbrev pub sum {ℓ} : {A : Type ℓ} → (A → ℕ) → List A → ℕ
sum price [] = 0
sum price (x ∷ xs) = price x + sum price xs

pub sum_u32-eq-sum {ℓ} :
    {A : Type ℓ} (price : A → ℕ) (xs : List A)
    → sum price xs < 4294967296
    → sum_u32 price xs ≡ sum price xs
sum_u32-eq-sum price [] h = omega arith
sum_u32-eq-sum price (x ∷ xs) h = omega (arith, sum_u32-eq-sum price xs (omega arith))
