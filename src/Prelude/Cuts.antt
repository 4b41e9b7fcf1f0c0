-- ===== src/Prelude/Cuts.antt =====
-- Cutting a `str` at byte positions: a position is a boundary exactly when it splits the text.
use Prim.Native.Nat.{ℕ, ◌+◌, ◌-◌, ◌≤◌}
use mathlib.Core.Path.{◌≡◌, refl, ap}
use mathlib.Core.Bool.{true}
use mathlib.Core.List.{[], ◌∷◌, ◌++◌}
use mathlib.Core.Logic.{inl, inr}
use mathlib.Core.Option.{some}
use native.Mathlib.Omega.{arith}
use sica_rust.Prelude.Tests.{Bool-cases, ◌==◌}
use sica_rust.Prelude.Str.{Str, width, len, is_char_boundary, slice_to, slice_from}

-- A cut of `s` at byte `i`: the two parts, which both slices return.
pub record Cut (s : Str) (i : ℕ) : Type 0 where
  pub before : Str
  pub after : Str
  pub joined : s ≡ before ++ after
  pub at_byte : len before ≡ i
  pub to_here : slice_to s i ≡ some before
  pub from_here : slice_from s i ≡ some after

Cut-cons : (c : ℕ) (s : Str) (i : ℕ) → width c ≤ i → Cut s (i - width c) → Cut (c ∷ s) i
unfolding len slice_to slice_from
Cut-cons c s i h k = record {
  before = c ∷ k.before;
  after = k.after;
  joined = ap (◌∷◌ c) k.joined;
  at_byte = ground (arith, k.at_byte);
  to_here = ground (arith, k.to_here);
  from_here = ground (arith, k.from_here);
}

Cut-zero : (s : Str) → Cut s 0
unfolding len slice_to slice_from
Cut-zero [] = record {
  before = [];
  after = [];
  joined = refl;
  at_byte = refl;
  to_here = refl;
  from_here = refl;
}
Cut-zero (c ∷ s) = record {
  before = [];
  after = c ∷ s;
  joined = refl;
  at_byte = refl;
  to_here = refl;
  from_here = refl;
}

-- At a boundary no slice panics.
pub boundary-Cut : (s : Str) (i : ℕ) → is_char_boundary s i ≡ true → Cut s i
unfolding is_char_boundary
boundary-Cut [] i h = let e : i ≡ 0 = ground arith in rw e (Cut-zero [])
boundary-Cut (c ∷ s) i h = elim (Bool-cases (i == 0)) [
  | inl z ↦ let e : i ≡ 0 = ground arith in rw e (Cut-zero (c ∷ s))
  | inr nz ↦ Cut-cons c s i (ground arith) (boundary-Cut s (i - width c) (ground arith))
]

pub boundary-len-append : (p q : Str) → is_char_boundary (p ++ q) (len p) ≡ true
unfolding is_char_boundary len
boundary-len-append [] [] = refl
boundary-len-append [] (c ∷ q) = refl
boundary-len-append (c ∷ p) q =
    let e : width c + len p - width c ≡ len p = omega arith in
    let ih = boundary-len-append p q in ground (arith, e, ih)

pub boundary-zero : (s : Str) → is_char_boundary s 0 ≡ true
unfolding is_char_boundary
boundary-zero [] = refl
boundary-zero (c ∷ s) = refl

pub boundary-len : (s : Str) → is_char_boundary s (len s) ≡ true
unfolding is_char_boundary len
boundary-len [] = refl
boundary-len (c ∷ s) =
    let e : width c + len s - width c ≡ len s = omega arith in
    let ih = boundary-len s in ground (arith, e, ih)
