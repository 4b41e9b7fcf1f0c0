-- ===== src/Retain/Bounds.antt =====
-- The cut positions of `utf8_head` and `utf8_tail`: always boundaries, and the best ones.
use mathlib.Core.List.{append-nil}
use sica_rust.Prelude.{
  ℕ, zero, suc, ◌+◌, ◌-◌, ◌≤◌, ◌<◌, ◌≡◌, ◌≢◌, refl, true, some, [], ◌++◌, arith, ltb, leb, leb→le,
  Bool-cases, inl, inr, ap, sym,
}
use sica_rust.Prelude.Str.{Str, len, is_char_boundary, len-append}
use sica_rust.Prelude.Cuts.{Cut, boundary-Cut, boundary-zero, boundary-len, boundary-len-append}
use sica_rust.Retain.{head_end, tail_start, utf8_head, utf8_tail}

head_end_boundary : (s : Str) (e : ℕ) → is_char_boundary s (head_end s e) ≡ true
unfolding head_end
head_end_boundary s zero = boundary-zero s
head_end_boundary s (suc e) = ground (arith, head_end_boundary s e)

head_end-le : (s : Str) (e : ℕ) → head_end s e ≤ e
unfolding head_end
head_end-le s zero = omega arith
head_end-le s (suc e) = ground (arith, head_end-le s e)

head_end_best : (s : Str) (e i : ℕ) → is_char_boundary s i ≡ true → i ≤ e → i ≤ head_end s e
unfolding head_end
head_end_best s zero i b h = omega arith
head_end_best s (suc e) i b h = elim (Bool-cases (is_char_boundary s (suc e))) [
  | inl here ↦ rw (here, head_end) h
  | inr not_here ↦
      let ne : i ≢ suc e = λ same. cc (ap (is_char_boundary s) same) in
      rw (not_here, head_end) (head_end_best s e i b (omega arith))
]

head_splits : (s : Str) (max : ℕ) → Cut s (head_end s max)
head_splits s max = boundary-Cut s (head_end s max) (head_end_boundary s max)

-- `utf8_head` never panics: it returns a prefix of the text, of at most `max` bytes.
pub utf8_head_prefix :
    (s : Str) (max : ℕ)
    → (h rest : Str) × (utf8_head s max ≡ some h) × (s ≡ h ++ rest) × (len h ≤ max)
unfolding utf8_head
utf8_head_prefix s max = elim (Bool-cases (leb (len s) max)) [
  | inl fits ↦ (s, [], rw fits, sym (append-nil s), leb→le _ _ fits)
  | inr long ↦
      let cut = head_splits s max in
      (
        cut.before,
        cut.after,
        rw long cut.to_here,
        cut.joined,
        omega (arith, cut.at_byte, head_end-le s max),
      )
]

-- No prefix of the text that fits in `max` bytes is longer than the one that `utf8_head` returns.
pub utf8_head_longest :
    (s : Str) (max : ℕ) (h p q : Str)
    → utf8_head s max ≡ some h
    → s ≡ p ++ q
    → len p ≤ max
    → len p ≤ len h
unfolding utf8_head
utf8_head_longest s max h p q e joined fits = elim (Bool-cases (leb (len s) max)) [
  | inl all_fits ↦
      let same : s ≡ h = ground arith in omega (arith, ap len same, ap len joined, len-append p q)
  | inr long ↦
      let cut = head_splits s max in
      let same : cut.before ≡ h = ground (arith, cut.to_here) in
      let b : is_char_boundary s (len p) ≡ true = rw joined (boundary-len-append p q) in
      omega (arith, ap len same, cut.at_byte, head_end_best s max (len p) b fits)
]

module _ (s : Str) where
  tail_start_boundary :
      (fuel start : ℕ)
      → len s ≤ start + fuel
      → start ≤ len s
      → is_char_boundary s (tail_start s fuel start) ≡ true
  unfolding tail_start
  tail_start_boundary zero start h k = let e : start ≡ len s = omega arith in rw e (boundary-len s)
  tail_start_boundary (suc fuel) start h k = elim (Bool-cases (ltb start (len s))) [
    | inl more ↦ elim (Bool-cases (is_char_boundary s start)) [
      | inl here ↦ ground (arith, here)
      | inr not_here ↦
          ground (arith, tail_start_boundary fuel (start + 1) (omega arith) (ground arith))
    ]
    | inr stop ↦ let e : start ≡ len s = ground arith in ground (arith, boundary-len s)
  ]

  tail_start-ge : (fuel start : ℕ) → start ≤ tail_start s fuel start
  unfolding tail_start
  tail_start-ge zero start = omega arith
  tail_start-ge (suc fuel) start = ground (arith, tail_start-ge fuel (start + 1))

  tail_start_best :
      (fuel start i : ℕ) → is_char_boundary s i ≡ true → start ≤ i → tail_start s fuel start ≤ i
  unfolding tail_start
  tail_start_best zero start i b h = h
  tail_start_best (suc fuel) start i b h = elim (Bool-cases (is_char_boundary s start)) [
    | inl here ↦ ground (arith, here)
    | inr not_here ↦
        let ne : i ≢ start = λ same. cc (ap (is_char_boundary s) same) in
        ground (arith, tail_start_best fuel (start + 1) i b (omega arith))
  ]

tail_splits : (s : Str) (max : ℕ) → max < len s → Cut s (tail_start s max (len s - max))
tail_splits s max h =
    boundary-Cut s _ (tail_start_boundary s max (len s - max) (omega arith) (omega arith))

-- `utf8_tail` never panics: it returns a suffix of the text, of at most `max` bytes.
pub utf8_tail_suffix :
    (s : Str) (max : ℕ)
    → (t front : Str) × (utf8_tail s max ≡ some t) × (s ≡ front ++ t) × (len t ≤ max)
unfolding utf8_tail
utf8_tail_suffix s max = elim (Bool-cases (leb (len s) max)) [
  | inl fits ↦ (s, [], rw fits, refl, leb→le _ _ fits)
  | inr long ↦
      let cut = tail_splits s max (ground arith) in
      (
        cut.after,
        cut.before,
        rw long cut.from_here,
        cut.joined,
        omega (
          arith,
          cut.at_byte,
          tail_start-ge s max (len s - max),
          ap len cut.joined,
          len-append cut.before cut.after,
        ),
      )
]

-- No suffix of the text that fits in `max` bytes is longer than the one that `utf8_tail` returns.
pub utf8_tail_longest :
    (s : Str) (max : ℕ) (t p q : Str)
    → utf8_tail s max ≡ some t
    → s ≡ p ++ q
    → len q ≤ max
    → len q ≤ len t
unfolding utf8_tail
utf8_tail_longest s max t p q e joined fits = elim (Bool-cases (leb (len s) max)) [
  | inl all_fits ↦
      let same : s ≡ t = ground arith in omega (arith, ap len same, ap len joined, len-append p q)
  | inr long ↦
      let cut = tail_splits s max (ground arith) in
      let same : cut.after ≡ t = ground (arith, cut.from_here) in
      let b : is_char_boundary s (len p) ≡ true = rw joined (boundary-len-append p q) in
      omega (
        arith,
        ap len same,
        ap len joined,
        len-append p q,
        cut.at_byte,
        ap len cut.joined,
        len-append cut.before cut.after,
        tail_start_best s max (len s - max) (len p) b
            (omega (arith, ap len joined, len-append p q)),
      )
]
