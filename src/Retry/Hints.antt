-- ===== src/Retry/Hints.antt =====
-- crates/llm/src/retry.rs: the numbers that are read out of an error's text.
use sica_rust.Prelude.{
  ℕ, zero, suc, Bool, true, false, Option, none, some, List, [], ◌∷◌, ◌++◌, ◌+◌, ◌-◌, ◌*◌, ◌/◌, ◌%◌,
  ◌<◌, ◌≤◌, min, ltb, ltb→lt, lt→ltb, leb, leb→le, if◌then◌else◌, ◌≡◌, refl, ap, ◌∙◌, arith, all,
  option_or,
}
use mathlib.Core.Option
use mathlib.Core.List.{append-nil}
use sica_rust.Prelude.Str.{Str, str, is_empty}
use sica_rust.Prelude.Trim.{to_ascii_lowercase}
use sica_rust.Prelude.Decimal.{decimal, digits_on}
use sica_rust.Prelude.Search.{split_once}
use sica_rust.Call.Chars.{is_ascii_digit}
use sica_rust.Retry.Classify.{
  leading_digits, digits_value, parse_below, number_at, number_after, from_digit, limit_keys,
  retry_after, retry_context, u64_bound, first_number, or_later, if_window, context_limit_in,
}

digits_value-append :
    (s : Str) (acc d : ℕ) → digits_value acc (s ++ (d ∷ [])) ≡ digits_value acc s * 10 + (d - b'0')
digits_value-append [] acc d = refl
digits_value-append (c ∷ s) acc d = digits_value-append s (acc * 10 + (c - b'0')) d

digits_value-digits_on : (fuel n : ℕ) → n < fuel → digits_value 0 (digits_on fuel n) ≡ n
unfolding digits_on
digits_value-digits_on zero n h = ground (arith, h)
digits_value-digits_on (suc fuel) n h =
    at (ltb n 10) refl (λ k. digits_value-digits_on fuel (n / 10) k)
  where
    at :
        (b : Bool)
        → ltb n 10 ≡ b
        → (n / 10 < fuel → digits_value 0 (digits_on fuel (n / 10)) ≡ n / 10)
        → digits_value 0
            (if b then (48 + n) ∷ [] else digits_on fuel (n / 10) ++ (48 + n % 10) ∷ [])
          ≡ n
    at true e ih = omega arith
    at false e ih =
        let big : 10 ≤ n = ground (arith, e) in
        omega (
          arith,
          digits_value-append (digits_on fuel (n / 10)) 0 (48 + n % 10),
          ih (omega (arith, big, h)),
        )

leading_digits-append :
    (s t : Str) → all is_ascii_digit s ≡ true → leading_digits (s ++ t) ≡ s ++ leading_digits t
leading_digits-append [] t h = refl
leading_digits-append (c ∷ s) t h =
    let digit : is_ascii_digit c ≡ true = ground (arith, h) in
    rw digit (ap (◌∷◌ c) (leading_digits-append s t (ground (arith, h))))

all-append :
    (s t : Str)
    → all is_ascii_digit s ≡ true
    → all is_ascii_digit t ≡ true
    → all is_ascii_digit (s ++ t) ≡ true
all-append [] t h k = k
all-append (c ∷ s) t h k = ground (arith, h, all-append s t (ground (arith, h)) k)

all-digits_on : (fuel n : ℕ) → all is_ascii_digit (digits_on fuel n) ≡ true
unfolding digits_on is_ascii_digit
all-digits_on zero n = refl
all-digits_on (suc fuel) n = at (ltb n 10) refl (all-digits_on fuel (n / 10))
  where
    at :
        (b : Bool)
        → ltb n 10 ≡ b
        → all is_ascii_digit (digits_on fuel (n / 10)) ≡ true
        → all is_ascii_digit
            (if b then (48 + n) ∷ [] else digits_on fuel (n / 10) ++ (48 + n % 10) ∷ [])
          ≡ true
    at true e ih = ground (arith, e)
    at false e ih = all-append (digits_on fuel (n / 10)) ((48 + n % 10) ∷ []) ih (ground arith)

digits_on-some : (fuel n : ℕ) → is_empty (digits_on (suc fuel) n) ≡ false
unfolding digits_on
digits_on-some fuel n = at (ltb n 10)
  where
    last_one : (s : Str) (d : ℕ) → is_empty (s ++ (d ∷ [])) ≡ false
    last_one [] d = refl
    last_one (c ∷ s) d = refl

    at :
        (b : Bool)
        → is_empty (if b then (48 + n) ∷ [] else digits_on fuel (n / 10) ++ (48 + n % 10) ∷ [])
          ≡ false
    at true = refl
    at false = last_one (digits_on fuel (n / 10)) (48 + n % 10)

parse_below-value :
    (bound : ℕ) (s : Str)
    → is_empty s ≡ false
    → digits_value 0 s < bound
    → parse_below bound s ≡ some (digits_value 0 s)
parse_below-value bound [] h k = ground (arith, h)
parse_below-value bound (c ∷ s) h k = rw (lt→ltb (digits_value 0 (c ∷ s)) bound k) refl

parse_below-decimal :
    (bound n : ℕ) (t : Str)
    → n < bound
    → leading_digits t ≡ []
    → parse_below bound (leading_digits (decimal n ++ t)) ≡ some n
unfolding decimal
parse_below-decimal bound n t h k =
    let s = digits_on (suc n) n in
    let worth = digits_value-digits_on (suc n) n (omega arith) in
    ap (parse_below bound)
      (leading_digits-append s t (all-digits_on (suc n) n) ∙ ap (◌++◌ s) k ∙ append-nil s)
    ∙ parse_below-value bound s (digits_on-some n n) (omega (arith, worth, h))
    ∙ ap some worth

-- The delay that the client wrote in front of an error is the one that the loop waits for, two minutes at
-- most, whatever the error says. The delay is one that a `u64` holds.
pub retry_after-retry_context :
    (secs : ℕ) (text : Str)
    → secs < u64_bound
    → retry_after (retry_context secs text) ≡ some (min secs 120)
unfolding retry_after split_once is_ascii_digit
retry_after-retry_context secs text h =
    ap (Option.map (λ n. min n 120)) (parse_below-decimal u64_bound secs (str ": " ++ text) h refl)

parse_below-bound : (bound : ℕ) (s : Str) (n : ℕ) → parse_below bound s ≡ some n → n < bound
parse_below-bound bound [] n h = ground (arith, h)
parse_below-bound bound (c ∷ s) n h = at (ltb (digits_value 0 (c ∷ s)) bound) refl h
  where
    at :
        (b : Bool)
        → ltb (digits_value 0 (c ∷ s)) bound ≡ b
        → (if b then some (digits_value 0 (c ∷ s)) else none) ≡ some n
        → n < bound
    at true e k =
        let same : digits_value 0 (c ∷ s) ≡ n = ap (λ o. option_or o 0) k in
        omega (arith, ltb→lt (digits_value 0 (c ∷ s)) bound e, same)
    at false e k = ground (arith, k)

number_at-bound : (o : Option (Str × Str)) (n : ℕ) → number_at o ≡ some n → n < 4294967296
number_at-bound none n h = ground (arith, h)
number_at-bound (some (front, rest)) n h =
    parse_below-bound 4294967296 (leading_digits (from_digit rest)) n h

first_number-bound :
    (t : Str) (keys : List Str) (n : ℕ) → first_number t keys ≡ some n → n < 4294967296
unfolding number_after
first_number-bound t [] n h = ground (arith, h)
first_number-bound t (key ∷ keys) n h =
    at (number_after t key) (number_at-bound (split_once key t)) (first_number-bound t keys n) h
  where
    at :
        (o : Option ℕ)
        → ((m : ℕ) → o ≡ some m → m < 4294967296)
        → (first_number t keys ≡ some n → n < 4294967296)
        → or_later o (first_number t keys) ≡ some n
        → n < 4294967296
    at none bound later k = later k
    at (some m) bound later k = bound n k

-- A context window that is read out of a refusal is a number that a `u32` holds, and is 512 at least.
pub context_limit_in-bounds :
    (text : Str) (n : ℕ) → context_limit_in text ≡ some n → (512 ≤ n) × (n < 4294967296)
unfolding context_limit_in
context_limit_in-bounds text n h =
    at (first_number (to_ascii_lowercase text) limit_keys)
      (first_number-bound (to_ascii_lowercase text) limit_keys) h
  where
    at :
        (o : Option ℕ)
        → ((m : ℕ) → o ≡ some m → m < 4294967296)
        → if_window o ≡ some n
        → (512 ≤ n) × (n < 4294967296)
    at none bound k = ground (arith, k)
    at (some m) bound k = large (leb 512 m) refl k
      where
        large :
            (b : Bool)
            → leb 512 m ≡ b
            → (if b then some m else none) ≡ some n
            → (512 ≤ n) × (n < 4294967296)
        large true e j =
            let same : m ≡ n = ap (λ o. option_or o 0) j in
            let enough : 512 ≤ m = leb→le 512 m e in (omega (arith, enough, same), bound n j)
        large false e j = ground (arith, j)
