-- ===== src/Retry/Classify.antt =====
-- crates/llm/src/retry.rs: what a failed request means, read off the text of its error.
use sica_rust.Prelude.{
  ℕ, Bool, true, false, Option, none, some, List, [], ◌∷◌, ◌++◌, ◌+◌, ◌-◌, ◌*◌, ◌==◌, ◌&&◌, ◌||◌,
  any, min, ltb, leb, if◌then◌else◌,
}
use mathlib.Core.Option
use sica_rust.Prelude.Str.{Str, str}
use sica_rust.Prelude.Decimal.{decimal}
use sica_rust.Prelude.Search.{split_once, contains, starts_with}
use sica_rust.Prelude.Trim.{to_ascii_lowercase}
use sica_rust.Call.Chars.{is_ascii_digit}

pub data Failure : Type 0 where
  retryable : Str → Failure
  fatal : Str → Failure
  context_overflow : (reason : Str) (limit : Option ℕ) → Failure

abbrev pub is_retryable : Failure → Bool
is_retryable (retryable _) = true
is_retryable _ = false

abbrev pub is_context_overflow : Failure → Bool
is_context_overflow (context_overflow _ _) = true
is_context_overflow _ = false

abbrev pub context_limit : Failure → Option ℕ
context_limit (context_overflow _ limit) = limit
context_limit _ = none

abbrev has_any : List Str → Str → Bool
has_any keys t = any (λ key. contains key t) keys

abbrev overflow_words : Str → Bool
overflow_words t =
    has_any
      (str "context_length_exceeded"
        ∷ str "exceed_context_size"
        ∷ str "prompt is too long"
        ∷ str "reduce the length of the messages"
        ∷ str "too many tokens"
        ∷ [])
      t
    || (has_any (str "context length" ∷ str "context size" ∷ str "context window" ∷ []) t
        && has_any
            (str "exceed"
              ∷ str "too long"
              ∷ str "too large"
              ∷ str "maximum"
              ∷ str "larger than"
              ∷ str "greater than"
              ∷ [])
            t)

unfoldable pub is_context_overflow_text : Str → Bool
unfolding to_ascii_lowercase split_once
is_context_overflow_text text = overflow_words (to_ascii_lowercase text)

-- The longest run of digits that a text starts with.
abbrev pub leading_digits : Str → Str
leading_digits [] = []
leading_digits (c ∷ s) = if is_ascii_digit c then c ∷ leading_digits s else []

abbrev pub from_digit : Str → Str
from_digit [] = []
from_digit (c ∷ s) = if is_ascii_digit c then c ∷ s else from_digit s

-- The value of digits, the first of which is the highest.
abbrev pub digits_value : ℕ → Str → ℕ
digits_value acc [] = acc
digits_value acc (c ∷ s) = digits_value (acc * 10 + (c - b'0')) s

-- `str::parse` of digits: an error on none, and on a value that the type does not hold.
abbrev pub parse_below : ℕ → Str → Option ℕ
parse_below bound [] = none
parse_below bound (c ∷ s) =
    if ltb (digits_value 0 (c ∷ s)) bound then some (digits_value 0 (c ∷ s)) else none

abbrev pub number_at : Option (Str × Str) → Option ℕ
number_at none = none
number_at (some (front, rest)) = parse_below 4294967296 (leading_digits (from_digit rest))

unfoldable pub number_after : Str → Str → Option ℕ
unfolding split_once is_ascii_digit
number_after text key = number_at (split_once key text)

abbrev pub limit_keys : List Str
limit_keys =
    str "\"n_ctx\""
    ∷ str "maximum context length is"
    ∷ str "maximum context length of"
    ∷ str "context length is"
    ∷ str "context length of"
    ∷ str "context window of"
    ∷ str "context window is"
    ∷ str "context size of"
    ∷ str "context size is"
    ∷ str "tokens >"
    ∷ []

abbrev pub or_later : Option ℕ → Option ℕ → Option ℕ
or_later none later = later
or_later (some n) later = some n

abbrev pub first_number : Str → List Str → Option ℕ
first_number t [] = none
first_number t (key ∷ keys) = or_later (number_after t key) (first_number t keys)

abbrev pub if_window : Option ℕ → Option ℕ
if_window none = none
if_window (some n) = if leb 512 n then some n else none

unfoldable pub context_limit_in : Str → Option ℕ
unfolding number_after to_ascii_lowercase
context_limit_in text = if_window (first_number (to_ascii_lowercase text) limit_keys)

abbrev http : ℕ → Str
http code = str "HTTP " ++ decimal code

abbrev by_status : Str → Option ℕ → Failure
by_status text none = retryable text
by_status text (some code) =
    if code == 429 || (leb 500 code && leb code 599)
    then retryable (http code)
    else fatal (http code)

abbrev by_error : Str → Option (Option ℕ) → Failure
by_error text (some status) = by_status text status
by_error text none =
    if starts_with (str "sse decode") text || contains (str "task panicked") text
    then retryable text
    else fatal text

-- `text` is the error with its causes; `request_error` tells, of an error of the HTTP client, the status
-- that the server answered with, if it answered.
unfoldable pub classify : Str → Option (Option ℕ) → Failure
unfolding is_context_overflow_text context_limit_in decimal split_once
classify text request_error =
    if is_context_overflow_text text
    then context_overflow text (context_limit_in text)
    else by_error text request_error

abbrev pub u64_bound : ℕ
u64_bound = 18446744073709551616

abbrev pub delay_at : Option (Str × Str) → Option ℕ
delay_at none = none
delay_at (some (front, rest)) =
    Option.map (λ secs. min secs 120) (parse_below u64_bound (leading_digits rest))

-- The seconds that the server asked for.
unfoldable pub retry_after : Str → Option ℕ
unfolding split_once is_ascii_digit
retry_after text = delay_at (split_once (str "retry-after=") text)

-- What `chat_stream` puts in front of the error for a server that named a delay.
abbrev pub retry_context : ℕ → Str → Str
retry_context secs text = str "retry-after=" ++ (decimal secs ++ (str ": " ++ text))
