-- ===== src/Call/Verbatim.antt =====
-- crates/agents/src/parse_tool_call.rs: the argument of a skill that takes one, read as it is written.
use sica_rust.Prelude.{
  ℕ, zero, suc, Bool, true, false, Option, none, some, List, [], ◌∷◌, ◌==◌, ◌&&◌, ◌||◌, not, all,
  any, length, is_some, ltb, if◌then◌else◌,
}
use mathlib.Core.Option
use sica_rust.Prelude.Str.{Str, str, len, is_empty, ends_with}
use sica_rust.Prelude.Search.{behind, rsplit, split_once, strip_prefix}
use sica_rust.Prelude.Trim.{is_whitespace, trim, trim_start, trim_end}
use sica_rust.Call.Chars.{
  is_ascii_alphabetic, is_ascii_alphanumeric, quote, double_quote, backslash, is_quote,
}
use sica_rust.Call.Line.{
  ToolCall, line_call, token_then, take_skill_name, split_on_expectation, tokenize_args, parse_line,
  quote_open_at_eol, parse_multiline, first_trimmed,
}

abbrev pub starts_with_char : ℕ → Str → Bool
starts_with_char q [] = false
starts_with_char q (c ∷ s) = c == q

abbrev pub starts_with_quote : Str → Bool
starts_with_quote [] = false
starts_with_quote (c ∷ s) = is_quote c

-- A backslash before the token's own quote.
abbrev pub escapes_quote : ℕ → ℕ → Str → Bool
escapes_quote q c s = c == backslash && starts_with_char q s

-- The inner loop of `verbatim_tokens`. The flag tells that the character is a quote with a backslash
-- before it.
unfoldable pub verbatim_token : ℕ → Bool → Str → Option (Str × Str)
verbatim_token q kept [] = none
verbatim_token q kept (c ∷ s) =
    let later = verbatim_token q (not kept && escapes_quote q c s) s in
    if kept
    then Option.map (behind c) later
    else if escapes_quote q c s
    then later
    else if c == q
    then some ([], s)
    else Option.map (behind c) later

abbrev pub verbatim_at :
    (space quote : Bool) → ℕ → Str → (Str → Option (List Str)) → Option (List Str)
verbatim_at true opens c s next = next s
verbatim_at false true c s next = token_then (verbatim_token c false s) next
verbatim_at false false c s next = none

unfoldable pub verbatim_from : ℕ → Str → Option (List Str)
unfolding is_whitespace verbatim_token
verbatim_from zero s = none
verbatim_from (suc n) [] = some []
verbatim_from (suc n) (c ∷ s) = verbatim_at (is_whitespace c) (is_quote c) c s (verbatim_from n)

unfoldable pub verbatim_tokens : Str → Option (List Str)
unfolding verbatim_from
verbatim_tokens s = verbatim_from (suc (length s)) s

unfoldable pub is_arg_name : Str → Bool
unfolding is_ascii_alphabetic is_ascii_alphanumeric
is_arg_name [] = false
is_arg_name (c ∷ s) =
    (is_ascii_alphabetic c || c == b'_') && all (λ d. is_ascii_alphanumeric d || d == b'_') s

abbrev pub names_arg : Option (Str × Str) → Bool
names_arg none = false
names_arg (some (key, _)) = is_arg_name (trim key)

abbrev simple_trimmed : Str → Bool
simple_trimmed t =
    not (is_empty t || ltb 200 (len t))
    && (names_arg (split_once (str "=") t) || (not (any is_whitespace t) && not (any is_quote t)))

unfoldable pub simple_extra : Str → Bool
unfolding is_arg_name trim split_once len is_whitespace
simple_extra t = simple_trimmed (trim t)

-- A text without its last character, and that character.
abbrev pub split_last : Str → Option (Str × ℕ)
split_last [] = none
split_last (c ∷ s) = last_from c (split_last s)
  where
    last_from : ℕ → Option (Str × ℕ) → Option (Str × ℕ)
    last_from c none = some ([], c)
    last_from c (some (front, last)) = some (c ∷ front, last)

abbrev tail_of : Str → Str
tail_of [] = []
tail_of (c ∷ s) = s

-- A token that stands alone: whitespace before it, and a closing quote before that.
abbrev stands_alone : Str → Bool
stands_alone front =
    not (len (trim_end front) == len front)
    && (ends_with (trim_end front) quote || ends_with (trim_end front) double_quote)

abbrev peel_open : Option (Str × Str) → Option (Str × Str)
peel_open none = none
peel_open (some (front, from_quote)) =
    if stands_alone front && names_arg (split_once (str "=") (tail_of from_quote))
    then some (trim_end front, tail_of from_quote)
    else none

abbrev peel_last : Option (Str × ℕ) → Option (Str × Str)
peel_last none = none
peel_last (some (body, q)) = if is_quote q then peel_open (rsplit q body) else none

unfoldable pub peel_kv_token : Str → Option (Str × Str)
unfolding is_arg_name split_once len trim trim_end
peel_kv_token s = peel_last (split_last s)

abbrev peel_then :
    Option (Str × Str) → Str → List Str → (Str → List Str → Str × List Str) → Str × List Str
peel_then none s extras next = (s, extras)
peel_then (some (rest, kv)) s extras next = next rest (kv ∷ extras)

-- The loop of `single_span` that peels tokens off the end, each with two quotes at least.
unfoldable pub peel_all : ℕ → Str → List Str → Str × List Str
unfolding peel_kv_token
peel_all zero s extras = (s, extras)
peel_all (suc n) s extras = peel_then (peel_kv_token s) s extras (peel_all n)

-- `inner.replace("\q", "q")`.
unfoldable pub unescape_quote : ℕ → Bool → Str → Str
unescape_quote q kept [] = []
unescape_quote q kept (c ∷ s) =
    let later = unescape_quote q (not kept && escapes_quote q c s) s in
    if not kept && escapes_quote q c s then later else c ∷ later

abbrev span_inner : ℕ → List Str → Option (Str × ℕ) → Option (List Str)
span_inner q extras none = none
span_inner q extras (some (inner, last)) =
    if last == q then some (unescape_quote q false inner ∷ extras) else none

abbrev span_from : Str × List Str → Option (List Str)
span_from ([], extras) = none
span_from (q ∷ s, extras) = if is_quote q then span_inner q extras (split_last s) else none

unfoldable pub single_span : Str → Option (List Str)
unfolding peel_all unescape_quote trim
single_span s = span_from (peel_all (length (trim s)) (trim s) [])

abbrev plain_extras : List Str → Bool
plain_extras [] = true
plain_extras (token ∷ extras) = all simple_extra extras

abbrev arg_or_span : Option (List Str) → Str → Option (List Str)
arg_or_span none s = single_span s
arg_or_span (some found) s = if plain_extras found then some found else single_span s

unfoldable pub one_arg : Str → Option (List Str)
unfolding verbatim_tokens single_span simple_extra trim
one_arg args_part = arg_or_span (verbatim_tokens (trim args_part)) (trim args_part)

abbrev spaced_expectation : Option Str → Option Str
spaced_expectation none = none
spaced_expectation (some []) = none
spaced_expectation (some (c ∷ s)) = if is_whitespace c then some (trim_start (c ∷ s)) else none

-- What follows a quote, if it is whitespace, a `>` and whitespace.
abbrev quote_expectation : Str → Option Str
quote_expectation after =
    if len (trim_start after) == len after
    then none
    else spaced_expectation (strip_prefix (str ">") (trim_start after))

abbrev at_quote : ℕ → Option Str → Option (Str × Str)
at_quote c none = none
at_quote c (some expectation) = some (c ∷ [], expectation)

abbrev or_here : ℕ → Option (Str × Str) → Option (Str × Str) → Option (Str × Str)
or_here c none here = here
or_here c (some (front, expectation)) here = some (c ∷ front, expectation)

-- The loop of `split_after_last_quote`, which reads from the end of the line.
unfoldable pub last_quote : ℕ → Str → Option (Str × Str)
unfolding len trim_start is_whitespace
last_quote q [] = none
last_quote q (c ∷ s) =
    let later = last_quote q s in
    or_here c later (if c == q then at_quote c (quote_expectation s) else none)

-- The first character opens the argument, and closes nothing.
unfoldable pub split_after_last_quote : Str → Option (Str × Str)
unfolding last_quote
split_after_last_quote [] = none
split_after_last_quote (q ∷ s) = if is_quote q then Option.map (behind q) (last_quote q s) else none

abbrev with_expectation : Str → Option (List Str) → Option (Str × List Str)
with_expectation expectation none = none
with_expectation expectation (some args) = some (expectation, args)

abbrev one_arg_of : Option (Str × Str) → Option (Str × List Str)
one_arg_of none = none
one_arg_of (some (args_part, expectation)) = with_expectation expectation (one_arg args_part)

abbrev pub or_option {ℓ} : {A : Type ℓ} → Option A → Option A → Option A
or_option none other = other
or_option (some a) other = some a

unfoldable pub split_one_arg : Str → Option (Str × List Str)
unfolding one_arg split_on_expectation split_after_last_quote
split_one_arg rest =
    or_option (one_arg_of (split_on_expectation rest)) (one_arg_of (split_after_last_quote rest))

unfoldable pub bare_args : Str → ℕ → Option (List Str)
unfolding one_arg verbatim_tokens tokenize_args
bare_args rest arity =
    if arity == 1
    then one_arg rest
    else if is_some (verbatim_tokens rest)
    then tokenize_args rest
    else none

abbrev tokens_of : Option (Str × Str) → Option (Str × List Str)
tokens_of none = none
tokens_of (some (args_part, expectation)) = with_expectation expectation (tokenize_args args_part)

abbrev pub is_one : Option ℕ → Bool
is_one none = false
is_one (some n) = n == 1

abbrev call_of {ℓ} : {J : Type ℓ} → Str → Option (Str × List Str) → Option (ToolCall J)
call_of skill none = none
call_of skill (some (expectation, args)) = some (line_call skill args (trim expectation))

abbrev line_for {ℓ} :
    {J : Type ℓ} → (Str → Option ℕ) → Str → Option (Str × Str) → Option (ToolCall J)
line_for arity line none = none
line_for arity line (some (skill, rest)) =
    if is_one (arity skill)
    then call_of skill (
        or_option (split_one_arg (trim_start rest))
          (tokens_of (split_on_expectation (trim_start rest))))
    else parse_line line

unfoldable pub parse_line_for {ℓ} : {J : Type ℓ} → (Str → Option ℕ) → Str → Option (ToolCall J)
unfolding take_skill_name split_one_arg split_on_expectation tokenize_args parse_line trim
    trim_start
parse_line_for arity line = line_for arity (trim line) (take_skill_name (trim line))

abbrev multi_args {ℓ} : {J : Type ℓ} → Str → Option (Str × Str) → Option (ToolCall J)
multi_args skill none = none
multi_args skill (some (args_part, expectation)) =
    Option.map (λ args. line_call skill args (first_trimmed expectation))
      (or_option (one_arg args_part) (tokenize_args args_part))

abbrev multiline_for {ℓ} :
    {J : Type ℓ} → (Str → Option ℕ) → Str → Option (Str × Str) → Option (ToolCall J)
multiline_for arity text none = none
multiline_for arity text (some (skill, rest)) =
    if not (is_one (arity skill))
    then parse_multiline text
    else if quote_open_at_eol (trim_start rest)
    then multi_args skill (split_on_expectation (trim_start rest))
    else none

unfoldable pub parse_multiline_for {ℓ} : {J : Type ℓ} → (Str → Option ℕ) → Str → Option (ToolCall J)
unfolding take_skill_name one_arg split_on_expectation tokenize_args parse_multiline
    quote_open_at_eol trim trim_start
parse_multiline_for arity text = multiline_for arity text (take_skill_name text)
