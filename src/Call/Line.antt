-- ===== src/Call/Line.antt =====
-- crates/agents/src/parse_tool_call.rs: a call on a line, `skill 'arg' … > expectation`. The source walks
-- the bytes of a line; what it looks for is ASCII, so the walk here is over the characters.
use sica_rust.Prelude.{
  ℕ, zero, suc, Bool, true, false, Option, none, some, List, [], ◌∷◌, ◌++◌, ◌==◌, ◌&&◌, ◌||◌, not,
  all, length, if◌then◌else◌,
}
use mathlib.Core.Option
use sica_rust.Prelude.Str.{Str}
use sica_rust.Prelude.Search.{behind}
use sica_rust.Prelude.Trim.{is_whitespace, trim, trim_start, trim_end}
use sica_rust.Call.Chars.{
  is_ascii_lowercase, is_ascii_digit, is_ascii_whitespace, quote, double_quote, backslash, is_quote,
  first_line,
}

-- `J` stands for the arguments object of a call in JSON.
pub record ToolCall {ℓ} (J : Type ℓ) : Type ℓ where
  pub skill : Str
  pub raw_args : List Str
  pub expectation : Str
  pub args_json : Option J
  pub named : List (Str × Str)

abbrev pub line_call {ℓ} : {J : Type ℓ} → Str → List Str → Str → ToolCall J
line_call skill raw_args expectation = record {
  skill = skill;
  raw_args = raw_args;
  expectation = expectation;
  args_json = none;
  named = [];
}

abbrev pub is_name_char : ℕ → Bool
is_name_char c = is_ascii_lowercase c || is_ascii_digit c || c == b'-'

unfoldable pub is_valid_skill_name : Str → Bool
unfolding is_ascii_lowercase is_ascii_digit
is_valid_skill_name [] = false
is_valid_skill_name (c ∷ s) = is_ascii_lowercase c && all is_name_char s

-- The loop of `take_skill_name`, after its first character.
abbrev pub name_rest : Str → Option (Str × Str)
name_rest [] = none
name_rest (c ∷ s) =
    let later = name_rest s in
    if is_name_char c
    then Option.map (behind c) later
    else if is_whitespace c
    then some ([], c ∷ s)
    else none

unfoldable pub take_skill_name : Str → Option (Str × Str)
unfolding is_ascii_lowercase is_ascii_digit is_whitespace
take_skill_name [] = none
take_skill_name (c ∷ s) = if is_ascii_lowercase c then Option.map (behind c) (name_rest s) else none

-- Where a walk over quoted text is: in an open quote, and whether a backslash has just been met in it.
pub data Quoting : Type 0 where
  outside : Quoting
  inside : (q : ℕ) → Quoting
  escaped : (q : ℕ) → Quoting

abbrev pub step : Quoting → ℕ → Quoting
step outside c = if is_quote c then inside c else outside
step (inside q) c = if c == backslash then escaped q else if c == q then outside else inside q
step (escaped q) c = inside q

abbrev pub is_outside : Quoting → Bool
is_outside outside = true
is_outside _ = false

abbrev pub starts_ascii_whitespace : Str → Bool
starts_ascii_whitespace [] = false
starts_ascii_whitespace (c ∷ s) = is_ascii_whitespace c

-- A `>` that separates; `before` tells whether ASCII whitespace stands before it.
abbrev pub separates : Quoting → Bool → ℕ → Str → Bool
separates state before c s = is_outside state && c == b'>' && before && starts_ascii_whitespace s

-- The walk of `split_on_expectation`.
unfoldable pub separator : Quoting → Bool → Str → Option (Str × Str)
unfolding is_ascii_whitespace
separator state before [] = none
separator state before (c ∷ s) =
    let later = separator (step state c) (is_ascii_whitespace c) s in
    if separates state before c s then some ([], s) else Option.map (behind c) later

abbrev pub trimmed_sides : Str × Str → Str × Str
trimmed_sides (left, right) = (trim_end left, trim_start right)

unfoldable pub split_on_expectation : Str → Option (Str × Str)
unfolding separator trim_end trim_start
split_on_expectation s = Option.map trimmed_sides (separator outside false s)

abbrev pub unescaped : ℕ → Str
unescaped c =
    if c == b'n'
    then b'\n' ∷ []
    else if c == b't'
    then b'\t' ∷ []
    else if c == b'r'
    then b'\r' ∷ []
    else if c == backslash
    then backslash ∷ []
    else if c == quote
    then quote ∷ []
    else if c == double_quote
    then double_quote ∷ []
    else backslash ∷ c ∷ []

abbrev pub behind_all : Str → Str × Str → Str × Str
behind_all s (front, rest) = (s ++ front, rest)

-- The inner loop of `tokenize_args`: a quoted text with its escapes, and what follows its closing quote.
-- The flag tells that a backslash has just been read.
unfoldable pub quoted : ℕ → Bool → Str → Option (Str × Str)
quoted q escape [] = none
quoted q escape (c ∷ s) =
    let later = quoted q (not escape && c == backslash) s in
    if escape
    then Option.map (behind_all (unescaped c)) later
    else if c == backslash
    then later
    else if c == q
    then some ([], s)
    else Option.map (behind c) later

abbrev pub token_then : Option (Str × Str) → (Str → Option (List Str)) → Option (List Str)
token_then none next = none
token_then (some (token, rest)) next = Option.map (◌∷◌ token) (next rest)

-- A bare run takes all that is left.
abbrev pub token_at : (space quote : Bool) → ℕ → Str → (Str → Option (List Str)) → Option (List Str)
token_at true opens c s next = next s
token_at false true c s next = token_then (quoted c false s) next
token_at false false c s next = some (trim (c ∷ s) ∷ [])

-- The outer loop.
unfoldable pub tokens : ℕ → Str → Option (List Str)
unfolding is_whitespace quoted trim
tokens zero s = none
tokens (suc n) [] = some []
tokens (suc n) (c ∷ s) = token_at (is_whitespace c) (is_quote c) c s (tokens n)

-- The fuel is one more than the characters, which each turn takes at least one of.
unfoldable pub tokenize_args : Str → Option (List Str)
unfolding tokens trim
tokenize_args args_part = tokens (suc (length (trim args_part))) (trim args_part)

abbrev parsed_args {ℓ} : {J : Type ℓ} → Str → Str → Option (List Str) → Option (ToolCall J)
parsed_args skill expectation none = none
parsed_args skill expectation (some args) = some (line_call skill args expectation)

abbrev parsed_rest {ℓ} : {J : Type ℓ} → Str → (Str → Str) → Option (Str × Str) → Option (ToolCall J)
parsed_rest skill finish none = none
parsed_rest skill finish (some (args_part, expectation)) =
    parsed_args skill (finish expectation) (tokenize_args args_part)

abbrev line_from {ℓ} : {J : Type ℓ} → Option (Str × Str) → Option (ToolCall J)
line_from none = none
line_from (some (skill, rest)) = parsed_rest skill trim (split_on_expectation (trim_start rest))

unfoldable pub parse_line {ℓ} : {J : Type ℓ} → Str → Option (ToolCall J)
unfolding take_skill_name split_on_expectation tokenize_args trim trim_start
parse_line line = line_from (take_skill_name (trim line))

abbrev pub walked : Quoting → Str → Quoting
walked state [] = state
walked state (c ∷ s) = walked (step state c) s

unfoldable pub quote_open_at_eol : Str → Bool
quote_open_at_eol s = not (is_outside (walked outside (first_line s)))

-- `lines().next().unwrap_or("").trim()`: the trim takes the carriage return that `lines` would.
abbrev pub first_trimmed : Str → Str
first_trimmed s = trim (first_line s)

abbrev multiline_from {ℓ} : {J : Type ℓ} → Option (Str × Str) → Option (ToolCall J)
multiline_from none = none
multiline_from (some (skill, rest)) =
    if quote_open_at_eol (trim_start rest)
    then parsed_rest skill first_trimmed (split_on_expectation (trim_start rest))
    else none

unfoldable pub parse_multiline {ℓ} : {J : Type ℓ} → Str → Option (ToolCall J)
unfolding take_skill_name split_on_expectation tokenize_args trim trim_start quote_open_at_eol
parse_multiline text = multiline_from (take_skill_name text)

abbrev pub escape : ℕ → Str
escape c =
    if c == backslash
    then backslash ∷ backslash ∷ []
    else if c == quote
    then backslash ∷ quote ∷ []
    else if c == b'\n'
    then backslash ∷ b'n' ∷ []
    else if c == b'\t'
    then backslash ∷ b't' ∷ []
    else c ∷ []

abbrev pub escapes : Str → Str
escapes [] = []
escapes (c ∷ s) = escape c ++ escapes s

abbrev pub render_args : List Str → Str
render_args [] = []
render_args (a ∷ args) = b' ' ∷ quote ∷ (escapes a ++ (quote ∷ render_args args))

unfoldable pub render : Str → List Str → Str
render skill raw_args = skill ++ render_args raw_args
