-- ===== src/Call/Fence.antt =====
-- crates/agents/src/parse_tool_call.rs: a call in JSON, and the repairs of a body that does not parse.
use sica_rust.Prelude.{
  ℕ, zero, suc, Bool, true, false, Option, none, some, ◌>>=◌, List, [], ◌∷◌, ◌++◌, ◌==◌, ◌&&◌, ◌||◌,
  ◌+◌, ◌/◌, ◌%◌, not, map, length, ltb, option_or, if◌then◌else◌,
}
use mathlib.Core.Option
use sica_rust.Prelude.Str.{Str, str, str_eq}
use sica_rust.Prelude.Search.{split_once, rsplit}
use sica_rust.Prelude.Trim.{trim}
use sica_rust.Call.Chars.{eq_ignore_ascii_case, double_quote, backslash}
use sica_rust.Call.Line.{ToolCall, is_valid_skill_name}
use sica_rust.Call.Xml.{skill_spelling}

abbrev fence_body : Str → Option (Str × Str) → (Str → Option Str) → Option Str
fence_body ticks none next = none
fence_body ticks (some (lang, after_lang)) next =
    if eq_ignore_ascii_case (trim lang) (str "tool_call")
    then Option.map (λ parts. parts.0) (split_once ticks after_lang)
    else next after_lang

abbrev fence_at : Str → Option (Str × Str) → (Str → Option Str) → Option Str
fence_at ticks none next = none
fence_at ticks (some (front, after_ticks)) next =
    fence_body ticks (split_once (str "\n") after_ticks) next

-- The loop of `json_fence_body`. Each turn takes three ticks at least off the text.
unfoldable pub fence_from : ℕ → Str → Option Str
unfolding split_once trim eq_ignore_ascii_case
fence_from zero rest = none
fence_from (suc n) rest = fence_at (str "```") (split_once (str "```") rest) (fence_from n)

unfoldable pub json_fence_body : Str → Option Str
unfolding fence_from
json_fence_body text = fence_from (suc (length text)) text

-- The state of `repair_json`: what closes the open brackets, the innermost first.
pub record Repair : Type 0 where
  pub brackets : List ℕ
  pub mismatched : Bool
  pub in_string : Bool
  pub escaped : Bool

abbrev pub start_repair : Repair
start_repair = record { brackets = []; mismatched = false; in_string = false; escaped = false }

abbrev pub hex_digit : ℕ → ℕ
hex_digit d = if ltb d 10 then b'0' + d else b'a' + d % 10

-- A control character in a string: one of the three short escapes, or `\u00xx`.
abbrev pub control_escape : ℕ → Str
control_escape c =
    if c == b'\n'
    then str "\\n"
    else if c == b'\r'
    then str "\\r"
    else if c == b'\t'
    then str "\\t"
    else str "\\u00" ++ (hex_digit (c / 16) ∷ hex_digit (c % 16) ∷ [])

abbrev pub pops : ℕ → List ℕ → Bool
pops c [] = false
pops c (d ∷ brackets) = c == d

abbrev pub popped : List ℕ → List ℕ
popped [] = []
popped (d ∷ brackets) = brackets

abbrev pub string_step : Repair → ℕ → Repair
string_step r c =
    if r.escaped
    then record {
      brackets = r.brackets;
      mismatched = r.mismatched;
      in_string = true;
      escaped = false;
    }
    else if c == backslash
    then record {
      brackets = r.brackets;
      mismatched = r.mismatched;
      in_string = true;
      escaped = true;
    }
    else record {
      brackets = r.brackets;
      mismatched = r.mismatched;
      in_string = not (c == double_quote);
      escaped = false;
    }

abbrev pub code_step : Repair → ℕ → Repair
code_step r c =
    if c == double_quote
    then record {
      brackets = r.brackets;
      mismatched = r.mismatched;
      in_string = true;
      escaped = r.escaped;
    }
    else if c == b'{'
    then record {
      brackets = b'}' ∷ r.brackets;
      mismatched = r.mismatched;
      in_string = false;
      escaped = r.escaped;
    }
    else if c == b'['
    then record {
      brackets = b']' ∷ r.brackets;
      mismatched = r.mismatched;
      in_string = false;
      escaped = r.escaped;
    }
    else if c == b'}' || c == b']'
    then record {
      brackets = popped r.brackets;
      mismatched = r.mismatched || not (pops c r.brackets);
      in_string = false;
      escaped = r.escaped;
    }
    else r

abbrev pub repair_step : Repair → ℕ → Repair
repair_step r c = if r.in_string then string_step r c else code_step r c

-- A raw control character in a string.
abbrev pub is_raw_control : Repair → ℕ → Bool
is_raw_control r c =
    r.in_string && not r.escaped && not (c == backslash) && not (c == double_quote) && ltb c b' '

abbrev pub repaired_char : Repair → ℕ → Str
repaired_char r c = if is_raw_control r c then control_escape c else c ∷ []

abbrev pub closers : Repair → Str
closers r = if not r.in_string && not r.mismatched then r.brackets else []

unfoldable pub repair_from : Repair → Str → Str
repair_from r [] = closers r
repair_from r (c ∷ s) = repaired_char r c ++ repair_from (repair_step r c) s

unfoldable pub repair_json : Str → Str
unfolding repair_from
repair_json body = repair_from start_repair body

-- What `serde_json` does. `get` looks a key up in an object, `remove` takes one out, and `values` are an
-- object's values; each gives nothing for what is no object.
pub record JsonOps {ℓ} (V : Type ℓ) : Type ℓ where
  pub from_str : Str → Option V
  pub null : V
  pub is_object : V → Bool
  pub get : Str → V → Option V
  pub remove : Str → V → V
  pub as_str : V → Option Str
  pub values : V → List V
  pub to_string : V → Str

abbrev pub or_value {ℓ} : {A : Type ℓ} → Option A → Option A → Option A
or_value none other = other
or_value (some a) other = some a

module _ {ℓ} {V : Type ℓ} (json : JsonOps V) where
  -- Strict first, then repaired, unless the repair changes nothing.
  unfoldable pub parse_json_lenient : Str → Option V
  unfolding repair_json str_eq
  parse_json_lenient body =
      let fixed = repair_json body in
      or_value (json.from_str body) (if str_eq fixed body then none else json.from_str fixed)

  abbrev text_or : V → Option Str → Str
  text_or v none = json.to_string v
  text_or v (some s) = s

  abbrev string_at : Str → V → Option Str
  string_at key v = json.get key v >>= json.as_str

  abbrev body_call : V → Str → Str → Option Str → ToolCall V
  body_call args skill [] (some inner) = record {
    skill = skill;
    raw_args =
        map (λ v. text_or v (json.as_str v)) (json.values (json.remove (str "expectation") args));
    expectation = inner;
    args_json = some (json.remove (str "expectation") args);
    named = [];
  }
  body_call args skill expectation _ = record {
    skill = skill;
    raw_args = map (λ v. text_or v (json.as_str v)) (json.values (without_expectation expectation));
    expectation = expectation;
    args_json = some (without_expectation expectation);
    named = [];
  }
    where
      without_expectation : Str → V
      without_expectation [] = json.remove (str "expectation") args
      without_expectation (_ ∷ _) = args

  abbrev body_skill : V → Option Str → Option (ToolCall V)
  body_skill obj none = none
  body_skill obj (some name) =
      let args =
        option_or (or_value (json.get (str "args") obj) (json.get (str "arguments") obj))
          json.null in
      if is_valid_skill_name (skill_spelling name)
      then some (
          body_call args (skill_spelling name) (option_or (string_at (str "expectation") obj) [])
            (string_at (str "expectation") args))
      else none

  abbrev body_value : Option V → Option (ToolCall V)
  body_value none = none
  body_value (some obj) =
      if json.is_object obj
      then body_skill obj
          (or_value (json.get (str "skill") obj) (json.get (str "name") obj) >>= json.as_str)
      else none

  -- `parse_json_body`, without the reason of a refusal.
  unfoldable pub parse_json_body : Str → Option (ToolCall V)
  unfolding parse_json_lenient skill_spelling is_valid_skill_name trim
  parse_json_body body = body_value (parse_json_lenient (trim body))

  unfoldable pub extract_json_fence : Str → Option (ToolCall V)
  unfolding json_fence_body parse_json_body
  extract_json_fence text = json_fence_body text >>= parse_json_body

  abbrev envelope_end : Option (Str × Str) → Option (ToolCall V)
  envelope_end none = none
  envelope_end (some (front, rest)) = parse_json_body (b'{' ∷ (front ++ (b'}' ∷ [])))

  abbrev envelope_start : Option (Str × Str) → Option (ToolCall V)
  envelope_start none = none
  envelope_start (some (front, rest)) = envelope_end (rsplit b'}' rest)

  -- From the first `{` to the last `}`, which must come after it.
  unfoldable pub extract_json_envelope : Str → Option (ToolCall V)
  unfolding parse_json_body split_once
  extract_json_envelope text = envelope_start (split_once (str "{") text)
