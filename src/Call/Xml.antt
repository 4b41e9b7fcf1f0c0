-- ===== src/Call/Xml.antt =====
-- crates/agents/src/parse_tool_call.rs: the wrappers that chat templates put around a call. Where the
-- source has the byte position of a tag, or of its end, the model has the text from there on.
use sica_rust.Prelude.{
  ℕ, zero, suc, Bool, true, false, Option, none, some, List, [], ◌∷◌, ◌++◌, ◌==◌, ◌&&◌, ◌||◌, not,
  any, map, length, is_some, if◌then◌else◌,
}
use mathlib.Core.Option
use sica_rust.Prelude.Str.{Str, str, str_eq, is_empty}
use sica_rust.Prelude.Search.{behind, strip_prefix, starts_with, split_once}
use sica_rust.Prelude.Trim.{is_whitespace, trim, trim_start}
use sica_rust.Call.Chars.{is_ascii_alphanumeric, eq_ignore_ascii_case}
use sica_rust.Call.Line.{ToolCall, is_valid_skill_name}

-- The longest start of a text whose characters pass a test, and the rest.
abbrev pub span : (ℕ → Bool) → Str → Str × Str
span p [] = ([], [])
span p (c ∷ s) = let rest = span p s in if p c then behind c rest else ([], c ∷ s)

pub data XmlTag : Type 0 where
  envelope : XmlTag
  function_open : (name : Str) → XmlTag
  function_close : XmlTag

abbrev closed_tag : XmlTag → Option Str → Option (XmlTag × Str)
closed_tag tag none = none
closed_tag tag (some rest) = some (tag, rest)

abbrev named_tag : Str × Str → Option (XmlTag × Str)
named_tag ([], rest) = none
named_tag (c ∷ name, rest) =
    closed_tag (function_open (c ∷ name)) (strip_prefix (str ">") (trim_start rest))

abbrev opened_tag : Option Str → Option (XmlTag × Str)
opened_tag none = none
opened_tag (some after_eq) =
    named_tag (span (λ c. not (is_whitespace c || c == b'>' || c == b'<')) (trim_start after_eq))

abbrev word_tag : (closing : Bool) → Str × Str → Option (XmlTag × Str)
word_tag closing (word, after_word) =
    let rest = trim_start after_word in
    if eq_ignore_ascii_case word (str "tool_call")
    then closed_tag envelope (strip_prefix (str ">") rest)
    else if not (eq_ignore_ascii_case word (str "function"))
    then none
    else if closing
    then closed_tag function_close (strip_prefix (str ">") rest)
    else opened_tag (strip_prefix (str "=") rest)

abbrev word_span : Str → Str × Str
word_span s = span (λ c. is_ascii_alphanumeric c || c == b'_') s

abbrev slash_tag : Str → Option Str → Option (XmlTag × Str)
slash_tag s none = word_tag false (word_span s)
slash_tag s (some r) = word_tag true (word_span (trim_start r))

abbrev angle_tag : Option Str → Option (XmlTag × Str)
angle_tag none = none
angle_tag (some s) = slash_tag (trim_start s) (strip_prefix (str "/") (trim_start s))

-- `xml_tag_at`: a tag that a text starts with, and the text after it.
unfoldable pub xml_tag_at : Str → Option (XmlTag × Str)
unfolding trim_start is_whitespace is_ascii_alphanumeric eq_ignore_ascii_case
xml_tag_at s = angle_tag (strip_prefix (str "<") s)

unfoldable pub has_xml_wrapper : Str → Bool
unfolding xml_tag_at
has_xml_wrapper [] = false
has_xml_wrapper (c ∷ s) = (c == b'<' && is_some (xml_tag_at (c ∷ s))) || has_xml_wrapper s

abbrev dash : ℕ → ℕ
dash c = if c == b'_' then b'-' else c

unfoldable pub skill_spelling : Str → Str
unfolding trim
skill_spelling name = map dash (trim name)

abbrev tag_text : XmlTag → Str
tag_text envelope = b'\n' ∷ []
tag_text function_close = b'\n' ∷ []
tag_text (function_open name) = skill_spelling name ++ (b' ' ∷ [])

abbrev unwrap_at : ℕ → Str → Option (XmlTag × Str) → (Str → Str) → Str
unwrap_at c s none next = c ∷ next s
unwrap_at c s (some (tag, rest)) next = tag_text tag ++ next rest

-- The loop of `unwrap_xml_call`. Each turn takes a character at least.
unfoldable pub unwrap_from : ℕ → Str → Str
unfolding xml_tag_at skill_spelling
unwrap_from zero s = []
unwrap_from (suc n) [] = []
unwrap_from (suc n) (c ∷ s) = unwrap_at c s (xml_tag_at (c ∷ s)) (unwrap_from n)

unfoldable pub unwrap_xml_call : Str → Str
unfolding has_xml_wrapper unwrap_from
unwrap_xml_call text = if has_xml_wrapper text then unwrap_from (length text) text else text

abbrev opener_name : Option (XmlTag × Str) → List Str → List Str
opener_name (some (function_open name, rest)) names = skill_spelling name ∷ names
opener_name _ names = names

unfoldable pub wrapper_functions : Str → List Str
unfolding xml_tag_at skill_spelling
wrapper_functions [] = []
wrapper_functions (c ∷ s) = opener_name (xml_tag_at (c ∷ s)) (wrapper_functions s)

-- A text cut where the first of some tags starts.
abbrev pub cut_at_tag : List Str → Str → Option (Str × Str)
cut_at_tag tags [] = none
cut_at_tag tags (c ∷ s) =
    let later = cut_at_tag tags s in
    if any (λ tag. starts_with tag (c ∷ s)) tags
    then some ([], c ∷ s)
    else Option.map (behind c) later

abbrev cut_or_all : Str → Option (Str × Str) → Str × Str
cut_or_all s none = (s, [])
cut_or_all s (some parts) = parts

abbrev value_from : Str → Option (Str × Str) → Str × Str
value_from s (some parts) = parts
value_from s none =
    cut_or_all s (cut_at_tag (str "<parameter=" ∷ str "</function>" ∷ str "</tool_call>" ∷ []) s)

abbrev or_text : Option Str → Str → Str
or_text none s = s
or_text (some t) s = t

abbrev reverse_onto : Str → Str → Str
reverse_onto [] t = t
reverse_onto (c ∷ s) t = reverse_onto s (c ∷ t)

abbrev strip_suffix : Str → Str → Option Str
strip_suffix p s =
    Option.map (λ r. reverse_onto r []) (strip_prefix (reverse_onto p []) (reverse_onto s []))

abbrev or_stripped : Option Str → Option Str → Str → Str
or_stripped none other s = or_text other s
or_stripped (some t) other s = t

abbrev without_last_break : Str → Str
without_last_break v = or_stripped (strip_suffix (str "\r\n") v) (strip_suffix (str "\n") v) v

-- A value less the one line break at each end that the template writes.
unfoldable pub strip_template_breaks : Str → Str
strip_template_breaks value =
    without_last_break
      (or_stripped (strip_prefix (str "\r\n") value) (strip_prefix (str "\n") value) value)

abbrev param_then : Str → Str × Str → (Str → List (Str × Str)) → List (Str × Str)
param_then key (value, rest) next =
    if is_empty key then [] else (key, strip_template_breaks value) ∷ next rest

abbrev param_key : Option (Str × Str) → (Str → List (Str × Str)) → List (Str × Str)
param_key none next = []
param_key (some (key, value_on)) next =
    param_then (trim key) (value_from value_on (split_once (str "</parameter>") value_on)) next

abbrev param_at : Option Str → (Str → List (Str × Str)) → List (Str × Str)
param_at none next = []
param_at (some after) next = param_key (split_once (str ">") after) next

unfoldable pub params_from : ℕ → Str → List (Str × Str)
unfolding trim trim_start split_once strip_template_breaks
params_from zero body = []
params_from (suc n) body =
    param_at (strip_prefix (str "<parameter=") (trim_start body)) (params_from n)

-- Each parameter takes a tag at least off the body.
unfoldable pub xml_params : Str → List (Str × Str)
unfolding params_from
xml_params body = params_from (length body) body

abbrev is_expectation : Str → Bool
is_expectation key = str_eq key (str "expectation")

abbrev pub named_params : List (Str × Str) → List (Str × Str)
named_params [] = []
named_params ((key, value) ∷ params) =
    if is_expectation key then named_params params else (key, value) ∷ named_params params

-- The newest parameter of that name wins.
abbrev pub expectation_param : List (Str × Str) → Str → Str
expectation_param [] old = old
expectation_param ((key, value) ∷ params) old =
    expectation_param params (if is_expectation key then trim value else old)

abbrev params_call {ℓ} : {J : Type ℓ} → Str → List (Str × Str) → ToolCall J
params_call skill params = record {
  skill = skill;
  raw_args = map (λ kv. kv.1) (named_params params);
  expectation = expectation_param params [];
  args_json = none;
  named = named_params params;
}

abbrev params_found {ℓ} :
    {J : Type ℓ} → Str → List (Str × Str) → Option (ToolCall J) → Option (ToolCall J)
params_found skill [] later = later
params_found skill (p ∷ params) later =
    if is_valid_skill_name skill then some (params_call skill (p ∷ params)) else none

abbrev params_at {ℓ} :
    {J : Type ℓ} → Option (XmlTag × Str) → Option (ToolCall J) → Option (ToolCall J)
params_at (some (function_open name, rest)) later =
    params_found (skill_spelling name) (xml_params rest) later
params_at _ later = later

unfoldable pub extract_xml_params {ℓ} : {J : Type ℓ} → Str → Option (ToolCall J)
unfolding xml_tag_at xml_params skill_spelling is_valid_skill_name trim
extract_xml_params [] = none
extract_xml_params (c ∷ s) = params_at (xml_tag_at (c ∷ s)) (extract_xml_params s)
