-- ===== src/Call/Extract.antt =====
-- crates/agents/src/parse_tool_call.rs: the first call in a reply.
use sica_rust.Prelude.{
  ℕ, Bool, true, false, Option, none, some, List, [], ◌∷◌, ◌++◌, ◌==◌, ◌&&◌, ◌||◌, not, any, filter,
  map, is_some, if◌then◌else◌,
}
use sica_rust.Prelude.Str.{Str, str, is_empty}
use sica_rust.Prelude.Search.{starts_with, strip_prefix, contains, split_once}
use sica_rust.Prelude.Trim.{is_whitespace, trim, trim_start}
use sica_rust.Call.Line.{
  ToolCall, line_call, is_valid_skill_name, take_skill_name, parse_line, parse_multiline,
}
use sica_rust.Call.Verbatim.{starts_with_quote, bare_args, parse_line_for, parse_multiline_for}
use sica_rust.Call.Xml.{
  XmlTag, function_open, xml_tag_at, has_xml_wrapper, unwrap_xml_call, wrapper_functions,
  skill_spelling, cut_at_tag, extract_xml_params,
}
use sica_rust.Call.Fence.{JsonOps, extract_json_fence, extract_json_envelope}

-- A line of a text, and the text from its start on.
abbrev pub Line : Type 0
Line = Str × Str

abbrev lines_cons : ℕ → Str → List Line → List Line
lines_cons c s [] = (c ∷ [], c ∷ s) ∷ []
lines_cons c s ((line, rest) ∷ lines) =
    if c == b'\n' then ([], c ∷ s) ∷ (line, rest) ∷ lines else (c ∷ line, c ∷ s) ∷ lines

-- `text.split('\n')`.
unfoldable pub lines_of : Str → List Line
lines_of [] = ([], []) ∷ []
lines_of (c ∷ s) = lines_cons c s (lines_of s)

unfoldable pub strip_fence_indent : Str → Str
unfolding trim_start
strip_fence_indent line = if starts_with (str "```") (trim_start line) then [] else trim_start line

module _ {ℓ} {V : Type ℓ} where
  -- A call that is let through.
  abbrev pub admitted : (Str → Bool) → Option (ToolCall V) → Option (ToolCall V)
  admitted is_known none = none
  admitted is_known (some tc) = if is_known tc.skill then some tc else none

  abbrev pub first_of : Option (ToolCall V) → Option (ToolCall V) → Option (ToolCall V)
  first_of none later = later
  first_of (some tc) later = some tc

  -- A line that is a call to an unknown name is not read again as the start of a longer one.
  abbrev pub line_or_more :
      (Str → Bool)
      → Option (ToolCall V)
      → (Str → Option (ToolCall V))
      → Str
      → Str
      → Option (ToolCall V)
  line_or_more is_known (some tc) multi trimmed from_line = admitted is_known (some tc)
  line_or_more is_known none multi trimmed from_line =
      if is_empty trimmed then none else admitted is_known (multi (trim_start from_line))

  -- The loop over the lines, with the two parsers that `extract_known` or `extract_for` use.
  unfoldable pub scan_lines :
      (single multi : Str → Option (ToolCall V)) → (Str → Bool) → List Line → Option (ToolCall V)
  unfolding strip_fence_indent trim_start
  scan_lines single multi is_known [] = none
  scan_lines single multi is_known ((line, from_line) ∷ lines) =
      let trimmed = strip_fence_indent line in
      first_of (line_or_more is_known (single trimmed) multi trimmed from_line)
        (scan_lines single multi is_known lines)

module _ {ℓ} {V : Type ℓ} (json : JsonOps V) where
  abbrev json_call : (wrapped : Bool) → Str → Option (ToolCall V)
  json_call wrapped text =
      first_of (extract_json_fence json text)
        (if wrapped then extract_json_envelope json text else none)

  unfoldable pub extract_known : (Str → Bool) → Str → Option (ToolCall V)
  unfolding has_xml_wrapper unwrap_xml_call extract_json_fence extract_json_envelope scan_lines
      lines_of parse_line parse_multiline
  extract_known is_known text =
      let unwrapped = unwrap_xml_call text in
      first_of (json_call (has_xml_wrapper text) unwrapped)
        (scan_lines parse_line parse_multiline is_known (lines_of unwrapped))

  unfoldable pub extract : Str → Option (ToolCall V)
  unfolding extract_known
  extract text = extract_known (λ _. true) text

abbrev starts_word : Option Str → Bool
starts_word none = false
starts_word (some []) = true
starts_word (some (c ∷ s)) = is_whitespace c

abbrev last_only : List Str → List Str
last_only [] = []
last_only (line ∷ []) = line ∷ []
last_only (line ∷ next ∷ lines) = last_only (next ∷ lines)

abbrev candidates : List Str → List Str → List Str
candidates [] lines = last_only lines
candidates (f ∷ functions) lines =
    filter (λ line. any (λ name. starts_word (strip_prefix name line)) (f ∷ functions)) lines

module _ {ℓ} {V : Type ℓ} (arity : Str → Option ℕ) where
  abbrev body_line : Str → Str → Option (ToolCall V)
  body_line skill body =
      let line = skill ++ (b' ' ∷ body) in
      if any (λ c. c == b'\n') body
      then parse_multiline_for arity line
      else parse_line_for arity line

  abbrev args_call : Str → Option (List Str) → Option (ToolCall V)
  args_call skill none = none
  args_call skill (some args) = some (line_call skill args [])

  abbrev body_found : Str → ℕ → Str → Option (ToolCall V)
  body_found skill n body = first_of (body_line skill body) (
      first_of (args_call skill (bare_args body n)) (
        if n == 1 && not (starts_with_quote body)
        then some (line_call skill (body ∷ []) [])
        else none))

  abbrev body_call : Str → ℕ → Str → Option (ToolCall V)
  body_call skill n body =
      if is_empty body || contains (str "<function=") body || starts_with (str "<parameter=") body
      then none
      else body_found skill n body

  abbrev block_call : Str → Option ℕ → Option (Str × Str) → Option (ToolCall V)
  block_call skill (some n) (some (body, rest)) = body_call skill n (trim body)
  block_call skill _ _ = none

  abbrev opener_call : Option (XmlTag × Str) → Option (ToolCall V)
  opener_call (some (function_open name, rest)) =
      block_call (skill_spelling name) (arity (skill_spelling name))
        (cut_at_tag (str "</function>" ∷ str "</tool_call>" ∷ []) rest)
  opener_call _ = none

  unfoldable pub extract_function_body : Str → Option (ToolCall V)
  unfolding xml_tag_at skill_spelling trim parse_multiline_for parse_line_for bare_args split_once
  extract_function_body [] = none
  extract_function_body (c ∷ s) =
      first_of (opener_call (xml_tag_at (c ∷ s))) (extract_function_body s)

  abbrev bare_rest : Str → ℕ → Str → Option (ToolCall V)
  bare_rest skill n [] = some (line_call skill [] [])
  bare_rest skill n (c ∷ rest) = args_call skill (bare_args (c ∷ rest) n)

  abbrev bare_of : Str → Option ℕ → Str → Option (ToolCall V)
  bare_of skill none rest = none
  bare_of skill (some n) rest = bare_rest skill n (trim rest)

  abbrev bare_line : Str → Option (Str × Str) → Option (ToolCall V)
  bare_line line (some (skill, rest)) = bare_of skill (arity skill) rest
  bare_line line none = if is_valid_skill_name line then bare_of line (arity line) [] else none

  abbrev first_bare : List Str → Option (ToolCall V)
  first_bare [] = none
  first_bare (line ∷ lines) = first_of (bare_line line (take_skill_name line)) (first_bare lines)

  -- `lines()` differs from a split at the line breaks by a carriage return, which is trimmed, and an
  -- empty last line, which is dropped.
  unfoldable pub bare_call : Str → List Str → Option (ToolCall V)
  unfolding lines_of strip_fence_indent trim take_skill_name bare_args is_valid_skill_name
  bare_call text functions = first_bare (
      candidates functions (
        filter (λ line. not (is_empty line))
          (map (λ line. trim (strip_fence_indent line.0)) (lines_of text))))

module _ {ℓ} {V : Type ℓ} (json : JsonOps V) (arity : Str → Option ℕ) where
  -- What `extract_for` reads in a text whose wrapper has been taken off.
  abbrev unwrapped_call : Str → Str → Option (ToolCall V)
  unwrapped_call raw text = first_of (json_call json (has_xml_wrapper raw) text) (
      first_of
        (scan_lines (parse_line_for arity) (parse_multiline_for arity)
          (λ name. is_some (arity name)) (lines_of text))
        (first_of (extract_function_body arity raw) (bare_call arity text (wrapper_functions raw))))

  unfoldable pub extract_for : Str → Option (ToolCall V)
  unfolding extract_xml_params has_xml_wrapper unwrap_xml_call extract_json_fence
      extract_json_envelope scan_lines lines_of parse_line_for parse_multiline_for
      extract_function_body bare_call wrapper_functions
  extract_for text = first_of (extract_xml_params text) (unwrapped_call text (unwrap_xml_call text))
