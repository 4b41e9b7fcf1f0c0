-- ===== src/Tests/OnCall.antt =====
-- A call that is rendered and read, one with no argument, a path with backslashes, and a JSON body that
-- lacks a brace.
use sica_rust.Prelude.{ℕ, false, true, Bool, Option, none, some, [], ◌∷◌, ◌++◌, ◌≡◌, ◌⊎◌, refl}
use sica_rust.Prelude.Str.{Str, str, str_eq}
use sica_rust.Prelude.Trim.{is_whitespace, trim_end}
use sica_rust.Call.Chars.{is_ascii_lowercase, is_ascii_digit}
use sica_rust.Call.Line.{ToolCall, line_call, is_valid_skill_name, parse_line, render}
use sica_rust.Call.RoundTrip.{parse_line-render, parse_line-no_args}
use sica_rust.Call.Verbatim.{parse_line_for}
use sica_rust.Call.AsWritten.{in_quotes, parse_line_for-verbatim}
use sica_rust.Call.Xml.{has_xml_wrapper, unwrap_xml_call}
use sica_rust.Call.Fence.{JsonOps, extract_json_fence, extract_json_envelope}
use sica_rust.Call.Extract.{extract_known}
use sica_rust.Call.Known.{extract_known-Known}

parse_line-render_example :
    parse_line {J = Str} (
      render (str "write-file") (str "a.txt" ∷ str "it's\n\\x" ∷ []) ++ (str " > " ++ str "check "))
    ≡ some (
        line_call (str "write-file") (str "a.txt" ∷ str "it's\n\\x" ∷ []) (trim_end (str "check ")))
unfolding is_valid_skill_name is_ascii_lowercase is_ascii_digit is_whitespace
parse_line-render_example =
    parse_line-render (str "write-file") (str "a.txt") (str "it's\n\\x" ∷ []) b'c' (str "heck ")
      refl refl

parse_line-no_args_example :
    parse_line {J = Str} (render (str "job-list") [] ++ (str " > " ++ str "status")) ≡ none
unfolding is_valid_skill_name is_ascii_lowercase is_ascii_digit is_whitespace
parse_line-no_args_example = parse_line-no_args (str "job-list") b's' (str "tatus") refl refl refl

abbrev one_each : Str → Option ℕ
one_each name = some 1

parse_line_for-verbatim_example :
    parse_line_for {J = Str} one_each
      (str "read-file" ++ (b' ' ∷ (in_quotes (str "C:\\new\\a") ++ (str " > " ++ str "x"))))
    ≡ some (line_call (str "read-file") (str "C:\\new\\a" ∷ []) (trim_end (str "x")))
unfolding is_valid_skill_name is_ascii_lowercase is_ascii_digit is_whitespace
parse_line_for-verbatim_example =
    parse_line_for-verbatim one_each (str "read-file") (str "C:\\new\\a") b'x' [] refl refl refl
      refl

-- A JSON library that reads nothing.
abbrev no_json : JsonOps Str
no_json = record {
  from_str = λ _. none;
  null = [];
  is_object = λ _. false;
  get = λ _ _. none;
  remove = λ _ v. v;
  as_str = λ _. none;
  values = λ _. [];
  to_string = λ v. v;
}

abbrev knows : Str → Bool
knows name = str_eq name (str "run-cli")

abbrev reply : Str
reply = str "cargo build > fine\nrun-cli 'ls' > list it"

abbrev found : ToolCall Str
found = line_call (str "run-cli") (str "ls" ∷ []) (str "list it")

extract_known-Known_example :
    (extract_json_fence no_json (unwrap_xml_call reply) ≡ some found)
    ⊎ ((has_xml_wrapper reply ≡ true)
        × (extract_json_envelope no_json (unwrap_xml_call reply) ≡ some found))
    ⊎ (knows (str "run-cli") ≡ true)
unfolding extract_known
extract_known-Known_example = extract_known-Known no_json knows reply found refl
