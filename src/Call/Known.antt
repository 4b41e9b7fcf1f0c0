-- ===== src/Call/Known.antt =====
-- crates/agents/src/parse_tool_call.rs: a call that is found by reading lines is to a known name.
use sica_rust.Prelude.{
  Bool, true, false, Option, none, some, List, [], ◌∷◌, ◌≡◌, ◌⊎◌, inl, inr, refl, ap, sym, ◌∙◌,
  arith, if◌then◌else◌,
}
use sica_rust.Prelude.Str.{Str, is_empty}
use sica_rust.Prelude.Trim.{trim_start}
use sica_rust.Call.Line.{ToolCall, parse_line, parse_multiline}
use sica_rust.Call.Xml.{has_xml_wrapper, unwrap_xml_call}
use sica_rust.Call.Fence.{JsonOps, extract_json_fence, extract_json_envelope}
use sica_rust.Call.Extract.{
  Line, admitted, first_of, line_or_more, scan_lines, strip_fence_indent, lines_of, extract_known,
}

module _ {ℓ} {V : Type ℓ} where
  first_of-or :
      (a b : Option (ToolCall V)) (tc : ToolCall V)
      → first_of a b ≡ some tc
      → (a ≡ some tc) ⊎ (b ≡ some tc)
  first_of-or none b tc h = inr h
  first_of-or (some x) b tc h = inl h

  abbrev is_known_at : (Str → Bool) → Option (ToolCall V) → Bool
  is_known_at is_known none = false
  is_known_at is_known (some tc) = is_known tc.skill

  admitted-Known :
      (is_known : Str → Bool) (found : Option (ToolCall V)) (tc : ToolCall V)
      → admitted is_known found ≡ some tc
      → is_known tc.skill ≡ true
  admitted-Known is_known none tc h = ground (arith, h)
  admitted-Known is_known (some x) tc h = at (is_known x.skill) refl h
    where
      at :
          (b : Bool)
          → is_known x.skill ≡ b
          → (if b then some x else none) ≡ some tc
          → is_known tc.skill ≡ true
      at true e k = sym (ap (is_known_at is_known) k) ∙ e
      at false e k = ground (arith, k)

  line_or_more-Known :
      (is_known : Str → Bool) (single : Option (ToolCall V)) (multi : Str → Option (ToolCall V))
      (trimmed from_line : Str) (tc : ToolCall V)
      → line_or_more is_known single multi trimmed from_line ≡ some tc
      → is_known tc.skill ≡ true
  line_or_more-Known is_known (some x) multi trimmed from_line tc h =
      admitted-Known is_known (some x) tc h
  line_or_more-Known is_known none multi trimmed from_line tc h = at (is_empty trimmed) h
    where
      at :
          (b : Bool)
          → (if b then none else admitted is_known (multi (trim_start from_line))) ≡ some tc
          → is_known tc.skill ≡ true
      at true k = ground (arith, k)
      at false k = admitted-Known is_known (multi (trim_start from_line)) tc k

  scan_lines-Known :
      (single multi : Str → Option (ToolCall V)) (is_known : Str → Bool) (lines : List Line)
      (tc : ToolCall V)
      → scan_lines single multi is_known lines ≡ some tc
      → is_known tc.skill ≡ true
  unfolding scan_lines
  scan_lines-Known single multi is_known [] tc h = ground (arith, h)
  scan_lines-Known single multi is_known ((line, from_line) ∷ lines) tc h =
      let trimmed = strip_fence_indent line in
      elim (first_of-or (line_or_more is_known (single trimmed) multi trimmed from_line)
        (scan_lines single multi is_known lines) tc h) [
          | inl k ↦ line_or_more-Known is_known (single trimmed) multi trimmed from_line tc k
          | inr k ↦ scan_lines-Known single multi is_known lines tc k
        ]

-- A call that `extract_known` finds in a reply was written as JSON, in a `tool_call` fence or, in a
-- reply that has a wrapper, between braces; or the name it calls is known. No line of prose that looks
-- like a call to another name is one.
pub extract_known-Known {ℓ} :
    {V : Type ℓ} (json : JsonOps V) (is_known : Str → Bool) (text : Str) (tc : ToolCall V)
    → extract_known json is_known text ≡ some tc
    → (extract_json_fence json (unwrap_xml_call text) ≡ some tc)
      ⊎ ((has_xml_wrapper text ≡ true)
          × (extract_json_envelope json (unwrap_xml_call text) ≡ some tc))
      ⊎ (is_known tc.skill ≡ true)
unfolding extract_known
extract_known-Known {V = V} json is_known text tc h =
    let unwrapped = unwrap_xml_call text in
    let fence = extract_json_fence json unwrapped in
    let envelope = extract_json_envelope json unwrapped in
    let lines = scan_lines parse_line parse_multiline is_known (lines_of unwrapped) in
    let wrapped = has_xml_wrapper text in
    elim (first_of-or (first_of fence (if wrapped then envelope else none)) lines tc h) [
      | inl k ↦ elim (first_of-or fence (if wrapped then envelope else none) tc k) [
        | inl in_fence ↦ inl in_fence
        | inr braced ↦ inr (inl (when_wrapped wrapped envelope braced))
      ]
      | inr k ↦
          inr (inr (scan_lines-Known parse_line parse_multiline is_known (lines_of unwrapped) tc k))
    ]
  where
    when_wrapped :
        (b : Bool) (envelope : Option (ToolCall V))
        → (if b then envelope else none) ≡ some tc
        → (b ≡ true) × (envelope ≡ some tc)
    when_wrapped true envelope k = (refl, k)
    when_wrapped false envelope k = ground (arith, k)
