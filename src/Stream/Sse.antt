-- ===== src/Stream/Sse.antt =====
-- crates/llm/src/streaming.rs: one event of the stream, and the reasoning that had no opening tag.
-- crates/llm/src/client.rs: the loop over the events.
use sica_rust.Prelude.{
  ℕ, Bool, true, false, Option, none, some, List, [], ◌∷◌, ◌++◌, map, ◌&&◌, is_some, not,
  if◌then◌else◌, option_or,
}
use mathlib.Core.Option
use sica_rust.Prelude.Str.{Str, str, is_empty, str_eq}
use sica_rust.Prelude.Trim.{trim, trim_start}
use sica_rust.Prelude.Search.{split_once, contains}
use sica_rust.Budget.Tokens.{saturating_add}
use sica_rust.Stream.{ThinkSplitter, Fed, think_open, think_close, feed}

pub record Usage : Type 0 where
  pub prompt_tokens : ℕ
  pub completion_tokens : ℕ

abbrev pub total_usage : Usage → ℕ
total_usage u = saturating_add u.prompt_tokens u.completion_tokens

-- One fragment of a native tool call.
pub record ToolCallDelta : Type 0 where
  pub index : ℕ
  pub id : Option Str
  pub name : Option Str
  pub arguments : Str

pub record StreamChunk : Type 0 where
  pub delta_content : Str
  pub delta_reasoning : Str
  pub delta_tool_calls : List ToolCallDelta
  pub finish_reason : Option Str
  pub usage : Option Usage

-- The JSON of an event. A missing field is its default: 0, nothing, or the empty list.
pub record SseFunction : Type 0 where
  pub name : Option Str
  pub arguments : Option Str

pub record SseToolCallDelta : Type 0 where
  pub index : ℕ
  pub id : Option Str
  pub function : Option SseFunction

pub record SseDelta : Type 0 where
  pub content : Option Str
  pub reasoning_content : Option Str
  pub tool_calls : Option (List SseToolCallDelta)

pub record SseChoice : Type 0 where
  pub delta : SseDelta
  pub finish_reason : Option Str

pub record SseEnvelope : Type 0 where
  pub choices : List SseChoice
  pub usage : Option Usage

abbrev function_name : Option SseFunction → Option Str
function_name none = none
function_name (some f) = f.name

abbrev function_arguments : Option SseFunction → Str
function_arguments none = []
function_arguments (some f) = option_or f.arguments []

abbrev pub tool_call_delta : SseToolCallDelta → ToolCallDelta
tool_call_delta tc = record {
  index = tc.index;
  id = tc.id;
  name = function_name tc.function;
  arguments = function_arguments tc.function;
}

-- The server's own reasoning field goes under what the tags held, after a line break.
abbrev pub merge_reasoning : Str → Option Str → Str
merge_reasoning reasoning none = reasoning
merge_reasoning reasoning (some []) = reasoning
merge_reasoning [] (some (c ∷ rc)) = c ∷ rc
merge_reasoning (r ∷ reasoning) (some (c ∷ rc)) = (r ∷ reasoning) ++ (b'\n' ∷ c ∷ rc)

abbrev usage_chunk : Usage → StreamChunk
usage_chunk u = record {
  delta_content = [];
  delta_reasoning = [];
  delta_tool_calls = [];
  finish_reason = none;
  usage = some u;
}

abbrev pub no_calls : List ToolCallDelta → Bool
no_calls [] = true
no_calls (_ ∷ _) = false

-- A chunk that says nothing is dropped.
abbrev pub unless_empty : StreamChunk → Option StreamChunk
unless_empty chunk =
    if is_empty chunk.delta_content
      && is_empty chunk.delta_reasoning
      && no_calls chunk.delta_tool_calls
      && not (is_some chunk.finish_reason)
      && not (is_some chunk.usage)
    then none
    else some chunk

abbrev pub choice_chunk : Fed → SseChoice → Option Usage → StreamChunk
choice_chunk fed choice usage = record {
  delta_content = fed.content;
  delta_reasoning = merge_reasoning fed.reasoning choice.delta.reasoning_content;
  delta_tool_calls = map tool_call_delta (option_or choice.delta.tool_calls []);
  finish_reason = choice.finish_reason;
  usage = usage;
}

abbrev pub raw_content : SseChoice → Str
raw_content choice = option_or choice.delta.content []

abbrev pub envelope_chunk :
    List SseChoice → Option Usage → ThinkSplitter → ThinkSplitter × Option StreamChunk
envelope_chunk [] usage splitter = (splitter, Option.map usage_chunk usage)
envelope_chunk (choice ∷ others) usage splitter =
    let fed = feed splitter (raw_content choice) in
    (fed.splitter, unless_empty (choice_chunk fed choice usage))

-- `from_str` is `serde_json::from_str`.
abbrev pub parsed_chunk : Option SseEnvelope → ThinkSplitter → ThinkSplitter × Option StreamChunk
parsed_chunk none splitter = (splitter, none)
parsed_chunk (some env) splitter = envelope_chunk env.choices env.usage splitter

abbrev pub parse_sse_event :
    (Str → Option SseEnvelope) → Str → ThinkSplitter → ThinkSplitter × Option StreamChunk
parse_sse_event from_str json splitter = parsed_chunk (from_str json) splitter

abbrev pub push_chunk : Option StreamChunk → List StreamChunk → List StreamChunk
push_chunk none chunks = chunks
push_chunk (some chunk) chunks = chunk ∷ chunks

-- What the loop of `chat_stream` sends to its caller for the `data` of the events that arrive.
unfoldable pub sent : (Str → Option SseEnvelope) → ThinkSplitter → List Str → List StreamChunk
sent from_str splitter [] = []
sent from_str splitter (event ∷ events) =
    let parsed = parse_sse_event from_str event splitter in
    let rest = sent from_str parsed.0 events in
    if str_eq event (str "[DONE]") then [] else push_chunk parsed.1 rest

abbrev orphan_at : Option (Str × Str) → Option (Str × Str)
orphan_at none = none
orphan_at (some (front, after)) =
    if contains think_open front then none else some (trim_start after, trim front)

-- The answer and the reasoning of a text whose first closing tag has no opening tag before it.
unfoldable pub split_orphan_reasoning : Str → Option (Str × Str)
unfolding split_once trim trim_start
split_orphan_reasoning content = orphan_at (split_once think_close content)
