-- ===== src/Turn.antt =====
-- crates/agents/src/turn.rs: what a turn makes of the chunks of its stream. The interface's events,
-- the clock and the spawned task are not modelled.
pub mod Fragments
pub mod Content
use sica_rust.Prelude.{
  ℕ, zero, suc, Bool, true, false, Option, none, some, List, [], ◌∷◌, ◌++◌, ◌+◌, ◌&&◌, not, filter,
  map, if◌then◌else◌, ltb,
}
use sica_rust.Prelude.Str.{Str, str, is_empty, str_eq}
use sica_rust.Budget.Tokens.{u32, saturating_add, approx_tokens}
use sica_rust.Stream.Sse.{Usage, total_usage, ToolCallDelta, StreamChunk, split_orphan_reasoning}

pub record NativeToolCall : Type 0 where
  pub id : Str
  pub name : Str
  pub arguments : Str

abbrev pub empty_call : NativeToolCall
empty_call = record { id = []; name = []; arguments = [] }

-- The local variables of `run_turn`'s loop.
pub record Accum : Type 0 where
  pub content : Str
  pub reasoning : Str
  pub tools : List NativeToolCall
  pub final_reason : Str
  pub usage : Option Usage
  pub running : ℕ

abbrev pub new_accum : ℕ → Accum
new_accum initial = record {
  content = [];
  reasoning = [];
  tools = [];
  final_reason = str "stop";
  usage = none;
  running = initial;
}

abbrev pub fragment_id : Option Str → Str → Str
fragment_id none old = old
fragment_id (some id) old = id

abbrev pub fragment_name : Option Str → Str
fragment_name none = []
fragment_name (some name) = name

-- A fragment lands in the slot of its index.
abbrev pub extend_call : ToolCallDelta → NativeToolCall → NativeToolCall
extend_call tc slot = record {
  id = fragment_id tc.id slot.id;
  name = slot.name ++ fragment_name tc.name;
  arguments = slot.arguments ++ tc.arguments;
}

-- `accum_tools[idx]`, after empty calls are pushed until there is such a slot.
unfoldable pub with_slot :
    ℕ → (NativeToolCall → NativeToolCall) → List NativeToolCall → List NativeToolCall
with_slot zero f [] = f empty_call ∷ []
with_slot zero f (t ∷ tools) = f t ∷ tools
with_slot (suc i) f [] = empty_call ∷ with_slot i f []
with_slot (suc i) f (t ∷ tools) = t ∷ with_slot i f tools

unfoldable pub take_fragments : List ToolCallDelta → List NativeToolCall → List NativeToolCall
unfolding with_slot
take_fragments [] tools = tools
take_fragments (tc ∷ fragments) tools =
    take_fragments fragments (with_slot tc.index (extend_call tc) tools)

abbrev or_else {ℓ} : {A : Type ℓ} → Option A → A → A
or_else none old = old
or_else (some new) old = new

abbrev or_usage : Option Usage → Option Usage → Option Usage
or_usage none old = old
or_usage (some u) old = some u

-- One turn of the loop. The sum of the two prices wraps before it is added.
unfoldable pub take_chunk : StreamChunk → Accum → Accum
unfolding take_fragments with_slot approx_tokens
take_chunk chunk a = record {
  content = a.content ++ chunk.delta_content;
  reasoning = a.reasoning ++ chunk.delta_reasoning;
  tools = take_fragments chunk.delta_tool_calls a.tools;
  final_reason = or_else chunk.finish_reason a.final_reason;
  usage = or_usage chunk.usage a.usage;
  running =
      if is_empty chunk.delta_content && is_empty chunk.delta_reasoning
      then a.running
      else saturating_add a.running
          (u32 (approx_tokens chunk.delta_content + approx_tokens chunk.delta_reasoning));
}

unfoldable pub accumulate : List StreamChunk → Accum → Accum
unfolding take_chunk
accumulate [] a = a
accumulate (chunk ∷ chunks) a = accumulate chunks (take_chunk chunk a)

-- How the stream's task ended.
pub data StreamEnd : Type 0 where
  complete : StreamEnd
  failed : (error : Str) → StreamEnd
  panicked : (join : Str) → StreamEnd

abbrev pub turn_error : Bool → StreamEnd → Option Str
turn_error true end = none
turn_error false complete = none
turn_error false (failed error) = some error
turn_error false (panicked join) = some (str "chat_stream task panicked: " ++ join)

abbrev pub peel : Option (Str × Str) → Str → Str × Str
peel none content = (content, [])
peel (some split) content = split

-- The content and the reasoning, with reasoning that had no opening tag taken out of the content.
unfoldable pub halves : Str → Str → Str × Str
unfolding split_orphan_reasoning
halves content [] = peel (split_orphan_reasoning content) content
halves content (c ∷ reasoning) = (content, c ∷ reasoning)

abbrev pub error_reason : Option Str → Str → Str
error_reason none reason = reason
error_reason (some _) reason = str "error"

abbrev pub normalised : Str → Str
normalised reason = if str_eq reason (str "length") then str "max_tokens" else reason

pub record TurnOutput : Type 0 where
  pub content : Str
  pub reasoning : Str
  pub finish_reason : Str
  pub tool_calls : List NativeToolCall
  pub used_tokens : ℕ
  pub usage : Option Usage
  pub error : Option Str

-- The provider's count, unless it is 0; else the exact count of the transcript, or its price.
abbrev pub exact_or : Option ℕ → Str → ℕ
exact_or none full = approx_tokens full
exact_or (some n) full = n

abbrev pub final_used : Option Usage → Option ℕ → Str → ℕ
final_used none exact full = exact_or exact full
final_used (some u) exact full =
    if ltb 0 (total_usage u) then total_usage u else exact_or exact full

-- `tokenize_exact` is the server's answer, and `prompt` the texts of the request, one to a line.
unfoldable pub turn_output :
    (tokenize_exact : Str → Option ℕ) (prompt : Str) → Bool → StreamEnd → Accum → TurnOutput
unfolding halves
turn_output tokenize_exact prompt interrupted end a =
    let error = turn_error interrupted end in
    let reason = error_reason error (if interrupted then str "interrupted" else a.final_reason) in
    let both = halves a.content a.reasoning in
    let full = prompt ++ (b'\n' ∷ both.0) ++ (b'\n' ∷ both.1) in
    record {
      content = both.0;
      reasoning = both.1;
      finish_reason = normalised reason;
      tool_calls = filter (λ t. not (is_empty t.name)) a.tools;
      used_tokens = final_used a.usage (tokenize_exact full) full;
      usage = a.usage;
      error = error;
    }
