-- ===== src/Tests/OnStream.antt =====
-- A reply that comes in deltas cut inside its tags, and the fragments of two mixed calls.
use sica_rust.Prelude.{ℕ, false, Option, none, some, List, [], ◌∷◌, ◌≡◌, length}
use sica_rust.Prelude.Str.{Str, str}
use sica_rust.Stream.{feed}
use sica_rust.Stream.Scan.{scan, feed-scan}
use sica_rust.Stream.Chunks.{feed_all, concat, feed_all-concat}
use sica_rust.Stream.Sse.{SseEnvelope, ToolCallDelta, StreamChunk, sent}
use sica_rust.Turn.{accumulate, new_accum}
use sica_rust.Turn.Fragments.{
  slot, fragments_of, all_fragments, newest_id, joined_names, joined_arguments, accumulate-slot,
}
use sica_rust.Turn.Content.{fresh, raws, accumulate-content}

feed-scan_example :
    feed fresh (str "a<think>b</th")
    ≡ scan (length (str "a<think>b</th")) false (str "a<think>b</th")
feed-scan_example = feed-scan fresh (str "a<think>b</th")

abbrev deltas : List Str
deltas = str "nk>why</th" ∷ str "ink>so <b" ∷ []

feed_all-concat_example :
    feed_all fresh (str "hi <thi" ∷ deltas) ≡ feed fresh (concat (str "hi <thi" ∷ deltas))
feed_all-concat_example = feed_all-concat fresh (str "hi <thi") deltas

-- Events whose data is the text itself.
abbrev as_delta : Str → Option SseEnvelope
as_delta text = some (record {
  choices =
      record {
        delta = record { content = some text; reasoning_content = none; tool_calls = none };
        finish_reason = none;
      }
      ∷ [];
  usage = none;
})

abbrev events : List Str
events = str "hi <thi" ∷ str "nk>why</think>so" ∷ str "[DONE]" ∷ str "late" ∷ []

accumulate-content_example :
    (accumulate (sent as_delta fresh events) (new_accum 7)).content
    ≡ (feed fresh (concat (raws as_delta events))).content
accumulate-content_example = accumulate-content as_delta events 7

abbrev fragment : ℕ → Option Str → Option Str → Str → ToolCallDelta
fragment index id name arguments = record {
  index = index;
  id = id;
  name = name;
  arguments = arguments;
}

abbrev call_chunk : List ToolCallDelta → StreamChunk
call_chunk fragments = record {
  delta_content = [];
  delta_reasoning = [];
  delta_tool_calls = fragments;
  finish_reason = none;
  usage = none;
}

abbrev call_chunks : List StreamChunk
call_chunks =
    call_chunk (
      fragment 1 (some (str "b")) (some (str "glob")) (str "{")
      ∷ fragment 0 (some (str "a")) (some (str "grep")) []
      ∷ [])
    ∷ call_chunk (fragment 0 none none (str "{}") ∷ fragment 1 none none (str "}") ∷ [])
    ∷ []

accumulate-slot_example : slot 1 (accumulate call_chunks (new_accum 0)).tools ≡ record {
  id = newest_id (fragments_of 1 (all_fragments call_chunks)) [];
  name = joined_names (fragments_of 1 (all_fragments call_chunks));
  arguments = joined_arguments (fragments_of 1 (all_fragments call_chunks));
}
accumulate-slot_example = accumulate-slot call_chunks 0 1
