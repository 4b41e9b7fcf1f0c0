-- ===== src/Turn/Content.antt =====
-- crates/agents/src/turn.rs, crates/llm/src/streaming.rs: from the events of a stream to the text
-- of a turn.
use sica_rust.Prelude.{
  ℕ, Bool, true, false, Option, none, some, List, [], ◌∷◌, ◌++◌, ◌≡◌, refl, ap, sym, ◌∙◌, arith,
  if◌then◌else◌, ◌&&◌, not, is_some,
}
use mathlib.Core.List.{append-nil, append_assoc}
use sica_rust.Prelude.Str.{Str, str, str_eq, is_empty}
use sica_rust.Stream.{ThinkSplitter, feed}
use sica_rust.Stream.Chunks.{feed_all, feed_all-concat, concat}
use sica_rust.Stream.Sse.{
  SseEnvelope, SseChoice, StreamChunk, Usage, raw_content, sent, unless_empty, no_calls,
  choice_chunk, push_chunk, envelope_chunk, parsed_chunk,
}
use sica_rust.Turn.{Accum, take_chunk, accumulate, new_accum}

abbrev choices_raws : List SseChoice → List Str → List Str
choices_raws [] later = later
choices_raws (choice ∷ others) later = raw_content choice ∷ later

abbrev event_raws : Option SseEnvelope → List Str → List Str
event_raws none later = later
event_raws (some env) later = choices_raws env.choices later

-- The deltas of the choices that events carry, up to the event that ends the stream.
abbrev pub raws : (Str → Option SseEnvelope) → List Str → List Str
raws from_str [] = []
raws from_str (event ∷ events) =
    if str_eq event (str "[DONE]") then [] else event_raws (from_str event) (raws from_str events)

is_empty-nil : (s : Str) → is_empty s ≡ true → s ≡ []
is_empty-nil [] h = refl
is_empty-nil (c ∷ s) h = ground (arith, h)

-- The content of a stream's chunks.
abbrev pub contents : List StreamChunk → Str
contents [] = []
contents (chunk ∷ chunks) = chunk.delta_content ++ contents chunks

accumulate-contents :
    (chunks : List StreamChunk) (a : Accum)
    → (accumulate chunks a).content ≡ a.content ++ contents chunks
unfolding accumulate take_chunk
accumulate-contents [] a = sym (append-nil a.content)
accumulate-contents (chunk ∷ chunks) a =
    accumulate-contents chunks (take_chunk chunk a)
    ∙ append_assoc a.content chunk.delta_content (contents chunks)

-- A chunk that is dropped has no content.
contents-unless_empty :
    (chunk : StreamChunk) (chunks : List StreamChunk)
    → contents (push_chunk (unless_empty chunk) chunks) ≡ chunk.delta_content ++ contents chunks
contents-unless_empty chunk chunks =
    drop
      (is_empty chunk.delta_content
        && is_empty chunk.delta_reasoning
        && no_calls chunk.delta_tool_calls
        && not (is_some chunk.finish_reason)
        && not (is_some chunk.usage))
      (λ h. is_empty-nil chunk.delta_content (ground (arith, h)))
  where
    drop :
        (b : Bool)
        → (b ≡ true → chunk.delta_content ≡ [])
        → contents (push_chunk (if b then none else some chunk) chunks)
          ≡ chunk.delta_content ++ contents chunks
    drop false h = refl
    drop true h = rw (h refl) refl

contents-envelope :
    (from_str : Str → Option SseEnvelope) (splitter : ThinkSplitter) (events later : List Str)
    (choices : List SseChoice) (usage : Option Usage)
    → ((sp : ThinkSplitter) → contents (sent from_str sp events) ≡ (feed_all sp later).content)
    → contents (
        push_chunk
          (envelope_chunk choices usage splitter).1
          (sent from_str (envelope_chunk choices usage splitter).0 events))
      ≡ (feed_all splitter (choices_raws choices later)).content
contents-envelope from_str splitter events later [] none ih = ih splitter
contents-envelope from_str splitter events later [] (some u) ih = ih splitter
contents-envelope from_str splitter events later (choice ∷ others) usage ih =
    let fed = feed splitter (raw_content choice) in
    contents-unless_empty (choice_chunk fed choice usage) (sent from_str fed.splitter events)
    ∙ ap (◌++◌ fed.content) (ih fed.splitter)

contents-event :
    (from_str : Str → Option SseEnvelope) (splitter : ThinkSplitter) (events later : List Str)
    (env : Option SseEnvelope)
    → ((sp : ThinkSplitter) → contents (sent from_str sp events) ≡ (feed_all sp later).content)
    → contents (
        push_chunk
          (parsed_chunk env splitter).1
          (sent from_str (parsed_chunk env splitter).0 events))
      ≡ (feed_all splitter (event_raws env later)).content
contents-event from_str splitter events later none ih = ih splitter
contents-event from_str splitter events later (some env) ih =
    contents-envelope from_str splitter events later env.choices env.usage ih

contents-sent :
    (from_str : Str → Option SseEnvelope) (events : List Str) (splitter : ThinkSplitter)
    → contents (sent from_str splitter events) ≡ (feed_all splitter (raws from_str events)).content
unfolding sent
contents-sent from_str [] splitter = refl
contents-sent from_str (event ∷ events) splitter = at (str_eq event (str "[DONE]")) (
    contents-event from_str splitter events (raws from_str events) (from_str event)
      (contents-sent from_str events))
  where
    at :
        (b : Bool)
        → contents (
            push_chunk
              (parsed_chunk (from_str event) splitter).1
              (sent from_str (parsed_chunk (from_str event) splitter).0 events))
          ≡ (feed_all splitter (event_raws (from_str event) (raws from_str events))).content
        → contents (
            if b
            then []
            else push_chunk
                (parsed_chunk (from_str event) splitter).1
                (sent from_str (parsed_chunk (from_str event) splitter).0 events))
          ≡ (feed_all splitter
              (if b then [] else event_raws (from_str event) (raws from_str events))).content
    at true h = refl
    at false h = h

abbrev pub fresh : ThinkSplitter
fresh = record { in_think = false; buf = [] }

feed_all-fresh : (texts : List Str) → feed_all fresh texts ≡ feed fresh (concat texts)
unfolding feed
feed_all-fresh [] = refl
feed_all-fresh (raw ∷ later) = feed_all-concat fresh raw later

-- What a turn gathers as its content depends on the text that the events before the end of the stream
-- carry, and on nothing else of the stream, its cuts least of all: it is the content of the whole text
-- given to a new splitter at once.
pub accumulate-content :
    (from_str : Str → Option SseEnvelope) (events : List Str) (initial : ℕ)
    → (accumulate (sent from_str fresh events) (new_accum initial)).content
      ≡ (feed fresh (concat (raws from_str events))).content
accumulate-content from_str events initial =
    accumulate-contents (sent from_str fresh events) (new_accum initial)
    ∙ contents-sent from_str events fresh
    ∙ ap (λ f. f.content) (feed_all-fresh (raws from_str events))
