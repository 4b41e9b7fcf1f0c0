-- ===== src/Turn/Fragments.antt =====
-- crates/agents/src/turn.rs: fragments of tool calls, put together by their index.
use sica_rust.Prelude.{
  ℕ, zero, suc, Bool, true, false, List, [], ◌∷◌, ◌++◌, ◌≡◌, ◌==◌, if◌then◌else◌, refl, ap, sym,
  ◌∙◌, arith,
}
use mathlib.Core.List.{append-nil, append_assoc}
use sica_rust.Prelude.Str.{Str}
use sica_rust.Stream.Sse.{ToolCallDelta, StreamChunk}
use sica_rust.Turn.{
  NativeToolCall, Accum, empty_call, extend_call, fragment_id, fragment_name, with_slot,
  take_fragments, take_chunk, accumulate, new_accum,
}

-- The call of an index; one that has no slot is empty.
abbrev pub slot : ℕ → List NativeToolCall → NativeToolCall
slot i [] = empty_call
slot zero (t ∷ tools) = t
slot (suc i) (t ∷ tools) = slot i tools

-- The fragments of an index, of a whole stream, in their order.
abbrev pub fragments_of : ℕ → List ToolCallDelta → List ToolCallDelta
fragments_of i [] = []
fragments_of i (tc ∷ fragments) =
    if tc.index == i then tc ∷ fragments_of i fragments else fragments_of i fragments

abbrev pub all_fragments : List StreamChunk → List ToolCallDelta
all_fragments [] = []
all_fragments (chunk ∷ chunks) = chunk.delta_tool_calls ++ all_fragments chunks

-- What fragments come to, one after another.
abbrev pub extend_all : List ToolCallDelta → NativeToolCall → NativeToolCall
extend_all [] call = call
extend_all (tc ∷ fragments) call = extend_all fragments (extend_call tc call)

slot-with_slot :
    (i j : ℕ) (f : NativeToolCall → NativeToolCall) (tools : List NativeToolCall)
    → slot i (with_slot j f tools) ≡ (if j == i then f (slot i tools) else slot i tools)
unfolding with_slot
slot-with_slot zero zero f [] = refl
slot-with_slot zero zero f (t ∷ tools) = refl
slot-with_slot (suc i) zero f [] = ground arith
slot-with_slot (suc i) zero f (t ∷ tools) = ground arith
slot-with_slot zero (suc j) f [] = ground arith
slot-with_slot zero (suc j) f (t ∷ tools) = ground arith
slot-with_slot (suc i) (suc j) f [] = ground (arith, slot-with_slot i j f [])
slot-with_slot (suc i) (suc j) f (t ∷ tools) = ground (arith, slot-with_slot i j f tools)

slot-take_fragments :
    (i : ℕ) (fragments : List ToolCallDelta) (tools : List NativeToolCall)
    → slot i (take_fragments fragments tools) ≡ extend_all (fragments_of i fragments) (slot i tools)
unfolding take_fragments
slot-take_fragments i [] tools = refl
slot-take_fragments i (tc ∷ fragments) tools =
    slot-take_fragments i fragments (with_slot tc.index (extend_call tc) tools)
    ∙ ap (extend_all (fragments_of i fragments)) (slot-with_slot i tc.index (extend_call tc) tools)
    ∙ land (tc.index == i)
  where
    land :
        (b : Bool)
        → extend_all
            (fragments_of i fragments)
            (if b then extend_call tc (slot i tools) else slot i tools)
          ≡ extend_all
              (if b then tc ∷ fragments_of i fragments else fragments_of i fragments)
              (slot i tools)
    land true = refl
    land false = refl

take_fragments-append :
    (first later : List ToolCallDelta) (tools : List NativeToolCall)
    → take_fragments (first ++ later) tools ≡ take_fragments later (take_fragments first tools)
unfolding take_fragments
take_fragments-append [] later tools = refl
take_fragments-append (tc ∷ first) later tools =
    take_fragments-append first later (with_slot tc.index (extend_call tc) tools)

accumulate-tools :
    (chunks : List StreamChunk) (a : Accum)
    → (accumulate chunks a).tools ≡ take_fragments (all_fragments chunks) a.tools
unfolding accumulate take_chunk take_fragments
accumulate-tools [] a = refl
accumulate-tools (chunk ∷ chunks) a =
    accumulate-tools chunks (take_chunk chunk a)
    ∙ sym (take_fragments-append chunk.delta_tool_calls (all_fragments chunks) a.tools)

abbrev pub joined_arguments : List ToolCallDelta → Str
joined_arguments [] = []
joined_arguments (tc ∷ fragments) = tc.arguments ++ joined_arguments fragments

abbrev pub joined_names : List ToolCallDelta → Str
joined_names [] = []
joined_names (tc ∷ fragments) = fragment_name tc.name ++ joined_names fragments

abbrev pub newest_id : List ToolCallDelta → Str → Str
newest_id [] old = old
newest_id (tc ∷ fragments) old = newest_id fragments (fragment_id tc.id old)

extend_all-joined :
    (fragments : List ToolCallDelta) (call : NativeToolCall)
    → extend_all fragments call ≡ record {
      id = newest_id fragments call.id;
      name = call.name ++ joined_names fragments;
      arguments = call.arguments ++ joined_arguments fragments;
    }
extend_all-joined [] call = cc (append-nil call.name, append-nil call.arguments)
extend_all-joined (tc ∷ fragments) call =
    extend_all-joined fragments (extend_call tc call)
    ∙ cc (
      append_assoc call.name (fragment_name tc.name) (joined_names fragments),
      append_assoc call.arguments tc.arguments (joined_arguments fragments),
    )

-- In any stream, whatever way the fragments of its calls are mixed and spread over its chunks, the
-- call of each index has the arguments, and the name, that the fragments with that index spell out
-- in their order, and the id that the newest of them with an id gave.
pub accumulate-slot :
    (chunks : List StreamChunk) (initial i : ℕ)
    → let fragments = fragments_of i (all_fragments chunks) in
      slot i (accumulate chunks (new_accum initial)).tools ≡ record {
        id = newest_id fragments [];
        name = joined_names fragments;
        arguments = joined_arguments fragments;
      }
accumulate-slot chunks initial i =
    let fragments = all_fragments chunks in
    ap (slot i) (accumulate-tools chunks (new_accum initial))
    ∙ slot-take_fragments i fragments []
    ∙ extend_all-joined (fragments_of i fragments) empty_call
