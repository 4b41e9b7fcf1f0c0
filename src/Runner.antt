-- ===== src/Runner.antt =====
-- crates/agents/src/runner.rs: one delegated conversation. The model's answers, the tools, the parser of
-- a call and the check of a structured result are arguments: a theorem holds for any of them.
pub mod Texts
pub mod Reports
use sica_rust.Prelude.{
  ℕ, zero, suc, Bool, true, false, Option, none, some, List, [], ◌∷◌, ◌++◌, ◌+◌, ◌&&◌, not, length,
  is_some, ltb, if◌then◌else◌,
}
use sica_rust.Prelude.Str.{Str, str, str_eq}
use sica_rust.Budget.Chat.{ChatMessage, ChatContent}
use sica_rust.Call.Line.{ToolCall}
use sica_rust.Runner.Texts.{
  syntax_correction, structured_reminder, structured_problem, budget_exhausted, call_id,
  tool_message, invalid_report,
}

abbrev pub chat : Str → Str → ChatMessage
chat role text = record {
  role = role;
  content = ChatContent.text text;
  tool_calls = none;
  tool_call_id = none;
}

pub record CallRecord : Type 0 where
  pub id : Str
  pub skill : Str
  pub ok : Bool

pub record Report {ℓ} (V : Type ℓ) : Type ℓ where
  pub text : Str
  pub structured : Option V
  pub tool_ok : ℕ
  pub tool_err : ℕ
  pub hops : ℕ
  pub calls : List CallRecord

abbrev pub verified {ℓ} : {V : Type ℓ} → Report V → Bool → Bool
verified r wanted_schema = ltb 0 r.tool_ok && (if wanted_schema then is_some r.structured else true)

pub record SkillOutcome : Type 0 where
  pub ok : Bool
  pub summary : Str

-- A structured result that was read, or the problem with it.
pub data Structured {ℓ} (V : Type ℓ) : Type ℓ where
  value : V → Structured V
  problem : Str → Structured V

-- What the loop calls. `llm` answers a transcript, and gives nothing for a cancelled or failed call and
-- an empty reply. `extract` and `rejected` read a reply; they find nothing where there is no registry.
-- `run_tool` runs the n-th call, and gives nothing for an unknown skill.
pub record World {ℓ} (V : Type ℓ) : Type ℓ where
  pub llm : List ChatMessage → Option Str
  pub extract : Str → Option (ToolCall V)
  pub rejected : Str → Option Str
  pub run_tool : ℕ → ToolCall V → Option SkillOutcome
  pub parse_structured : Str → Structured V

-- The part of a `RunSpec` that the loop reads.
pub record RunSpec : Type 0 where
  pub max_hops : ℕ
  pub wants_schema : Bool
  pub call_seq_start : ℕ

-- The loop's variables. `hops` counts up only below `max_hops`, which a `u8` holds.
pub record Run : Type 0 where
  pub transcript : List ChatMessage
  pub hops : ℕ
  pub tool_ok : ℕ
  pub tool_err : ℕ
  pub calls : List CallRecord
  pub nudged : Bool
  pub reminded : Bool

abbrev pub new_run : List ChatMessage → Run
new_run transcript = record {
  transcript = transcript;
  hops = 0;
  tool_ok = 0;
  tool_err = 0;
  calls = [];
  nudged = false;
  reminded = false;
}

-- One turn of the loop goes on, or ends the conversation.
pub data Turn {ℓ} (V : Type ℓ) : Type ℓ where
  again : Run → Turn V
  done : Option (Report V) → Turn V

abbrev pub say : Str → Str → Run → Run
say role text r = record r { transcript = r.transcript ++ (chat role text ∷ []) }

abbrev pub report_of {ℓ} : {V : Type ℓ} → Run → Str → Option V → Report V
report_of r text structured = record {
  text = text;
  structured = structured;
  tool_ok = r.tool_ok;
  tool_err = r.tool_err;
  hops = r.hops;
  calls = r.calls;
}

abbrev pub first_arg : List Str → Str
first_arg [] = []
first_arg (raw ∷ _) = raw

abbrev pub is_structured : Str → Bool
is_structured skill = str_eq skill (str "structured-output")

module _ {ℓ} {V : Type ℓ} (w : World V) (spec : RunSpec) where
  -- A reply with no call that is no miscall either, or one miscall too many.
  abbrev pub prose : Run → Str → Turn V
  prose r reply =
      if spec.wants_schema && not r.reminded && ltb r.hops spec.max_hops
      then again (say (str "user") structured_reminder (record r { reminded = true }))
      else done (some (report_of r reply none))

  abbrev pub no_call : Run → Str → Option Str → Turn V
  no_call r reply none = prose r reply
  no_call r reply (some reason) =
      if not r.nudged && ltb r.hops spec.max_hops
      then again (say (str "user") (syntax_correction reason) (record r { nudged = true }))
      else prose r reply

  abbrev pub settle : Run → Str → Structured V → Turn V
  settle r raw (value v) = done (some (report_of r raw (some v)))
  settle r raw (problem p) =
      if ltb r.hops spec.max_hops
      then again (
          say (str "user") (structured_problem p)
            (record r { hops = r.hops + 1; tool_err = r.tool_err + 1 }))
      else done (some (report_of r (invalid_report p raw) none))

  -- The last reply may still settle a structured run.
  abbrev pub last_value : Run → Str → Str → Structured V → Turn V
  last_value r reply raw (value v) = done (some (report_of r raw (some v)))
  last_value r reply raw (problem p) = done (some (report_of r reply none))

  abbrev pub last_call : Run → Str → Option (ToolCall V) → Turn V
  last_call r reply none = done (some (report_of r reply none))
  last_call r reply (some call) =
      if spec.wants_schema && is_structured call.skill
      then last_value r reply (first_arg call.raw_args)
          (w.parse_structured (first_arg call.raw_args))
      else done (some (report_of r reply none))

  abbrev pub last_reply : Run → Option Str → Turn V
  last_reply r none = done none
  last_reply r (some reply) = last_call r reply (w.extract reply)

  abbrev pub exhausted : Run → Turn V
  exhausted r =
      let asked = say (str "user") (budget_exhausted spec.max_hops spec.wants_schema) r in
      last_reply asked (w.llm asked.transcript)

  abbrev pub outcome_of : ToolCall V → Option SkillOutcome → SkillOutcome
  outcome_of call (some outcome) = outcome
  outcome_of call none = record {
    ok = false;
    summary = str "unknown skill `" ++ call.skill ++ str "`";
  }

  abbrev pub record_call : Run → ToolCall V → SkillOutcome → Run
  record_call r call outcome =
      let id = call_id (spec.call_seq_start + length r.calls + 1) in
      record {
        transcript =
            r.transcript
            ++ (chat (str "user") (tool_message call.skill outcome.ok id outcome.summary) ∷ []);
        hops = r.hops + 1;
        tool_ok = if outcome.ok then r.tool_ok + 1 else r.tool_ok;
        tool_err = if outcome.ok then r.tool_err else r.tool_err + 1;
        calls = r.calls ++ (record { id = id; skill = call.skill; ok = outcome.ok } ∷ []);
        nudged = r.nudged;
        reminded = r.reminded;
      }

  abbrev pub on_call : Run → ToolCall V → Turn V
  on_call r call =
      if is_structured call.skill
      then settle r (first_arg call.raw_args) (w.parse_structured (first_arg call.raw_args))
      else if ltb r.hops spec.max_hops
      then again (record_call r call (outcome_of call (w.run_tool (length r.calls) call)))
      else exhausted r

  abbrev pub on_extracted : Run → Str → Option (ToolCall V) → Turn V
  on_extracted r reply none = no_call r reply (w.rejected reply)
  on_extracted r reply (some call) = on_call r call

  abbrev pub on_reply : Run → Option Str → Turn V
  on_reply r none = done none
  on_reply r (some reply) = on_extracted (say (str "assistant") reply r) reply (w.extract reply)

  unfoldable pub turn_of : Run → Turn V
  turn_of r = on_reply r (w.llm r.transcript)

  abbrev pub next_turn : Turn V → (Run → Option (Option (Report V))) → Option (Option (Report V))
  next_turn (done report) next = some report
  next_turn (again r) next = next r

  -- The loop; the outer `none` is fuel that has run out.
  unfoldable pub run_loop : ℕ → Run → Option (Option (Report V))
  unfolding turn_of
  run_loop zero r = none
  run_loop (suc n) r = next_turn (turn_of r) (run_loop n)

  -- Each turn uses a hop, the one correction or the one reminder, or is the last.
  unfoldable pub run_conversation : List ChatMessage → Option (Option (Report V))
  unfolding run_loop
  run_conversation transcript = run_loop (spec.max_hops + 3) (new_run transcript)
