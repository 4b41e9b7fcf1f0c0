-- ===== src/Log.antt =====
-- crates/sica-core/src/event.rs: the append-only session log, its events and their surface.
pub mod Surface
pub mod Migrate
use sica_rust.Prelude.{ℕ, Bool, true, false, Option, none, some, List}
use sica_rust.Prelude.Str.{Str}
use sica_rust.Prelude.Int.{ℤ}
use sica_rust.Protocol.{UserImage, PermissionMode, TodoItem, GoalPhase}
use sica_rust.Message.{Message}

-- Where a run, or one of its members, got to.
pub data RunState : Type 0 where
  started done failed : RunState

-- How a surface event lands on the derived history.
pub data SurfaceOp : Type 0 where
  append : SurfaceOp
  replace : (start_seq end_seq : ℕ) → SurfaceOp

-- Who opened a turn.
pub data TurnSource : Type 0 where
  human goal_round followup auto_continue schedule : TurnSource

-- Whether a turn carries a human's direct authority.
abbrev pub is_human : TurnSource → Bool
is_human human = true
is_human followup = true
is_human _ = false

-- Why a `context_injected` message exists.
pub data ContextSource : Type 0 where
  instructions : ContextSource
  skill_invocation : (name : Str) → ContextSource
  file_reference : (path : Str) → ContextSource
  session_reference : (id : ℕ) → ContextSource
  tool_notice job_notice goal_round injected runtime_context : ContextSource
  session_memory long_term_memory : ContextSource

pub data EventKind : Type 0 where
  session_created :
      (id : ℕ) (title : Str) (created_at : ℤ) (format : ℕ) (cwd : Option Str) → EventKind
  session_title : (title : Str) → EventKind
  workflow_run :
      (run_id call_seq : ℕ) (phase member : Option Str) (member_id : Option ℕ) (state : RunState)
      → EventKind
  session_archived : EventKind
  turn_start : (turn_id : ℕ) (source : TurnSource) → EventKind
  turn_end : (turn_id : ℕ) (finish_reason : Str) (hops : ℕ) → EventKind
  turn_verdict : (turn_id : ℕ) (reached : Bool) (reason : Str) (next_step : Option Str) → EventKind
  user_message : (surface : SurfaceOp) (content : Str) (images : List UserImage) → EventKind
  assistant_message :
      (surface : SurfaceOp) (content : Str) (reasoning tool_calls : Option Str) → EventKind
  tool_call : (name args_preview expectation : Str) (call_id args_json : Option Str) → EventKind
  tool_result :
      (surface : SurfaceOp) (call_seq : ℕ) (skill : Str) (tool_call_id : Option Str) (ok : Bool)
      (summary : Str) (trusted pruned : Bool)
      → EventKind
  context_injected : (surface : SurfaceOp) (source : ContextSource) (content : Str) → EventKind
  compaction_summary :
      (surface : SurfaceOp) (content summary : Str) (folded before_tokens after_tokens : ℕ)
      → EventKind
  rewind : (start_seq end_seq : ℕ) → EventKind
  llm_retry : (attempt max_attempts delay_ms : ℕ) (reason : Str) → EventKind
  token_usage : (used limit budget : ℕ) (prompt_tokens completion_tokens : Option ℕ) → EventKind
  legacy_message : (surface : SurfaceOp) (message : Message) → EventKind
  command : (name input : Str) (ok : Bool) → EventKind
  approval : (skill args_preview decision : Str) → EventKind
  permission_mode : (mode : PermissionMode) → EventKind
  plan_mode : (active : Bool) → EventKind
  agent_preset : (name : Option Str) → EventKind
  todo_write : (items : List TodoItem) → EventKind
  goal_change :
      (goal_id revision : ℕ) (objective : Str) (phase : GoalPhase) (rounds_started max_rounds : ℕ)
      (blocker : Option Str)
      → EventKind
  request_envelope : (fingerprint : ℕ) (system tools options : Str) → EventKind
  job_finished : (id status : Str) (exit_code : Option ℤ) → EventKind
  hook : (event command decision : Str) (exit_code : Option ℤ) → EventKind
  schedule :
      (id op : Str) (prompt rule : Option Str) (fire_at : Option ℤ)
      (after_seconds every_seconds : Option ℕ) (accepted_at : Option ℤ)
      → EventKind
  message_feedback : (seq_ref : ℕ) (rating : ℤ) (note : Option Str) → EventKind
  session_memory : (summary : Str) (facts : List Str) (through_seq : ℕ) (author : Str) → EventKind
  ticket_opened : (ticket_id origin module_name : Str) (turn_id : Option ℕ) → EventKind
  unknown : EventKind

-- One durable line in a session's log.
pub record SessionEvent : Type 0 where
  pub seq : ℕ
  pub ts : ℤ
  pub kind : EventKind

-- `EventKind::surface`: the surface op of the kinds that contribute to the model's history.
unfoldable pub surface_of : EventKind → Option SurfaceOp
surface_of (user_message surface _ _) = some surface
surface_of (assistant_message surface _ _ _) = some surface
surface_of (tool_result surface _ _ _ _ _ _ _) = some surface
surface_of (compaction_summary surface _ _ _ _ _) = some surface
surface_of (context_injected surface _ _) = some surface
surface_of (legacy_message surface _) = some surface
surface_of _ = none
