-- ===== src/Protocol.antt =====
-- crates/protocol/src/lib.rs: the shared types that the log, the goal and the inbox carry.
use sica_rust.Prelude.{ℕ, Bool, true, false}
use sica_rust.Prelude.Str.{Str}

pub record UserImage : Type 0 where
  pub mime : Str
  pub data_base64 : Str
  pub sha : Str
  pub bytes : ℕ

pub data PermissionMode : Type 0 where
  read_only workspace_write danger_full_access : PermissionMode

pub data TodoStatus : Type 0 where
  pending in_progress completed : TodoStatus

pub record TodoItem : Type 0 where
  pub content : Str
  pub status : TodoStatus

-- Where a session's durable objective stands.
pub data GoalPhase : Type 0 where
  active paused completed blocked : GoalPhase

-- Terminal phases never run another round.
abbrev pub is_terminal : GoalPhase → Bool
is_terminal GoalPhase.completed = true
is_terminal blocked = true
is_terminal _ = false

-- A user message that waits in a session's inbox, as the frontend sees it.
pub record QueuedDump : Type 0 where
  pub id : ℕ
  pub text : Str
  pub images : ℕ
