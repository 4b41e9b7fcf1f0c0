-- ===== src/Goal.antt =====
-- crates/agents/src/goal.rs: a session's durable objective and the rules around it.
pub mod Laws
pub mod Control
use sica_rust.Prelude.{
  ℕ, ◌+◌, ◌%◌, Bool, true, false, not, ◌&&◌, ◌||◌, Option, none, some, List, [], ◌∷◌, ltb, ◌==◌,
  if◌then◌else◌, min, max, option_or,
}
use sica_rust.Prelude.Str.{Str, str, str_eq, is_empty}
use sica_rust.Prelude.Trim.{trim, to_ascii_lowercase}
use sica_rust.Protocol.{GoalPhase, active, paused, completed, blocked, is_terminal}
use sica_rust.Budget.Tokens.{u32}

abbrev pub max_goal_rounds : ℕ
max_goal_rounds = 256

abbrev pub default_goal_rounds : ℕ
default_goal_rounds = 16

abbrev pub blocked_after_consecutive_rounds : ℕ
blocked_after_consecutive_rounds = 3

pub record Goal : Type 0 where
  pub id : ℕ
  pub revision : ℕ
  pub objective : Str
  pub phase : GoalPhase
  pub rounds_started : ℕ
  pub max_rounds : ℕ
  pub blocker : Option Str

-- `clamp(1, MAX_GOAL_ROUNDS)`.
abbrev pub clamp_rounds : ℕ → ℕ
clamp_rounds n = min (max n 1) max_goal_rounds

unfoldable pub new_goal : ℕ → Str → ℕ → Goal
new_goal id objective max_rounds = record {
  id = id;
  revision = 1;
  objective = objective;
  phase = active;
  rounds_started = 0;
  max_rounds = clamp_rounds max_rounds;
  blocker = none;
}

abbrev pub is_active : GoalPhase → Bool
is_active active = true
is_active _ = false

unfoldable pub rounds_left : Goal → Bool
rounds_left g = is_active g.phase && ltb g.rounds_started g.max_rounds

pub data GoalAction : Type 0 where
  pause resume complete block : GoalAction

-- Why a change was refused: the messages' variants, with the values that they print.
pub data GoalRefusal : Type 0 where
  unknown_action : (other : Str) → GoalRefusal
  not_top_level : GoalRefusal
  needs_user : GoalAction → GoalRefusal
  too_early : (rounds_started : ℕ) → GoalRefusal
  revision_mismatch : (sent current : ℕ) → GoalRefusal
  already : GoalPhase → GoalRefusal
  needs_blocker : GoalRefusal
  needs_objective : GoalRefusal

pub data Result (A : Type 0) : Type 0 where
  ok : A → Result A
  err : GoalRefusal → Result A

unfoldable pub parse_action : Str → Result GoalAction
parse_action s =
    let word = to_ascii_lowercase (trim s) in
    if str_eq word (str "pause")
    then ok pause
    else if str_eq word (str "resume") || str_eq word (str "continue")
    then ok resume
    else if str_eq word (str "complete") || str_eq word (str "done")
    then ok complete
    else if str_eq word (str "block") || str_eq word (str "blocked")
    then ok block
    else err (unknown_action word)

-- The phase that an action moves the goal to.
abbrev pub phase_of : GoalAction → GoalPhase
phase_of pause = paused
phase_of resume = active
phase_of complete = completed
phase_of block = blocked

abbrev authorize_top : GoalAction → Goal → Bool → Result (Unit {0})
authorize_top pause goal human = if human then ok tt else err (needs_user pause)
authorize_top resume goal human = if human then ok tt else err (needs_user resume)
authorize_top block goal human =
    if not human && ltb goal.rounds_started blocked_after_consecutive_rounds
    then err (too_early goal.rounds_started)
    else ok tt
authorize_top complete goal human = ok tt

unfoldable pub authorize : GoalAction → Goal → Bool → ℕ → Result (Unit {0})
authorize action goal human depth =
    if ltb 0 depth then err not_top_level else authorize_top action goal human

abbrev pub is_resume : GoalAction → Bool
is_resume resume = true
is_resume _ = false

abbrev pub is_block : GoalAction → Bool
is_block block = true
is_block _ = false

abbrev note_trimmed : Option Str → Option Str
note_trimmed none = none
note_trimmed (some n) = some (trim n)

abbrev next_blocker : GoalAction → Goal → Option Str → Option Str
next_blocker block goal note = note_trimmed note
next_blocker resume _ _ = none
next_blocker _ goal _ = goal.blocker

-- A change under compare-and-set on the revision.
unfoldable pub apply : Goal → ℕ → GoalAction → Option Str → Result Goal
apply goal revision action note =
    if not (revision == goal.revision)
    then err (revision_mismatch revision goal.revision)
    else if is_terminal goal.phase && not (is_resume action)
    then err (already goal.phase)
    else if is_block action && is_empty (option_or (note_trimmed note) [])
    then err needs_blocker
    else ok (record goal {
      revision = u32 (goal.revision + 1);
      phase = phase_of action;
      blocker = next_blocker action goal note;
    })

unfoldable pub edit : Goal → ℕ → Str → Result Goal
edit goal revision objective =
    if not (revision == goal.revision)
    then err (revision_mismatch revision goal.revision)
    else if is_empty (trim objective)
    then err needs_objective
    else if is_terminal goal.phase
    then err (already goal.phase)
    else ok (record goal { revision = u32 (goal.revision + 1); objective = trim objective })

unfoldable pub start_round : Goal → Goal
start_round goal = record goal {
  revision = u32 (goal.revision + 1);
  rounds_started = u32 (goal.rounds_started + 1);
}

-- `parse_max_rounds`: `raw` is the number that the argument holds, and 0 where it holds none.
unfoldable pub parse_max_rounds : ℕ → ℕ
parse_max_rounds raw = if raw == 0 then default_goal_rounds else clamp_rounds raw
