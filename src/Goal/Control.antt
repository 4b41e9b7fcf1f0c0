-- ===== src/Goal/Control.antt =====
-- crates/backend/src/chat.rs: a session's goal as the hub keeps it, with the switch that lets the round
-- driver run, and everything that changes either.
pub mod Sound
pub mod Invariant
pub mod Authority
pub mod Rounds
use sica_rust.Prelude.{
  ℕ, ◌+◌, Bool, true, false, not, ◌&&◌, Option, none, some, List, [], ◌∷◌, if◌then◌else◌, option_or,
}
use sica_rust.Prelude.Str.{Str, str, str_eq, is_empty}
use sica_rust.Prelude.Trim.{trim, to_ascii_lowercase}
use sica_rust.Prelude.Split.{split_once_whitespace}
use sica_rust.Protocol.{GoalPhase, active, is_terminal}
use sica_rust.Log.{TurnSource, is_human}
use sica_rust.Goal.{
  Goal, GoalAction, Result, ok, err, new_goal, rounds_left, is_active, parse_action, authorize,
  apply, edit, start_round, parse_max_rounds,
}

-- `armed` is process state: it is never persisted.
pub record GoalControl : Type 0 where
  pub goal : Option Goal
  pub armed : Bool
  pub next_goal : ℕ

abbrev pub set_armed : Bool → GoalControl → GoalControl
set_armed on c = record c { armed = on }

-- Remembers a goal, and disarms if it can run no more rounds.
unfoldable pub put_goal : Goal → GoalControl → GoalControl
put_goal g c = record c { goal = some g; armed = if rounds_left g then c.armed else false }

abbrev has_open_goal : Option Goal → Bool
has_open_goal none = false
has_open_goal (some g) = not (is_terminal g.phase)

-- The body of `create-goal`: `objective` is the text argument, if there is one.
unfoldable pub create_goal : TurnSource → Option Str → ℕ → GoalControl → GoalControl × Bool
create_goal source none raw_rounds c = (c, false)
create_goal source (some objective) raw_rounds c =
    let goal = new_goal c.next_goal (trim objective) (parse_max_rounds raw_rounds) in
    let next : GoalControl = record c { armed = true; next_goal = c.next_goal + 1 } in
    if is_empty (trim objective)
    then (c, false)
    else if not (is_human source)
    then (c, false)
    else if has_open_goal c.goal
    then (c, false)
    else (put_goal goal next, true)

abbrev land_update : GoalControl → Result Goal → GoalControl × Bool
land_update c (err _) = (c, false)
land_update c (ok next) =
    (put_goal next (if is_active next.phase then c else set_armed false c), true)

abbrev update_allowed : GoalControl → Result (Unit {0}) → Result Goal → GoalControl × Bool
update_allowed c (err _) _ = (c, false)
update_allowed c (ok _) changed = land_update c changed

abbrev update_with :
    Bool → ℕ → Option Str → Goal → Result GoalAction → GoalControl → GoalControl × Bool
update_with human revision _ goal (err _) c = (c, false)
update_with human revision note goal (ok action) c =
    update_allowed c (authorize action goal human 0) (apply goal revision action note)

abbrev update_from :
    Option Goal → Option ℕ → TurnSource → Str → Option Str → GoalControl → GoalControl × Bool
update_from none revision source action _ c = (c, false)
update_from (some goal) none source action _ c = (c, false)
update_from (some goal) (some revision) source action note c =
    update_with (is_human source) revision note goal (parse_action action) c

-- The body of `update-goal`.
unfoldable pub update_goal :
    TurnSource → Option ℕ → Str → Option Str → GoalControl → GoalControl × Bool
update_goal source revision action note c = update_from c.goal revision source action note c

abbrev start_goal : Option Goal → GoalControl → GoalControl
start_goal none c = c
start_goal (some goal) c = put_goal (start_round goal) c

-- The round that a resumed goal starts at once if the session has no turn running.
abbrev start_if_idle : Bool → Bool → GoalControl → GoalControl
start_if_idle resumed idle c = if resumed && idle then start_goal c.goal c else c

abbrev land_command : Bool → GoalControl → Result Goal → GoalControl × Bool
land_command idle c (err _) = (c, false)
land_command idle c (ok next) =
    let resumed = is_active next.phase && rounds_left next in
    (start_if_idle resumed idle (put_goal next (set_armed resumed c)), true)

abbrev land_edit : GoalControl → Result Goal → GoalControl × Bool
land_edit c (err _) = (c, false)
land_edit c (ok next) = (put_goal next c, true)

abbrev command_action : Bool → Str → Goal → Result GoalAction → GoalControl → GoalControl × Bool
command_action idle note goal (err _) c = (c, false)
command_action idle note goal (ok action) c =
    land_command idle c (apply goal goal.revision action (some note))

abbrev command_word : Bool → Str → Str → Goal → GoalControl → GoalControl × Bool
command_word idle word note goal c =
    if is_empty word
    then (c, true)
    else if str_eq (to_ascii_lowercase word) (str "edit")
    then land_edit c (edit goal goal.revision note)
    else command_action idle note goal (parse_action word) c

abbrev command_split : Bool → Option (Str × Str) → Str → Goal → GoalControl → GoalControl × Bool
command_split idle none input goal c = command_word idle input [] goal c
command_split idle (some (word, rest)) input goal c =
    command_word idle (trim word) (trim rest) goal c

abbrev command_from : Bool → Option Goal → Str → GoalControl → GoalControl × Bool
command_from idle none input c = (c, false)
command_from idle (some goal) input c =
    command_split idle (split_once_whitespace (trim input)) (trim input) goal c

-- The user's `/goal` command; `idle` tells whether the session has no turn running.
unfoldable pub command_goal : Bool → Str → GoalControl → GoalControl × Bool
command_goal idle input c = command_from idle c.goal input c

-- What follows a turn.
pub data Next : Type 0 where
  followup auto_continue goal_round idle : Next

-- What the end of a turn finds: whether it still owns the session, a queued message, an interrupt, and
-- a continuation that the completion check asked for.
pub record TurnEnd : Type 0 where
  pub mine : Bool
  pub queued : Bool
  pub cancelled : Bool
  pub unfinished : Bool

abbrev drive : Option Goal → GoalControl → GoalControl × Next
drive none c = (c, idle)
drive (some goal) c =
    if rounds_left goal && c.armed then (put_goal (start_round goal) c, goal_round) else (c, idle)

unfoldable pub turn_end : TurnEnd → GoalControl → GoalControl × Next
turn_end t c =
    if not t.mine
    then (c, idle)
    else if t.queued
    then (c, followup)
    else if t.cancelled
    then (set_armed false c, idle)
    else if t.unfinished
    then (c, auto_continue)
    else drive c.goal c

-- Everything that changes a session's goal or its arming. A restart and a stop disarm it.
pub data Op : Type 0 where
  create : TurnSource → Option Str → ℕ → Op
  update : TurnSource → Option ℕ → Str → Option Str → Op
  command : (free : Bool) (input : Str) → Op
  turn_ends : TurnEnd → Op
  disarm : Op

unfoldable pub run_op : Op → GoalControl → GoalControl
unfolding create_goal update_goal command_goal turn_end put_goal
run_op (create source objective raw_rounds) c = (create_goal source objective raw_rounds c).0
run_op (update source revision action note) c = (update_goal source revision action note c).0
run_op (command free input) c = (command_goal free input c).0
run_op (turn_ends t) c = (turn_end t c).0
run_op disarm c = set_armed false c

unfoldable pub run_ops : List Op → GoalControl → GoalControl
run_ops [] c = c
run_ops (op ∷ ops) c = run_ops ops (run_op op c)
