-- ===== src/Tests/OnGoal.antt =====
-- A goal that a person creates, that the driver works on, and that a round blocks or completes.
use sica_rust.Prelude.{◌≤◌, ◌≡◌, refl, true, false, none, some, List, [], ◌∷◌}
use sica_rust.Prelude.Str.{str}
use sica_rust.Prelude.Trim.{trim}
use sica_rust.Protocol.{active, blocked}
use sica_rust.Log.{human, goal_round}
use sica_rust.Goal.{
  Goal, block, ok, apply, edit, start_round, new_goal, parse_max_rounds, rounds_left,
}
use sica_rust.Goal.Control.{
  GoalControl, put_goal, create_goal, turn_end, Op, create, update, turn_ends, TurnEnd, run_op,
  run_ops,
}
use sica_rust.Goal.Control.Sound.{IsSound}
use sica_rust.Goal.Control.Invariant.{no_goal, reachable-IsSound}
use sica_rust.Goal.Control.Authority.{IsMachineStep, run_op-IsMachineStep}
use sica_rust.Goal.Control.Rounds.{rounds_opened, remaining, rounds_opened-remaining}

abbrev quiet_end : TurnEnd
quiet_end = record { mine = true; queued = false; cancelled = false; unfinished = false }

-- A person asks for two rounds.
abbrev asked : Op
asked = create human (some (str "ship it")) 2

abbrev after_asked : GoalControl
after_asked = run_ops (asked ∷ []) no_goal

abbrev two_rounds : List Op
two_rounds = turn_ends quiet_end ∷ turn_ends quiet_end ∷ turn_ends quiet_end ∷ []

asked_control : GoalControl
asked_control = record { goal = some (new_goal 1 (str "ship it") 2); armed = true; next_goal = 2 }

asks : after_asked ≡ asked_control
unfolding asked_control trim run_ops run_op create_goal put_goal new_goal parse_max_rounds
    rounds_left
asks = refl

reachable-IsSound_example : IsSound (run_ops (asked ∷ two_rounds) no_goal)
reachable-IsSound_example = reachable-IsSound (asked ∷ two_rounds)

abbrev blocks : Op
blocks = update goal_round (some 1) (str "block") (some (str "no key"))

run_op-IsMachineStep_example : IsMachineStep after_asked (run_op blocks after_asked)
run_op-IsMachineStep_example = run_op-IsMachineStep blocks after_asked refl

rounds_opened-remaining_example : rounds_opened two_rounds after_asked ≤ remaining after_asked.goal
rounds_opened-remaining_example =
    rounds_opened-remaining two_rounds after_asked (reachable-IsSound (asked ∷ []))
      (refl, (refl, (refl, tt)))

-- The driver opens both rounds, and no third.
opens_two : rounds_opened two_rounds after_asked ≡ 2
unfolding rounds_opened trim run_ops run_op create_goal put_goal new_goal parse_max_rounds
    rounds_left turn_end start_round
opens_two = refl

abbrev open_goal : Goal
open_goal = record {
  id = 1;
  revision = 4;
  objective = str "ship it";
  phase = active;
  rounds_started = 3;
  max_rounds = 8;
  blocker = none;
}

abbrev blocked_goal : Goal
blocked_goal = record open_goal { revision = 5; phase = blocked; blocker = some (str "no key") }

abbrev edited_goal : Goal
edited_goal = record open_goal { revision = 5; objective = str "test it" }

block_applies : apply open_goal 4 block (some (str "no key ")) ≡ ok blocked_goal
unfolding apply trim
block_applies = refl

edit_applies : edit open_goal 4 (str " test it") ≡ ok edited_goal
unfolding edit trim
edit_applies = refl
