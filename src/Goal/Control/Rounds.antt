-- ===== src/Goal/Control/Rounds.antt =====
-- How many rounds the driver opens by itself.
use mathlib.Core.Path.{subst}
use sica_rust.Prelude.{
  ℕ, ◌+◌, ◌-◌, ◌≤◌, ◌≡◌, refl, sym, Bool, true, false, not, ◌&&◌, Option, none, some, List, [], ◌∷◌,
  arith, if◌then◌else◌,
}
use sica_rust.Prelude.Str.{Str}
use sica_rust.Log.{TurnSource, is_human}
use sica_rust.Goal.{
  Goal, GoalAction, Result, ok, err, rounds_left, parse_action, authorize, apply, start_round,
}
use sica_rust.Goal.Laws.{apply-Applied}
use sica_rust.Goal.Control.{
  GoalControl, set_armed, put_goal, update_allowed, update_with, update_from, update_goal, TurnEnd,
  drive, turn_end, Op, create, update, command, turn_ends, disarm, run_op, Next, followup,
  auto_continue, idle, goal_round,
}
use sica_rust.Goal.Control.Authority.{is_human_op, create_goal-refused}
use sica_rust.Goal.Control.Sound.{GoalIsBounded, IsSound}
use sica_rust.Goal.Control.Invariant.{run_op-IsSound}

abbrev is_round : Next → Bool
is_round goal_round = true
is_round _ = false

-- The rounds that one operation opens by itself, at the end of a turn.
abbrev opened : Op → GoalControl → ℕ
unfolding turn_end put_goal
opened (turn_ends t) c = if is_round (turn_end t c).1 then 1 else 0
opened _ c = 0

unfoldable pub rounds_opened : List Op → GoalControl → ℕ
unfolding turn_end put_goal run_op
rounds_opened [] c = 0
rounds_opened (op ∷ ops) c = opened op c + rounds_opened ops (run_op op c)

-- The rounds that the goal may still start.
abbrev pub remaining : Option Goal → ℕ
remaining none = 0
remaining (some g) = g.max_rounds - g.rounds_started

-- The driver spends a round of the budget for each one that it opens.
drive_spends :
    (c : GoalControl) (o : Option Goal)
    → GoalIsBounded o
    → c.goal ≡ o
    → (if is_round (drive o c).1 then 1 else 0) + remaining (drive o c).0.goal ≤ remaining o
unfolding put_goal start_round rounds_left
drive_spends c none h has = subst (λ o. 0 + remaining o ≤ 0) (sym has) (omega arith)
drive_spends c (some g) h has = spends (rounds_left g && c.armed) refl
  where
    spends :
        (b : Bool)
        → (rounds_left g && c.armed) ≡ b
        → (let r : GoalControl × Next =
              if b then (put_goal (start_round g) c, goal_round) else (c, idle) in
            (if is_round r.1 then 1 else 0) + remaining r.0.goal ≤ remaining (some g))
    spends false e = subst (λ o. 0 + remaining o ≤ remaining (some g)) (sym has) (omega arith)
    spends true e = ground arith

turn_end_spends :
    (t : TurnEnd) (c : GoalControl)
    → GoalIsBounded c.goal
    → (if is_round (turn_end t c).1 then 1 else 0) + remaining (turn_end t c).0.goal
      ≤ remaining c.goal
unfolding turn_end
turn_end_spends t c h = spends t.mine t.queued t.cancelled t.unfinished
  where
    spends :
        (mine queued cancelled unfinished : Bool)
        → (let r : GoalControl × Next =
              if not mine
              then (c, idle)
              else if queued
              then (c, followup)
              else if cancelled
              then (set_armed false c, idle)
              else if unfinished
              then (c, auto_continue)
              else drive c.goal c in
            (if is_round r.1 then 1 else 0) + remaining r.0.goal ≤ remaining c.goal)
    spends false _ _ _ = omega arith
    spends true true _ _ = omega arith
    spends true false true _ = omega arith
    spends true false false true = omega arith
    spends true false false false = drive_spends c c.goal h refl

-- A change of the goal's phase spends nothing and gives nothing back.
update_allowed-remaining :
    (c : GoalControl) (g : Goal) (revision : ℕ) (a : GoalAction) (note : Option Str)
    (may : Result (Unit {0})) (r : Result Goal)
    → c.goal ≡ some g
    → apply g revision a note ≡ r
    → remaining (update_allowed c may r).0.goal ≤ remaining (some g)
unfolding put_goal
update_allowed-remaining c g revision a _ (err _) r has e =
    subst (λ o. remaining o ≤ remaining (some g)) (sym has) (omega arith)
update_allowed-remaining c g revision a _ (ok _) (err _) has e =
    subst (λ o. remaining o ≤ remaining (some g)) (sym has) (omega arith)
update_allowed-remaining c g revision a note (ok _) (ok next) has e =
    let applied = apply-Applied g revision a note next e in
    omega (arith, applied.kept_max, applied.kept_rounds)

update_goal-remaining :
    (source : TurnSource) (revision : Option ℕ) (action : Str) (note : Option Str) (c : GoalControl)
    → remaining (update_goal source revision action note c).0.goal ≤ remaining c.goal
unfolding update_goal
update_goal-remaining source revision action note c =
    subst (λ o. remaining (update_goal source revision action note c).0.goal ≤ remaining o) refl
      (updated c.goal revision refl)
  where
    acted :
        (g : Goal) (revision : ℕ) (parsed : Result GoalAction)
        → c.goal ≡ some g
        → remaining (update_with (is_human source) revision note g parsed c).0.goal
          ≤ remaining (some g)
    acted g revision (err _) has =
        subst (λ o. remaining o ≤ remaining (some g)) (sym has) (omega arith)
    acted g revision (ok a) has =
        update_allowed-remaining c g revision a note (authorize a g (is_human source) 0)
          (apply g revision a note) has refl

    updated :
        (o : Option Goal) (revision : Option ℕ)
        → c.goal ≡ o
        → remaining (update_from o revision source action note c).0.goal ≤ remaining o
    updated none revision has = subst (λ o. remaining o ≤ 0) (sym has) (omega arith)
    updated (some g) none has =
        subst (λ o. remaining o ≤ remaining (some g)) (sym has) (omega arith)
    updated (some g) (some revision) has = acted g revision (parse_action action) has

run_op_spends :
    (op : Op) (c : GoalControl)
    → is_human_op op ≡ false
    → IsSound c
    → opened op c + remaining (run_op op c).goal ≤ remaining c.goal
unfolding run_op
run_op_spends (create source objective raw) c machine h =
    let kept =
      subst (λ d. remaining d.goal ≤ remaining c.goal)
        (sym (create_goal-refused source objective raw c machine)) (omega arith) in
    omega (arith, kept)
run_op_spends (update source revision action note) c machine h =
    omega (arith, update_goal-remaining source revision action note c)
run_op_spends (command free input) c machine h = ground arith
run_op_spends (turn_ends t) c machine h = turn_end_spends t c h.bounded
run_op_spends disarm c machine h = omega arith

abbrev pub AllMachine : List Op → Type 0
AllMachine [] = Unit
AllMachine (op ∷ ops) = (is_human_op op ≡ false) × AllMachine ops

-- However long a session runs without a person, the driver opens no more rounds than the goal had left
-- at the start, so an unattended goal comes to rest.
pub rounds_opened-remaining :
    (ops : List Op) (c : GoalControl)
    → IsSound c
    → AllMachine ops
    → rounds_opened ops c ≤ remaining c.goal
unfolding rounds_opened
rounds_opened-remaining [] c h machine = omega arith
rounds_opened-remaining (op ∷ ops) c h (first, rest) =
    let later = rounds_opened-remaining ops (run_op op c) (run_op-IsSound c h op) rest in
    omega (arith, later, run_op_spends op c first h)
