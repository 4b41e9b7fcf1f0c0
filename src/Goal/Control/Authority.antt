-- ===== src/Goal/Control/Authority.antt =====
-- What the rounds that run without a person may do to a session's goal and its arming.
use sica_rust.Prelude.{
  ℕ, ◌≤◌, ◌≡◌, ◌⊎◌, inl, inr, refl, ap, Bool, true, false, not, ◌&&◌, Option, none, some, arith,
  if◌then◌else◌, sym, ◌∙◌,
}
use mathlib.Core.Path.{subst}
use sica_rust.Prelude.Str.{Str}
use sica_rust.Protocol.{completed, blocked}
use sica_rust.Log.{TurnSource, is_human}
use sica_rust.Goal.{
  Goal, GoalAction, complete, block, phase_of, Result, ok, err, rounds_left, is_active,
  parse_action, authorize, apply, start_round,
}
use sica_rust.Goal.Laws.{apply-Applied, authorize-machine}
use sica_rust.Goal.Control.{
  GoalControl, set_armed, put_goal, create_goal, update_allowed, update_with, update_from,
  update_goal, TurnEnd, drive, turn_end, Op, create, update, command, turn_ends, disarm, run_op,
  Next, followup, auto_continue, idle, goal_round,
}

-- An operation that a person's turn or command asked for.
abbrev pub is_human_op : Op → Bool
is_human_op (create source _ _) = is_human source
is_human_op (update source _ _ _) = is_human source
is_human_op (command _ _) = true
is_human_op (turn_ends _) = false
is_human_op disarm = false

-- The objective and the budget stay, and the phase moves only to an end that the machine may declare.
pub record IsMachineMove (g g' : Goal) : Type 0 where
  pub same_id : g'.id ≡ g.id
  pub same_objective : g'.objective ≡ g.objective
  pub same_budget : g'.max_rounds ≡ g.max_rounds
  pub phase_moves :
      (g'.phase ≡ g.phase)
      ⊎ (g'.phase ≡ completed)
      ⊎ ((g'.phase ≡ blocked) × (3 ≤ g.rounds_started))

abbrev pub MachineMoves : Option Goal → Option Goal → Type 0
MachineMoves none none = Unit
MachineMoves none (some _) = ⊥
MachineMoves (some _) none = ⊥
MachineMoves (some g) (some g') = IsMachineMove g g'

pub record IsMachineStep (c c' : GoalControl) : Type 0 where
  pub moves : MachineMoves c.goal c'.goal
  pub arms_nothing : c.armed ≡ false → c'.armed ≡ false

MachineMoves-refl : (o : Option Goal) → MachineMoves o o
MachineMoves-refl none = tt
MachineMoves-refl (some g) = record {
  same_id = refl;
  same_objective = refl;
  same_budget = refl;
  phase_moves = inl refl;
}

IsMachineStep-refl : (c : GoalControl) → IsMachineStep c c
IsMachineStep-refl c = record { moves = MachineMoves-refl c.goal; arms_nothing = λ e. e }

unarmed : (a left : Bool) → a ≡ false → (if left then a else false) ≡ false
unarmed a true e = e
unarmed a false e = refl

module _ (c : GoalControl) (g : Goal) (has : c.goal ≡ some g) where
  put_goal-IsMachineStep :
      (g' : Goal) (b : GoalControl)
      → IsMachineMove g g'
      → (c.armed ≡ false → b.armed ≡ false)
      → IsMachineStep c (put_goal g' b)
  unfolding put_goal
  put_goal-IsMachineStep g' b moves arms = record {
    moves = subst (λ o. MachineMoves o (some g')) (sym has) moves;
    arms_nothing = λ e. unarmed b.armed (rounds_left g') (arms e);
  }

phase_after :
    (g : Goal) (a : GoalAction) (next : Goal)
    → next.phase ≡ phase_of a
    → (a ≡ complete) ⊎ ((a ≡ block) × (3 ≤ g.rounds_started))
    → (next.phase ≡ g.phase)
      ⊎ (next.phase ≡ completed)
      ⊎ ((next.phase ≡ blocked) × (3 ≤ g.rounds_started))
phase_after g a next moved (inl e) = inr (inl (moved ∙ ap phase_of e))
phase_after g a next moved (inr (e, three)) = inr (inr (moved ∙ ap phase_of e, three))

module _ (c : GoalControl) (g : Goal) (has : c.goal ≡ some g) where
  allowed-IsMachineStep :
      (revision : ℕ) (a : GoalAction) (note : Option Str) (may : Result (Unit {0}))
      (r : Result Goal)
      → authorize a g false 0 ≡ may
      → apply g revision a note ≡ r
      → IsMachineStep c (update_allowed c may r).0
  allowed-IsMachineStep revision a _ (err _) r may e = IsMachineStep-refl c
  allowed-IsMachineStep revision a _ (ok _) (err _) may e = IsMachineStep-refl c
  allowed-IsMachineStep revision a note (ok tt) (ok next) may e =
      let applied = apply-Applied g revision a note next e in
      let allowed = authorize-machine a g 0 may in
      put_goal-IsMachineStep c g has next _
        (record {
          same_id = applied.kept_id;
          same_objective = applied.kept_objective;
          same_budget = applied.kept_max;
          phase_moves = phase_after g a next applied.moved allowed.1;
        })
        (stays (is_active next.phase))
    where
      stays : (b : Bool) → c.armed ≡ false → (if b then c else set_armed false c).armed ≡ false
      stays true e = e
      stays false e = refl

  drive-IsMachineStep : IsMachineStep c (drive (some g) c).0
  unfolding start_round
  drive-IsMachineStep = drive_if (rounds_left g && c.armed)
    where
      opened : IsMachineStep c (put_goal (start_round g) c)
      opened =
          put_goal-IsMachineStep c g has (start_round g) c
            (record {
              same_id = refl;
              same_objective = refl;
              same_budget = refl;
              phase_moves = inl refl;
            })
            (λ e. e)

      drive_if :
          (b : Bool)
          → IsMachineStep c (
              let r : GoalControl × Next =
                if b then (put_goal (start_round g) c, goal_round) else (c, idle) in
              r.0)
      drive_if false = IsMachineStep-refl c
      drive_if true = opened

  drive_from-IsMachineStep : IsMachineStep c (drive c.goal c).0
  drive_from-IsMachineStep =
      subst (λ o. IsMachineStep c (drive o c).0) (sym has) drive-IsMachineStep

turn_end-IsMachineStep : (t : TurnEnd) (c : GoalControl) → IsMachineStep c (turn_end t c).0
unfolding turn_end
turn_end-IsMachineStep t c = ends t.mine t.queued t.cancelled t.unfinished
  where
    cleared : IsMachineStep c (set_armed false c)
    cleared = record { moves = MachineMoves-refl c.goal; arms_nothing = λ _. refl }

    driven : (o : Option Goal) → c.goal ≡ o → IsMachineStep c (drive c.goal c).0
    driven none e = subst (λ o. IsMachineStep c (drive o c).0) (sym e) (IsMachineStep-refl c)
    driven (some g) e = drive_from-IsMachineStep c g e

    ends :
        (mine queued cancelled unfinished : Bool)
        → IsMachineStep c (
            let r : GoalControl × Next =
              if not mine
              then (c, idle)
              else if queued
              then (c, followup)
              else if cancelled
              then (set_armed false c, idle)
              else if unfinished
              then (c, auto_continue)
              else drive c.goal c in
            r.0)
    ends false _ _ _ = IsMachineStep-refl c
    ends true true _ _ = IsMachineStep-refl c
    ends true false true _ = cleared
    ends true false false true = IsMachineStep-refl c
    ends true false false false = driven c.goal refl

update_goal-IsMachineStep :
    (source : TurnSource) (revision : Option ℕ) (action : Str) (note : Option Str) (c : GoalControl)
    → is_human source ≡ false
    → IsMachineStep c (update_goal source revision action note c).0
unfolding update_goal
update_goal-IsMachineStep source revision action note c machine = updated c.goal revision refl
  where
    acted :
        (g : Goal) (revision : ℕ) (parsed : Result GoalAction)
        → c.goal ≡ some g
        → IsMachineStep c (update_with false revision note g parsed c).0
    acted g revision (err _) has = IsMachineStep-refl c
    acted g revision (ok a) has =
        allowed-IsMachineStep c g has revision a note (authorize a g false 0)
          (apply g revision a note) refl refl

    updated :
        (o : Option Goal) (revision : Option ℕ)
        → c.goal ≡ o
        → IsMachineStep c (update_from o revision source action note c).0
    updated none revision has = IsMachineStep-refl c
    updated (some g) none has = IsMachineStep-refl c
    updated (some g) (some revision) has =
        subst (λ h. IsMachineStep c (update_with h revision note g (parse_action action) c).0)
          (sym machine) (acted g revision (parse_action action) has)

pub create_goal-refused :
    (source : TurnSource) (objective : Option Str) (raw : ℕ) (c : GoalControl)
    → is_human source ≡ false
    → (create_goal source objective raw c).0 ≡ c
unfolding create_goal
create_goal-refused source none raw c machine = refl
create_goal-refused source (some objective) raw c machine = ground arith

-- An operation that no person asked for leaves the goal's id, objective and budget as they are, moves
-- its phase only to completed, or to blocked once three rounds have started, and never arms the driver.
pub run_op-IsMachineStep :
    (op : Op) (c : GoalControl) → is_human_op op ≡ false → IsMachineStep c (run_op op c)
unfolding run_op
run_op-IsMachineStep (create source objective raw) c machine =
    subst (IsMachineStep c) (sym (create_goal-refused source objective raw c machine))
      (IsMachineStep-refl c)
run_op-IsMachineStep (update source revision action note) c machine =
    update_goal-IsMachineStep source revision action note c machine
run_op-IsMachineStep (command free input) c machine = ground arith
run_op-IsMachineStep (turn_ends t) c machine = turn_end-IsMachineStep t c
run_op-IsMachineStep disarm c machine = record {
  moves = MachineMoves-refl c.goal;
  arms_nothing = λ _. refl;
}
