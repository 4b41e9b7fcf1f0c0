-- ===== src/Goal/Control/Sound.antt =====
-- What is to hold of a session's goal and its arming, and the pieces of the operations that keep it.
use sica_rust.Prelude.{
  ℕ, ◌+◌, ◌≤◌, ◌≡◌, refl, Bool, true, false, ◌&&◌, Option, none, some, arith, if◌then◌else◌,
}
use sica_rust.Prelude.Str.{Str}
use sica_rust.Prelude.Trim.{trim}
use sica_rust.Log.{TurnSource}
use sica_rust.Goal.{
  Goal, GoalAction, Result, ok, err, new_goal, rounds_left, apply, edit, start_round,
  parse_max_rounds,
}
use sica_rust.Goal.Laws.{apply-Applied}
use sica_rust.Goal.Control.{
  GoalControl, set_armed, put_goal, create_goal, land_update, land_edit, drive, Next, idle,
  goal_round,
}

-- A goal within its budget of rounds, which is 256 at most.
pub record IsBounded (g : Goal) : Type 0 where
  pub some_rounds : 1 ≤ g.max_rounds
  pub capped : g.max_rounds ≤ 256
  pub within : g.rounds_started ≤ g.max_rounds

abbrev pub GoalIsBounded : Option Goal → Type 0
GoalIsBounded none = Unit
GoalIsBounded (some g) = IsBounded g

-- What arming promises: a goal that may run another round.
abbrev pub ArmedHasRounds : Bool → Option Goal → Type 0
ArmedHasRounds false _ = Unit
ArmedHasRounds true none = ⊥
ArmedHasRounds true (some g) = rounds_left g ≡ true

pub record IsSound (c : GoalControl) : Type 0 where
  pub bounded : GoalIsBounded c.goal
  pub armed_has_rounds : ArmedHasRounds c.armed c.goal

pub put_goal-IsSound : (g : Goal) (c : GoalControl) → IsBounded g → IsSound (put_goal g c)
unfolding put_goal
put_goal-IsSound g c h = record {
  bounded = h;
  armed_has_rounds = armed_put c.armed (rounds_left g) refl;
}
  where
    armed_put :
        (a left : Bool) → rounds_left g ≡ left → ArmedHasRounds (if left then a else false) (some g)
    armed_put true true e = e
    armed_put false true e = tt
    armed_put a false e = tt

pub set_armed-IsSound : (c : GoalControl) → IsSound c → IsSound (set_armed false c)
set_armed-IsSound c h = record { bounded = h.bounded; armed_has_rounds = tt }

pub new_goal-IsBounded :
    (id raw : ℕ) (objective : Str) → IsBounded (new_goal id objective (parse_max_rounds raw))
unfolding new_goal parse_max_rounds
new_goal-IsBounded id raw objective = record {
  some_rounds = ground arith;
  capped = ground arith;
  within = omega arith;
}

pub apply-IsBounded :
    (g next : Goal) (revision : ℕ) (action : GoalAction) (note : Option Str)
    → IsBounded g
    → apply g revision action note ≡ ok next
    → IsBounded next
apply-IsBounded g next revision action note h e =
    let a = apply-Applied g revision action note next e in
    record {
      some_rounds = omega (arith, a.kept_max, h.some_rounds);
      capped = omega (arith, a.kept_max, h.capped);
      within = omega (arith, a.kept_max, a.kept_rounds, h.within);
    }

pub edit-IsBounded :
    (g next : Goal) (revision : ℕ) (objective : Str)
    → IsBounded g
    → edit g revision objective ≡ ok next
    → IsBounded next
unfolding edit
edit-IsBounded g next revision objective h e = ground arith

pub start_round-IsBounded :
    (g : Goal) → IsBounded g → rounds_left g ≡ true → IsBounded (start_round g)
unfolding start_round rounds_left
start_round-IsBounded g h left = ground arith

pub create_goal-IsSound :
    (source : TurnSource) (objective : Option Str) (raw : ℕ) (c : GoalControl)
    → IsSound c
    → IsSound (create_goal source objective raw c).0
unfolding create_goal
create_goal-IsSound source none raw c h = h
create_goal-IsSound source (some objective) raw c h =
    let sound =
      put_goal-IsSound (new_goal c.next_goal (trim objective) (parse_max_rounds raw))
        (record c { armed = true; next_goal = c.next_goal + 1 })
        (new_goal-IsBounded c.next_goal raw (trim objective)) in
    ground (arith, h, sound)

-- Every outcome of a change is sound if the goals that it can make are bounded.
module _ (c : GoalControl) (sound : IsSound c) where
  pub land_update-IsSound :
      (r : Result Goal)
      → ((next : Goal) → r ≡ ok next → IsBounded next)
      → IsSound (land_update c r).0
  land_update-IsSound (err _) h = sound
  land_update-IsSound (ok next) h = put_goal-IsSound next _ (h next refl)

  pub land_edit-IsSound :
      (r : Result Goal) → ((next : Goal) → r ≡ ok next → IsBounded next) → IsSound (land_edit c r).0
  land_edit-IsSound (err _) h = sound
  land_edit-IsSound (ok next) h = put_goal-IsSound next c (h next refl)

  pub drive-IsSound : (o : Option Goal) → GoalIsBounded o → IsSound (drive o c).0
  drive-IsSound none h = sound
  drive-IsSound (some g) h = drive_if (rounds_left g && c.armed) refl
    where
      drive_if :
          (b : Bool)
          → (rounds_left g && c.armed) ≡ b
          → IsSound (
              let r : GoalControl × Next =
                if b then (put_goal (start_round g) c, goal_round) else (c, idle) in
              r.0)
      drive_if false e = sound
      drive_if true e =
          put_goal-IsSound (start_round g) c (start_round-IsBounded g h (ground arith))
