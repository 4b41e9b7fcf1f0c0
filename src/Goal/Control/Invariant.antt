-- ===== src/Goal/Control/Invariant.antt =====
-- What holds of a session's goal and its arming after every operation.
use sica_rust.Prelude.{
  ℕ, ◌≡◌, refl, Bool, true, false, ◌&&◌, Option, none, some, List, [], ◌∷◌, arith, if◌then◌else◌,
}
use sica_rust.Prelude.Str.{Str, str, str_eq, is_empty}
use sica_rust.Prelude.Trim.{trim, to_ascii_lowercase}
use sica_rust.Prelude.Split.{split_once_whitespace}
use sica_rust.Log.{TurnSource, is_human}
use sica_rust.Goal.{
  Goal, GoalAction, Result, ok, err, rounds_left, is_active, parse_action, authorize, apply, edit,
  start_round,
}
use sica_rust.Goal.Control.{
  GoalControl, set_armed, put_goal, update_allowed, update_with, update_from, update_goal,
  start_goal, start_if_idle, land_command, land_edit, command_action, command_word, command_split,
  command_from, command_goal, TurnEnd, turn_end, Op, create, update, command, turn_ends, disarm,
  run_op, run_ops,
}
use sica_rust.Goal.Control.Sound.{
  IsBounded, GoalIsBounded, IsSound, put_goal-IsSound, set_armed-IsSound, apply-IsBounded,
  edit-IsBounded, start_round-IsBounded, create_goal-IsSound, land_update-IsSound,
  land_edit-IsSound, drive-IsSound,
}

module _ (c : GoalControl) (sound : IsSound c) where
  update_goal-IsSound :
      (source : TurnSource) (revision : Option ℕ) (action : Str) (note : Option Str)
      → IsSound (update_goal source revision action note c).0
  unfolding update_goal
  update_goal-IsSound source revision action note =
      update_from-IsSound c.goal revision sound.bounded
    where
      allowed :
          (g : Goal) (revision : ℕ) (a : GoalAction) (may : Result (Unit {0}))
          → IsBounded g
          → IsSound (update_allowed c may (apply g revision a note)).0
      allowed g revision a (err _) h = sound
      allowed g revision a (ok _) h =
          land_update-IsSound c sound (apply g revision a note)
            (λ next. apply-IsBounded g next revision a note h)

      with_action :
          (g : Goal) (revision : ℕ) (parsed : Result GoalAction)
          → IsBounded g
          → IsSound (update_with (is_human source) revision note g parsed c).0
      with_action g revision (err _) h = sound
      with_action g revision (ok a) h = allowed g revision a (authorize a g (is_human source) 0) h

      update_from-IsSound :
          (o : Option Goal) (revision : Option ℕ)
          → GoalIsBounded o
          → IsSound (update_from o revision source action note c).0
      update_from-IsSound none revision h = sound
      update_from-IsSound (some g) none h = sound
      update_from-IsSound (some g) (some revision) h =
          with_action g revision (parse_action action) h

  -- A round that a command starts needs a goal with rounds left, which is what `resumed` says.
  land_command-IsSound :
      (free : Bool) (r : Result Goal)
      → ((next : Goal) → r ≡ ok next → IsBounded next)
      → IsSound (land_command free c r).0
  unfolding put_goal
  land_command-IsSound free (err _) h = sound
  land_command-IsSound free (ok next) h = started (is_active next.phase && rounds_left next) refl
    where
      bounded : IsBounded next
      bounded = h next refl

      started :
          (resumed : Bool)
          → (is_active next.phase && rounds_left next) ≡ resumed
          → IsSound (start_if_idle resumed free (put_goal next (set_armed resumed c)))
      started resumed e = started_if (resumed && free) refl
        where
          started_if :
              (b : Bool)
              → (resumed && free) ≡ b
              → IsSound (
                  if b
                  then start_goal (some next) (put_goal next (set_armed resumed c))
                  else put_goal next (set_armed resumed c))
          started_if false e' = put_goal-IsSound next (set_armed resumed c) bounded
          started_if true e' =
              put_goal-IsSound (start_round next) (put_goal next (set_armed resumed c))
                (start_round-IsBounded next bounded (ground arith))

  command_goal-IsSound : (free : Bool) (input : Str) → IsSound (command_goal free input c).0
  unfolding command_goal
  command_goal-IsSound free input = from_goal c.goal sound.bounded
    where
      parsed :
          (g : Goal) (note : Str) (a : Result GoalAction)
          → IsBounded g
          → IsSound (command_action free note g a c).0
      parsed g note (err _) h = sound
      parsed g note (ok a) h =
          land_command-IsSound free (apply g g.revision a (some note))
            (λ next. apply-IsBounded g next g.revision a (some note) h)

      worded :
          (g : Goal) (word note : Str) → IsBounded g → IsSound (command_word free word note g c).0
      worded g word note h = word_is (is_empty word) (str_eq (to_ascii_lowercase word) (str "edit"))
        where
          word_is :
              (empty edits : Bool)
              → IsSound (
                  let r : GoalControl × Bool =
                    if empty
                    then (c, true)
                    else if edits
                    then land_edit c (edit g g.revision note)
                    else command_action free note g (parse_action word) c in
                  r.0)
          word_is true _ = sound
          word_is false true =
              land_edit-IsSound c sound (edit g g.revision note)
                (λ next. edit-IsBounded g next g.revision note h)
          word_is false false = parsed g note (parse_action word) h

      from_goal : (o : Option Goal) → GoalIsBounded o → IsSound (command_from free o input c).0
      from_goal none h = sound
      from_goal (some g) h = split (split_once_whitespace (trim input))
        where
          split :
              (parts : Option (Str × Str)) → IsSound (command_split free parts (trim input) g c).0
          split none = worded g (trim input) [] h
          split (some (word, rest)) = worded g (trim word) (trim rest) h

  turn_end-IsSound : (t : TurnEnd) → IsSound (turn_end t c).0
  unfolding turn_end
  turn_end-IsSound t =
      ground (arith, sound, set_armed-IsSound c sound, drive-IsSound c sound c.goal sound.bounded)

  -- Every operation keeps the goal within its budget of rounds, and armed only if it may run one more.
  pub run_op-IsSound : (op : Op) → IsSound (run_op op c)
  unfolding run_op
  run_op-IsSound (create source objective raw) = create_goal-IsSound source objective raw c sound
  run_op-IsSound (update source revision action note) =
      update_goal-IsSound source revision action note
  run_op-IsSound (command free input) = command_goal-IsSound free input
  run_op-IsSound (turn_ends t) = turn_end-IsSound t
  run_op-IsSound disarm = set_armed-IsSound c sound

pub run_ops-IsSound : (ops : List Op) (c : GoalControl) → IsSound c → IsSound (run_ops ops c)
unfolding run_ops
run_ops-IsSound [] c h = h
run_ops-IsSound (op ∷ ops) c h = run_ops-IsSound ops (run_op op c) (run_op-IsSound c h op)

-- A session that starts with no goal.
abbrev pub no_goal : GoalControl
no_goal = record { goal = none; armed = false; next_goal = 1 }

-- After any operations on a session that started with no goal, a goal has started no more rounds than
-- its budget, which is 256 at most, and the driver is armed only if another round may run.
pub reachable-IsSound : (ops : List Op) → IsSound (run_ops ops no_goal)
reachable-IsSound ops = run_ops-IsSound ops no_goal (record { bounded = tt; armed_has_rounds = tt })
