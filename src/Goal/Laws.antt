-- ===== src/Goal/Laws.antt =====
-- One change of a goal: the compare-and-set, the terminal phases, the blocker.
use sica_rust.Prelude.{
  ℕ, ◌+◌, ◌%◌, ◌≤◌, ◌<◌, ◌≡◌, ◌≢◌, ◌⊎◌, inl, inr, refl, false, Option, none, some, arith,
}
use sica_rust.Prelude.Str.{Str, is_empty}
use sica_rust.Prelude.Trim.{trim}
use sica_rust.Protocol.{blocked, is_terminal}
use sica_rust.Goal.{
  Goal, GoalAction, pause, resume, complete, block, revision_mismatch, ok, err, phase_of, apply,
  edit, start_round, authorize,
}

-- What a successful change tells of the goal before it, and of the new one.
pub record Applied (g : Goal) (revision : ℕ) (action : GoalAction) (next : Goal) : Type 0 where
  pub was_current : revision ≡ g.revision
  pub moved : next.phase ≡ phase_of action
  pub kept_id : next.id ≡ g.id
  pub kept_objective : next.objective ≡ g.objective
  pub kept_rounds : next.rounds_started ≡ g.rounds_started
  pub kept_max : next.max_rounds ≡ g.max_rounds
  pub bumped : next.revision ≡ (g.revision + 1) % 4294967296
  pub not_over : (is_terminal g.phase ≡ false) ⊎ (action ≡ resume)

pub apply-Applied :
    (g : Goal) (revision : ℕ) (action : GoalAction) (note : Option Str) (next : Goal)
    → apply g revision action note ≡ ok next
    → Applied g revision action next
unfolding apply
apply-Applied g revision action _ next e = ground arith

-- Of two changes that present one revision, only the first is applied: the second is refused with the
-- revisions of both, as long as the revision has not run through all of its 32 bits.
pub apply-apply_stale :
    (g next : Goal) (revision : ℕ) (a b : GoalAction) (first second : Option Str)
    → g.revision < 4294967295
    → apply g revision a first ≡ ok next
    → apply next revision b second ≡ err (revision_mismatch revision (revision + 1))
unfolding apply
apply-apply_stale g next revision a b first second small e =
    let was = apply-Applied g revision a first next e in
    let same : next.revision ≡ revision + 1 = omega (arith, was.bumped, was.was_current) in
    ground (arith, same)

-- The same holds of a rewording and of a round that the driver opened: a change that was prepared
-- before them is refused.
pub apply-edit_stale :
    (g next : Goal) (revision : ℕ) (objective : Str) (b : GoalAction) (second : Option Str)
    → g.revision < 4294967295
    → edit g revision objective ≡ ok next
    → (apply next revision b second ≡ err (revision_mismatch revision (revision + 1)))
      × (apply (start_round g) g.revision b second
          ≡ err (revision_mismatch g.revision (g.revision + 1)))
unfolding apply edit start_round
apply-edit_stale g next revision objective b second small e =
    let same : next.revision ≡ revision + 1 = ground arith in (ground (arith, same), ground arith)

-- A change that leaves the goal blocked was given a note, and the trimmed note, which is not empty,
-- is the goal's blocker.
pub apply-blocker :
    (g next : Goal) (revision : ℕ) (action : GoalAction) (note : Option Str)
    → apply g revision action note ≡ ok next
    → (next.phase ≢ blocked)
      ⊎ ((text : Str) × (note ≡ some text)
          × (next.blocker ≡ some (trim text))
          × (is_empty (trim text) ≡ false))
unfolding apply
apply-blocker g next revision pause _ e = inl (λ h. ground arith)
apply-blocker g next revision resume _ e = inl (λ h. ground arith)
apply-blocker g next revision complete _ e = inl (λ h. ground arith)
apply-blocker g next revision block none e = ground arith
apply-blocker g next revision block (some text) e = inr (text, refl, ground arith, ground arith)

-- What an automatic round at the top level may do to a goal: complete it, or, once three rounds have
-- started, block it. A sub-agent may do nothing.
pub authorize-machine :
    (action : GoalAction) (g : Goal) (depth : ℕ)
    → authorize action g false depth ≡ ok tt
    → (depth ≡ 0) × ((action ≡ complete) ⊎ ((action ≡ block) × (3 ≤ g.rounds_started)))
unfolding authorize
authorize-machine pause g depth e = ground arith
authorize-machine resume g depth e = ground arith
authorize-machine complete g depth e = (ground arith, inl refl)
authorize-machine block g depth e = ground arith
