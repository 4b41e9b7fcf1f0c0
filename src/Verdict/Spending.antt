-- ===== src/Verdict/Spending.antt =====
-- crates/backend/src/verdict.rs: how many continuations a human message may cost.
use sica_rust.Prelude.{
  ℕ, Bool, true, false, not, Option, none, some, List, [], ◌∷◌, ◌+◌, ◌≤◌, ◌≡◌, ◌&&◌, refl, ltb,
  option_or, is_some, if◌then◌else◌, arith,
}
use sica_rust.Prelude.Str.{Str}
use sica_rust.Verdict.{
  Spent, no_spent, budget_left, open_continue, Verdict, TurnEnded, is_checked, is_refunded,
  refund_auto_continue, judged, on_verdict, continue_prompt, completion_check, spend,
}

abbrev bit : Bool → ℕ
bit b = if b then 1 else 0

abbrev of_entry : Option Spent → Spent
of_entry entry = option_or entry no_spent

abbrev WithinLimits : Option Spent → Type 0
WithinLimits entry = ((of_entry entry).opened ≤ 12) × ((of_entry entry).stalled ≤ 2)

-- What one turn's end does to the counters: `n` continuations opened, `r` refunds.
abbrev Moves : ℕ → ℕ → Option Spent → Option Spent → Type 0
Moves n r before after =
    ((of_entry after).opened ≡ (of_entry before).opened + n)
    × ((of_entry before).stalled + n ≤ (of_entry after).stalled + r)
    × WithinLimits after

on_verdict-Moves :
    (finish : Str) (verdict : Option Verdict) (entry : Option Spent)
    → WithinLimits entry
    → Moves
        (bit (is_some (on_verdict finish verdict entry).1))
        0
        entry
        (on_verdict finish verdict entry).0
unfolding budget_left
on_verdict-Moves finish none entry (few, stalled) = (omega arith, omega arith, (few, stalled))
on_verdict-Moves finish (some v) entry (few, stalled) =
    by_budget v.reached (ltb (of_entry entry).stalled 2 && ltb (of_entry entry).opened 12) refl
  where
    by_budget :
        (reached left : Bool)
        → (ltb (of_entry entry).stalled 2 && ltb (of_entry entry).opened 12) ≡ left
        → (let r : Option Spent × Option Str =
              if not reached && left
              then (
                some (open_continue (of_entry entry)),
                some (continue_prompt v finish (open_continue (of_entry entry)).opened),
              )
              else (entry, none) in
            Moves (bit (is_some r.1)) 0 entry r.0)
    by_budget true _ h = (omega arith, omega arith, (few, stalled))
    by_budget false false h = (omega arith, omega arith, (few, stalled))
    by_budget false true h = ground arith

refund-Moves :
    (b : Bool) (entry : Option Spent)
    → WithinLimits entry
    → Moves 0 (bit b) entry (if b then refund_auto_continue entry else entry)
refund-Moves false entry (few, stalled) = (omega arith, omega arith, (few, stalled))
refund-Moves true none (few, stalled) = (omega arith, omega arith, (few, stalled))
refund-Moves true (some s) (few, stalled) = (omega arith, omega arith, (few, omega arith))

abbrev refunds_of : TurnEnded → ℕ
refunds_of t = bit (is_checked t && is_refunded t)

completion_check-Moves :
    (t : TurnEnded) (entry : Option Spent)
    → WithinLimits entry
    → Moves
        (bit (is_some (completion_check t entry).1))
        (refunds_of t)
        entry
        (completion_check t entry).0
unfolding completion_check
completion_check-Moves t entry h = by_check (is_checked t)
  where
    refunded : Option Spent
    refunded = if is_refunded t then refund_auto_continue entry else entry

    moved : Moves 0 (bit (is_refunded t)) entry refunded
    moved = refund-Moves (is_refunded t) entry h

    judge :
        Moves
          (bit (is_some (on_verdict t.finish (judged t) refunded).1))
          0
          refunded
          (on_verdict t.finish (judged t) refunded).0
    judge = on_verdict-Moves t.finish (judged t) refunded moved.2

    by_check :
        (b : Bool)
        → (let r : Option Spent × Option Str =
              if b then on_verdict t.finish (judged t) refunded else (entry, none) in
            Moves (bit (is_some r.1)) (bit (b && is_refunded t)) entry r.0)
    by_check true = (omega (arith, moved.0, judge.0), omega (arith, moved.1, judge.1), judge.2)
    by_check false = (omega arith, omega arith, h)

-- How many of the turns are continuations that were refunded.
abbrev pub refunds : List TurnEnded → ℕ
refunds [] = 0
refunds (t ∷ ts) = refunds_of t + refunds ts

spend-Moves :
    (ts : List TurnEnded) (entry : Option Spent)
    → WithinLimits entry
    → Moves (spend ts entry).1 (refunds ts) entry (spend ts entry).0
spend-Moves [] entry (few, stalled) = (omega arith, omega arith, (few, stalled))
spend-Moves (t ∷ ts) entry h =
    let one = completion_check-Moves t entry h in
    let rest = spend-Moves ts (completion_check t entry).0 one.2 in
    (omega (arith, one.0, rest.0), omega (arith, one.1, rest.1), rest.2)

-- However the turns after a human message end, and whatever the model says of them, the check opens 12
-- continuations for the message at most, and no more than two over those that were refunded since they
-- got work done: a request that no continuation moves is left after two.
pub spend-bounded :
    (ts : List TurnEnded) → ((spend ts none).1 ≤ 12) × ((spend ts none).1 ≤ refunds ts + 2)
spend-bounded ts =
    let moves = spend-Moves ts none (omega arith, omega arith) in
    let few : (of_entry (spend ts none).0).opened ≤ 12 = moves.2.0 in
    let stalled : (of_entry (spend ts none).0).stalled ≤ 2 = moves.2.1 in
    (omega (arith, moves.0, few), omega (arith, moves.1, stalled))
