-- ===== src/Budget/Trim/Report.antt =====
-- What `trim_to_budget` returns: the system prompt, a marker that counts what is gone, and the newest
-- messages.
use sica_rust.Prelude.{
  ℕ, ◌-◌, ◌≤◌, ◌<◌, ◌≡◌, ◌⊎◌, refl, ap, sym, ◌∙◌, true, false, List, [], ◌∷◌, ◌++◌, arith, ltb, leb,
  if◌then◌else◌, Bool-cases, inl, inr, length, drop, insert_at, length-append,
}
use sica_rust.Prelude.Str.{str, str_eq}
use sica_rust.Budget.Chat.{ChatMessage}
use sica_rust.Budget.Trim.{
  total, sys_count, drop_oldest, marker, trim_to_budget, Kept, drop_oldest-Kept, insert_at-length,
}

-- A request with its system prompt apart.
record Split (messages : List ChatMessage) : Type 0 where
  pre : List ChatMessage
  rest : List ChatMessage
  joined : messages ≡ pre ++ rest
  sys_only : length pre ≡ sys_count messages

cut_off_system : (messages : List ChatMessage) → Split messages
unfolding sys_count
cut_off_system [] = record { pre = []; rest = []; joined = refl; sys_only = refl }
cut_off_system (m ∷ ms) = elim (Bool-cases (str_eq m.role (str "system"))) [
  | inl sys ↦ record { pre = m ∷ []; rest = ms; joined = refl; sys_only = rw sys refl }
  | inr other ↦ record { pre = []; rest = m ∷ ms; joined = refl; sys_only = rw other refl }
]

-- The report where the messages are over the budget, by what the loop does.
report_of_loop :
    (messages msgs : List ChatMessage) (budget k : ℕ)
    → budget < total messages
    → drop_oldest budget (sys_count messages) (length messages) messages 0 ≡ (msgs, k)
    → ((trim_to_budget messages budget).dropped ≡ k)
      × ((trim_to_budget messages budget).messages
          ≡ (if ltb 0 k then insert_at (sys_count messages) (marker k) msgs else msgs))
unfolding trim_to_budget
report_of_loop messages msgs budget k over e = rw (over_test (total messages) over, e) (refl, refl)
  where
    over_test : (t : ℕ) → budget < t → leb t budget ≡ false
    over_test t h = ground arith

run_loop :
    (messages : List ChatMessage) (budget : ℕ) (s : Split messages)
    → (k : ℕ) × (drop_oldest budget (sys_count messages) (length messages) messages 0
        ≡ (s.pre ++ drop k s.rest, k))
      × Kept budget s.pre s.rest k
run_loop messages budget s =
    let (k, same, kept) =
      drop_oldest-Kept budget s.pre (length messages) s.rest 0
        (omega (arith, ap length s.joined, length-append s.pre s.rest)) in
    (
      k,
      ap (λ n. drop_oldest budget n (length messages) messages 0) (sym s.sys_only)
          ∙ ap (λ ms. drop_oldest budget (length s.pre) (length messages) ms 0) s.joined
          ∙ same
          ∙ ap (λ n. (s.pre ++ drop k s.rest, n)) (omega arith),
      kept,
    )

-- A request over its budget loses its `k` oldest messages behind the system prompt and never its last
-- message. What is left is within the budget, or it is the last message alone behind the prompt. A
-- marker that states `k` stands behind the system prompt if any message was dropped.
pub trim_to_budget_lem :
    (messages : List ChatMessage) (budget : ℕ)
    → budget < total messages
    → (pre rest : List ChatMessage) × (k : ℕ) × (messages ≡ pre ++ rest)
      × (length pre ≡ sys_count messages)
      × ((trim_to_budget messages budget).dropped ≡ k)
      × ((trim_to_budget messages budget).messages
          ≡ (if ltb 0 k then pre ++ marker k ∷ drop k rest else pre ++ drop k rest))
      × (k ≤ length rest - 1)
      × ((total (pre ++ drop k rest) ≤ budget) ⊎ (length (drop k rest) ≤ 1))
trim_to_budget_lem messages budget over =
    let s = cut_off_system messages in
    let (k, ran, kept) = run_loop messages budget s in
    let (dropped, reported) = report_of_loop messages (s.pre ++ drop k s.rest) budget k over ran in
    (
      s.pre,
      s.rest,
      k,
      s.joined,
      s.sys_only,
      dropped,
      reported
          ∙ ap (λ msgs. if ltb 0 k then msgs else s.pre ++ drop k s.rest)
              (ap (λ n. insert_at n (marker k) (s.pre ++ drop k s.rest)) (sym s.sys_only)
                ∙ insert_at-length s.pre (marker k) (drop k s.rest)),
      kept.leaves_one,
      kept.ends,
    )

kept_whole :
    (messages : List ChatMessage) (budget : ℕ)
    → leb (total messages) budget ≡ true
    → (trim_to_budget messages budget).dropped ≡ 0
unfolding trim_to_budget
kept_whole messages budget h = rw h refl

-- No message leaves without need: with one of the dropped messages and all newer ones back, the
-- request is over its budget.
pub trim_to_budget_minimal :
    (messages pre rest : List ChatMessage) (budget j : ℕ)
    → messages ≡ pre ++ rest
    → length pre ≡ sys_count messages
    → j < (trim_to_budget messages budget).dropped
    → budget < total (pre ++ drop j rest)
trim_to_budget_minimal messages pre rest budget j joined sys_only h =
    elim (Bool-cases (leb (total messages) budget)) [
      | inl whole ↦ absurd (omega (arith, kept_whole messages budget whole))
      | inr over ↦
          let s : Split messages = record {
            pre = pre;
            rest = rest;
            joined = joined;
            sys_only = sys_only;
          } in
          let (k, ran, kept) = run_loop messages budget s in
          let (dropped, _) =
            report_of_loop messages (pre ++ drop k rest) budget k (exceeds (total messages) over)
              ran in
          kept.needed j (omega arith)
    ]
  where
    exceeds : (t : ℕ) → leb t budget ≡ false → budget < t
    exceeds t e = ground arith
