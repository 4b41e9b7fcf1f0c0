-- ===== src/Budget/Compact/SplitPoint.antt =====
-- The split point of a compaction: in range, and never between a tool call and its result.
use sica_rust.Prelude.{
  ℕ, zero, suc, ◌+◌, ◌-◌, ◌≤◌, ◌<◌, ◌≡◌, refl, sym, ◌∙◌, Bool, true, false, not, ◌&&◌, Option, none,
  some, List, [], ◌∷◌, arith, ltb, leb, if◌then◌else◌, Bool-cases, inl, inr, ◌>>=◌, length,
  get_elem?, min, max,
}
use sica_rust.Message.{Message}
use sica_rust.Budget.Tokens.{saturating_add}
use sica_rust.Budget.Compact.{
  msg_tokens, walk_back, opens_on_tool, closes_on_pending_calls, walk_pairs, split_index,
}

get_elem?-some :
    (messages : List Message) (i : ℕ)
    → i < length messages
    → (m : Message) × (get_elem? messages i ≡ some m)
get_elem?-some [] i h = elim h [ ]
get_elem?-some (m ∷ ms) zero h = (m, refl)
get_elem?-some (m ∷ ms) (suc i) h = get_elem?-some ms i (omega arith)

walk_back-total :
    (messages : List Message) (tail_budget max_split acc split : ℕ)
    → split ≤ length messages
    → (r : ℕ) × (walk_back messages tail_budget max_split acc split ≡ some r) × (r ≤ split)
unfolding walk_back
walk_back-total messages tail_budget max_split acc zero h = (0, refl, omega arith)
walk_back-total messages tail_budget max_split acc (suc split) h =
    let (m, found) = get_elem?-some messages split h in
    let taken = saturating_add acc (msg_tokens m) in
    elim (Bool-cases (ltb tail_budget taken && leb (suc split) max_split)) [
      | inl full ↦ (suc split, rw found (rw (full, ◌>>=◌) refl), omega arith)
      | inr room ↦
          let (r, walked, below) =
            walk_back-total messages tail_budget max_split taken split (omega arith) in
          (r, rw found (rw (room, ◌>>=◌) walked), omega arith)
    ]

walk_pairs-le : (messages : List Message) (split : ℕ) → walk_pairs messages split ≤ split
unfolding walk_pairs
walk_pairs-le messages zero = omega arith
walk_pairs-le messages (suc split) = ground (arith, walk_pairs-le messages split)

walk_pairs-safe :
    (messages : List Message) (split : ℕ)
    → 0 < walk_pairs messages split
    → (opens_on_tool messages (walk_pairs messages split) ≡ false)
      × (closes_on_pending_calls messages (walk_pairs messages split) ≡ false)
unfolding walk_pairs
walk_pairs-safe messages zero h = elim h [ ]
walk_pairs-safe messages (suc split) h =
    elim (Bool-cases (
      not (opens_on_tool messages (suc split))
      && not (closes_on_pending_calls messages (suc split)))) [
        | inl safe ↦
            rw (safe, walk_pairs)
              (both (opens_on_tool messages (suc split))
                (closes_on_pending_calls messages (suc split)) safe)
        | inr unsafe ↦
            rw (unsafe, walk_pairs) (walk_pairs-safe messages split (rw (unsafe, walk_pairs) at h))
      ]
  where
    both : (a b : Bool) → (not a && not b) ≡ true → (a ≡ false) × (b ≡ false)
    both a b e = ground arith

module _ (tail_tokens : ℕ → ℕ → ℕ) where
  -- The split of a history long enough to fold, by the two walks.
  record Walked (messages : List Message) (budget_tokens retain_pct : ℕ) : Type 0 where
    walked : ℕ
    in_range : walked ≤ length messages
    result :
        split_index tail_tokens messages budget_tokens retain_pct
        ≡ some (
            if ltb (walk_pairs messages (min walked (length messages - 2))) 4
            then none
            else some (walk_pairs messages (min walked (length messages - 2))))

  split_index-Walked :
      (messages : List Message) (budget_tokens retain_pct : ℕ)
      → ltb (length messages) 6 ≡ false
      → Walked messages budget_tokens retain_pct
  unfolding split_index
  split_index-Walked messages budget_tokens retain_pct long =
      let (r, walked, below) =
        walk_back-total messages (tail_tokens budget_tokens (max retain_pct 1))
          (length messages - 2) 0 (length messages) (omega arith) in
      record { walked = r; in_range = below; result = rw (long, walked) refl }

  -- `split_index` never panics.
  pub split_index-total :
      (messages : List Message) (budget_tokens retain_pct : ℕ)
      → (r : Option ℕ) × (split_index tail_tokens messages budget_tokens retain_pct ≡ some r)
  unfolding split_index
  split_index-total messages budget_tokens retain_pct =
      elim (Bool-cases (ltb (length messages) 6)) [
        | inl short ↦ (none, rw short refl)
        | inr long ↦ (_, (split_index-Walked messages budget_tokens retain_pct long).result)
      ]

  -- A split leaves at least four messages to fold and two to keep, whatever the tail's share of the
  -- budget is; the tail does not open on a tool result, and what is folded does not close on a
  -- message with tool calls of its own.
  pub split_index-safe :
      (messages : List Message) (budget_tokens retain_pct split : ℕ)
      → split_index tail_tokens messages budget_tokens retain_pct ≡ some (some split)
      → (4 ≤ split)
        × (split + 2 ≤ length messages)
        × (opens_on_tool messages split ≡ false)
        × (closes_on_pending_calls messages split ≡ false)
  split_index-safe messages budget_tokens retain_pct split e =
      elim (Bool-cases (ltb (length messages) 6)) [
        | inl short ↦ absurd (too_short short)
        | inr long ↦
            let w = split_index-Walked messages budget_tokens retain_pct long in
            let k = min w.walked (length messages - 2) in
            let p = walk_pairs messages k in
            let (enough, same) = read p (sym w.result ∙ e) in
            let (opens, closes) = walk_pairs-safe messages k (omega arith) in
            (
              omega (arith, same),
              omega (arith, same, walk_pairs-le messages k, long_enough (length messages) long),
              rw (← same) opens,
              rw (← same) closes,
            )
      ]
    where
      too_short : ltb (length messages) 6 ≡ true → ⊥
      too_short short = unfold split_index in (cc (rw short at e))

      read :
          (p : ℕ)
          → ◌≡◌ {A = Option (Option ℕ)}
              (some (if ltb p 4 then none else some p))
              (some (some split))
          → (4 ≤ p) × (p ≡ split)
      read p h = ground arith

      long_enough : (l : ℕ) → ltb l 6 ≡ false → 6 ≤ l
      long_enough l h = ground arith
