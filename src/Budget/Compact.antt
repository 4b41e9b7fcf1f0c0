-- ===== src/Budget/Compact.antt =====
-- crates/agents/src/compact.rs: pruning one long text, and the split point of a compaction.
pub mod Prune
pub mod SplitPoint
use sica_rust.Prelude.{
  ℕ, zero, suc, ◌+◌, ◌-◌, Bool, true, false, not, ◌&&◌, ◌||◌, Option, none, some, List, [], ◌∷◌,
  ltb, leb, if◌then◌else◌, length, get_elem?, is_some, ◌>>=◌, min, max,
}
use sica_rust.Prelude.Str.{Str, str, len}
use sica_rust.Retain.{TextWindow, head_tail, notice, render}
use sica_rust.Message.{Message, Role, tool}
use sica_rust.Budget.Tokens.{u32, saturating_add, approx_tokens, sum_u32}

abbrev pub prune_threshold : ℕ
prune_threshold = 8192

abbrev pub prune_head : ℕ
prune_head = 4096

abbrev pub prune_tail : ℕ
prune_tail = 1024

abbrev pub prune_hint : Str
prune_hint =
    str
      "middle of this older tool result was pruned to free context; re-run the tool if you need it"

-- The outer `none` is a panic; `some none` leaves the text alone.
unfoldable pub prune_summary : Str → Option (Option Str)
prune_summary summary = if leb (len summary) prune_threshold then some none else do
  window ← head_tail summary prune_head prune_tail
  some (some (render window (notice window.omitted prune_hint)))

abbrev pub truncated_hint : Str
truncated_hint =
    str
      "this reply was cut off at the output limit, so any tool call in it was incomplete and did NOT run; its middle was removed from context"

unfoldable pub truncated_reply : Str → Option (Option Str)
truncated_reply content = if leb (len content) prune_threshold then some none else do
  window ← head_tail content prune_head prune_tail
  some (some (render window (notice window.omitted truncated_hint)))

unfoldable pub msg_tokens : Message → ℕ
msg_tokens m = u32 (approx_tokens m.content + 4)

unfoldable pub approx_total : List Message → ℕ
unfolding msg_tokens
approx_total = sum_u32 msg_tokens

abbrev pub min_fold : ℕ
min_fold = 4

abbrev pub min_tail : ℕ
min_tail = 2

-- The walk backwards that takes messages into the tail until it is full; `none` is a panic.
walk_back : List Message → ℕ → ℕ → ℕ → ℕ → Option ℕ
walk_back messages tail_budget max_split acc zero = some 0
walk_back messages tail_budget max_split acc (suc split) = do
  m ← get_elem? messages split
  let taken = saturating_add acc (msg_tokens m)
  elim (ltb tail_budget taken && leb (suc split) max_split) [
    | true ↦ some (suc split)
    | false ↦ walk_back messages tail_budget max_split taken split
  ]

abbrev is_tool : Role → Bool
is_tool tool = true
is_tool _ = false

abbrev pub opens_on_tool : List Message → ℕ → Bool
opens_on_tool messages split = elim (get_elem? messages split) [
  | none ↦ false
  | some m ↦ is_tool m.role
]

abbrev pub closes_on_pending_calls : List Message → ℕ → Bool
closes_on_pending_calls messages zero = false
closes_on_pending_calls messages (suc split) = elim (get_elem? messages split) [
  | none ↦ false
  | some m ↦ is_some m.tool_calls
]

-- The second walk, which keeps a call and its results together.
walk_pairs : List Message → ℕ → ℕ
walk_pairs messages zero = 0
walk_pairs messages (suc split) =
    elim (not (opens_on_tool messages (suc split))
      && not (closes_on_pending_calls messages (suc split))) [
        | true ↦ suc split
        | false ↦ walk_pairs messages split
      ]

-- `tail_tokens budget pct` is the share of the budget, computed in `f32`: a parameter.
module _ (tail_tokens : ℕ → ℕ → ℕ) where
  -- The outer `none` is a panic; `some none` means that there is nothing worth folding.
  unfoldable pub split_index : List Message → ℕ → ℕ → Option (Option ℕ)
  unfolding walk_back walk_pairs
  split_index messages budget_tokens retain_pct =
      if ltb (length messages) (min_fold + min_tail) then some none else do
        let tail_budget = tail_tokens budget_tokens (max retain_pct 1)
        let max_split = length messages - min_tail
        walked ← walk_back messages tail_budget max_split 0 (length messages)
        let split = walk_pairs messages (min walked max_split)
        some (if ltb split min_fold then none else some split)
