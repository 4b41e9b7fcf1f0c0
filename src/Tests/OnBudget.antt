-- ===== src/Tests/OnBudget.antt =====
-- A meter after one request, a request that is trimmed, a long text, and a split of six messages.
use sica_rust.Prelude.{
  ℕ, zero, suc, ◌+◌, ◌-◌, ◌≤◌, ◌<◌, ◌≡◌, ◌⊎◌, refl, false, none, some, List, [], ◌∷◌, ◌++◌, arith,
  length, drop, ltb, if◌then◌else◌, ◌*◌, ◌/◌,
}
use sica_rust.Prelude.Str.{Str, str, len, str_eq}
use sica_rust.Message.{Message, user_message, assistant_message}
use sica_rust.Log.Surface.{SurfaceEntry}
use sica_rust.Budget.Tokens.{approx_tokens, sum_u32, sum}
use sica_rust.Budget.Chat.{ChatMessage, ChatContent, text_of}
use sica_rust.Budget.Meter.{TokenMeter, entry_tokens}
use sica_rust.Budget.Trim.{total, sys_count, marker, trim_to_budget, message_tokens}
use sica_rust.Budget.Trim.Report.{trim_to_budget_lem, trim_to_budget_minimal}
use sica_rust.Budget.Compact.{msg_tokens, split_index, opens_on_tool, closes_on_pending_calls}
use sica_rust.Budget.Compact.SplitPoint.{split_index-safe}

abbrev entry_at : ℕ → SurfaceEntry
entry_at seq = record { seq = seq; message = user_message (str "hi"); tool = none; context = none }

abbrev fresh : TokenMeter
fresh = record { anchor = none }

price : sum_u32 entry_tokens (entry_at 1 ∷ []) ≤ 20
unfolding entry_tokens approx_tokens len
price = omega arith

heuristic_small : sum entry_tokens (entry_at 1 ∷ entry_at 2 ∷ []) < 4294967296
unfolding entry_tokens approx_tokens len
heuristic_small = omega arith

abbrev chat : Str → Str → ChatMessage
chat role body = record {
  role = role;
  content = ChatContent.text body;
  tool_calls = none;
  tool_call_id = none;
}

abbrev request : List ChatMessage
request =
    chat (str "system") (str "be brief")
    ∷ chat (str "user") (str "one")
    ∷ chat (str "user") (str "two")
    ∷ []

over : 10 < total request
unfolding message_tokens approx_tokens text_of
over = omega arith

trim_to_budget_lem_example :
    (pre rest : List ChatMessage) × (k : ℕ) × (request ≡ pre ++ rest)
    × (length pre ≡ sys_count request)
    × ((trim_to_budget request 10).dropped ≡ k)
    × ((trim_to_budget request 10).messages
        ≡ (if ltb 0 k then pre ++ marker k ∷ drop k rest else pre ++ drop k rest))
    × (k ≤ length rest - 1)
    × ((total (pre ++ drop k rest) ≤ 10) ⊎ (length (drop k rest) ≤ 1))
trim_to_budget_lem_example = trim_to_budget_lem request 10 over

one_dropped : (trim_to_budget request 10).dropped ≡ 1
unfolding trim_to_budget sys_count message_tokens approx_tokens text_of str_eq
one_dropped = refl

system_only : length (chat (str "system") (str "be brief") ∷ []) ≡ sys_count request
unfolding sys_count str_eq
system_only = refl

trim_to_budget_minimal_example :
    10
    < total (
        chat (str "system") (str "be brief")
        ∷ chat (str "user") (str "one")
        ∷ chat (str "user") (str "two")
        ∷ [])
trim_to_budget_minimal_example =
    trim_to_budget_minimal request (chat (str "system") (str "be brief") ∷ [])
      (chat (str "user") (str "one") ∷ chat (str "user") (str "two") ∷ []) 10 0 refl system_only
      (omega (arith, one_dropped))

repeated : ℕ → Str
repeated zero = []
repeated (suc n) = 97 ∷ repeated n

len-repeated : (n : ℕ) → len (repeated n) ≡ n
unfolding repeated len
len-repeated zero = refl
len-repeated (suc n) = omega (arith, len-repeated n)

-- A tail's share that is a percentage of the budget.
abbrev share : ℕ → ℕ → ℕ
share budget pct = budget * pct / 100

abbrev talk : List Message
talk =
    user_message (str "a")
    ∷ assistant_message (str "b")
    ∷ user_message (str "c")
    ∷ assistant_message (str "d")
    ∷ user_message (str "e")
    ∷ assistant_message (str "f")
    ∷ user_message (str "g")
    ∷ []

splits_at_5 : split_index share talk 10 20 ≡ some (some 5)
unfolding split_index msg_tokens approx_tokens
splits_at_5 = refl

split_index-safe_example :
    (4 ≤ 5)
    × (5 + 2 ≤ length talk)
    × (opens_on_tool talk 5 ≡ false)
    × (closes_on_pending_calls talk 5 ≡ false)
split_index-safe_example = split_index-safe share talk 10 20 5 splits_at_5
