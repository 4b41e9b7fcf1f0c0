-- ===== src/Budget/Trim.antt =====
-- crates/agents/src/context.rs, `trim_to_budget`: the oldest messages leave an overfull request.
pub mod Report
use sica_rust.Prelude.{
  ℕ, zero, suc, ◌+◌, ◌-◌, ◌≤◌, ◌<◌, ◌≡◌, ◌⊎◌, refl, ap, sym, ◌∙◌, Bool, true, false, ◌&&◌, Option,
  none, some, List, [], ◌∷◌, ◌++◌, arith, ltb, ltb→lt, leb, if◌then◌else◌, Bool-cases, inl, inr,
  length, take, drop, remove_at, insert_at, length-append,
}
use sica_rust.Prelude.Str.{Str, str, str_eq}
use sica_rust.Prelude.Decimal.{decimal}
use sica_rust.Budget.Tokens.{u32, approx_tokens, sum_u32}
use sica_rust.Budget.Chat.{ChatContent, text_of, ChatMessage}

pub record TrimReport : Type 0 where
  pub messages : List ChatMessage
  pub dropped : ℕ

unfoldable pub message_tokens : ChatMessage → ℕ
message_tokens m = u32 (approx_tokens (text_of m.content) + 4)

abbrev pub total : List ChatMessage → ℕ
total = sum_u32 message_tokens

-- 1 if the request begins with a system message.
unfoldable pub sys_count : List ChatMessage → ℕ
sys_count [] = 0
sys_count (m ∷ ms) = if str_eq m.role (str "system") then 1 else 0

-- The loop; `fuel` is the number of messages.
pub drop_oldest : ℕ → ℕ → ℕ → List ChatMessage → ℕ → List ChatMessage × ℕ
drop_oldest budget sys zero msgs dropped = (msgs, dropped)
drop_oldest budget sys (suc fuel) msgs dropped =
    elim (ltb budget (total msgs) && ltb (sys + 1) (length msgs)) [
      | true ↦ drop_oldest budget sys fuel (remove_at sys msgs) (dropped + 1)
      | false ↦ (msgs, dropped)
    ]

unfoldable pub marker : ℕ → ChatMessage
marker dropped = record {
  role = str "user";
  content = ChatContent.text (
      str "[context notice: the "
      ++ (decimal dropped
          ++ str
              " oldest message(s) of this conversation were removed to fit the model's context window. Do not assume their contents.]"));
  tool_calls = none;
  tool_call_id = none;
}

unfoldable pub trim_to_budget : List ChatMessage → ℕ → TrimReport
unfolding drop_oldest
trim_to_budget messages budget =
    let sys = sys_count messages in
    let (msgs, dropped) = drop_oldest budget sys (length messages) messages 0 in
    if leb (total messages) budget then record { messages = messages; dropped = 0 } else record {
      messages = if ltb 0 dropped then insert_at sys (marker dropped) msgs else msgs;
      dropped = dropped;
    }

remove_at-length :
    (pre : List ChatMessage) (x : ChatMessage) (rest : List ChatMessage)
    → remove_at (length pre) (pre ++ x ∷ rest) ≡ pre ++ rest
remove_at-length [] x rest = refl
remove_at-length (y ∷ pre) x rest = ap (◌∷◌ y) (remove_at-length pre x rest)

pub insert_at-length :
    (pre : List ChatMessage) (x : ChatMessage) (rest : List ChatMessage)
    → insert_at (length pre) x (pre ++ rest) ≡ pre ++ x ∷ rest
insert_at-length [] x rest = refl
insert_at-length (y ∷ pre) x rest = ap (◌∷◌ y) (insert_at-length pre x rest)

-- One round of the loop.
drop_oldest-stops :
    (budget sys fuel : ℕ) (msgs : List ChatMessage) (n : ℕ)
    → (ltb budget (total msgs) && ltb (sys + 1) (length msgs)) ≡ false
    → drop_oldest budget sys (suc fuel) msgs n ≡ (msgs, n)
unfolding drop_oldest
drop_oldest-stops budget sys fuel msgs n h = rw (h, drop_oldest) refl

drop_oldest-goes :
    (budget sys fuel : ℕ) (msgs : List ChatMessage) (n : ℕ)
    → (ltb budget (total msgs) && ltb (sys + 1) (length msgs)) ≡ true
    → drop_oldest budget sys (suc fuel) msgs n
      ≡ drop_oldest budget sys fuel (remove_at sys msgs) (n + 1)
unfolding drop_oldest
drop_oldest-goes budget sys fuel msgs n h = rw (h, drop_oldest) refl

-- What the loop keeps of the messages behind the system prompt: all but the `k` oldest.
pub record Kept (budget : ℕ) (pre rest : List ChatMessage) (k : ℕ) : Type 0 where
  pub leaves_one : k ≤ length rest - 1
  pub ends : (total (pre ++ drop k rest) ≤ budget) ⊎ (length (drop k rest) ≤ 1)
  pub needed : (j : ℕ) → j < k → budget < total (pre ++ drop j rest)

module _ (budget : ℕ) (pre : List ChatMessage) where
  abbrev pub StopsAt : ℕ → List ChatMessage → ℕ → Type 0
  StopsAt fuel rest n =
      (k : ℕ) × (drop_oldest budget (length pre) fuel (pre ++ rest) n ≡ (pre ++ drop k rest, n + k))
      × Kept budget pre rest k

  stop_here :
      (fuel : ℕ) (rest : List ChatMessage) (n : ℕ)
      → (total (pre ++ rest) ≤ budget) ⊎ (length rest ≤ 1)
      → (ltb budget (total (pre ++ rest)) && ltb (length pre + 1) (length (pre ++ rest))) ≡ false
      → StopsAt (suc fuel) rest n
  stop_here fuel rest n ended stop = (
    0,
    drop_oldest-stops budget (length pre) fuel (pre ++ rest) n stop
        ∙ ap (λ m. (pre ++ rest, m)) (omega arith),
    record { leaves_one = omega arith; ends = ended; needed = λ j h. elim h [ ] },
  )

  stop_later :
      (fuel : ℕ) (x : ChatMessage) (rest : List ChatMessage) (n : ℕ)
      → (ltb budget (total (pre ++ x ∷ rest)) && ltb (length pre + 1) (length (pre ++ x ∷ rest)))
        ≡ true
      → StopsAt fuel rest (n + 1)
      → StopsAt (suc fuel) (x ∷ rest) n
  stop_later fuel x rest n go (k, same, kept) = (
    suc k,
    drop_oldest-goes budget (length pre) fuel (pre ++ x ∷ rest) n go
        ∙ ap (λ msgs. drop_oldest budget (length pre) fuel msgs (n + 1))
            (remove_at-length pre x rest)
        ∙ same
        ∙ ap (λ m. (pre ++ drop k rest, m)) (omega arith),
    record {
      leaves_one = omega (
        arith,
        kept.leaves_one,
        length-append pre (x ∷ rest),
        ltb→lt (length pre + 1) (length (pre ++ x ∷ rest)) (ground arith),
      );
      ends = kept.ends;
      needed = all_needed;
    },
  )
    where
      all_needed : (j : ℕ) → j < suc k → budget < total (pre ++ drop j (x ∷ rest))
      all_needed zero h = ltb→lt budget (total (pre ++ x ∷ rest)) (ground arith)
      all_needed (suc j) h = kept.needed j (omega arith)

  pub drop_oldest-Kept :
      (fuel : ℕ) (rest : List ChatMessage) (n : ℕ) → length rest ≤ fuel → StopsAt fuel rest n
  drop_oldest-Kept zero [] n h = (
    0,
    unfold drop_oldest in ap (λ m. (pre ++ [], m)) (omega arith),
    record { leaves_one = omega arith; ends = inr (omega arith); needed = λ j l. elim l [ ] },
  )
  drop_oldest-Kept zero (x ∷ rest) n h = elim h [ ]
  drop_oldest-Kept (suc fuel) [] n h =
      stop_here fuel [] n (inr (omega arith)) (ground (arith, length-append pre []))
  drop_oldest-Kept (suc fuel) (x ∷ rest) n h =
      elim (Bool-cases
        (ltb budget (total (pre ++ x ∷ rest)) && ltb (length pre + 1) (length (pre ++ x ∷ rest)))) [
          | inl go ↦ stop_later fuel x rest n go (drop_oldest-Kept fuel rest (n + 1) (omega arith))
          | inr stop ↦
              stop_here fuel (x ∷ rest) n
                (stopped (total (pre ++ x ∷ rest)) (length rest) (length (pre ++ x ∷ rest))
                  (omega (arith, length-append pre (x ∷ rest))) stop)
                stop
        ]
    where
      stopped :
          (t r l : ℕ)
          → l ≡ length pre + suc r
          → (ltb budget t && ltb (length pre + 1) l) ≡ false
          → (t ≤ budget) ⊎ (suc r ≤ 1)
      stopped t r l e h = ground arith
