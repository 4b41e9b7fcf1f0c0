-- ===== src/Tests/OnVerdict.antt =====
-- A request that is cut short, and a continuation of it.
use sica_rust.Prelude.{ℕ, none, some, false, List, [], ◌∷◌, ◌++◌, ◌*◌, ◌+◌, ◌≤◌, ◌≡◌, refl}
use sica_rust.Prelude.Str.{str}
use sica_rust.Prelude.Int.{pos}
use sica_rust.Log.{
  TurnSource, EventKind, SurfaceOp, user_message, turn_start, turn_end, llm_retry, SessionEvent,
}
use sica_rust.Verdict.{Verdict, TurnEnded, objective, spend, completion_check}
use sica_rust.Verdict.Spending.{refunds, spend-bounded}
use sica_rust.Verdict.Objective.{objective-last_asked}

abbrev entry : ℕ → EventKind → SessionEvent
entry n kind = record { seq = n; ts = pos (10 * n); kind = kind }

abbrev asked_for : SessionEvent
asked_for = entry 1 (user_message SurfaceOp.append (str "fix it") [])

abbrev started : SessionEvent
started = entry 3 (turn_start 1 TurnSource.human)

abbrev noise : List SessionEvent
noise = entry 2 (llm_retry 1 5 500 (str "HTTP 429")) ∷ []

abbrev machine_rows : List SessionEvent
machine_rows =
    entry 4 (turn_end 1 (str "hop-limit") 12)
    ∷ entry 5 (user_message SurfaceOp.append (str "go on") [])
    ∷ entry 6 (turn_start 2 TurnSource.auto_continue)
    ∷ []

objective-last_asked_example :
    objective ([] ++ asked_for ∷ (noise ++ started ∷ machine_rows)) 2 ≡ str "fix it"
objective-last_asked_example =
    objective-last_asked 2 1 SurfaceOp.append TurnSource.human [] noise machine_rows asked_for
      started [] (str "fix it") refl refl refl refl tt (refl, tt) ((refl, refl), tt)
      (refl, (refl, (refl, tt)))

abbrev unfinished : Verdict
unfinished = record { reached = false; reason = str "half done"; next_step = none }

abbrev cut_short : TurnSource → ℕ → TurnEnded
cut_short source turn_id = record {
  events = asked_for ∷ started ∷ machine_rows;
  turn_id = turn_id;
  source = source;
  finish = str "hop-limit";
  check = λ _. some unfinished;
}

abbrev stalled_turns : List TurnEnded
stalled_turns =
    cut_short TurnSource.human 1
    ∷ cut_short TurnSource.auto_continue 2
    ∷ cut_short TurnSource.auto_continue 2
    ∷ []

two_opened : (spend stalled_turns none).1 ≡ 2
unfolding completion_check
two_opened = refl

spend-bounded_example :
    ((spend stalled_turns none).1 ≤ 12) × ((spend stalled_turns none).1 ≤ refunds stalled_turns + 2)
spend-bounded_example = spend-bounded stalled_turns
