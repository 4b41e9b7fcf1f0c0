-- ===== src/Tests/OnLog.antt =====
-- A log with a tool call, its result and a rewind; and the migration of a log of two rows.
use sica_rust.Prelude.{
  ℕ, ◌≡◌, refl, Bool, true, false, Option, none, some, List, [], ◌∷◌, ◌++◌, arith, All, length, inl,
}
use sica_rust.Prelude.Str.{Str, str, str_eq}
use sica_rust.Prelude.Int.{pos}
use sica_rust.Message.{user_message}
use sica_rust.Log.{append, EventKind, SessionEvent, tool_call, tool_result, rewind}
use sica_rust.Log.Surface.{SurfaceEntry, derive_surface, tool_result_message}
use sica_rust.Log.Surface.Spans.{IsOutside}
use sica_rust.Log.Surface.Shadow.{shadowed_stays_hidden, AllDistinct, derive_surface-AllDistinct}
use sica_rust.Log.Surface.Tools.{IsFramed, derive_surface-IsFramed, tool_result-joins-tool_call}
use sica_rust.Log.Migrate.{JsonRows, current, migrate, format_of, plan, apply, apply_upgrades}

-- A printer that keeps the skill's name only.
abbrev skill_only : Str → Bool → Str → Str
skill_only skill _ _ = skill

abbrev event : ℕ → EventKind → SessionEvent
event seq kind = record { seq = seq; ts = pos 0; kind = kind }

abbrev asks : SessionEvent
asks = event 1 (EventKind.user_message append (str "list the files") [])

abbrev calls : SessionEvent
calls = event 2 (tool_call (str "bash") (str "ls") (str "names") none (some (str "{}")))

abbrev results : SessionEvent
results = event 3 (tool_result append 2 (str "bash") none true (str "a.rs") false false)

abbrev rewinds : SessionEvent
rewinds = event 4 (rewind 1 3)

abbrev events : List SessionEvent
events = asks ∷ calls ∷ results ∷ rewinds ∷ []

shadowed_stays_hidden_example : All (IsOutside 1 3) (derive_surface skill_only events)
shadowed_stays_hidden_example =
    shadowed_stays_hidden skill_only (asks ∷ calls ∷ results ∷ []) [] rewinds 1 3
      (omega arith, (omega arith, (omega arith, (omega arith, tt)))) (inl refl) (omega arith)

derive_surface-AllDistinct_example : AllDistinct (derive_surface skill_only events)
derive_surface-AllDistinct_example =
    derive_surface-AllDistinct skill_only events
      (omega arith, (omega arith, (omega arith, (omega arith, tt))))

derive_surface-IsFramed_example :
    All IsFramed (derive_surface skill_only (asks ∷ calls ∷ results ∷ []))
derive_surface-IsFramed_example = derive_surface-IsFramed skill_only (asks ∷ calls ∷ results ∷ [])

tool_result-joins-tool_call_example :
    (entry : SurfaceEntry) × (derive_surface skill_only (asks ∷ calls ∷ results ∷ [])
      ≡ derive_surface skill_only (asks ∷ calls ∷ []) ++ entry ∷ [])
    × (entry.seq ≡ 3)
    × (entry.message.content ≡ tool_result_message skill_only (str "bash") true (str "a.rs") false)
    × (entry.tool
        ≡ some (record {
          name = str "bash";
          args_preview = str "ls";
          expectation = str "names";
          ok = true;
          call_seq = 2;
          summary = str "a.rs";
          trusted = false;
          pruned = false;
          args_json = some (str "{}");
        }))
tool_result-joins-tool_call_example =
    tool_result-joins-tool_call skill_only (asks ∷ []) [] calls results (str "bash") (str "ls")
      (str "names") none (some (str "{}")) (str "bash") none true (str "a.rs") false false
      (omega arith, (omega arith, (omega arith, tt))) refl refl

abbrev entry_at : ℕ → SurfaceEntry
entry_at seq = record { seq = seq; message = user_message (str "hi"); tool = none; context = none }

-- Rows that hold a type and a format only.
abbrev TestRow : Type 0
TestRow = Option Str × Option ℕ

abbrev test_rows : JsonRows
test_rows = record {
  Row = TestRow;
  type_of = λ r. r.0;
  format = λ r. r.1;
  insert_format = λ n r. (r.0, some n);
  format-insert_format = λ n r o. refl;
  type_of-insert_format = λ n r. refl;
}

abbrev header_at : Option ℕ → TestRow
header_at n = (some (str "session_created"), n)

abbrev body_row : TestRow
body_row = (some (str "user_message"), none)

abbrev old_rows : List TestRow
old_rows = header_at none ∷ body_row ∷ []

old_plan : plan test_rows old_rows ≡ migrate 0
unfolding plan format_of str_eq
old_plan = refl

apply_upgrades_example :
    ((apply test_rows old_rows).1 ≡ some 0)
    × (plan test_rows (apply test_rows old_rows).0 ≡ current)
    × (length (apply test_rows old_rows).0 ≡ 2)
    × (apply test_rows (apply test_rows old_rows).0 ≡ ((apply test_rows old_rows).0, none))
unfolding str_eq
apply_upgrades_example = apply_upgrades test_rows old_rows (header_at none) 0 refl old_plan
