-- ===== src/Tests/OnProject.antt =====
-- A log with a turn, a rating and a reminder, and the numbers in an error's text.
use sica_rust.Prelude.{ℕ, none, some, List, [], ◌∷◌, ◌*◌, ◌≡◌, min, refl, arith}
use sica_rust.Prelude.Str.{str}
use sica_rust.Prelude.Int.{pos, ◌+ℤ◌, ◌-ℤ◌}
use sica_rust.Log.{
  RunState, workflow_run, human, EventKind, SurfaceOp, turn_start, turn_end, user_message,
  llm_retry, message_feedback, schedule, SessionEvent,
}
use sica_rust.Project.Ratings.{lookup, feedback, unless_zero, newest_rating, feedback-newest}
use sica_rust.Project.Reminders.{ScheduleRecord, next_after, schedules}
use sica_rust.Project.Reminders.Recurrence.{Occurs, next_after-Occurs}
use sica_rust.Project.Reminders.Ids.{DistinctIds, schedules-DistinctIds}
use sica_rust.Project.Runs.{standing, newest_said, workflow_runs, workflow_runs-newest}
use sica_rust.Retry.Classify.{retry_after, retry_context}
use sica_rust.Retry.Hints.{retry_after-retry_context}

abbrev at : ℕ → EventKind → SessionEvent
at n kind = record { seq = n; ts = pos (10 * n); kind = kind }

abbrev some_log : List SessionEvent
some_log =
    at 1 (turn_start 1 human)
    ∷ at 2 (user_message SurfaceOp.append (str "hi") [])
    ∷ at 3 (llm_retry 1 5 500 (str "HTTP 429"))
    ∷ at 4 (turn_end 1 (str "stop") 1)
    ∷ at 5 (message_feedback 2 (pos 1) none)
    ∷ at 6 (message_feedback 2 (pos 0) none)
    ∷ at 7 (
        schedule (str "s1") (str "create") (some (str "tea")) (some (str "every")) (some (pos 300))
          none (some 300) none)
    ∷ []

schedules-DistinctIds_example : DistinctIds (schedules some_log)
schedules-DistinctIds_example = schedules-DistinctIds some_log

abbrev tea : ScheduleRecord
tea = record {
  id = str "s1";
  prompt = str "tea";
  rule = str "every";
  fire_at = pos 300;
  every_seconds = some 300;
  anchor = pos 300;
}

next_after-Occurs_example : Occurs tea.anchor (pos 1000) 300 (pos 1200)
unfolding next_after ◌-ℤ◌ ◌+ℤ◌
next_after-Occurs_example = next_after-Occurs tea (pos 1000) 300 (pos 1200) refl (omega arith) refl

retry_after-retry_context_example :
    retry_after (retry_context 300 (str "HTTP 429")) ≡ some (min 300 120)
retry_after-retry_context_example = retry_after-retry_context 300 (str "HTTP 429") (omega arith)

-- A run whose one member still runs; a row of a member of no run; a second run, which failed.
abbrev some_runs : List SessionEvent
some_runs =
    at 1 (workflow_run 1 7 none none none RunState.started)
    ∷ at 2 (workflow_run 1 7 (some (str "plan")) (some (str "scout")) (some 4) RunState.started)
    ∷ at 3 (workflow_run 9 7 none (some (str "lost")) none RunState.done)
    ∷ at 4 (workflow_run 2 8 none none none RunState.started)
    ∷ at 5 (workflow_run 2 8 none none none RunState.failed)
    ∷ []

workflow_runs-newest_example : standing 2 (workflow_runs some_runs) ≡ newest_said 2 some_runs
workflow_runs-newest_example = workflow_runs-newest some_runs 2

feedback-newest_example : lookup 2 (feedback some_log) ≡ unless_zero (newest_rating 2 some_log) none
feedback-newest_example = feedback-newest some_log 2
