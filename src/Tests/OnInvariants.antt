-- ===== src/Tests/OnInvariants.antt =====
-- A log with a call, its result and a summary of both, a request built from it, and a ledger.
use sica_rust.Prelude.{
  ℕ, Bool, none, some, true, false, List, [], ◌∷◌, ◌++◌, ◌*◌, ◌≡◌, ◌↔◌, map, refl, arith,
}
use sica_rust.Prelude.Str.{Str, str, str_eq}
use sica_rust.Prelude.Int.{pos}
use sica_rust.Budget.Chat.{ChatMessage, text}
use sica_rust.Log.{
  EventKind, SurfaceOp, user_message, tool_call, tool_result, compaction_summary, llm_retry,
  SessionEvent,
}
use sica_rust.Log.Surface.{derive_surface}
use sica_rust.Ledger.{turn_error, note_turn, first_entry, SessionLedger, record_failure}
use sica_rust.Invariants.{
  check_retry_appended_nothing, check_request_matches_log, wire_messages, check_error_turn_ticketed,
}
use sica_rust.Invariants.Spans.{check_compaction_span_balanced}
use sica_rust.Invariants.Balanced.{Balanced, check_compaction_span_balanced_iff}
use sica_rust.Invariants.Retried.{check_retry_appended_nothing-derive_surface}
use sica_rust.Invariants.Wire.{wire, EndsWith, check_request_matches_log-EndsWith}
use sica_rust.Invariants.Ticketed.{IsErrorEntry, check_error_turn_ticketed-record_failure}
use sica_rust.Ledger.Records.{entry_of}

abbrev row : ℕ → EventKind → SessionEvent
row n kind = record { seq = n; ts = pos (10 * n); kind = kind }

abbrev seen_rows : List SessionEvent
seen_rows = row 1 (user_message SurfaceOp.append (str "hi") []) ∷ []

abbrev retry_rows : List SessionEvent
retry_rows = row 2 (llm_retry 1 5 500 (str "HTTP 429")) ∷ []

abbrev as_json : Str → Bool → Str → Str
as_json skill ok summary = skill ++ summary

retry_passes : check_retry_appended_nothing (seen_rows ++ retry_rows) 1 ≡ []
unfolding check_retry_appended_nothing
retry_passes = refl

check_retry_appended_nothing-derive_surface_example :
    derive_surface as_json (seen_rows ++ retry_rows) ≡ derive_surface as_json seen_rows
check_retry_appended_nothing-derive_surface_example =
    check_retry_appended_nothing-derive_surface as_json 1 seen_rows retry_rows (omega arith, tt)
      (refl, tt) retry_passes

abbrev chat : Str → Str → ChatMessage
chat role said = record { role = role; content = text said; tool_calls = none; tool_call_id = none }

abbrev request : List ChatMessage
request = chat (str "system") (str "prompt") ∷ chat (str "user") (str "b") ∷ []

abbrev logged : List ChatMessage
logged = chat (str "assistant") (str "a") ∷ chat (str "user") (str "b") ∷ []

check_request_matches_log-EndsWith_example :
    (check_request_matches_log (λ s. s) request logged ≡ [])
    ↔ EndsWith (map wire logged) (map wire (wire_messages request))
check_request_matches_log-EndsWith_example =
    check_request_matches_log-EndsWith (λ s. s) request logged

request_passes : check_request_matches_log (λ s. s) request logged ≡ []
unfolding check_request_matches_log
request_passes = refl

abbrev summarised : List SessionEvent
summarised =
    row 1 (tool_call (str "run") (str "ls") [] none none)
    ∷ row 2 (tool_result SurfaceOp.append 1 (str "run") none true (str "ok") true false)
    ∷ row 3 (compaction_summary (SurfaceOp.replace 1 2) (str "ran ls") (str "ran ls") 2 900 400)
    ∷ []

summarised_passes : check_compaction_span_balanced summarised ≡ []
unfolding check_compaction_span_balanced
summarised_passes = refl

check_compaction_span_balanced_iff_example :
    (check_compaction_span_balanced summarised ≡ []) ↔ Balanced summarised
check_compaction_span_balanced_iff_example = check_compaction_span_balanced_iff summarised

abbrev ticketed : SessionLedger
ticketed = record {
  session_id = 3;
  entries = first_entry (str "t1") turn_error none (some 7) (some 1) ∷ [];
  investigated_at = none;
}

entry_fits : IsErrorEntry (entry_of (str "t1") ticketed.entries)
unfolding note_turn str_eq
entry_fits = (refl, omega arith)

check_error_turn_ticketed-record_failure_example :
    check_error_turn_ticketed
      (str "daemon")
      (str "error")
      2
      (some (record_failure (str "t1") turn_error none (some 9) (some 2) ticketed).0)
    ≡ []
check_error_turn_ticketed-record_failure_example =
    check_error_turn_ticketed-record_failure (str "daemon") (str "error") (str "t1") none (some 9) 2
      ticketed entry_fits
