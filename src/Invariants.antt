-- ===== src/Invariants.antt =====
-- crates/backend/src/invariants.rs: the checks that the hub makes of its own history, each a function of
-- what it is given. `debug` is what `{:?}` prints of a text, and `daemon` the name of the daemon that keeps
-- the ledger.
pub mod Retried
pub mod Wire
pub mod Ticketed
pub mod Spans
pub mod Balanced
use sica_rust.Prelude.{
  ℕ, zero, suc, Bool, true, false, not, Option, none, some, List, [], ◌∷◌, ◌++◌, ◌+◌, ◌-◌, ◌==◌,
  ◌&&◌, ◌||◌, ltb, leb, length, drop, filter, map, any, is_some, if◌then◌else◌,
}
use sica_rust.Prelude.Str.{Str, str, str_eq}
use sica_rust.Prelude.Decimal.{decimal}
use sica_rust.Prelude.Search.{starts_with}
use sica_rust.Budget.Chat.{ChatMessage, text_of}
use sica_rust.Log.{
  SurfaceOp, replace, append, EventKind, user_message, assistant_message, tool_result,
  compaction_summary, context_injected, legacy_message, SessionEvent, surface_of,
}
use sica_rust.Ledger.{TriggerOrigin, turn_error, LedgerEntry, SessionLedger}

pub record Violation : Type 0 where
  pub invariant : Str
  pub detail : Str

abbrev pub is_trim_notice : ChatMessage → Bool
is_trim_notice m = starts_with (str "[context notice:") (text_of m.content)

-- What of a request the log must account for.
abbrev pub wire_messages : List ChatMessage → List ChatMessage
wire_messages sent =
    filter (λ m. not (is_trim_notice m)) (filter (λ m. not (str_eq m.role (str "system"))) sent)

abbrev pub same_message : ChatMessage → ChatMessage → Bool
same_message a b = str_eq a.role b.role && str_eq (text_of a.content) (text_of b.content)

unfoldable pub too_many_sent : ℕ → ℕ → Str
unfolding decimal
too_many_sent sent derived =
    str "the request carried "
    ++ decimal sent
    ++ str " message(s) but the log derives only "
    ++ decimal derived
    ++ str " — something was sent that the log cannot reproduce"

abbrev pub shown : (Str → Str) → ChatMessage → Str
shown debug m = debug m.role ++ str "/" ++ debug (text_of m.content)

unfoldable pub mismatch_at : (Str → Str) → ℕ → ChatMessage → ChatMessage → Str
unfolding decimal
mismatch_at debug i a b =
    str "message "
    ++ decimal i
    ++ str " of the request does not match the log: sent "
    ++ shown debug a
    ++ str ", log has "
    ++ shown debug b

abbrev pub of_request : Str → Violation
of_request detail = record { invariant = str "request-matches-log"; detail = detail }

-- The loop over the pairs: the first that differ are reported.
abbrev pub pairs_violations : (Str → Str) → ℕ → List ChatMessage → List ChatMessage → List Violation
pairs_violations debug i [] tail = []
pairs_violations debug i (a ∷ sent) [] = []
pairs_violations debug i (a ∷ sent) (b ∷ tail) =
    let rest = pairs_violations debug (i + 1) sent tail in
    if same_message a b then rest else of_request (mismatch_at debug i a b) ∷ []

unfoldable pub check_request_matches_log :
    (Str → Str) → List ChatMessage → List ChatMessage → List Violation
unfolding text_of str_eq mismatch_at too_many_sent
check_request_matches_log debug request from_log =
    let sent = wire_messages request in
    if ltb (length from_log) (length sent)
    then of_request (too_many_sent (length sent) (length from_log)) ∷ []
    else pairs_violations debug 0 sent (drop (length from_log - length sent) from_log)

abbrev kind_name : EventKind → Str
kind_name (user_message _ _ _) = str "UserMessage"
kind_name (assistant_message _ _ _ _) = str "AssistantMessage"
kind_name (tool_result _ _ _ _ _ _ _ _) = str "ToolResult"
kind_name (compaction_summary _ _ _ _ _ _) = str "CompactionSummary"
kind_name (context_injected _ _ _) = str "ContextInjected"
kind_name (legacy_message _ _) = str "LegacyMessage"
kind_name _ = str "other"

unfoldable pub offender : SessionEvent → Str
unfolding decimal
offender ev = str "seq " ++ decimal ev.seq ++ str " (" ++ kind_name ev.kind ++ str ")"

abbrev pub is_surface : EventKind → Bool
is_surface k = is_some (surface_of k)

abbrev pub offenders : ℕ → List SessionEvent → List SessionEvent
offenders before events = filter (λ e. is_surface e.kind) (filter (λ e. ltb before e.seq) events)

abbrev join_commas : List Str → Str
join_commas [] = []
join_commas (t ∷ []) = t
join_commas (t ∷ u ∷ ts) = t ++ str ", " ++ join_commas (u ∷ ts)

abbrev pub retry_violation : List SessionEvent → List Violation
retry_violation [] = []
retry_violation (ev ∷ events) =
    record {
      invariant = str "retry-appends-nothing";
      detail =
          str "a failed attempt persisted model-visible history before the retry: "
          ++ join_commas (map offender (ev ∷ events))
          ++ str " — the retry will not rebuild the same request";
    }
    ∷ []

unfoldable pub check_retry_appended_nothing : List SessionEvent → ℕ → List Violation
unfolding surface_of offender
check_retry_appended_nothing events seq_before_attempt =
    retry_violation (offenders seq_before_attempt events)

unfoldable pub not_ticketed : Str → ℕ → Str
unfolding decimal
not_ticketed daemon turn_id =
    str "turn "
    ++ decimal turn_id
    ++ str " ended in error but the "
    ++ daemon
    ++ str
        " ledger has no turn-error ticket for it — an error exit is missing its `incident::turn_error` call"

abbrev pub is_turn_error : TriggerOrigin → Bool
is_turn_error turn_error = true
is_turn_error _ = false

abbrev pub is_ticketed : ℕ → Option SessionLedger → Bool
is_ticketed turn_id none = false
is_ticketed turn_id (some l) =
    any (λ e. is_turn_error e.origin && any (λ t. t == turn_id) e.turns) l.entries

abbrev pub of_exit : Str → Violation
of_exit detail = record { invariant = str "error-turn-ticketed"; detail = detail }

unfoldable pub check_error_turn_ticketed : Str → Str → ℕ → Option SessionLedger → List Violation
unfolding str_eq not_ticketed
check_error_turn_ticketed daemon finish_reason turn_id ledger =
    if not (str_eq finish_reason (str "error"))
    then []
    else if is_ticketed turn_id ledger
    then []
    else of_exit (not_ticketed daemon turn_id) ∷ []
