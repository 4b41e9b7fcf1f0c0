-- ===== src/Invariants/Spans.antt =====
-- crates/backend/src/invariants.rs, `check_compaction_span_balanced`: a span that a row replaces keeps calls
-- and results together.
use sica_rust.Prelude.{
  ℕ, Bool, false, not, Option, none, some, List, [], ◌∷◌, ◌++◌, ◌==◌, ◌&&◌, ◌||◌, ltb, leb,
  if◌then◌else◌,
}
use sica_rust.Prelude.Str.{Str, str}
use sica_rust.Prelude.Decimal.{decimal}
use sica_rust.Log.{SurfaceOp, replace, append, EventKind, tool_result, SessionEvent, surface_of}
use sica_rust.Invariants.{Violation}

-- The call that a row answers, and its skill.
abbrev pub result_of : EventKind → Option (ℕ × Str)
result_of (tool_result _ call_seq skill _ _ _ _ _) = some (call_seq, skill)
result_of _ = none

abbrev pub of_span : Str → Violation
of_span detail = record { invariant = str "compaction-span-balanced"; detail = detail }

unfoldable pub span_text : ℕ → ℕ → ℕ → Str
unfolding decimal
span_text start end seq =
    str "span "
    ++ decimal start
    ++ str "..="
    ++ decimal end
    ++ str " (from seq "
    ++ decimal seq
    ++ str ")"

unfoldable pub half_result : ℕ → ℕ → ℕ → Str → ℕ → ℕ → Str
unfolding span_text
half_result start end seq skill result_seq call_seq =
    span_text start end seq
    ++ str " shadows the result of `"
    ++ skill
    ++ str "` at seq "
    ++ decimal result_seq
    ++ str " but not its call at seq "
    ++ decimal call_seq

unfoldable pub half_call : ℕ → ℕ → ℕ → Str → ℕ → ℕ → Str
unfolding span_text
half_call start end seq skill result_seq call_seq =
    span_text start end seq
    ++ str " shadows the call of `"
    ++ skill
    ++ str "` at seq "
    ++ decimal call_seq
    ++ str " but not its result at seq "
    ++ decimal result_seq

-- `answers` is the call of the result that the replacing row itself is, if it is one.
abbrev pub is_answered : Option (ℕ × Str) → ℕ → Bool
is_answered none call_seq = false
is_answered (some (own, _)) call_seq = own == call_seq

module _ (start end seq : ℕ) (answers : Option (ℕ × Str)) where
  abbrev pub inner_result : ℕ → Option (ℕ × Str) → List Violation
  inner_result result_seq none = []
  inner_result result_seq (some (call_seq, skill)) =
      if is_answered answers call_seq
      then []
      else if not (call_seq == 0) && (ltb call_seq start || ltb end call_seq)
      then of_span (half_result start end seq skill result_seq call_seq) ∷ []
      else []

  abbrev pub outer_result : ℕ → Option (ℕ × Str) → List Violation
  outer_result result_seq none = []
  outer_result result_seq (some (call_seq, skill)) =
      if leb start call_seq && leb call_seq end
      then of_span (half_call start end seq skill result_seq call_seq) ∷ []
      else []

  abbrev pub inner_violations : List SessionEvent → List Violation
  inner_violations [] = []
  inner_violations (e ∷ events) =
      (if leb start e.seq && leb e.seq end then inner_result e.seq (result_of e.kind) else [])
      ++ inner_violations events

  abbrev pub outer_violations : List SessionEvent → List Violation
  outer_violations [] = []
  outer_violations (e ∷ events) =
      (if ltb e.seq start || ltb end e.seq then outer_result e.seq (result_of e.kind) else [])
      ++ outer_violations events

abbrev pub span_violations :
    ℕ → Option (ℕ × Str) → Option SurfaceOp → List SessionEvent → List Violation
span_violations seq answers none events = []
span_violations seq answers (some append) events = []
span_violations seq answers (some (replace start end)) events =
    inner_violations start end seq answers events ++ outer_violations start end seq answers events

abbrev pub rows_violations : List SessionEvent → List SessionEvent → List Violation
rows_violations all [] = []
rows_violations all (ev ∷ events) =
    span_violations ev.seq (result_of ev.kind) (surface_of ev.kind) all
    ++ rows_violations all events

unfoldable pub check_compaction_span_balanced : List SessionEvent → List Violation
unfolding half_result half_call surface_of
check_compaction_span_balanced events = rows_violations events events
