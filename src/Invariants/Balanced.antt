-- ===== src/Invariants/Balanced.antt =====
-- crates/backend/src/invariants.rs: what the check of replaced spans says of a log.
use sica_rust.Prelude.{
  ℕ, Option, none, some, List, [], ◌∷◌, ◌++◌, ◌≤◌, ◌<◌, ◌&&◌, ◌||◌, ◌⊎◌, ltb, leb, if◌then◌else◌,
  All, ◌≡◌, ◌↔◌, refl, arith,
}
use sica_rust.Prelude.Str.{Str}
use sica_rust.Log.{SurfaceOp, replace, append, SessionEvent, surface_of}
use sica_rust.Invariants.{Violation}
use sica_rust.Invariants.Spans.{
  result_of, inner_result, outer_result, inner_violations, outer_violations, span_violations,
  rows_violations, check_compaction_span_balanced,
}

abbrev pub InSpan : ℕ → ℕ → ℕ → Type 0
InSpan start end n = (start ≤ n) × (n ≤ end)

abbrev pub OutOfSpan : ℕ → ℕ → ℕ → Type 0
OutOfSpan start end n = (n < start) ⊎ (end < n)

abbrev pub IsAnswered : Option (ℕ × Str) → ℕ → Type 0
IsAnswered none call_seq = ⊥
IsAnswered (some (own, _)) call_seq = own ≡ call_seq

-- A result and its call are both in the span or both out of it. The result of no call, and that of the call
-- which the replacing row answers again, may be in the span alone.
abbrev pub PairKept : ℕ → ℕ → Option (ℕ × Str) → ℕ → Option (ℕ × Str) → Type 0
PairKept start end answers result_seq none = Unit
PairKept start end answers result_seq (some (call_seq, _)) =
    (InSpan start end result_seq × InSpan start end call_seq)
    ⊎ (OutOfSpan start end result_seq × OutOfSpan start end call_seq)
    ⊎ (InSpan start end result_seq × ((call_seq ≡ 0) ⊎ IsAnswered answers call_seq))

abbrev pub SpanKept : List SessionEvent → Option (ℕ × Str) → Option SurfaceOp → Type 0
SpanKept events answers none = Unit
SpanKept events answers (some append) = Unit
SpanKept events answers (some (replace start end)) =
    All (λ r. PairKept start end answers r.seq (result_of r.kind)) events

abbrev pub Balanced : List SessionEvent → Type 0
Balanced events = All (λ ev. SpanKept events (result_of ev.kind) (surface_of ev.kind)) events

pair_iff :
    (start end seq : ℕ) (answers : Option (ℕ × Str)) (result_seq : ℕ) (of : Option (ℕ × Str))
    → (((if leb start result_seq && leb result_seq end
            then inner_result start end seq answers result_seq of
            else [])
          ≡ [])
        × ((if ltb result_seq start || ltb end result_seq
              then outer_result start end seq answers result_seq of
              else [])
            ≡ []))
      ↔ PairKept start end answers result_seq of
pair_iff start end seq answers result_seq none = ground arith
pair_iff start end seq none result_seq (some (call_seq, skill)) = ground arith
pair_iff start end seq (some (own, _)) result_seq (some (call_seq, skill)) = ground arith

append-[]_iff : (xs ys : List Violation) → (xs ++ ys ≡ []) ↔ ((xs ≡ []) × (ys ≡ []))
append-[]_iff [] ys = ((λ h. (refl, h)), (λ h. h.1))
append-[]_iff (x ∷ xs) ys = ((λ h. ground (arith, h)), (λ h. ground (arith, h.0)))

span_iff :
    (start end seq : ℕ) (answers : Option (ℕ × Str)) (events : List SessionEvent)
    → ((inner_violations start end seq answers events ≡ [])
        × (outer_violations start end seq answers events ≡ []))
      ↔ All (λ r. PairKept start end answers r.seq (result_of r.kind)) events
span_iff start end seq answers [] = ((λ _. tt), (λ _. (refl, refl)))
span_iff start end seq answers (e ∷ events) =
    let inner : List Violation =
      if leb start e.seq && leb e.seq end
      then inner_result start end seq answers e.seq (result_of e.kind)
      else [] in
    let outer : List Violation =
      if ltb e.seq start || ltb end e.seq
      then outer_result start end seq answers e.seq (result_of e.kind)
      else [] in
    let first = pair_iff start end seq answers e.seq (result_of e.kind) in
    let rest = span_iff start end seq answers events in
    let in_iff = append-[]_iff inner (inner_violations start end seq answers events) in
    let out_iff = append-[]_iff outer (outer_violations start end seq answers events) in
    (
      λ h. (
        first.0 ((in_iff.0 h.0).0, (out_iff.0 h.1).0),
        rest.0 ((in_iff.0 h.0).1, (out_iff.0 h.1).1),
      ),
      λ h.
          (in_iff.1 ((first.1 h.0).0, (rest.1 h.1).0), out_iff.1 ((first.1 h.0).1, (rest.1 h.1).1)),
    )

kept_iff :
    (seq : ℕ) (answers : Option (ℕ × Str)) (op : Option SurfaceOp) (events : List SessionEvent)
    → (span_violations seq answers op events ≡ []) ↔ SpanKept events answers op
kept_iff seq answers none events = ((λ _. tt), (λ _. refl))
kept_iff seq answers (some append) events = ((λ _. tt), (λ _. refl))
kept_iff seq answers (some (replace start end)) events =
    let both =
      append-[]_iff (inner_violations start end seq answers events)
        (outer_violations start end seq answers events) in
    let kept = span_iff start end seq answers events in
    (λ h. kept.0 (both.0 h), λ h. both.1 (kept.1 h))

rows_iff :
    (all events : List SessionEvent)
    → (rows_violations all events ≡ [])
      ↔ All (λ ev. SpanKept all (result_of ev.kind) (surface_of ev.kind)) events
rows_iff all [] = ((λ _. tt), (λ _. refl))
rows_iff all (ev ∷ events) =
    let first = kept_iff ev.seq (result_of ev.kind) (surface_of ev.kind) all in
    let both =
      append-[]_iff (span_violations ev.seq (result_of ev.kind) (surface_of ev.kind) all)
        (rows_violations all events) in
    let rest = rows_iff all events in
    (λ h. (first.0 (both.0 h).0, rest.0 (both.0 h).1), λ h. both.1 (first.1 h.0, rest.1 h.1))

-- A log passes the check of its replaced spans if and only if, for every row that replaces a span and every
-- result of the log, the result and its call are both in the span or both out of it, but for the result
-- of no call, and that of the call which the replacing row answers, which may be in the span alone.
pub check_compaction_span_balanced_iff :
    (events : List SessionEvent) → (check_compaction_span_balanced events ≡ []) ↔ Balanced events
unfolding check_compaction_span_balanced
check_compaction_span_balanced_iff events = rows_iff events events
