-- ===== src/Runner/Reports.antt =====
-- crates/agents/src/runner.rs: what a delegated conversation ends in.
use sica_rust.Prelude.{
  ℕ, zero, suc, Bool, true, false, Option, none, some, List, [], ◌∷◌, ◌++◌, ◌≡◌, ◌≤◌, ◌<◌, ◌+◌, ◌-◌,
  ◌&&◌, not, length, length-append, any, option_or, ltb, ltb→lt, if◌then◌else◌, refl, ap, sym, ◌∙◌,
  arith,
}
use mathlib.Core.Path.{subst}
use sica_rust.Prelude.Str.{Str, str}
use sica_rust.Budget.Chat.{ChatMessage}
use sica_rust.Call.Line.{ToolCall}
use sica_rust.Runner.Texts.{call_id, budget_exhausted}
use sica_rust.Runner.{
  CallRecord, Report, verified, SkillOutcome, Structured, value, problem, World, RunSpec, Run,
  new_run, Turn, again, done, say, prose, no_call, settle, last_value, last_call, last_reply,
  outcome_of, record_call, on_call, on_extracted, on_reply, turn_of, next_turn, run_loop,
  run_conversation, first_arg, is_structured,
}

abbrev pub ok_calls : List CallRecord → ℕ
ok_calls [] = 0
ok_calls (c ∷ calls) = (if c.ok then 1 else 0) + ok_calls calls

-- The ids go on from those of earlier rounds.
abbrev pub Numbered : ℕ → List CallRecord → Type 0
Numbered n [] = Unit
Numbered n (c ∷ calls) = (c.id ≡ call_id (n + 1)) × Numbered (n + 1) calls

-- A hop is a call that succeeded or one that failed; a recorded call is a hop.
abbrev pub Accounts : RunSpec → (hops tool_ok tool_err : ℕ) → List CallRecord → Type 0
Accounts spec hops tool_ok tool_err calls =
    (tool_ok + tool_err ≡ hops)
    × (hops ≤ spec.max_hops)
    × (tool_ok ≡ ok_calls calls)
    × (length calls ≤ hops)
    × Numbered spec.call_seq_start calls

Numbered-append :
    (n : ℕ) (calls : List CallRecord) (c : CallRecord)
    → Numbered n calls
    → c.id ≡ call_id (n + length calls + 1)
    → Numbered n (calls ++ (c ∷ []))
Numbered-append n [] c h e = (e ∙ ap call_id (omega arith), tt)
Numbered-append n (d ∷ calls) c h e =
    (h.0, Numbered-append (n + 1) calls c h.1 (e ∙ ap call_id (omega arith)))

ok_calls-append :
    (calls : List CallRecord) (c : CallRecord)
    → ok_calls (calls ++ (c ∷ [])) ≡ (if c.ok then 1 else 0) + ok_calls calls
ok_calls-append [] c = omega arith
ok_calls-append (d ∷ calls) c = omega (arith, ok_calls-append calls c)

module _ {ℓ} {V : Type ℓ} (w : World V) (spec : RunSpec) where
  abbrev Sound : Run → Type 0
  Sound r = Accounts spec r.hops r.tool_ok r.tool_err r.calls

  -- What the loop may still do before its last turn.
  abbrev left : Run → ℕ
  left r = (spec.max_hops - r.hops) + (if r.nudged then 0 else 1) + (if r.reminded then 0 else 1)

  abbrev pub SoundReport : Option (Report V) → Type 0
  SoundReport none = Unit
  SoundReport (some report) = Accounts spec report.hops report.tool_ok report.tool_err report.calls

  abbrev SoundTurn : Run → Turn V → Type 0
  SoundTurn r (again next) = Sound next × (left next + 1 ≤ left r)
  SoundTurn r (done report) = SoundReport report

  either_turn :
      (r : Run) (b : Bool) (x y : Turn V)
      → (b ≡ true → SoundTurn r x)
      → (b ≡ false → SoundTurn r y)
      → SoundTurn r (if b then x else y)
  either_turn r true x y hx hy = hx refl
  either_turn r false x y hx hy = hy refl

  prose-Sound : (r : Run) (reply : Str) → Sound r → SoundTurn r (prose w spec r reply)
  prose-Sound r reply h =
      either_turn r (spec.wants_schema && not r.reminded && ltb r.hops spec.max_hops) _ _
        (λ e. (h, ground (arith, e))) (λ _. h)

  no_call-Sound :
      (r : Run) (reply : Str) (reason : Option Str)
      → Sound r
      → SoundTurn r (no_call w spec r reply reason)
  no_call-Sound r reply none h = prose-Sound r reply h
  no_call-Sound r reply (some reason) h =
      either_turn r (not r.nudged && ltb r.hops spec.max_hops) _ _ (λ e. (h, ground (arith, e)))
        (λ _. prose-Sound r reply h)

  settle-Sound :
      (r : Run) (raw : Str) (found : Structured V)
      → Sound r
      → SoundTurn r (settle w spec r raw found)
  settle-Sound r raw (value v) h = h
  settle-Sound r raw (problem p) h =
      either_turn r (ltb r.hops spec.max_hops) _ _
        (λ e.
          let below = ltb→lt r.hops spec.max_hops e in
          (
            (omega (arith, h.0), omega (arith, below), h.2, omega (arith, h.3), h.4),
            omega (arith, below),
          ))
        (λ _. h)

  last_value-Sound :
      (r : Run) (reply raw : Str) (found : Structured V)
      → Sound r
      → SoundTurn r (last_value w spec r reply raw found)
  last_value-Sound r reply raw (value v) h = h
  last_value-Sound r reply raw (problem p) h = h

  last_call-Sound :
      (r : Run) (reply : Str) (call : Option (ToolCall V))
      → Sound r
      → SoundTurn r (last_call w spec r reply call)
  last_call-Sound r reply none h = h
  last_call-Sound r reply (some call) h =
      either_turn r (spec.wants_schema && is_structured call.skill) _ _
        (λ _.
          last_value-Sound r reply (first_arg call.raw_args)
            (w.parse_structured (first_arg call.raw_args)) h)
        (λ _. h)

  last_reply-Sound :
      (r : Run) (reply : Option Str) → Sound r → SoundTurn r (last_reply w spec r reply)
  last_reply-Sound r none h = tt
  last_reply-Sound r (some reply) h = last_call-Sound r reply (w.extract reply) h

  record_call-Sound :
      (r : Run) (call : ToolCall V) (outcome : SkillOutcome)
      → r.hops < spec.max_hops
      → Sound r
      → SoundTurn r (again (record_call w spec r call outcome))
  record_call-Sound r call outcome below h =
      let id = call_id (spec.call_seq_start + length r.calls + 1) in
      let entry : CallRecord = record { id = id; skill = call.skill; ok = outcome.ok } in
      let counted = ok_calls-append r.calls entry in
      let longer = length-append r.calls (entry ∷ []) in
      (
        (
          ground (arith, h.0),
          omega (arith, below),
          ground (arith, h.2, counted),
          omega (arith, h.3, longer),
          Numbered-append spec.call_seq_start r.calls entry h.4 refl,
        ),
        omega (arith, below),
      )

  on_call-Sound : (r : Run) (call : ToolCall V) → Sound r → SoundTurn r (on_call w spec r call)
  on_call-Sound r call h =
      either_turn r (is_structured call.skill) _ _
        (λ _.
          settle-Sound r (first_arg call.raw_args) (w.parse_structured (first_arg call.raw_args)) h)
        (λ _.
          either_turn r (ltb r.hops spec.max_hops) _ _
            (λ e.
              record_call-Sound r call (outcome_of w spec call (w.run_tool (length r.calls) call))
                (ltb→lt r.hops spec.max_hops e) h)
            (λ _.
              let asked = say (str "user") (budget_exhausted spec.max_hops spec.wants_schema) r in
              last_reply-Sound asked (w.llm asked.transcript) h))

  turn_of-Sound : (r : Run) → Sound r → SoundTurn r (turn_of w spec r)
  unfolding turn_of
  turn_of-Sound r h = on_reply-Sound (w.llm r.transcript)
    where
      on_extracted-Sound :
          (reply : Str) (call : Option (ToolCall V))
          → SoundTurn r (on_extracted w spec (say (str "assistant") reply r) reply call)
      on_extracted-Sound reply none =
          no_call-Sound (say (str "assistant") reply r) reply (w.rejected reply) h
      on_extracted-Sound reply (some call) = on_call-Sound (say (str "assistant") reply r) call h

      on_reply-Sound : (reply : Option Str) → SoundTurn r (on_reply w spec r reply)
      on_reply-Sound none = tt
      on_reply-Sound (some reply) = on_extracted-Sound reply (w.extract reply)

  run_loop-Sound :
      (n : ℕ) (r : Run)
      → Sound r
      → left r < n
      → (report : Option (Report V)) × (run_loop w spec n r ≡ some report) × SoundReport report
  unfolding run_loop
  run_loop-Sound zero r h l = ground (arith, l)
  run_loop-Sound (suc n) r h l = on_turn (turn_of w spec r) (turn_of-Sound r h) (run_loop-Sound n)
    where
      on_turn :
          (t : Turn V)
          → SoundTurn r t
          → ((next : Run)
              → Sound next
              → left next < n
              → (report : Option (Report V)) × (run_loop w spec n next ≡ some report)
                × SoundReport report)
          → (report : Option (Report V)) × (next_turn w spec t (run_loop w spec n) ≡ some report)
            × SoundReport report
      on_turn (done report) k later = (report, refl, k)
      on_turn (again next) k later = later next k.0 (omega (arith, k.1, l))

-- Whatever the model answers, whatever its tools do, a conversation ends, after three turns more than it
-- has hops at most. It ends without a report, or in one whose books are right: every hop is a call that
-- succeeded or one that failed, there are no more of them than the budget, the successes are those of the
-- recorded calls, and the ids of the recorded calls go on from those of earlier rounds, one by one.
pub run_conversation-returns {ℓ} :
    {V : Type ℓ} (w : World V) (spec : RunSpec) (transcript : List ChatMessage)
    → (report : Option (Report V)) × (run_conversation w spec transcript ≡ some report)
      × SoundReport w spec report
unfolding run_conversation
run_conversation-returns w spec transcript =
    run_loop-Sound w spec (spec.max_hops + 3) (new_run transcript)
      (refl, omega arith, refl, omega arith, tt) (omega arith)

any-ok_calls : (calls : List CallRecord) → 0 < ok_calls calls → any (λ c. c.ok) calls ≡ true
any-ok_calls [] h = ground (arith, h)
any-ok_calls (c ∷ calls) h = ground (arith, h, any-ok_calls calls)

-- A report that counts as verified has a call that succeeded among its calls.
pub verified-calls {ℓ} :
    {V : Type ℓ} (w : World V) (spec : RunSpec) (transcript : List ChatMessage) (report : Report V)
    → run_conversation w spec transcript ≡ some (some report)
    → verified report spec.wants_schema ≡ true
    → any (λ c. c.ok) report.calls ≡ true
verified-calls w spec transcript report h k =
    let returns = run_conversation-returns w spec transcript in
    let same : returns.0 ≡ some report = ap (λ o. option_or o none) (sym returns.1 ∙ h) in
    let sound : SoundReport w spec (some report) = subst (SoundReport w spec) same returns.2 in
    let some_ok : 0 < report.tool_ok = ground (arith, k) in
    any-ok_calls report.calls (omega (arith, some_ok, sound.2))
