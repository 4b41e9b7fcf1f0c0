-- ===== src/Verdict.antt =====
-- crates/backend/src/verdict.rs: the completion check, which asks after a turn that was cut short whether
-- the request was met, and its part of the end of a turn in crates/backend/src/chat.rs. The model's answer
-- is an argument.
pub mod Spending
pub mod Objective
use sica_rust.Prelude.{
  ℕ, Bool, true, false, not, Option, none, some, List, [], ◌∷◌, ◌++◌, ◌+◌, ◌-◌, ◌==◌, ◌&&◌, ◌||◌,
  ltb, min, any, is_some, option_or, if◌then◌else◌,
}
use sica_rust.Prelude.Str.{Str, str, str_eq, is_empty}
use sica_rust.Prelude.Decimal.{decimal}
use sica_rust.Log.{
  TurnSource, is_human, EventKind, user_message, turn_start, tool_result, SessionEvent,
}

abbrev pub max_auto_continues : ℕ
max_auto_continues = 12

abbrev pub max_stalled_continues : ℕ
max_stalled_continues = 2

-- Both counters are a `u8`.
pub record Spent : Type 0 where
  pub opened : ℕ
  pub stalled : ℕ

abbrev pub no_spent : Spent
no_spent = record { opened = 0; stalled = 0 }

unfoldable pub budget_left : Spent → Bool
budget_left s = ltb s.stalled max_stalled_continues && ltb s.opened max_auto_continues

-- `u8::saturating_add` of one.
abbrev pub one_more : ℕ → ℕ
one_more n = min (n + 1) 255

abbrev pub open_continue : Spent → Spent
open_continue s = record { opened = one_more s.opened; stalled = one_more s.stalled }

abbrev pub refund : Spent → Spent
refund s = record s { stalled = s.stalled - 1 }

pub record Verdict : Type 0 where
  pub reached : Bool
  pub reason : Str
  pub next_step : Option Str

unfoldable pub abnormal : Str → Bool
unfolding str_eq
abnormal finish_reason =
    str_eq finish_reason (str "hop-limit")
    || str_eq finish_reason (str "max_tokens")
    || str_eq finish_reason (str "error")
    || str_eq finish_reason (str "empty")
    || str_eq finish_reason (str "bad-call")

unfoldable pub needs_check : Str → Bool → Bool
unfolding abnormal
needs_check finish_reason continuation =
    abnormal finish_reason || (continuation && str_eq finish_reason (str "done"))

abbrev pub starts_turn : ℕ → EventKind → Bool
starts_turn turn_id (turn_start t _) = t == turn_id
starts_turn turn_id _ = false

abbrev pub is_new_work : EventKind → Bool
is_new_work (tool_result _ _ _ _ ok _ _ pruned) = ok && not pruned
is_new_work _ = false

abbrev or_since : Bool → List SessionEvent → Option (List SessionEvent) → Option (List SessionEvent)
or_since _ _ (some rows) = some rows
or_since true rows none = some rows
or_since false rows none = none

-- The rows from the newest start of the turn on, `none` if there is no start of it.
abbrev pub since_start : ℕ → List SessionEvent → Option (List SessionEvent)
since_start turn_id [] = none
since_start turn_id (ev ∷ events) =
    let later = since_start turn_id events in
    or_since (starts_turn turn_id ev.kind) (ev ∷ events) later

abbrev pub any_work : Option (List SessionEvent) → Bool
any_work none = false
any_work (some rows) = any (λ e. is_new_work e.kind) rows

unfoldable pub made_progress : List SessionEvent → ℕ → Bool
made_progress events turn_id = any_work (since_start turn_id events)

abbrev pub next_user : EventKind → Str → Str
next_user (user_message _ content _) last_user = content
next_user _ last_user = last_user

abbrev pub next_asked : EventKind → Str → Str → Str
next_asked (turn_start _ source) last_user asked =
    if is_human source && not (is_empty last_user) then last_user else asked
next_asked _ last_user asked = asked

-- The loop of `objective`, with its two variables.
abbrev pub objective_from : ℕ → Str → Str → List SessionEvent → Str
objective_from turn_id last_user asked [] = asked
objective_from turn_id last_user asked (ev ∷ events) =
    let now = next_asked ev.kind last_user asked in
    let rest = objective_from turn_id (next_user ev.kind last_user) now events in
    if starts_turn turn_id ev.kind then now else rest

unfoldable pub objective : List SessionEvent → ℕ → Str
objective events turn_id = objective_from turn_id [] [] events

unfoldable pub advice : Str → Str
unfolding str_eq
advice finish_reason =
    if str_eq finish_reason (str "max_tokens")
    then str
        "Your last reply ran into the output limit, so a tool call in it was cut off and did NOT run. Say less per reply: keep your reasoning short, and write a large file in parts — write-file the first part, then add each further part with write-file '<path>' '<text>' 'append=true'."
    else if str_eq finish_reason (str "empty")
    then str
        "Your last replies ended inside your reasoning with nothing said and no tool call, so nothing ran. Keep the thinking short and reply with the tool call itself."
    else if str_eq finish_reason (str "bad-call")
    then str
        "Your last tool call could not be read, so it did not run. Use the one-line form <skill> '<arg>' > <expectation>, or a ```tool_call JSON fence for arguments full of quotes."
    else if str_eq finish_reason (str "error")
    then str "The last request failed; carry on from the last step that succeeded."
    else str
        "Work in larger steps than the previous turn did: you have a fresh but equally limited tool budget, so prefer one wide call over several narrow ones."

abbrev why_continue : Str → Str
why_continue finish_reason =
    if str_eq finish_reason (str "done")
    then str "Your previous turn ended before the user's request was finished."
    else str "Your previous turn was cut short by the harness ("
      ++ finish_reason
      ++ str ") before the user's request was finished."

unfoldable pub continue_prompt : Verdict → Str → ℕ → Str
unfolding str_eq decimal advice
continue_prompt v finish_reason attempt =
    str "<auto_continue attempt=\""
    ++ decimal attempt
    ++ str "\" of=\""
    ++ decimal max_auto_continues
    ++ str "\">\n"
    ++ why_continue finish_reason
    ++ str
        " This is the harness continuing it — the user has not sent a new message.\n\nWhat is still missing: "
    ++ v.reason
    ++ str "\nDo this next: "
    ++ option_or v.next_step v.reason
    ++ str "\n\n"
    ++ advice finish_reason
    ++ str " If the request is in fact already satisfied, say so and stop.\n</auto_continue>"

-- A turn that has ended. `check` is the model's verdict on an objective, `none` if it gave none. A session
-- that is gone has no rows.
pub record TurnEnded : Type 0 where
  pub events : List SessionEvent
  pub turn_id : ℕ
  pub source : TurnSource
  pub finish : Str
  pub check : Str → Option Verdict

abbrev is_auto_continue : TurnSource → Bool
is_auto_continue TurnSource.auto_continue = true
is_auto_continue _ = false

abbrev pub is_checked : TurnEnded → Bool
is_checked t = needs_check t.finish (is_auto_continue t.source)

-- Whether the continuation that ended is refunded.
abbrev pub is_refunded : TurnEnded → Bool
is_refunded t = is_auto_continue t.source && made_progress t.events t.turn_id

abbrev pub refund_auto_continue : Option Spent → Option Spent
refund_auto_continue none = none
refund_auto_continue (some s) = some (refund s)

abbrev pub judged : TurnEnded → Option Verdict
judged t =
    let asked = objective t.events t.turn_id in if is_empty asked then none else t.check asked

-- What a verdict makes of the session's entry, and the prompt of the turn that it opens.
abbrev pub on_verdict : Str → Option Verdict → Option Spent → Option Spent × Option Str
on_verdict finish none entry = (entry, none)
on_verdict finish (some v) entry =
    let spent = option_or entry no_spent in
    let opened = open_continue spent in
    if not v.reached && budget_left spent
    then (some opened, some (continue_prompt v finish opened.opened))
    else (entry, none)

unfoldable pub completion_check : TurnEnded → Option Spent → Option Spent × Option Str
unfolding needs_check made_progress objective budget_left continue_prompt
completion_check t entry =
    let refunded = if is_refunded t then refund_auto_continue entry else entry in
    if is_checked t then on_verdict t.finish (judged t) refunded else (entry, none)

-- The turns that end after a human message, which took the session's entry away, in their order: the
-- entry that they leave, and how many continuations they opened.
abbrev pub spend : List TurnEnded → Option Spent → Option Spent × ℕ
spend [] entry = (entry, 0)
spend (t ∷ ts) entry =
    let (after, prompt) = completion_check t entry in
    let (last, opened) = spend ts after in (last, (if is_some prompt then 1 else 0) + opened)
