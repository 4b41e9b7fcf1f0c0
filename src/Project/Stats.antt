-- ===== src/Project/Stats.antt =====
-- crates/sica-core/src/project.rs: the counters of a session, and its last token usage.
use sica_rust.Prelude.{
  ℕ, Bool, true, false, not, Option, none, some, List, [], ◌∷◌, ◌+◌, ◌%◌, ◌≡◌, max, option_or, refl,
  ap, ◌∙◌, arith, ◌<◌, if◌then◌else◌,
}
use sica_rust.Prelude.Int.{ℤ, pos, ◌-ℤ◌, max_ℤ}
use sica_rust.Budget.Tokens.{u32}
use sica_rust.Log.{
  EventKind, user_message, assistant_message, tool_call, tool_result, llm_retry, turn_start,
  token_usage, SessionEvent,
}
use sica_rust.Project.{fold}

pub record StatsState : Type 0 where
  pub user_msgs : ℕ
  pub assistant_msgs : ℕ
  pub tool_calls : ℕ
  pub tool_failures : ℕ
  pub retries : ℕ
  pub turns : ℕ
  pub wall_ms : ℤ
  pub through_seq : ℕ
  pub first_ts : Option ℤ
  pub last_ts : ℤ

abbrev pub stats_init : StatsState
stats_init = record {
  user_msgs = 0;
  assistant_msgs = 0;
  tool_calls = 0;
  tool_failures = 0;
  retries = 0;
  turns = 0;
  wall_ms = pos 0;
  through_seq = 0;
  first_ts = none;
  last_ts = pos 0;
}

abbrev or_now : Option ℤ → ℤ → Option ℤ
or_now none ts = some ts
or_now (some first) ts = some first

-- The clock's part of `apply`. Timestamps are milliseconds, whose differences an `i64` holds.
abbrev pub at_event : SessionEvent → StatsState → StatsState
at_event ev s = record s {
  through_seq = max s.through_seq ev.seq;
  first_ts = or_now s.first_ts ev.ts;
  last_ts = max_ℤ s.last_ts ev.ts;
  wall_ms = max_ℤ s.last_ts ev.ts -ℤ option_or (or_now s.first_ts ev.ts) (max_ℤ s.last_ts ev.ts);
}

-- A `u32` counter wraps in a release build.
abbrev pub count_kind : EventKind → StatsState → StatsState
count_kind (user_message _ _ _) s = record s { user_msgs = u32 (s.user_msgs + 1) }
count_kind (assistant_message _ _ _ _) s = record s { assistant_msgs = u32 (s.assistant_msgs + 1) }
count_kind (tool_call _ _ _ _ _) s = record s { tool_calls = u32 (s.tool_calls + 1) }
count_kind (tool_result _ _ _ _ ok _ _ _) s = record s {
  tool_failures = if ok then s.tool_failures else u32 (s.tool_failures + 1);
}
count_kind (llm_retry _ _ _ _) s = record s { retries = u32 (s.retries + 1) }
count_kind (turn_start _ _) s = record s { turns = u32 (s.turns + 1) }
count_kind _ s = s

unfoldable pub stats_apply : StatsState → SessionEvent → StatsState
unfolding max_ℤ ◌-ℤ◌
stats_apply s ev = count_kind ev.kind (at_event ev s)

unfoldable pub session_stats : List SessionEvent → StatsState
unfolding stats_apply
session_stats events = fold stats_apply stats_init events

pub record UsageState : Type 0 where
  pub used : ℕ
  pub limit : ℕ
  pub budget : ℕ
  pub prompt_tokens : Option ℕ
  pub completion_tokens : Option ℕ
  pub seen : Bool
  pub through_seq : ℕ

abbrev pub usage_kind : EventKind → UsageState → UsageState
usage_kind (token_usage used limit budget prompt_tokens completion_tokens) s = record {
  used = used;
  limit = limit;
  budget = budget;
  prompt_tokens = prompt_tokens;
  completion_tokens = completion_tokens;
  seen = true;
  through_seq = s.through_seq;
}
usage_kind _ s = s

unfoldable pub usage_apply : UsageState → SessionEvent → UsageState
usage_apply s ev = usage_kind ev.kind (record s { through_seq = max s.through_seq ev.seq })

-- What one kind of row adds to each counter.
abbrev pub is_user : EventKind → Bool
is_user (user_message _ _ _) = true
is_user _ = false

abbrev pub is_assistant : EventKind → Bool
is_assistant (assistant_message _ _ _ _) = true
is_assistant _ = false

abbrev pub is_call : EventKind → Bool
is_call (tool_call _ _ _ _ _) = true
is_call _ = false

abbrev pub is_failure : EventKind → Bool
is_failure (tool_result _ _ _ _ ok _ _ _) = not ok
is_failure _ = false

abbrev pub is_retry : EventKind → Bool
is_retry (llm_retry _ _ _ _) = true
is_retry _ = false

abbrev pub is_start : EventKind → Bool
is_start (turn_start _ _) = true
is_start _ = false

abbrev one_if : Bool → ℕ
one_if true = 1
one_if false = 0

-- The rows of a log that are of a kind.
abbrev pub rows_of : (EventKind → Bool) → List SessionEvent → ℕ
rows_of p [] = 0
rows_of p (ev ∷ events) = one_if (p ev.kind) + rows_of p events

-- What a row does to one counter.
abbrev Counts : (StatsState → ℕ) → (EventKind → Bool) → Type 0
Counts get p =
    (k : EventKind) (s : StatsState)
    → get (count_kind k s) ≡ (if p k then u32 (get s + 1) else get s)

count_users : Counts (λ s. s.user_msgs) is_user
count_users (user_message _ _ _) s = refl
count_users _ s = refl

count_assistants : Counts (λ s. s.assistant_msgs) is_assistant
count_assistants (assistant_message _ _ _ _) s = refl
count_assistants _ s = refl

count_calls : Counts (λ s. s.tool_calls) is_call
count_calls (tool_call _ _ _ _ _) s = refl
count_calls _ s = refl

count_failures : Counts (λ s. s.tool_failures) is_failure
count_failures (tool_result _ _ _ _ true _ _ _) s = refl
count_failures (tool_result _ _ _ _ false _ _ _) s = refl
count_failures _ s = refl

count_retries : Counts (λ s. s.retries) is_retry
count_retries (llm_retry _ _ _ _) s = refl
count_retries _ s = refl

count_turns : Counts (λ s. s.turns) is_start
count_turns (turn_start _ _) s = refl
count_turns _ s = refl

module _ (get : StatsState → ℕ) (p : EventKind → Bool) (step : Counts get p)
    (clock : (ev : SessionEvent) (s : StatsState) → get (at_event ev s) ≡ get s) where
  counted :
      (events : List SessionEvent) (s : StatsState)
      → get s < 4294967296
      → get (fold stats_apply s events) ≡ (get s + rows_of p events) % 4294967296
  unfolding stats_apply
  counted [] s h = omega (arith, h)
  counted (ev ∷ events) s h =
      let moved = step ev.kind (at_event ev s) in
      let same = clock ev s in
      on_kind (p ev.kind) (moved ∙ ap (λ n. if p ev.kind then u32 (n + 1) else n) same)
        (counted events (stats_apply s ev))
    where
      on_kind :
          (b : Bool)
          → get (stats_apply s ev) ≡ (if b then u32 (get s + 1) else get s)
          → (get (stats_apply s ev) < 4294967296
              → get (fold stats_apply (stats_apply s ev) events)
                ≡ (get (stats_apply s ev) + rows_of p events) % 4294967296)
          → get (fold stats_apply (stats_apply s ev) events)
            ≡ (get s + (one_if b + rows_of p events)) % 4294967296
      on_kind true e later = omega (arith, e, h, later (omega (arith, e, h)))
      on_kind false e later = omega (arith, e, h, later (omega (arith, e, h)))

-- Each counter of a log is the number of its rows of one kind, as far as a `u32` holds it: user and
-- assistant messages, tool calls, results that failed, retries and turns.
pub session_stats-rows :
    (events : List SessionEvent)
    → let s = session_stats events in
      (s.user_msgs ≡ u32 (rows_of is_user events))
      × (s.assistant_msgs ≡ u32 (rows_of is_assistant events))
      × (s.tool_calls ≡ u32 (rows_of is_call events))
      × (s.tool_failures ≡ u32 (rows_of is_failure events))
      × (s.retries ≡ u32 (rows_of is_retry events))
      × (s.turns ≡ u32 (rows_of is_start events))
unfolding session_stats
session_stats-rows events = (
  omega (
    arith,
    counted (λ s. s.user_msgs) is_user count_users (λ _ _. refl) events stats_init (omega arith),
  ),
  omega (
    arith,
    counted (λ s. s.assistant_msgs) is_assistant count_assistants (λ _ _. refl) events stats_init
        (omega arith),
  ),
  omega (
    arith,
    counted (λ s. s.tool_calls) is_call count_calls (λ _ _. refl) events stats_init (omega arith),
  ),
  omega (
    arith,
    counted (λ s. s.tool_failures) is_failure count_failures (λ _ _. refl) events stats_init
        (omega arith),
  ),
  omega (
    arith,
    counted (λ s. s.retries) is_retry count_retries (λ _ _. refl) events stats_init (omega arith),
  ),
  omega (
    arith,
    counted (λ s. s.turns) is_start count_turns (λ _ _. refl) events stats_init (omega arith),
  ),
)
