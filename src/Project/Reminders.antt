-- ===== src/Project/Reminders.antt =====
-- crates/sica-core/src/project.rs: the active reminders of a session, and when one recurs.
pub mod Recurrence
pub mod Ids
use sica_rust.Prelude.{
  ℕ, zero, suc, Bool, true, false, Option, none, some, ◌>>=◌, List, [], ◌∷◌, ◌++◌, ◌+◌, ◌-◌, ◌*◌,
  ◌/◌, ◌==◌, ltb, leb, position, remove_at, find, any, not, filter, if◌then◌else◌,
}
use mathlib.Core.Option
use sica_rust.Prelude.Str.{Str, str, str_eq}
use sica_rust.Prelude.Int.{ℤ, pos, negsuc, pos_part, neg_part, ◌+ℤ◌, ◌-ℤ◌, ltb_ℤ}
use sica_rust.Log.{EventKind, schedule, SessionEvent}

pub record ScheduleRecord : Type 0 where
  pub id : Str
  pub prompt : Str
  pub rule : Str
  pub fire_at : ℤ
  pub every_seconds : Option ℕ
  pub anchor : ℤ

-- 2 ^ 63 bounds an `i64`.
abbrev pub i64_bound : ℕ
i64_bound = 9223372036854775808

abbrev pub in_i64 : ℤ → Bool
in_i64 (pos n) = ltb n i64_bound
in_i64 (negsuc n) = ltb n i64_bound

abbrev pub checked_i64 : ℤ → Option ℤ
checked_i64 a = if in_i64 a then some a else none

-- `now - anchor` where `now` is no earlier, so that a difference too large for an `i64` wraps below 0.
abbrev pub elapsed_i64 : ℕ → ℤ
elapsed_i64 d = if ltb d i64_bound then pos d else negsuc (i64_bound + i64_bound - d - 1)

-- `elapsed / every + 1`, whose division rounds toward 0.
abbrev pub steps_after : ℤ → ℕ → ℤ
steps_after (pos d) every = pos (d / every + 1)
steps_after (negsuc d) every = pos 1 -ℤ pos ((d + 1) / every)

abbrev pub times : ℤ → ℕ → ℤ
times (pos n) every = pos (n * every)
times (negsuc n) every = pos 0 -ℤ pos ((n + 1) * every)

abbrev pub after_anchor : ℤ → ℤ → ℕ → Option ℤ
after_anchor anchor now every =
    checked_i64 (times (steps_after (elapsed_i64 (pos_part (now -ℤ anchor))) every) every)
    >>= (λ offset. checked_i64 (anchor +ℤ offset))

-- An interval of 2 ^ 63 seconds or more is negative as an `i64`.
abbrev pub recurs : ℤ → ℤ → ℕ → Option ℤ
recurs anchor now every =
    if every == 0
    then none
    else if leb i64_bound every
    then none
    else if ltb_ℤ now anchor
    then some anchor
    else after_anchor anchor now every

unfoldable pub next_after : ScheduleRecord → ℤ → Option ℤ
unfolding ◌+ℤ◌ ◌-ℤ◌
next_after r now = r.every_seconds >>= recurs r.anchor now

abbrev pub has_id : Str → ScheduleRecord → Bool
has_id id r = str_eq r.id id

abbrev pub create_row :
    Str → Option Str → Option Str → Option ℤ → Option ℕ → List ScheduleRecord → List ScheduleRecord
create_row id (some prompt) (some rule) (some fire_at) every_seconds out =
    out
    ++ (record {
      id = id;
      prompt = prompt;
      rule = rule;
      fire_at = fire_at;
      every_seconds = every_seconds;
      anchor = fire_at;
    }
        ∷ [])
create_row id _ _ _ every_seconds out = out

-- The next occurrence of a dispatched record, with none for one that is spent.
abbrev pub next_fire : ScheduleRecord → Option ℕ → Option ℤ → Option ℤ
next_fire r (some every) (some at) = next_after r at
next_fire r _ _ = none

abbrev pub dispatched : ScheduleRecord → Option ℤ → List ScheduleRecord
dispatched r none = []
dispatched r (some next) = record r { fire_at = next } ∷ []

-- The first record with an id is deleted, or dispatched: kept with its next occurrence, or taken out.
abbrev pub delete_row : Str → List ScheduleRecord → List ScheduleRecord
delete_row id [] = []
delete_row id (r ∷ out) = let rest = delete_row id out in if has_id id r then out else r ∷ rest

abbrev pub dispatch_row : Str → Option ℤ → List ScheduleRecord → List ScheduleRecord
dispatch_row id accepted_at [] = []
dispatch_row id accepted_at (r ∷ out) =
    let rest = dispatch_row id accepted_at out in
    if has_id id r then dispatched r (next_fire r r.every_seconds accepted_at) ++ out else r ∷ rest

abbrev pub schedule_kind : EventKind → List ScheduleRecord → List ScheduleRecord
schedule_kind (schedule id op prompt rule fire_at after_seconds every_seconds accepted_at) out =
    if str_eq op (str "create")
    then (if any (has_id id) out then out else create_row id prompt rule fire_at every_seconds out)
    else if str_eq op (str "delete")
    then delete_row id out
    else if str_eq op (str "dispatch")
    then dispatch_row id accepted_at out
    else out
schedule_kind _ out = out

unfoldable pub schedules_from : List ScheduleRecord → List SessionEvent → List ScheduleRecord
unfolding str_eq next_after
schedules_from out [] = out
schedules_from out (ev ∷ events) = schedules_from (schedule_kind ev.kind out) events

unfoldable pub schedules : List SessionEvent → List ScheduleRecord
unfolding schedules_from
schedules events = schedules_from [] events
