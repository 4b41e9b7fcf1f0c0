-- ===== src/Project/Outline.antt =====
-- crates/sica-core/src/project.rs: the outline of a session, one row for each turn.
use sica_rust.Prelude.{
  ℕ, Bool, true, false, Option, none, some, List, [], ◌∷◌, ◌++◌, ◌==◌, ◌-◌, ◌+◌, not, length, take,
  map, leb, max, option_or, find, if◌then◌else◌, ◌≡◌, refl, ap, sym, ◌∙◌,
}
use mathlib.Core.List.{append_assoc, append-nil}
use sica_rust.Prelude.Str.{Str, str, is_empty}
use sica_rust.Prelude.Trim.{trim, trim_end}
use sica_rust.Prelude.Int.{ℤ, max_ℤ}
use sica_rust.Budget.Tokens.{u32}
use sica_rust.Log.{
  TurnSource, human, goal_round, followup, auto_continue, EventKind, turn_start, turn_end,
  user_message, tool_call, SessionEvent,
}
use sica_rust.Project.{fold}

-- `TurnSource::label`.
abbrev pub source_label : TurnSource → Str
source_label human = str "human"
source_label goal_round = str "goal round"
source_label followup = str "followup"
source_label auto_continue = str "auto-continue"
source_label TurnSource.schedule = str "reminder"

pub record TurnRow : Type 0 where
  pub turn_id : ℕ
  pub first_user_line : Str
  pub source : Str
  pub hops : ℕ
  pub finish_reason : Str
  pub start_seq : ℕ
  pub ts_start : ℤ
  pub ts_end : ℤ
  pub tool_calls : ℕ

pub record OutlineState : Type 0 where
  pub turns : List TurnRow
  pub through_seq : ℕ

abbrev add_char : ℕ → List Str → List Str
add_char c [] = (c ∷ []) ∷ []
add_char c (line ∷ lines) = if c == b'\n' then [] ∷ line ∷ lines else (c ∷ line) ∷ lines

-- The lines of a text. `lines()` also takes a carriage return off, which the trim does here.
abbrev pub text_lines : Str → List Str
text_lines [] = [] ∷ []
text_lines (c ∷ s) = add_char c (text_lines s)

abbrev capped : ℕ → Str → Str
capped cap line = if leb (length line) cap then line else trim_end (take (cap - 1) line) ++ str "…"

unfoldable pub first_line : Str → ℕ → Str
unfolding trim trim_end
first_line text cap =
    capped cap (option_or (find (λ line. not (is_empty line)) (map trim (text_lines text))) [])

-- `turns.last_mut()`.
abbrev pub on_last : (TurnRow → TurnRow) → List TurnRow → List TurnRow
on_last f [] = []
on_last f (row ∷ []) = f row ∷ []
on_last f (row ∷ next ∷ rows) = row ∷ on_last f (next ∷ rows)

abbrev changed_newest :
    (TurnRow → Bool)
    → (TurnRow → TurnRow)
    → TurnRow
    → List TurnRow
    → Option (List TurnRow)
    → Option (List TurnRow)
changed_newest p f row rows (some changed) = some (row ∷ changed)
changed_newest p f row rows none = if p row then some (f row ∷ rows) else none

-- `iter_mut().rev().find(p)`: the last row that passes is changed, with `none` where none passes.
abbrev pub on_newest : (TurnRow → Bool) → (TurnRow → TurnRow) → List TurnRow → Option (List TurnRow)
on_newest p f [] = none
on_newest p f (row ∷ rows) = changed_newest p f row rows (on_newest p f rows)

abbrev touch : ℤ → TurnRow → TurnRow
touch ts row = record row { ts_end = max_ℤ row.ts_end ts }

abbrev open_turn : ℕ → TurnSource → SessionEvent → TurnRow
open_turn turn_id source ev = record {
  turn_id = turn_id;
  first_user_line = [];
  source = source_label source;
  hops = 0;
  finish_reason = [];
  start_seq = ev.seq;
  ts_start = ev.ts;
  ts_end = ev.ts;
  tool_calls = 0;
}

abbrev end_turn : Str → ℕ → ℤ → TurnRow → TurnRow
end_turn finish_reason hops ts row = record row {
  finish_reason = finish_reason;
  hops = hops;
  ts_end = ts;
}

abbrev say_line : Str → TurnRow → TurnRow
say_line content row = record row {
  first_user_line =
      if is_empty row.first_user_line then first_line content 60 else row.first_user_line;
}

abbrev count_call : TurnRow → TurnRow
count_call row = record row { tool_calls = u32 (row.tool_calls + 1) }

-- A `TurnEnd` names its turn by its id; any other row belongs to the turn that is newest.
abbrev pub outline_kind : SessionEvent → EventKind → List TurnRow → List TurnRow
outline_kind ev (turn_start turn_id source) turns = turns ++ (open_turn turn_id source ev ∷ [])
outline_kind ev (turn_end turn_id finish_reason hops) turns =
    option_or (on_newest (λ row. row.turn_id == turn_id) (end_turn finish_reason hops ev.ts) turns)
      turns
outline_kind ev (user_message _ content _) turns =
    on_last (λ row. say_line content (touch ev.ts row)) turns
outline_kind ev (tool_call _ _ _ _ _) turns = on_last (λ row. touch ev.ts (count_call row)) turns
outline_kind ev _ turns = on_last (touch ev.ts) turns

unfoldable pub outline_apply : OutlineState → SessionEvent → OutlineState
unfolding first_line max_ℤ
outline_apply s ev = record {
  turns = outline_kind ev ev.kind s.turns;
  through_seq = max s.through_seq ev.seq;
}

unfoldable pub turn_outline : List SessionEvent → OutlineState
unfolding outline_apply
turn_outline events = fold outline_apply (record { turns = []; through_seq = 0 }) events

-- What a row keeps for good: its turn, who opened it, and where in the log.
abbrev pub Opening : Type 0
Opening = ℕ × Str × ℕ × ℤ

abbrev pub opening : TurnRow → Opening
opening row = (row.turn_id, row.source, row.start_seq, row.ts_start)

-- The turns that a log opens.
abbrev pub opened_by : SessionEvent → EventKind → List Opening
opened_by ev (turn_start turn_id source) = (turn_id, source_label source, ev.seq, ev.ts) ∷ []
opened_by ev _ = []

abbrev pub openings : List SessionEvent → List Opening
openings [] = []
openings (ev ∷ events) = opened_by ev ev.kind ++ openings events

on_last-opening :
    (f : TurnRow → TurnRow)
    → ((row : TurnRow) → opening (f row) ≡ opening row)
    → (rows : List TurnRow) → map opening (on_last f rows) ≡ map opening rows
on_last-opening f h [] = refl
on_last-opening f h (row ∷ []) = ap (λ o. o ∷ []) (h row)
on_last-opening f h (row ∷ next ∷ rows) = ap (◌∷◌ (opening row)) (on_last-opening f h (next ∷ rows))

on_newest-opening :
    (p : TurnRow → Bool) (f : TurnRow → TurnRow)
    → ((row : TurnRow) → opening (f row) ≡ opening row)
    → (rows : List TurnRow) → map opening (option_or (on_newest p f rows) rows) ≡ map opening rows
on_newest-opening p f h [] = refl
on_newest-opening p f h (row ∷ rows) = at (on_newest p f rows) (on_newest-opening p f h rows)
  where
    at :
        (o : Option (List TurnRow))
        → map opening (option_or o rows) ≡ map opening rows
        → map opening (option_or (changed_newest p f row rows o) (row ∷ rows))
          ≡ map opening (row ∷ rows)
    at (some changed) e = ap (◌∷◌ (opening row)) e
    at none e = here (p row)
      where
        here :
            (b : Bool)
            → map opening (option_or (if b then some (f row ∷ rows) else none) (row ∷ rows))
              ≡ map opening (row ∷ rows)
        here true = ap (λ o. o ∷ map opening rows) (h row)
        here false = refl

map-append : (xs ys : List TurnRow) → map opening (xs ++ ys) ≡ map opening xs ++ map opening ys
map-append [] ys = refl
map-append (x ∷ xs) ys = ap (◌∷◌ (opening x)) (map-append xs ys)

outline_kind-opening :
    (ev : SessionEvent) (k : EventKind) (turns : List TurnRow)
    → map opening (outline_kind ev k turns) ≡ map opening turns ++ opened_by ev k
outline_kind-opening ev (turn_start turn_id source) turns =
    map-append turns (open_turn turn_id source ev ∷ [])
outline_kind-opening ev (turn_end turn_id finish_reason hops) turns =
    on_newest-opening (λ row. row.turn_id == turn_id) (end_turn finish_reason hops ev.ts)
      (λ _. refl) turns
    ∙ sym (append-nil (map opening turns))
outline_kind-opening ev (user_message _ content _) turns =
    on_last-opening (λ row. say_line content (touch ev.ts row)) (λ _. refl) turns
    ∙ sym (append-nil (map opening turns))
outline_kind-opening ev (tool_call _ _ _ _ _) turns =
    on_last-opening (λ row. touch ev.ts (count_call row)) (λ _. refl) turns
    ∙ sym (append-nil (map opening turns))
outline_kind-opening ev _ turns =
    on_last-opening (touch ev.ts) (λ _. refl) turns ∙ sym (append-nil (map opening turns))

outline_from-openings :
    (events : List SessionEvent) (s : OutlineState)
    → map opening (fold outline_apply s events).turns ≡ map opening s.turns ++ openings events
unfolding outline_apply
outline_from-openings [] s = sym (append-nil (map opening s.turns))
outline_from-openings (ev ∷ events) s =
    outline_from-openings events (outline_apply s ev)
    ∙ ap (λ o. o ++ openings events) (outline_kind-opening ev ev.kind s.turns)
    ∙ append_assoc (map opening s.turns) (opened_by ev ev.kind) (openings events)

-- The outline has one row for each start of a turn in the log, in the log's order: the row keeps the
-- turn's id, who opened it, and the seq and the time of its start, whatever rows come later, an end with
-- no start included.
pub turn_outline-openings :
    (events : List SessionEvent) → map opening (turn_outline events).turns ≡ openings events
unfolding turn_outline
turn_outline-openings events = outline_from-openings events (record { turns = []; through_seq = 0 })
