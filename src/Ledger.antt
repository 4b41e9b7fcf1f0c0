-- ===== src/Ledger.antt =====
-- ledger.rs, in the crate of the incident daemon: the tickets that a session raised. Every update holds one lock.
pub mod Records
pub mod Entries
pub mod Recovery
use sica_rust.Prelude.{
  ℕ, ◌+◌, ◌-◌, ◌≡◌, Bool, true, false, not, ◌&&◌, ◌||◌, Option, none, some, List, [], ◌∷◌, ◌++◌,
  any, find, filter, drop, length, ltb, ◌==◌, if◌then◌else◌, map, is_some,
}
use sica_rust.Prelude.Str.{Str, str_eq}
use sica_rust.Budget.Tokens.{saturating_add}

abbrev pub turns_kept : ℕ
turns_kept = 32

-- trigger_bus.rs, in the same crate.
pub data TriggerOrigin : Type 0 where
  tool_call turn_error llm_connect panic invariant frontend config investigator other :
      TriggerOrigin

pub record LedgerEntry : Type 0 where
  pub ticket_id : Str
  pub origin : TriggerOrigin
  pub skill : Option Str
  pub seq : Option ℕ
  pub last_seq : Option ℕ
  pub count : ℕ
  pub recovered_turns : ℕ
  pub unrecovered_turns : ℕ
  pub investigated : Bool
  pub turns : List ℕ

pub record SessionLedger : Type 0 where
  pub session_id : ℕ
  pub entries : List LedgerEntry
  pub investigated_at : Option Str

unfoldable pub recovered : LedgerEntry → Bool
recovered e = is_some e.skill && ltb 0 e.recovered_turns && e.unrecovered_turns == 0

unfoldable pub pending : SessionLedger → List LedgerEntry
pending l = filter (λ e. not e.investigated) l.entries

pub data Recorded : Type 0 where
  first repeat : Recorded

unfoldable pub is_new : Str → SessionLedger → Bool
is_new ticket l = not (any (λ e. str_eq e.ticket_id ticket) l.entries)

-- `note_turn`: each turn once, and the newest 32 of them.
unfoldable pub note_turn : Option ℕ → List ℕ → List ℕ
note_turn none turns = turns
note_turn (some t) turns =
    if any (λ u. u == t) turns
    then turns
    else drop (length (turns ++ t ∷ []) - turns_kept) (turns ++ t ∷ [])

abbrev pub newer_seq : Option ℕ → Option ℕ → Option ℕ
newer_seq none old = old
newer_seq (some s) old = some s

abbrev pub repeat_entry : Option ℕ → Option ℕ → LedgerEntry → LedgerEntry
repeat_entry seq turn e = record e {
  count = saturating_add e.count 1;
  last_seq = newer_seq seq e.last_seq;
  investigated = false;
  turns = note_turn turn e.turns;
}

abbrev pub first_entry : Str → TriggerOrigin → Option Str → Option ℕ → Option ℕ → LedgerEntry
first_entry ticket origin skill seq turn = record {
  ticket_id = ticket;
  origin = origin;
  skill = skill;
  seq = seq;
  last_seq = seq;
  count = 1;
  recovered_turns = 0;
  unrecovered_turns = 0;
  investigated = false;
  turns = note_turn turn [];
}

-- The first entry of the ticket is updated in place; without one, a new entry is put at the end.
unfoldable pub record_entries :
    Str
    → TriggerOrigin
    → Option Str
    → Option ℕ
    → Option ℕ
    → List LedgerEntry
    → List LedgerEntry × Recorded
record_entries ticket origin skill seq turn [] =
    (first_entry ticket origin skill seq turn ∷ [], first)
record_entries ticket origin skill seq turn (e ∷ entries) =
    let (rest, how) = record_entries ticket origin skill seq turn entries in
    if str_eq e.ticket_id ticket
    then (repeat_entry seq turn e ∷ entries, repeat)
    else (e ∷ rest, how)

-- `record`, on the ledger that `update` has loaded and then saves.
unfoldable pub record_failure :
    Str
    → TriggerOrigin
    → Option Str
    → Option ℕ
    → Option ℕ
    → SessionLedger
    → SessionLedger × Recorded
record_failure ticket origin skill seq turn l =
    let (entries, how) = record_entries ticket origin skill seq turn l.entries in
    (record l { entries = entries }, how)

abbrev mark_entry : LedgerEntry → LedgerEntry
mark_entry e = record e { investigated = true }

-- `mark_investigated`; `stamp` is the clock's time.
unfoldable pub mark_investigated : Str → SessionLedger → SessionLedger
mark_investigated stamp l = record l {
  entries = map mark_entry l.entries;
  investigated_at = some stamp;
}

-- What a turn says of each skill that failed in it: whether a later call of it succeeded.
abbrev pub Outcome : Type 0
Outcome = List (Str × Bool)

abbrev pub outcome_of : Str → Outcome → Option Bool
outcome_of skill [] = none
outcome_of skill ((name, ok) ∷ rest) =
    let later = outcome_of skill rest in if str_eq name skill then some ok else later

abbrev pub score : Option Bool → LedgerEntry → LedgerEntry
score none e = e
score (some true) e = record e { recovered_turns = saturating_add e.recovered_turns 1 }
score (some false) e = record e { unrecovered_turns = saturating_add e.unrecovered_turns 1 }

abbrev pub score_since : ℕ → Outcome → Option Str → Option ℕ → LedgerEntry → LedgerEntry
score_since since outcome none _ e = e
score_since since outcome (some skill) none e = e
score_since since outcome (some skill) (some last) e =
    if ltb last since then e else score (outcome_of skill outcome) e

unfoldable pub apply_entry : ℕ → Outcome → LedgerEntry → LedgerEntry
apply_entry since outcome e = score_since since outcome e.skill e.last_seq e

abbrev is_no_outcome : Outcome → Bool
is_no_outcome [] = true
is_no_outcome _ = false

-- `exists` tells whether the session has a ledger file.
unfoldable pub apply_turn : Bool → ℕ → Outcome → SessionLedger → SessionLedger
apply_turn exists since outcome l =
    if is_no_outcome outcome || not exists
    then l
    else record l { entries = map (apply_entry since outcome) l.entries }
