-- ===== src/Tests/OnHub.antt =====
-- A call that a person allows, three identical calls after a reset, and a ticket with two turns.
use sica_rust.Prelude.{
  ℕ, Bool, not, ◌&&◌, ◌||◌, none, ◌+◌, ◌≡◌, ◌↔◌, refl, true, false, some, List, [], ◌∷◌, ◌==◌,
  arith, if◌then◌else◌,
}
use sica_rust.Prelude.Str.{Str, str, str_eq}
use sica_rust.Retain.{utf8_head}
use sica_rust.Ledger.{LedgerEntry, TriggerOrigin, SessionLedger, first_entry}
use sica_rust.Ledger.Records.{entry_of}
use sica_rust.Ledger.Entries.{LedgerOp, fails, ends, run_ledger}
use sica_rust.Ledger.Recovery.{has_recovered, some_turn, recovered-some_turn}
use sica_rust.Guard.{Notice, observe}
use sica_rust.Guard.Repeats.{Op, observes, resets, has_nul, track, run_length, observe-reminds}
use sica_rust.Broker.{ask, resolve_approval, wake, asks, resolves, wakes, after, state}
use sica_rust.Broker
use sica_rust.Broker.FailClosed.{lets_through, verdict-lets_through}

-- Arguments that are a flag.
abbrev as_text : Bool → Str
as_text true = str "true"
as_text false = str "false"

no_nul : (args : Bool) → has_nul (as_text args) ≡ false
no_nul true = refl
no_nul false = refl

abbrev repeated : List (Op Bool)
repeated =
    observes (str "run") true ∷ observes (str "run") true ∷ resets ∷ observes (str "run") true ∷ []

observe-reminds_example :
    (observe as_text as_text (str "run") true (track as_text as_text repeated)).1 ≡ (
      let n : ℕ = 1 + run_length as_text as_text (str "run") (as_text true) repeated in
      let notice : Notice = record {
        skill = str "run";
        count = n;
        preview = utf8_head (as_text true) 500;
      } in
      if n == 3 || n == 5 || n == 8 then some notice else none)
observe-reminds_example =
    observe-reminds as_text as_text no_nul (str "run") true repeated (omega arith)

third_call : run_length as_text as_text (str "run") (as_text true) repeated ≡ 2
unfolding str_eq
third_call = refl

-- Newest first: a second answer comes once the wait has ended.
abbrev granted : List Broker.Op
granted = resolves 1 false ∷ wakes 1 false ∷ resolves 1 true ∷ asks ∷ []

verdict-lets_through_example :
    ((state granted).verdicts 1 ≡ some true) ↔ (lets_through 1 granted ≡ true)
verdict-lets_through_example = verdict-lets_through 1 granted

goes_through : lets_through 1 granted ≡ true
goes_through = refl

-- An interrupt overtakes the answer.
stays_out : lets_through 1 (wakes 1 true ∷ resolves 1 true ∷ asks ∷ []) ≡ false
stays_out = refl

abbrev one_entry : LedgerEntry
one_entry = first_entry (str "t1") TriggerOrigin.tool_call (some (str "run")) (some 7) (some 1)

abbrev one_ticket : SessionLedger
one_ticket = record { session_id = 3; entries = one_entry ∷ []; investigated_at = none }

-- The second turn begins once the ticket has failed for the last time, and does not count.
abbrev two_turns : List LedgerOp
two_turns =
    ends 5 ((str "run", true) ∷ [])
    ∷ ends 12 ((str "run", false) ∷ [])
    ∷ fails (str "t1") TriggerOrigin.tool_call (some (str "run")) (some 20) (some 3)
    ∷ []

its_entry : entry_of (str "t1") one_ticket.entries ≡ some one_entry
unfolding str_eq
its_entry = refl

recovered-some_turn_example :
    has_recovered (entry_of (str "t1") (run_ledger two_turns one_ticket).entries) ≡ (
      some_turn true (str "t1") (str "run") one_entry.last_seq two_turns
      && not (some_turn false (str "t1") (str "run") one_entry.last_seq two_turns))
recovered-some_turn_example =
    recovered-some_turn (str "t1") (str "run") two_turns one_ticket one_entry its_entry refl refl
      refl

does_recover : some_turn false (str "t1") (str "run") one_entry.last_seq two_turns ≡ false
unfolding str_eq
does_recover = refl
