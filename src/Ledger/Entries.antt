-- ===== src/Ledger/Entries.antt =====
-- What the ledger's operations do to the entry of one ticket.
use sica_rust.Prelude.{
  ℕ, ◌≡◌, refl, sym, ap, ◌∙◌, Bool, true, false, Option, none, some, List, [], ◌∷◌, ltb, map, arith,
  if◌then◌else◌, option_or,
}
use sica_rust.Prelude.Str.{Str, str_eq, str_eq_iff}
use sica_rust.Ledger.{
  TriggerOrigin, LedgerEntry, SessionLedger, Outcome, repeat_entry, record_entries, record_failure,
  outcome_of, score, score_since, apply_entry, apply_turn,
}
use sica_rust.Ledger.Records.{entry_of, next_entry, record_entries-own, record_entries-other}

-- What a session does to its ledger, oldest first: a failure is recorded, or a turn is folded in.
pub data LedgerOp : Type 0 where
  fails :
      (ticket : Str) (origin : TriggerOrigin) (skill : Option Str) (seq turn : Option ℕ) → LedgerOp
  ends : (since : ℕ) (outcome : Outcome) → LedgerOp

-- The ledger's file exists, as a failure was recorded in it.
unfoldable pub run_ledger : List LedgerOp → SessionLedger → SessionLedger
run_ledger [] l = l
run_ledger (fails ticket origin skill seq turn ∷ ops) l =
    run_ledger ops (record_failure ticket origin skill seq turn l).0
run_ledger (ends since outcome ∷ ops) l = run_ledger ops (apply_turn true since outcome l)

-- What the same operations do to the entry of one ticket.
abbrev pub entry_after : Str → LedgerOp → LedgerEntry → LedgerEntry
entry_after ticket (fails t _ _ seq turn) e = if str_eq t ticket then repeat_entry seq turn e else e
entry_after ticket (ends since outcome) e = apply_entry since outcome e

abbrev pub entry_run : Str → List LedgerOp → LedgerEntry → LedgerEntry
entry_run ticket [] e = e
entry_run ticket (op ∷ ops) e = entry_run ticket ops (entry_after ticket op e)

apply_entry-ticket_id :
    (since : ℕ) (outcome : Outcome) (e : LedgerEntry)
    → (apply_entry since outcome e).ticket_id ≡ e.ticket_id
unfolding apply_entry
apply_entry-ticket_id since outcome e = by_parts e.skill e.last_seq
  where
    scored : (o : Option Bool) → (score o e).ticket_id ≡ e.ticket_id
    scored none = refl
    scored (some true) = refl
    scored (some false) = refl

    in_time : (b : Bool) (o : Option Bool) → (if b then e else score o e).ticket_id ≡ e.ticket_id
    in_time true o = refl
    in_time false o = scored o

    by_parts :
        (skill : Option Str) (last : Option ℕ)
        → (score_since since outcome skill last e).ticket_id ≡ e.ticket_id
    by_parts none last = refl
    by_parts (some skill) none = refl
    by_parts (some skill) (some last) = in_time (ltb last since) (outcome_of skill outcome)

entry_of-apply :
    (ticket : Str) (since : ℕ) (outcome : Outcome) (entries : List LedgerEntry) (e : LedgerEntry)
    → entry_of ticket entries ≡ some e
    → entry_of ticket (map (apply_entry since outcome) entries) ≡ some (apply_entry since outcome e)
entry_of-apply ticket since outcome [] e h = ground (arith, h)
entry_of-apply ticket since outcome (x ∷ entries) e h =
    ap
      (λ t.
        if str_eq t ticket
        then some (apply_entry since outcome x)
        else entry_of ticket (map (apply_entry since outcome) entries))
      (apply_entry-ticket_id since outcome x)
    ∙ first_or (str_eq x.ticket_id ticket) h (entry_of-apply ticket since outcome entries e)
  where
    first_or :
        (b : Bool)
        → (if b then some x else entry_of ticket entries) ≡ some e
        → (entry_of ticket entries ≡ some e
            → entry_of ticket (map (apply_entry since outcome) entries)
              ≡ some (apply_entry since outcome e))
        → (if b
            then some (apply_entry since outcome x)
            else entry_of ticket (map (apply_entry since outcome) entries))
          ≡ some (apply_entry since outcome e)
    first_or true hit later = ap (λ o. some (apply_entry since outcome (option_or o x))) hit
    first_or false hit later = later hit

apply_entry-no_outcome : (since : ℕ) (e : LedgerEntry) → apply_entry since [] e ≡ e
unfolding apply_entry
apply_entry-no_outcome since e = by_parts e.skill e.last_seq
  where
    same : (b : Bool) → (if b then e else e) ≡ e
    same true = refl
    same false = refl

    by_parts : (skill : Option Str) (last : Option ℕ) → score_since since [] skill last e ≡ e
    by_parts none last = refl
    by_parts (some skill) none = refl
    by_parts (some skill) (some last) = same (ltb last since)

entry_of-apply_turn :
    (ticket : Str) (since : ℕ) (outcome : Outcome) (l : SessionLedger) (e : LedgerEntry)
    → entry_of ticket l.entries ≡ some e
    → entry_of ticket (apply_turn true since outcome l).entries ≡ some (apply_entry since outcome e)
unfolding apply_turn
entry_of-apply_turn ticket since [] l e h = h ∙ ap some (sym (apply_entry-no_outcome since e))
entry_of-apply_turn ticket since (o ∷ outcome) l e h =
    entry_of-apply ticket since (o ∷ outcome) l.entries e h

entry_of-record_failure :
    (ticket t : Str) (origin : TriggerOrigin) (skill : Option Str) (seq turn : Option ℕ)
    (l : SessionLedger) (e : LedgerEntry)
    → entry_of ticket l.entries ≡ some e
    → entry_of ticket (record_failure t origin skill seq turn l).0.entries
      ≡ some (entry_after ticket (fails t origin skill seq turn) e)
unfolding record_failure
entry_of-record_failure ticket t origin skill seq turn l e h = by_ticket (str_eq t ticket) refl
  where
    after : List LedgerEntry
    after = (record_entries t origin skill seq turn l.entries).0

    by_ticket :
        (b : Bool)
        → str_eq t ticket ≡ b
        → entry_of ticket after ≡ some (if b then repeat_entry seq turn e else e)
    by_ticket true hit =
        let same : t ≡ ticket = (str_eq_iff t ticket).0 hit in
        ap (λ k. entry_of k after) (sym same)
        ∙ record_entries-own t origin skill seq turn l.entries
        ∙ ap (λ o. some (next_entry t origin skill seq turn o))
            (ap (λ k. entry_of k l.entries) same ∙ h)
    by_ticket false apart = record_entries-other t origin skill seq turn ticket l.entries apart ∙ h

-- The entry of a ticket goes through what the ledger does.
pub entry_of-run_ledger :
    (ticket : Str) (ops : List LedgerOp) (l : SessionLedger) (e : LedgerEntry)
    → entry_of ticket l.entries ≡ some e
    → entry_of ticket (run_ledger ops l).entries ≡ some (entry_run ticket ops e)
unfolding run_ledger
entry_of-run_ledger ticket [] l e h = h
entry_of-run_ledger ticket (fails t origin skill seq turn ∷ ops) l e h =
    entry_of-run_ledger ticket ops (record_failure t origin skill seq turn l).0
      (entry_after ticket (fails t origin skill seq turn) e)
      (entry_of-record_failure ticket t origin skill seq turn l e h)
entry_of-run_ledger ticket (ends since outcome ∷ ops) l e h =
    entry_of-run_ledger ticket ops (apply_turn true since outcome l) (apply_entry since outcome e)
      (entry_of-apply_turn ticket since outcome l e h)
