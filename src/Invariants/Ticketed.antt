-- ===== src/Invariants/Ticketed.antt =====
-- crates/backend/src/invariants.rs with ledger.rs: the check of error exits finds what was recorded.
use sica_rust.Prelude.{
  ℕ, Bool, true, false, not, Option, none, some, List, [], ◌∷◌, ◌≤◌, ◌==◌, ◌&&◌, ◌||◌, any, find,
  length, if◌then◌else◌, ◌≡◌, refl, arith,
}
use sica_rust.Prelude.Str.{Str, str, str_eq}
use sica_rust.Ledger.{turn_error, LedgerEntry, SessionLedger, record_failure, record_entries}
use sica_rust.Ledger.Records.{entry_of, next_entry, record_entries-own, note_turn_lem}
use sica_rust.Invariants.{
  is_turn_error, is_ticketed, check_error_turn_ticketed, not_ticketed, of_exit,
}

any-find :
    (p q : LedgerEntry → Bool) (entries : List LedgerEntry) (e : LedgerEntry)
    → find p entries ≡ some e
    → q e ≡ true
    → any q entries ≡ true
any-find p q [] e found h = ground (arith, found)
any-find p q (x ∷ entries) e found h = by_first (p x) (q x) refl refl found (any-find p q entries e)
  where
    by_first :
        (b c : Bool)
        → p x ≡ b
        → q x ≡ c
        → (if b then some x else find p entries) ≡ some e
        → (find p entries ≡ some e → q e ≡ true → any q entries ≡ true)
        → (c || any q entries) ≡ true
    by_first b true _ _ _ _ = refl
    by_first true false _ miss hit later = ground (arith, miss, hit, h)
    by_first false false _ _ hit later = later hit h

-- What a ticket's entry is, if it has one: of the kind of the error exits, with 32 turns at most.
abbrev pub IsErrorEntry : Option LedgerEntry → Type 0
IsErrorEntry none = Unit
IsErrorEntry (some e) = (e.origin ≡ turn_error) × (length e.turns ≤ 32)

abbrev names_turn : ℕ → LedgerEntry → Bool
names_turn turn_id e = is_turn_error e.origin && any (λ t. t == turn_id) e.turns

next_entry-turn :
    (ticket : Str) (skill : Option Str) (seq : Option ℕ) (turn_id : ℕ) (old : Option LedgerEntry)
    → IsErrorEntry old
    → names_turn turn_id (next_entry ticket turn_error skill seq (some turn_id) old) ≡ true
next_entry-turn ticket skill seq turn_id none _ = (note_turn_lem turn_id [] (omega arith)).0
next_entry-turn ticket skill seq turn_id (some e) (kind, few) =
    rw kind (note_turn_lem turn_id e.turns few).0

-- A turn whose error was recorded in the session's ledger passes the check of error exits, whatever it
-- ended with and however long the session has been. The entry that the ticket has before, if any, is of a
-- turn error and remembers 32 turns at most.
pub check_error_turn_ticketed-record_failure :
    (daemon finish_reason ticket : Str) (skill : Option Str) (seq : Option ℕ) (turn_id : ℕ)
    (l : SessionLedger)
    → IsErrorEntry (entry_of ticket l.entries)
    → check_error_turn_ticketed daemon finish_reason turn_id
        (some (record_failure ticket turn_error skill seq (some turn_id) l).0)
      ≡ []
unfolding check_error_turn_ticketed record_failure
check_error_turn_ticketed-record_failure daemon finish_reason ticket skill seq turn_id l own =
    let found : is_ticketed turn_id
          (some (record_failure ticket turn_error skill seq (some turn_id) l).0)
        ≡ true =
      any-find (λ e. str_eq e.ticket_id ticket) (names_turn turn_id)
        (record_entries ticket turn_error skill seq (some turn_id) l.entries).0
        (next_entry ticket turn_error skill seq (some turn_id) (entry_of ticket l.entries))
        (record_entries-own ticket turn_error skill seq (some turn_id) l.entries)
        (next_entry-turn ticket skill seq turn_id (entry_of ticket l.entries) own) in
    passes (not (str_eq finish_reason (str "error"))) found
  where
    passes :
        (b : Bool)
        → is_ticketed turn_id (some (record_failure ticket turn_error skill seq (some turn_id) l).0)
          ≡ true
        → (if b
            then []
            else if is_ticketed turn_id
                (some (record_failure ticket turn_error skill seq (some turn_id) l).0)
            then []
            else of_exit (not_ticketed daemon turn_id) ∷ [])
          ≡ []
    passes true h = refl
    passes false h = rw h refl
