-- ===== src/Ledger/Records.antt =====
-- What the ledger holds after a failure is recorded.
use sica_rust.Prelude.{
  ◌||◌, ℕ, zero, suc, ◌-◌, ◌≤◌, ◌≡◌, refl, ap, ◌∙◌, Bool, true, false, not, Option, none, some,
  List, [], ◌∷◌, ◌++◌, any, find, drop, length, length-append, length-drop, ◌==◌, ==_iff, arith,
  if◌then◌else◌,
}
use sica_rust.Prelude.Str.{Str, str_eq, str_eq_iff}
use sica_rust.Ledger.{
  TriggerOrigin, LedgerEntry, SessionLedger, Recorded, first, repeat, is_new, note_turn,
  repeat_entry, first_entry, record_entries, record_failure,
}

abbrev pub entry_of : Str → List LedgerEntry → Option LedgerEntry
entry_of ticket = find (λ e. str_eq e.ticket_id ticket)

abbrev pub count_of : Option LedgerEntry → ℕ
count_of none = 0
count_of (some e) = e.count

-- The entry that a ticket has after one more failure of it.
abbrev pub next_entry :
    Str → TriggerOrigin → Option Str → Option ℕ → Option ℕ → Option LedgerEntry → LedgerEntry
next_entry ticket origin skill seq turn none = first_entry ticket origin skill seq turn
next_entry ticket origin skill seq turn (some e) = repeat_entry seq turn e

module _ (ticket : Str) (origin : TriggerOrigin) (skill : Option Str) (seq turn : Option ℕ) where
  pub record_entries-own :
      (entries : List LedgerEntry)
      → entry_of ticket (record_entries ticket origin skill seq turn entries).0
        ≡ some (next_entry ticket origin skill seq turn (entry_of ticket entries))
  unfolding record_entries
  record_entries-own [] =
      ap (λ b. if b then some (first_entry ticket origin skill seq turn) else none)
        ((str_eq_iff ticket ticket).1 refl)
  record_entries-own (e ∷ entries) =
      own (str_eq e.ticket_id ticket) refl (record_entries-own entries)
    where
      own :
          (hit : Bool)
          → str_eq e.ticket_id ticket ≡ hit
          → entry_of ticket (record_entries ticket origin skill seq turn entries).0
            ≡ some (next_entry ticket origin skill seq turn (entry_of ticket entries))
          → entry_of ticket (
              let r : List LedgerEntry × Recorded =
                if hit then (repeat_entry seq turn e ∷ entries, repeat) else (
                  e ∷ (record_entries ticket origin skill seq turn entries).0,
                  (record_entries ticket origin skill seq turn entries).1,
                ) in
              r.0)
            ≡ some (
                next_entry ticket origin skill seq turn
                  (if hit then some e else entry_of ticket entries))
      own true h later = rw h refl
      own false h later = rw h later

  -- Another ticket's entry is not touched.
  pub record_entries-other :
      (other : Str) (entries : List LedgerEntry)
      → str_eq ticket other ≡ false
      → entry_of other (record_entries ticket origin skill seq turn entries).0
        ≡ entry_of other entries
  unfolding record_entries
  record_entries-other other [] apart = rw apart refl
  record_entries-other other (e ∷ entries) apart =
      kept (str_eq e.ticket_id ticket) refl (record_entries-other other entries apart)
    where
      kept :
          (hit : Bool)
          → str_eq e.ticket_id ticket ≡ hit
          → entry_of other (record_entries ticket origin skill seq turn entries).0
            ≡ entry_of other entries
          → entry_of other (
              let r : List LedgerEntry × Recorded =
                if hit then (repeat_entry seq turn e ∷ entries, repeat) else (
                  e ∷ (record_entries ticket origin skill seq turn entries).0,
                  (record_entries ticket origin skill seq turn entries).1,
                ) in
              r.0)
            ≡ (if str_eq e.ticket_id other then some e else entry_of other entries)
      kept true h later =
          let miss : str_eq e.ticket_id other ≡ false =
            ap (λ t. str_eq t other) ((str_eq_iff e.ticket_id ticket).0 h) ∙ apart in
          rw miss refl
      kept false h later = ap (λ r. if str_eq e.ticket_id other then some e else r) later

  record_entries-how :
      (entries : List LedgerEntry)
      → (record_entries ticket origin skill seq turn entries).1
        ≡ (if any (λ e. str_eq e.ticket_id ticket) entries then repeat else first)
  unfolding record_entries
  record_entries-how [] = refl
  record_entries-how (e ∷ entries) = ground (arith, record_entries-how entries)

-- A recorded failure is the first of its ticket if and only if `is_new` said so before. The ticket's
-- entry has its count one up, is open for investigation again, and has noted the turn; the entry of any
-- other ticket is as it was.
pub record_failure_lem :
    (ticket other : Str) (origin : TriggerOrigin) (skill : Option Str) (seq turn : Option ℕ)
    (l : SessionLedger)
    → str_eq ticket other ≡ false
    → ((record_failure ticket origin skill seq turn l).1
        ≡ (if is_new ticket l then first else repeat))
      × (entry_of ticket (record_failure ticket origin skill seq turn l).0.entries
          ≡ some (next_entry ticket origin skill seq turn (entry_of ticket l.entries)))
      × (entry_of other (record_failure ticket origin skill seq turn l).0.entries
          ≡ entry_of other l.entries)
unfolding record_failure is_new
record_failure_lem ticket other origin skill seq turn l apart = (
  record_entries-how ticket origin skill seq turn l.entries
      ∙ flip (any (λ e. str_eq e.ticket_id ticket) l.entries),
  record_entries-own ticket origin skill seq turn l.entries,
  record_entries-other ticket origin skill seq turn other l.entries apart,
)
  where
    flip : (b : Bool) → (if b then repeat else first) ≡ (if not b then first else repeat)
    flip true = refl
    flip false = refl

any-last :
    (t k : ℕ) (turns : List ℕ)
    → k ≤ length turns
    → any (λ u. u == t) (drop k (turns ++ t ∷ [])) ≡ true
any-last t zero [] h = rw ((==_iff t t).1 refl) refl
any-last t (suc k) [] h = ground arith
any-last t zero (u ∷ turns) h = found (u == t) (any-last t 0 turns (omega arith))
  where
    found :
        (hit : Bool)
        → any (λ v. v == t) (turns ++ t ∷ []) ≡ true
        → (hit || any (λ v. v == t) (turns ++ t ∷ [])) ≡ true
    found true later = refl
    found false later = later
any-last t (suc k) (u ∷ turns) h = any-last t k turns (omega arith)

-- Once a turn is noted, it is among the turns that an entry remembers, which are 32 at most, so that a
-- check of the turn that has just ended finds it.
pub note_turn_lem :
    (t : ℕ) (turns : List ℕ)
    → length turns ≤ 32
    → (any (λ u. u == t) (note_turn (some t) turns) ≡ true)
      × (length (note_turn (some t) turns) ≤ 32)
unfolding note_turn
note_turn_lem t turns few = noted (any (λ u. u == t) turns) refl
  where
    over : ℕ
    over = length (turns ++ t ∷ []) - 32

    noted :
        (old : Bool)
        → any (λ u. u == t) turns ≡ old
        → (let r : List ℕ = if old then turns else drop over (turns ++ t ∷ []) in
            (any (λ u. u == t) r ≡ true) × (length r ≤ 32))
    noted true e = (e, few)
    noted false e = (
      any-last t over turns (omega (arith, few, length-append turns (t ∷ []))),
      omega (arith, length-drop over (turns ++ t ∷ [])),
    )
