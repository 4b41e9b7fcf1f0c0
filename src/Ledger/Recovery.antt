-- ===== src/Ledger/Recovery.antt =====
-- When a ticket counts as recovered.
use mathlib.Core.Path.{subst}
use sica_rust.Prelude.{
  ℕ, ◌≡◌, refl, sym, ap, ◌∙◌, Bool, true, false, not, ◌&&◌, ◌||◌, Option, none, some, List, [], ◌∷◌,
  ◌==◌, ltb, leb, arith, if◌then◌else◌, is_some,
}
use sica_rust.Prelude.Str.{Str, str_eq}
use sica_rust.Ledger.{
  LedgerEntry, SessionLedger, Outcome, newer_seq, repeat_entry, outcome_of, score, score_since,
  apply_entry, recovered,
}
use sica_rust.Ledger.Records.{entry_of}
use sica_rust.Ledger.Entries.{
  LedgerOp, fails, ends, run_ledger, entry_after, entry_run, entry_of-run_ledger,
}

abbrev says : Bool → Option Bool → Bool
says b none = false
says true (some ok) = ok
says false (some ok) = not ok

-- A turn that began at `since` is one that a failure at `last` may belong to.
abbrev began_by : ℕ → Option ℕ → Bool
began_by since none = false
began_by since (some last) = leb since last

-- Where the ticket failed last, once the operation is done.
abbrev last_after : Str → LedgerOp → Option ℕ → Option ℕ
last_after ticket (fails t _ _ seq _) last = if str_eq t ticket then newer_seq seq last else last
last_after ticket (ends _ _) last = last

-- Whether a turn ended that had begun no later than the ticket's last failure until then, and whose last
-- call of the skill did work, or did not.
abbrev ended : Bool → Str → LedgerOp → Option ℕ → Bool
ended b skill (fails _ _ _ _ _) last = false
ended b skill (ends since outcome) last = began_by since last && says b (outcome_of skill outcome)

abbrev pub some_turn : Bool → Str → Str → Option ℕ → List LedgerOp → Bool
some_turn b ticket skill last [] = false
some_turn b ticket skill last (op ∷ ops) =
    ended b skill op last || some_turn b ticket skill (last_after ticket op last) ops

-- What one entry tells of its turns so far.
abbrev is_good : LedgerEntry → Bool
is_good e = ltb 0 e.recovered_turns

abbrev is_bad : LedgerEntry → Bool
is_bad e = ltb 0 e.unrecovered_turns

record Scored (skill : Str) (last : Option ℕ) (good bad : Bool) (e : LedgerEntry) : Type 0 where
  of_skill : e.skill ≡ some skill
  at_last : e.last_seq ≡ last
  good_so_far : is_good e ≡ good
  bad_so_far : is_bad e ≡ bad

score-Scored :
    (skill : Str) (last : Option ℕ) (good bad : Bool) (e : LedgerEntry) (o : Option Bool)
    → Scored skill last good bad e
    → Scored skill last (good || says true o) (bad || says false o) (score o e)
score-Scored skill last good bad e none h = record {
  of_skill = h.of_skill;
  at_last = h.at_last;
  good_so_far = ground (arith, h.good_so_far);
  bad_so_far = ground (arith, h.bad_so_far);
}
score-Scored skill last good bad e (some true) h = record {
  of_skill = h.of_skill;
  at_last = h.at_last;
  good_so_far = ground arith;
  bad_so_far = ground (arith, h.bad_so_far);
}
score-Scored skill last good bad e (some false) h = record {
  of_skill = h.of_skill;
  at_last = h.at_last;
  good_so_far = ground (arith, h.good_so_far);
  bad_so_far = ground arith;
}

Scored-kept :
    (skill : Str) (last : Option ℕ) (good bad : Bool) (e : LedgerEntry)
    → Scored skill last good bad e
    → Scored skill last (good || false) (bad || false) e
Scored-kept skill last good bad e h = record {
  of_skill = h.of_skill;
  at_last = h.at_last;
  good_so_far = ground (arith, h.good_so_far);
  bad_so_far = ground (arith, h.bad_so_far);
}

score_since-Scored :
    (skill : Str) (last : Option ℕ) (good bad : Bool) (since : ℕ) (outcome : Outcome)
    (e : LedgerEntry)
    → Scored skill last good bad e
    → Scored skill last
        (good || (began_by since last && says true (outcome_of skill outcome)))
        (bad || (began_by since last && says false (outcome_of skill outcome)))
        (score_since since outcome (some skill) last e)
score_since-Scored skill none good bad since outcome e h = Scored-kept skill none good bad e h
score_since-Scored skill (some last) good bad since outcome e h =
    let order : leb since last ≡ not (ltb last since) = ground arith in
    rw order (in_time (ltb last since) (outcome_of skill outcome))
  where
    in_time :
        (late : Bool) (o : Option Bool)
        → Scored skill
            (some last)
            (good || (not late && says true o))
            (bad || (not late && says false o))
            (if late then e else score o e)
    in_time true o = Scored-kept skill (some last) good bad e h
    in_time false o = score-Scored skill (some last) good bad e o h

apply_entry-Scored :
    (skill : Str) (last : Option ℕ) (good bad : Bool) (since : ℕ) (outcome : Outcome)
    (e : LedgerEntry)
    → Scored skill last good bad e
    → Scored skill last
        (good || (began_by since last && says true (outcome_of skill outcome)))
        (bad || (began_by since last && says false (outcome_of skill outcome)))
        (apply_entry since outcome e)
unfolding apply_entry
apply_entry-Scored skill last good bad since outcome e h =
    subst
      (Scored skill last (good || (began_by since last && says true (outcome_of skill outcome)))
        (bad || (began_by since last && says false (outcome_of skill outcome))))
      (ap (λ n. score_since since outcome (some skill) n e) (sym h.at_last)
        ∙ ap (λ s. score_since since outcome s e.last_seq e) (sym h.of_skill))
      (score_since-Scored skill last good bad since outcome e h)

repeat_entry-Scored :
    (b : Bool) (skill : Str) (last : Option ℕ) (good bad : Bool) (seq turn : Option ℕ)
    (e : LedgerEntry)
    → Scored skill last good bad e
    → Scored skill
        (if b then newer_seq seq last else last)
        (good || false)
        (bad || false)
        (if b then repeat_entry seq turn e else e)
repeat_entry-Scored true skill last good bad seq turn e h = record {
  of_skill = h.of_skill;
  at_last = ap (newer_seq seq) h.at_last;
  good_so_far = ground (arith, h.good_so_far);
  bad_so_far = ground (arith, h.bad_so_far);
}
repeat_entry-Scored false skill last good bad seq turn e h = Scored-kept skill last good bad e h

entry_after-Scored :
    (ticket skill : Str) (last : Option ℕ) (good bad : Bool) (op : LedgerOp) (e : LedgerEntry)
    → Scored skill last good bad e
    → Scored skill
        (last_after ticket op last)
        (good || ended true skill op last)
        (bad || ended false skill op last)
        (entry_after ticket op e)
entry_after-Scored ticket skill last good bad (fails t _ _ seq turn) e h =
    repeat_entry-Scored (str_eq t ticket) skill last good bad seq turn e h
entry_after-Scored ticket skill last good bad (ends since outcome) e h =
    apply_entry-Scored skill last good bad since outcome e h

or_assoc : (a b c : Bool) → ((a || b) || c) ≡ (a || (b || c))
or_assoc true b c = refl
or_assoc false b c = refl

-- The two counters of an entry, after any run of the ledger.
entry_run-counts :
    (ticket skill : Str) (last : Option ℕ) (good bad : Bool) (ops : List LedgerOp) (e : LedgerEntry)
    → Scored skill last good bad e
    → ((entry_run ticket ops e).skill ≡ some skill)
      × (is_good (entry_run ticket ops e) ≡ (good || some_turn true ticket skill last ops))
      × (is_bad (entry_run ticket ops e) ≡ (bad || some_turn false ticket skill last ops))
entry_run-counts ticket skill last good bad [] e h =
    let kept = Scored-kept skill last good bad e h in
    (kept.of_skill, kept.good_so_far, kept.bad_so_far)
entry_run-counts ticket skill last good bad (op ∷ ops) e h =
    let rest =
      entry_run-counts ticket skill (last_after ticket op last) (good || ended true skill op last)
        (bad || ended false skill op last) ops (entry_after ticket op e)
        (entry_after-Scored ticket skill last good bad op e h) in
    (rest.0, rest.1 ∙ or_assoc good _ _, rest.2 ∙ or_assoc bad _ _)

abbrev pub has_recovered : Option LedgerEntry → Bool
has_recovered none = false
has_recovered (some e) = recovered e

-- However the session goes on, a ticket that a failed tool call has counts as recovered if and only if
-- some turn ended with the skill working again, and none ended with it not working. Only those turns count
-- which had begun no later than the ticket's last failure before their end. The ticket's entry has no
-- turn counted at the start.
pub recovered-some_turn :
    (ticket skill : Str) (ops : List LedgerOp) (l : SessionLedger) (e : LedgerEntry)
    → entry_of ticket l.entries ≡ some e
    → e.skill ≡ some skill
    → e.recovered_turns ≡ 0
    → e.unrecovered_turns ≡ 0
    → has_recovered (entry_of ticket (run_ledger ops l).entries) ≡ (
        some_turn true ticket skill e.last_seq ops
        && not (some_turn false ticket skill e.last_seq ops))
unfolding recovered
recovered-some_turn ticket skill ops l e found named no_good no_bad =
    ap has_recovered (entry_of-run_ledger ticket ops l e found)
    ∙ chosen (entry_run ticket ops e) (
        entry_run-counts ticket skill e.last_seq false false ops e (record {
          of_skill = named;
          at_last = refl;
          good_so_far = ap (ltb 0) no_good;
          bad_so_far = ap (ltb 0) no_bad;
        }))
  where
    both :
        (known : Bool) (good bad : ℕ) (g b : Bool)
        → known ≡ true
        → ltb 0 good ≡ g
        → ltb 0 bad ≡ b
        → ((known && ltb 0 good) && (bad == 0)) ≡ (g && not b)
    both known good bad g b is_known is_g is_b =
        let flipped : (bad == 0) ≡ not (ltb 0 bad) = ground arith in
        rw (is_known, flipped, is_g, is_b) refl

    chosen :
        (r : LedgerEntry)
        → (r.skill ≡ some skill)
          × (is_good r ≡ some_turn true ticket skill e.last_seq ops)
          × (is_bad r ≡ some_turn false ticket skill e.last_seq ops)
        → (is_some r.skill && ltb 0 r.recovered_turns && r.unrecovered_turns == 0) ≡ (
            some_turn true ticket skill e.last_seq ops
            && not (some_turn false ticket skill e.last_seq ops))
    chosen r (of_skill, good, bad) =
        both (is_some r.skill) r.recovered_turns r.unrecovered_turns
          (some_turn true ticket skill e.last_seq ops) (some_turn false ticket skill e.last_seq ops)
          (ap is_some of_skill) good bad
