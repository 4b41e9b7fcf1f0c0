-- ===== src/Broker/FailClosed.antt =====
-- A call runs only if a person allowed it.
use sica_rust.Prelude.{
  ℕ, ◌+◌, ◌%◌, ◌≡◌, ◌↔◌, refl, sym, ap, ◌∙◌, Bool, true, false, not, ◌&&◌, ◌||◌, Option, none, some,
  List, [], ◌∷◌, ◌==◌, ==_iff, arith, if◌then◌else◌, option_or, is_some, Bool-cases, inl, inr,
}
use sica_rust.Broker.{
  BrokerSet, set_at, ask, resolve_approval, verdict_of, wake_from, wake, forget, Op, asks, resolves,
  wakes, forgets, after, state,
}

-- What a history says of the call that was last asked under an id, read from the operations alone.

-- The id of the next call that is asked: they are counted, in 64 bits.
abbrev pub next_id : List Op → ℕ
next_id [] = 1
next_id (asks ∷ older) = (next_id older + 1) % 18446744073709551616
next_id (_ ∷ older) = next_id older

-- The call waits for an answer: nobody has answered it, and it is not forgotten.
abbrev pub is_pending : ℕ → List Op → Bool
is_pending id [] = false
is_pending id (asks ∷ older) = id == next_id older || is_pending id older
is_pending id (resolves n _ ∷ older) = not (id == n) && is_pending id older
is_pending id (wakes _ _ ∷ older) = is_pending id older
is_pending id (forgets n ∷ older) = not (id == n) && is_pending id older

-- The call's wait has not ended.
abbrev pub is_waiting : ℕ → List Op → Bool
is_waiting id [] = true
is_waiting id (asks ∷ older) = id == next_id older || is_waiting id older
is_waiting id (wakes n _ ∷ older) = not (id == n) && is_waiting id older
is_waiting id (_ ∷ older) = is_waiting id older

-- A person has allowed the call, while it was pending.
abbrev pub is_allowed : ℕ → List Op → Bool
is_allowed id [] = false
is_allowed id (asks ∷ older) = not (id == next_id older) && is_allowed id older
is_allowed id (resolves n allow ∷ older) =
    (id == n && is_pending id older && allow) || is_allowed id older
is_allowed id (_ ∷ older) = is_allowed id older

-- The call's wait has ended with no interrupt, after a person had allowed the call.
abbrev pub lets_through : ℕ → List Op → Bool
lets_through id [] = false
lets_through id (asks ∷ older) = not (id == next_id older) && lets_through id older
lets_through id (wakes n cancelled ∷ older) =
    (id == n && is_waiting id older && not cancelled && is_allowed id older)
    || lets_through id older
lets_through id (_ ∷ older) = lets_through id older

-- What the state tells of one call is what its history says.
record Tells (id : ℕ) (ops : List Op) (b : BrokerSet) : Type 0 where
  counted : (b.next + 1) % 18446744073709551616 ≡ next_id ops
  pending : b.approvals id ≡ is_pending id ops
  waiting : is_some (b.verdicts id) ≡ not (is_waiting id ops)
  allowed : option_or (b.sent id) false ≡ is_allowed id ops
  unanswered : (is_pending id ops && is_allowed id ops) ≡ false
  verdict : option_or (b.verdicts id) false ≡ lets_through id ops

not-false : (w : Bool) → not w ≡ false → w ≡ true
not-false true h = refl
not-false false h = ground (arith, h)

-- The verdict of a wait that ends.
decided :
    (cancelled : Bool) (answer : Option Bool) (w a l : Bool)
    → w ≡ true
    → l ≡ false
    → option_or answer false ≡ a
    → verdict_of cancelled answer ≡ ((w && not cancelled && a) || l)
decided true answer w a l waits closed said = rw (waits, closed) refl
decided false answer w a l waits closed said = rw (waits, closed) (said ∙ or-false a)
  where
    or-false : (c : Bool) → c ≡ (c || false)
    or-false true = refl
    or-false false = refl

module _ (id : ℕ) (older : List Op) (b : BrokerSet) (h : Tells id older b) where
  ask-Tells : Tells id (asks ∷ older) (ask b)
  unfolding ask
  ask-Tells = record {
    counted = rw h.counted refl;
    pending = rw h.counted (ground (arith, h.pending));
    waiting = rw h.counted (ground (arith, h.waiting));
    allowed = rw h.counted (ground (arith, h.allowed));
    unanswered = ground (arith, h.unanswered);
    verdict = rw h.counted (ground (arith, h.verdict));
  }

  forget-Tells : (n : ℕ) → Tells id (forgets n ∷ older) (forget n b)
  unfolding forget
  forget-Tells n = record {
    counted = h.counted;
    pending = ground (arith, h.pending);
    waiting = h.waiting;
    allowed = h.allowed;
    unanswered = ground (arith, h.unanswered);
    verdict = h.verdict;
  }

  wake_from-Tells :
      (n : ℕ) (cancelled : Bool) (o : Option Bool)
      → b.verdicts n ≡ o
      → Tells id (wakes n cancelled ∷ older) (wake_from n cancelled b o)
  wake_from-Tells n cancelled none at = record {
    counted = h.counted;
    pending = h.pending;
    waiting = elim (Bool-cases (id == n)) [ inl hit ↦ rw hit refl | inr miss ↦ rw miss h.waiting ];
    allowed = h.allowed;
    unanswered = h.unanswered;
    verdict = elim (Bool-cases (id == n)) [
      | inl hit ↦
          let same : id ≡ n = (==_iff id n).0 hit in
          let unset : b.verdicts id ≡ none = ap b.verdicts same ∙ at in
          rw hit (
            decided cancelled (b.sent n) (is_waiting id older) (is_allowed id older)
              (lets_through id older)
              (not-false (is_waiting id older) (sym h.waiting ∙ ap is_some unset))
              (sym h.verdict ∙ ap (λ o. option_or o false) unset)
              (ap (λ m. option_or (b.sent m) false) (sym same) ∙ h.allowed))
      | inr miss ↦ rw miss h.verdict
    ];
  }
  wake_from-Tells n cancelled (some v) at = record {
    counted = h.counted;
    pending = h.pending;
    waiting = elim (Bool-cases (id == n)) [
      | inl hit ↦ rw hit (rw (ap b.verdicts ((==_iff id n).0 hit) ∙ at) refl)
      | inr miss ↦ rw miss h.waiting
    ];
    allowed = h.allowed;
    unanswered = h.unanswered;
    verdict = elim (Bool-cases (id == n)) [
      | inl hit ↦ ground (arith, hit, at, h.waiting, h.verdict, ap b.verdicts ((==_iff id n).0 hit))
      | inr miss ↦ rw miss h.verdict
    ];
  }

  resolve-Tells :
      (n : ℕ) (allow pending : Bool)
      → b.approvals n ≡ pending
      → Tells id (resolves n allow ∷ older) (
          let r : BrokerSet × Bool =
            if pending
            then (
              record b {
                approvals = set_at n false b.approvals;
                sent = set_at n (some allow) b.sent;
              },
              true,
            )
            else (b, false) in
          r.0)
  resolve-Tells n allow false at = record {
    counted = h.counted;
    pending = elim (Bool-cases (id == n)) [
      | inl hit ↦ ground (arith, hit, at, h.pending, ap b.approvals ((==_iff id n).0 hit))
      | inr miss ↦ rw miss h.pending
    ];
    waiting = h.waiting;
    allowed = elim (Bool-cases (id == n)) [
      | inl hit ↦
          ground (arith, hit, at, h.pending, h.allowed, ap b.approvals ((==_iff id n).0 hit))
      | inr miss ↦ rw miss h.allowed
    ];
    unanswered = ground (arith, h.unanswered);
    verdict = h.verdict;
  }
  resolve-Tells n allow true at = record {
    counted = h.counted;
    pending = ground (arith, h.pending);
    waiting = h.waiting;
    allowed = elim (Bool-cases (id == n)) [
      | inl hit ↦
          ground (
            arith,
            hit,
            at,
            h.pending,
            h.allowed,
            h.unanswered,
            ap b.approvals ((==_iff id n).0 hit),
          )
      | inr miss ↦ rw miss h.allowed
    ];
    unanswered = elim (Bool-cases (id == n)) [
      | inl hit ↦ ground (arith, hit, h.unanswered)
      | inr miss ↦ rw miss h.unanswered
    ];
    verdict = h.verdict;
  }

state-Tells : (id : ℕ) (ops : List Op) → Tells id ops (state ops)
unfolding state after wake resolve_approval
state-Tells id [] = record {
  counted = refl;
  pending = refl;
  waiting = refl;
  allowed = refl;
  unanswered = refl;
  verdict = refl;
}
state-Tells id (asks ∷ older) = ask-Tells id older (state older) (state-Tells id older)
state-Tells id (resolves n allow ∷ older) =
    resolve-Tells id older (state older) (state-Tells id older) n allow ((state older).approvals n)
      refl
state-Tells id (wakes n cancelled ∷ older) =
    wake_from-Tells id older (state older) (state-Tells id older) n cancelled
      ((state older).verdicts n) refl
state-Tells id (forgets n ∷ older) = forget-Tells id older (state older) (state-Tells id older) n

answer_iff : (o : Option Bool) → (o ≡ some true) ↔ (option_or o false ≡ true)
answer_iff none = ground arith
answer_iff (some b) = ground arith

-- In any order of asks, answers, interrupts and timeouts, a call is let through if and only if its wait
-- ended with no interrupt, and a person had allowed it before that, while it was pending: a missing answer,
-- an answer that came once the wait had ended, and one that an interrupt overtook are refusals.
pub verdict-lets_through :
    (id : ℕ) (ops : List Op) → ((state ops).verdicts id ≡ some true) ↔ (lets_through id ops ≡ true)
verdict-lets_through id ops =
    let told = (state-Tells id ops).verdict in
    let answer = answer_iff ((state ops).verdicts id) in
    (λ e. sym told ∙ answer.0 e, λ e. answer.1 (told ∙ e))

resolve-absent :
    (id : ℕ) (allow : Bool) (b : BrokerSet)
    → b.approvals id ≡ false
    → resolve_approval id allow b ≡ (b, false)
unfolding resolve_approval
resolve-absent id allow b e = rw e refl

resolve-removes :
    (id : ℕ) (allow : Bool) (b : BrokerSet) → (resolve_approval id allow b).0.approvals id ≡ false
unfolding resolve_approval
resolve-removes id allow b = removed (b.approvals id) refl
  where
    removed :
        (pending : Bool)
        → b.approvals id ≡ pending
        → (let r : BrokerSet × Bool =
              if pending
              then (
                record b {
                  approvals = set_at id false b.approvals;
                  sent = set_at id (some allow) b.sent;
                },
                true,
              )
              else (b, false) in
            r.0.approvals id ≡ false)
    removed false e = e
    removed true e = ap (λ t. if t then false else b.approvals id) ((==_iff id id).1 refl)

-- An answer is taken at most once: after one answer for an id, another one is reported as late and
-- changes nothing, until a call is asked under that id.
pub resolve-once :
    (id : ℕ) (first second : Bool) (b : BrokerSet)
    → ((resolve_approval id second (resolve_approval id first b).0).1 ≡ false)
      × ((resolve_approval id second (resolve_approval id first b).0).0
          ≡ (resolve_approval id first b).0)
resolve-once id first second b =
    let late =
      resolve-absent id second (resolve_approval id first b).0 (resolve-removes id first b) in
    (ap (λ r. r.1) late, ap (λ r. r.0) late)
