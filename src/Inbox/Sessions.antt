-- ===== src/Inbox/Sessions.antt =====
-- Runs of the inbox over all sessions: what one session is given, and when.
use mathlib.Core.Path.{subst}
use mathlib.Core.List.{append-nil, append_assoc}
use sica_rust.Prelude.{
  ℕ, ◌≡◌, refl, sym, ap, ◌∙◌, false, Option, none, some, List, [], ◌∷◌, ◌++◌, if◌then◌else◌, ◌==◌,
  ==_iff, option_or, Bool-cases, inl, inr,
}
use sica_rust.Inbox.{
  Inbound, claimed, Queue, Inbox, queue_of, set_queue, same_id, reserve, enqueue, drain, drain_at,
  drain_mid_turn, claim, take_at, take_followup,
}
use sica_rust.Inbox.Fifo.{
  Sent, add_some, waiting, mid_turn, pending, waiting-append, pending-append, drain-Drained,
  claim-Claimed, add_some-append,
}

-- The two halves of a send, the top of a hop, and the end of a turn, in the order of the lock.
pub data Op : Type 0 where
  reserves : Op
  sends : (session id : ℕ) (item : Inbound) → Op
  hops : (session : ℕ) → Op
  ends : (session : ℕ) → Op

unfoldable pub after : Op → Inbox → Inbox
after reserves b = (reserve b).1
after (sends s id item) b = (enqueue s id item b).0
after (hops s) b = (drain_mid_turn s b).0
after (ends s) b = (take_followup s b).0

module _ (session : ℕ) where
  -- What one operation brings to the session.
  abbrev pub sent : Op → List Sent
  sent (sends s id item) = if session == s then add_some (claimed item) [] else []
  sent _ = []

  abbrev pub interrupts : Op → List Inbound
  interrupts (sends s id item) = if session == s then add_some (mid_turn item) [] else []
  interrupts _ = []

  -- What one operation hands to the session's turns: a message to run, and input for its next hop.
  abbrev pub runs : Op → Inbox → List Sent
  runs (ends s) b = if session == s then add_some (take_followup s b).1 [] else []
  runs _ b = []

  abbrev pub splices : Op → Inbox → List Inbound
  splices (hops s) b = if session == s then (drain_mid_turn s b).1 else []
  splices _ b = []

  unfoldable pub all_sent : List Op → List Sent
  all_sent [] = []
  all_sent (op ∷ ops) = sent op ++ all_sent ops

  unfoldable pub all_interrupts : List Op → List Inbound
  all_interrupts [] = []
  all_interrupts (op ∷ ops) = interrupts op ++ all_interrupts ops

  unfoldable pub all_runs : List Op → Inbox → List Sent
  all_runs [] b = []
  all_runs (op ∷ ops) b = runs op b ++ all_runs ops (after op b)

  unfoldable pub all_splices : List Op → Inbox → List Inbound
  all_splices [] b = []
  all_splices (op ∷ ops) b = splices op b ++ all_splices ops (after op b)

unfoldable pub after_all : List Op → Inbox → Inbox
after_all [] b = b
after_all (op ∷ ops) b = after_all ops (after op b)

-- The balance of one operation for one session: what waited and what came is what went and what waits.
record Balanced (session : ℕ) (op : Op) (b : Inbox) : Type 0 where
  messages :
      waiting (queue_of b session) ++ sent session op
      ≡ runs session op b ++ waiting (queue_of (after op b) session)
  inputs :
      pending (queue_of b session) ++ interrupts session op
      ≡ splices session op b ++ pending (queue_of (after op b) session)

other_queue :
    (session s : ℕ) (q : Option Queue) (b : Inbox)
    → (session == s) ≡ false
    → queue_of (set_queue s q b) session ≡ queue_of b session
other_queue session s q b other = ap (λ t. option_or (if t then q else b.queues session) []) other

module _ (session : ℕ) (b : Inbox) where
  -- An operation that leaves the session's queue alone, and hands it nothing.
  untouched :
      (op : Op)
      → sent session op ≡ []
      → interrupts session op ≡ []
      → runs session op b ≡ []
      → splices session op b ≡ []
      → queue_of (after op b) session ≡ queue_of b session
      → Balanced session op b
  untouched op h h' k k' same = record {
    messages = rw (h, k, same) (append-nil _);
    inputs = rw (h', k', same) (append-nil _);
  }

  send_own : (id : ℕ) (item : Inbound) → Balanced session (sends session id item) b
  unfolding after enqueue
  send_own id item = record {
    messages = rw (same_id session) (sym (waiting-append (queue_of b session) _));
    inputs = rw (same_id session) (sym (pending-append (queue_of b session) _));
  }

  hop_own : Balanced session (hops session) b
  unfolding after drain_mid_turn
  hop_own = record {
    messages = append-nil _ ∙ parts.0;
    inputs = append-nil _ ∙ rw (same_id session) parts.1;
  }
    where
      hopped :
          (o : Option Queue)
          → b.queues session ≡ o
          → (waiting (queue_of b session) ≡ waiting (queue_of (drain_at session b o).0 session))
            × (pending (queue_of b session)
                ≡ (drain_at session b o).1 ++ pending (queue_of (drain_at session b o).0 session))
      hopped none e = (refl, refl)
      hopped (some q) e =
          let d = drain-Drained q in
          rw (e, same_id session)
            (
              sym d.keeps,
              sym d.takes ∙ sym (append-nil _) ∙ ap (λ r. (drain q).0 ++ r) (sym d.leaves_none),
            )

      parts :
          (waiting (queue_of b session)
            ≡ waiting (queue_of (drain_at session b (b.queues session)).0 session))
          × (pending (queue_of b session)
              ≡ (drain_at session b (b.queues session)).1
                ++ pending (queue_of (drain_at session b (b.queues session)).0 session))
      parts = hopped (b.queues session) refl

  end_own : Balanced session (ends session) b
  unfolding after take_followup
  end_own = record {
    messages = append-nil _ ∙ rw (same_id session) (ended (b.queues session) refl).0;
    inputs = append-nil _ ∙ (ended (b.queues session) refl).1;
  }
    where
      ended :
          (o : Option Queue)
          → b.queues session ≡ o
          → (waiting (queue_of b session)
              ≡ add_some (take_at session b o).1 []
                ++ waiting (queue_of (take_at session b o).0 session))
            × (pending (queue_of b session) ≡ pending (queue_of (take_at session b o).0 session))
      ended none e = (refl, refl)
      ended (some q) e =
          let c = claim-Claimed q in
          rw (e, same_id session) (c.oldest ∙ sym (add_some-append (claim q).0 [] _), sym c.others)

  drain-other :
      (s : ℕ) (o : Option Queue)
      → (session == s) ≡ false
      → queue_of (drain_at s b o).0 session ≡ queue_of b session
  drain-other s none other = refl
  drain-other s (some q) other = other_queue session s (some (drain q).1) b other

  take-other :
      (s : ℕ) (o : Option Queue)
      → (session == s) ≡ false
      → queue_of (take_at s b o).0 session ≡ queue_of b session
  take-other s none other = refl
  take-other s (some q) other = other_queue session s (some (claim q).1) b other

  op-Balanced : (op : Op) → Balanced session op b
  unfolding after reserve enqueue drain_mid_turn take_followup
  op-Balanced reserves = untouched reserves refl refl refl refl refl
  op-Balanced (sends s id item) = elim (Bool-cases (session == s)) [
    | inl e ↦
        subst (λ x. Balanced session (sends x id item) b) ((==_iff session s).0 e)
          (send_own id item)
    | inr e ↦
        untouched (sends s id item) (rw e refl) (rw e refl) refl refl (other_queue session s _ b e)
  ]
  op-Balanced (hops s) = elim (Bool-cases (session == s)) [
    | inl e ↦ subst (λ x. Balanced session (hops x) b) ((==_iff session s).0 e) hop_own
    | inr e ↦ untouched (hops s) refl refl refl (rw e refl) (drain-other s (b.queues s) e)
  ]
  op-Balanced (ends s) = elim (Bool-cases (session == s)) [
    | inl e ↦ subst (λ x. Balanced session (ends x) b) ((==_iff session s).0 e) end_own
    | inr e ↦ untouched (ends s) refl refl (rw e refl) refl (take-other s (b.queues s) e)
  ]

-- Two balances in a row make one.
chain_balances {ℓ} :
    {A : Type ℓ} (before came went mid more later after : List A)
    → before ++ came ≡ went ++ mid
    → mid ++ more ≡ later ++ after
    → before ++ (came ++ more) ≡ (went ++ later) ++ after
chain_balances before came went mid more later after h k =
    sym (append_assoc before came more)
    ∙ ap (λ r. r ++ more) h
    ∙ append_assoc went mid more
    ∙ ap (λ r. went ++ r) k
    ∙ sym (append_assoc went later after)

-- In any run of sends, hops and ends of turns over any sessions, the user messages that one session has
-- waiting, and then those sent to it, are the messages that its turns were given, one for each end of a
-- turn, and then those that wait: each one in its order, none lost, none doubled, none from elsewhere.
pub messages-fifo :
    (session : ℕ) (ops : List Op) (b : Inbox)
    → waiting (queue_of b session) ++ all_sent session ops
      ≡ all_runs session ops b ++ waiting (queue_of (after_all ops b) session)
unfolding all_sent all_runs after_all
messages-fifo session [] b = append-nil _
messages-fifo session (op ∷ ops) b =
    chain_balances (waiting (queue_of b session)) (sent session op) (runs session op b)
      (waiting (queue_of (after op b) session)) (all_sent session ops)
      (all_runs session ops (after op b)) (waiting (queue_of (after_all ops (after op b)) session))
      (op-Balanced session b op).messages (messages-fifo session ops (after op b))

-- In the same runs, the steers and injections that one session has pending, and then those sent to it,
-- are those that its hops were given, and then those still pending: in one order, none lost or doubled.
pub inputs-fifo :
    (session : ℕ) (ops : List Op) (b : Inbox)
    → pending (queue_of b session) ++ all_interrupts session ops
      ≡ all_splices session ops b ++ pending (queue_of (after_all ops b) session)
unfolding all_interrupts all_splices after_all
inputs-fifo session [] b = append-nil _
inputs-fifo session (op ∷ ops) b =
    chain_balances (pending (queue_of b session)) (interrupts session op) (splices session op b)
      (pending (queue_of (after op b) session)) (all_interrupts session ops)
      (all_splices session ops (after op b))
      (pending (queue_of (after_all ops (after op b)) session)) (op-Balanced session b op).inputs
      (inputs-fifo session ops (after op b))
