-- ===== src/Broker.antt =====
-- crates/agents/src/broker.rs: a tool call that waits for a person to allow it.
pub mod FailClosed
use sica_rust.Prelude.{
  ℕ, ◌+◌, ◌%◌, Bool, true, false, Option, none, some, List, [], ◌∷◌, ◌==◌, if◌then◌else◌, option_or,
}

-- `approvals` tells which ids have a sender in the map, `sent` what the one-shot channel of an id holds,
-- `verdicts` what `ask_approval` decided for an id.
pub record BrokerSet : Type 0 where
  pub next : ℕ
  pub approvals : ℕ → Bool
  pub sent : ℕ → Option Bool
  pub verdicts : ℕ → Option Bool

abbrev pub new_broker : BrokerSet
new_broker = record { next = 0; approvals = λ _. false; sent = λ _. none; verdicts = λ _. none }

abbrev pub set_at {ℓ} : {A : Type ℓ} → ℕ → A → (ℕ → A) → ℕ → A
set_at id a f n = if n == id then a else f n

-- The first part of `ask_approval`: an id, a fresh channel, its sender in the map.
unfoldable pub ask : BrokerSet → BrokerSet
ask b =
    let id = (b.next + 1) % 18446744073709551616 in
    record {
      next = id;
      approvals = set_at id true b.approvals;
      sent = set_at id none b.sent;
      verdicts = set_at id none b.verdicts;
    }

-- `resolve_approval`: the answer goes to the channel if the sender is still in the map.
unfoldable pub resolve_approval : ℕ → Bool → BrokerSet → BrokerSet × Bool
resolve_approval id allow b =
    if b.approvals id
    then (
      record b { approvals = set_at id false b.approvals; sent = set_at id (some allow) b.sent },
      true,
    )
    else (b, false)

-- `wait(..).unwrap_or(false)`: an interrupt goes before an answer, and a timeout looks for an answer
-- once more.
abbrev pub verdict_of : Bool → Option Bool → Bool
verdict_of cancelled answer = if cancelled then false else option_or answer false

-- The wait of `ask_approval` ends, by an interrupt, an answer or the timeout: the verdict is taken, once.
abbrev wake_from : ℕ → Bool → BrokerSet → Option Bool → BrokerSet
wake_from id cancelled b none = record b {
  verdicts = set_at id (some (verdict_of cancelled (b.sent id))) b.verdicts;
}
wake_from id cancelled b (some _) = b

unfoldable pub wake : ℕ → Bool → BrokerSet → BrokerSet
wake id cancelled b = wake_from id cancelled b (b.verdicts id)

-- The sender leaves the map. An answer may come between the two.
unfoldable pub forget : ℕ → BrokerSet → BrokerSet
forget id b = record b { approvals = set_at id false b.approvals }

pub data Op : Type 0 where
  asks : Op
  resolves : (id : ℕ) (allow : Bool) → Op
  wakes : (id : ℕ) (cancelled : Bool) → Op
  forgets : (id : ℕ) → Op

unfoldable pub after : Op → BrokerSet → BrokerSet
after asks b = ask b
after (resolves id allow) b = (resolve_approval id allow b).0
after (wakes id cancelled) b = wake id cancelled b
after (forgets id) b = forget id b

-- The state after a history of operations, the newest first.
unfoldable pub state : List Op → BrokerSet
state [] = new_broker
state (op ∷ older) = after op (state older)
