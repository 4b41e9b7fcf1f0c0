-- ===== src/Tests/OnInbox.antt =====
-- Two sessions that share an inbox.
use sica_rust.Prelude.{◌≡◌, refl, none, some, List, [], ◌∷◌, ◌++◌}
use sica_rust.Prelude.Str.{str}
use sica_rust.Inbox.{
  followup, steer, Inbox, queue_of, reserve, enqueue, drain, claim, drain_mid_turn, take_followup,
}
use sica_rust.Inbox.Fifo.{waiting, pending}
use sica_rust.Inbox.Sessions.{
  Op, reserves, sends, hops, ends, all_sent, all_interrupts, all_runs, all_splices, after_all,
  after, messages-fifo, inputs-fifo,
}

abbrev new_inbox : Inbox
new_inbox = record { queues = λ _. none; next_id = 0 }

abbrev busy : List Op
busy =
    reserves
    ∷ sends 1 1 (followup (str "first") [])
    ∷ reserves
    ∷ sends 1 2 (steer (str "left"))
    ∷ sends 2 3 (followup (str "other") [])
    ∷ hops 1
    ∷ sends 1 4 (followup (str "second") [])
    ∷ ends 1
    ∷ []

messages-fifo_example :
    waiting (queue_of new_inbox 1) ++ all_sent 1 busy
    ≡ all_runs 1 busy new_inbox ++ waiting (queue_of (after_all busy new_inbox) 1)
messages-fifo_example = messages-fifo 1 busy new_inbox

inputs-fifo_example :
    pending (queue_of new_inbox 1) ++ all_interrupts 1 busy
    ≡ all_splices 1 busy new_inbox ++ pending (queue_of (after_all busy new_inbox) 1)
inputs-fifo_example = inputs-fifo 1 busy new_inbox

-- The first message has run, and the second one waits.
first_ran : all_runs 1 busy new_inbox ≡ (str "first", []) ∷ []
unfolding all_runs after reserve enqueue drain_mid_turn take_followup drain claim
first_ran = refl

abbrev one_waiting : Inbox
one_waiting = record {
  queues = λ _. some (record { id = 1; item = followup (str "first") [] } ∷ []);
  next_id = 1;
}
