-- ===== src/Inbox.antt =====
-- crates/backend/src/inbox.rs: what waits to enter a session's turn loop. Every operation holds the one
-- lock of the queues, so a run is a sequence of them.
pub mod Fifo
pub mod Ids
pub mod Fresh
pub mod Sessions
use sica_rust.Prelude.{
  ℕ, ◌+◌, ◌%◌, Bool, true, false, Option, none, some, List, [], ◌∷◌, ◌++◌, if◌then◌else◌, ◌==◌,
  ◌&&◌, ==_iff, ◌≡◌, refl, length, position, get_elem?, remove_at, find, option_or,
}
use sica_rust.Prelude.Str.{Str}
use sica_rust.Protocol.{UserImage, QueuedDump}
use sica_rust.Log.{ContextSource}
use sica_rust.Budget.Tokens.{u32}

pub data Inbound : Type 0 where
  followup : (body : Str) (images : List UserImage) → Inbound
  steer : (body : Str) → Inbound
  inject : (content : Str) (source : ContextSource) → Inbound

abbrev pub is_followup : Inbound → Bool
is_followup (followup _ _) = true
is_followup _ = false

pub record Queued : Type 0 where
  pub id : ℕ
  pub item : Inbound

abbrev pub Queue : Type 0
Queue = List Queued

abbrev pub row_of : ℕ → Inbound → Option QueuedDump
row_of id (followup body images) =
    some (record { id = id; text = body; images = u32 (length images) })
row_of id _ = none

abbrev pub add_row : Option QueuedDump → List QueuedDump → List QueuedDump
add_row none rows = rows
add_row (some r) rows = r ∷ rows

-- The wire view of a queue: followups only.
unfoldable pub dump : Queue → List QueuedDump
dump [] = []
dump (e ∷ q) = add_row (row_of e.id e.item) (dump q)

abbrev sort_entry : Queued → Inbound → List Inbound × Queue → List Inbound × Queue
sort_entry e (followup body images) (taken, kept) = (taken, e ∷ kept)
sort_entry e item (taken, kept) = (item ∷ taken, kept)

-- The loop of `drain_mid_turn`: what it takes, and what it keeps.
unfoldable pub drain : Queue → List Inbound × Queue
drain [] = ([], [])
drain (e ∷ q) = sort_entry e e.item (drain q)

abbrev claimed : Inbound → Option (Str × List UserImage)
claimed (followup body images) = some (body, images)
claimed _ = none

abbrev claim_at : Option ℕ → Queue → Option (Str × List UserImage) × Queue
claim_at none q = (none, q)
claim_at (some pos) q =
    (elim (get_elem? q pos) [ none ↦ none | some e ↦ claimed e.item ], remove_at pos q)

unfoldable pub claim : Queue → Option (Str × List UserImage) × Queue
claim q = claim_at (position (λ e. is_followup e.item) q) q

abbrev reword : Str → Queued → Queued × Bool
reword body e = elim e.item [
  | followup _ images ↦ (record e { item = followup body images }, true)
  | steer _ ↦ (e, false)
  | inject _ _ ↦ (e, false)
]

-- `edit`: the first entry with the id is reworded in place, if it is a followup.
unfoldable pub edit_row : ℕ → Str → Queue → Queue × Bool
edit_row id body [] = ([], false)
edit_row id body (e ∷ q) =
    let (rest, done) = edit_row id body q in
    let (next, worded) = reword body e in
    if e.id == id then (next ∷ q, worded) else (e ∷ rest, done)

abbrev remove_found : Option ℕ → Queue → Option Inbound × Queue
remove_found none q = (none, q)
remove_found (some pos) q =
    (elim (get_elem? q pos) [ none ↦ none | some e ↦ some e.item ], remove_at pos q)

unfoldable pub remove_row : ℕ → Queue → Option Inbound × Queue
remove_row id q = remove_found (position (λ e. e.id == id && is_followup e.item) q) q

-- The queues of all sessions, and the counter of ids that they share.
pub record Inbox : Type 0 where
  pub queues : ℕ → Option Queue
  pub next_id : ℕ

abbrev pub queue_of : Inbox → ℕ → Queue
queue_of b session = option_or (b.queues session) []

abbrev pub set_queue : ℕ → Option Queue → Inbox → Inbox
set_queue session q b = record b { queues = λ s. if s == session then q else b.queues s }

-- The two halves of `push`: the id is minted before the lock is taken, so that other operations may
-- come between them.
unfoldable pub reserve : Inbox → ℕ × Inbox
reserve b = let id = (b.next_id + 1) % 18446744073709551616 in (id, record b { next_id = id })

unfoldable pub enqueue : ℕ → ℕ → Inbound → Inbox → Inbox × List QueuedDump
enqueue session id item b =
    let q = queue_of b session ++ record { id = id; item = item } ∷ [] in
    (set_queue session (some q) b, dump q)

unfoldable pub push : ℕ → Inbound → Inbox → Inbox × List QueuedDump
unfolding reserve enqueue
push session item b = enqueue session (reserve b).0 item (reserve b).1

abbrev pub drain_at : ℕ → Inbox → Option Queue → Inbox × List Inbound
drain_at session b none = (b, [])
drain_at session b (some q) = (set_queue session (some (drain q).1) b, (drain q).0)

unfoldable pub drain_mid_turn : ℕ → Inbox → Inbox × List Inbound
drain_mid_turn session b = drain_at session b (b.queues session)

abbrev pub take_at : ℕ → Inbox → Option Queue → Inbox × Option (Str × List UserImage)
take_at session b none = (b, none)
take_at session b (some q) = (set_queue session (some (claim q).1) b, (claim q).0)

unfoldable pub take_followup : ℕ → Inbox → Inbox × Option (Str × List UserImage)
take_followup session b = take_at session b (b.queues session)

abbrev pub edit_at : ℕ → ℕ → Str → Inbox → Option Queue → Inbox × Bool
edit_at session id body b none = (b, false)
edit_at session id body b (some q) =
    (set_queue session (some (edit_row id body q).0) b, (edit_row id body q).1)

unfoldable pub edit : ℕ → ℕ → Str → Inbox → Inbox × Bool
edit session id body b = edit_at session id body b (b.queues session)

abbrev pub remove_queued : ℕ → ℕ → Inbox → Option Queue → Inbox × Option Inbound
remove_queued session id b none = (b, none)
remove_queued session id b (some q) =
    (set_queue session (some (remove_row id q).1) b, (remove_row id q).0)

unfoldable pub remove : ℕ → ℕ → Inbox → Inbox × Option Inbound
remove session id b = remove_queued session id b (b.queues session)

unfoldable pub rows : ℕ → Inbox → List QueuedDump
rows session b = dump (queue_of b session)

unfoldable pub queued : ℕ → Inbox → ℕ
queued session b = u32 (length (dump (queue_of b session)))

unfoldable pub clear : ℕ → Inbox → Inbox
clear session b = set_queue session none b

same_id : (n : ℕ) → (n == n) ≡ true
same_id n = (==_iff n n).1 refl
