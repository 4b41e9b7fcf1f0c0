-- ===== src/Inbox/Fresh.antt =====
-- Every operation keeps the ids of the queues apart.
use mathlib.Core.Path.{subst}
use sica_rust.Prelude.{
  ℕ, zero, suc, ◌+◌, ◌≤◌, ◌<◌, ◌≡◌, ◌≢◌, All, All-append, All-imp, refl, sym, Bool, true, false,
  Option, none, some, List, [], ◌∷◌, ◌++◌, arith, if◌then◌else◌, ◌==◌, remove_at, option_or,
  Bool-cases, inl, inr,
}
use sica_rust.Prelude.Str.{Str}
use sica_rust.Inbox.{
  Inbound, followup, steer, inject, Queued, Queue, sort_entry, drain, claim_at, claim, reword,
  edit_row, remove_found, remove_row, Inbox, queue_of, set_queue, reserve, enqueue, drain_at,
  drain_mid_turn, take_at, take_followup, edit_at, edit, remove_queued, remove, clear,
}
use sica_rust.Inbox.Ids.{Distinct, IsFresh}

reword-id : (body : Str) (e : Queued) (item : Inbound) → e.item ≡ item → (reword body e).0.id ≡ e.id
reword-id body e (followup _ _) h = rw h refl
reword-id body e (steer _) h = rw h refl
reword-id body e (inject _ _) h = rw h refl

module _ (P : ℕ → Type 0) where
  All-drain : (q : Queue) → All (λ e. P e.id) q → All (λ e. P e.id) (drain q).1
  unfolding drain
  All-drain [] h = tt
  All-drain (e ∷ q) (h, rest) = kept e.item (drain q) (All-drain q rest)
    where
      kept :
          (item : Inbound) (r : List Inbound × Queue)
          → All (λ x. P x.id) r.1
          → All (λ x. P x.id) (sort_entry e item r).1
      kept (followup _ _) (taken, q') k = (h, k)
      kept (steer _) (taken, q') k = k
      kept (inject _ _) (taken, q') k = k

  All-remove_at : (i : ℕ) (q : Queue) → All (λ e. P e.id) q → All (λ e. P e.id) (remove_at i q)
  All-remove_at i [] h = h
  All-remove_at zero (e ∷ q) (h, rest) = rest
  All-remove_at (suc i) (e ∷ q) (h, rest) = (h, All-remove_at i q rest)

  All-edit_row :
      (id : ℕ) (body : Str) (q : Queue)
      → All (λ e. P e.id) q
      → All (λ e. P e.id) (edit_row id body q).0
  unfolding edit_row
  All-edit_row id body [] h = h
  All-edit_row id body (e ∷ q) (h, rest) = edited (e.id == id) (All-edit_row id body q rest)
    where
      edited :
          (hit : Bool)
          → All (λ x. P x.id) (edit_row id body q).0
          → All
              (λ x. P x.id)
              (let r : Queue × Bool =
                  if hit
                  then ((reword body e).0 ∷ q, (reword body e).1)
                  else (e ∷ (edit_row id body q).0, (edit_row id body q).1) in
                r.0)
      edited true k = (subst P (sym (reword-id body e e.item refl)) h, rest)
      edited false k = (h, k)

Distinct-push :
    (id : ℕ) (item : Inbound) (q : Queue)
    → All (λ x. x.id ≢ id) q
    → Distinct q
    → Distinct (q ++ record { id = id; item = item } ∷ [])
Distinct-push id item [] h d = (tt, tt)
Distinct-push id item (e ∷ q) (h, rest) (d, ds) = (
  All-append (λ x. x.id ≢ e.id) q _ d ((λ same. h (sym same)), tt),
  Distinct-push id item q rest ds,
)

Distinct-drain : (q : Queue) → Distinct q → Distinct (drain q).1
unfolding drain
Distinct-drain [] d = tt
Distinct-drain (e ∷ q) (d, ds) =
    kept e.item (drain q) (All-drain (λ n. n ≢ e.id) q d) (Distinct-drain q ds)
  where
    kept :
        (item : Inbound) (r : List Inbound × Queue)
        → All (λ x. x.id ≢ e.id) r.1
        → Distinct r.1
        → Distinct (sort_entry e item r).1
    kept (followup _ _) (taken, q') h k = (h, k)
    kept (steer _) (taken, q') h k = k
    kept (inject _ _) (taken, q') h k = k

Distinct-remove_at : (i : ℕ) (q : Queue) → Distinct q → Distinct (remove_at i q)
Distinct-remove_at i [] d = d
Distinct-remove_at zero (e ∷ q) (d, ds) = ds
Distinct-remove_at (suc i) (e ∷ q) (d, ds) =
    (All-remove_at (λ n. n ≢ e.id) i q d, Distinct-remove_at i q ds)

Distinct-edit_row : (id : ℕ) (body : Str) (q : Queue) → Distinct q → Distinct (edit_row id body q).0
unfolding edit_row
Distinct-edit_row id body [] d = d
Distinct-edit_row id body (e ∷ q) (d, ds) =
    edited (e.id == id) (All-edit_row (λ n. n ≢ e.id) id body q d) (Distinct-edit_row id body q ds)
  where
    edited :
        (hit : Bool)
        → All (λ x. x.id ≢ e.id) (edit_row id body q).0
        → Distinct (edit_row id body q).0
        → Distinct (
            let r : Queue × Bool =
              if hit
              then ((reword body e).0 ∷ q, (reword body e).1)
              else (e ∷ (edit_row id body q).0, (edit_row id body q).1) in
            r.0)
    edited true h k =
        (subst (λ n. All (λ x. x.id ≢ n) q) (sym (reword-id body e e.item refl)) d, ds)
    edited false h k = (h, k)

-- What a queue keeps.
abbrev IsKept : (ℕ → Type 0) → Queue → Type 0
IsKept P q = Distinct q × All (λ e. P e.id) q

IsKept-claim : (P : ℕ → Type 0) (q : Queue) (o : Option ℕ) → IsKept P q → IsKept P (claim_at o q).1
IsKept-claim P q none h = h
IsKept-claim P q (some i) (d, h) = (Distinct-remove_at i q d, All-remove_at P i q h)

IsKept-remove_found :
    (P : ℕ → Type 0) (q : Queue) (o : Option ℕ) → IsKept P q → IsKept P (remove_found o q).1
IsKept-remove_found P q none h = h
IsKept-remove_found P q (some i) (d, h) = (Distinct-remove_at i q d, All-remove_at P i q h)

-- A queue that is put back in its place keeps all of them fresh.
set_queue-IsFresh :
    (P : ℕ → Type 0) (session : ℕ) (q : Option Queue) (b : Inbox)
    → IsFresh P b
    → IsKept P (option_or q [])
    → IsFresh P (set_queue session q b)
set_queue-IsFresh P session q b fresh w s = elim (Bool-cases (s == session)) [
  | inl e ↦ rw e w
  | inr e ↦ rw e (fresh s)
]

enqueue-IsFresh :
    (P : ℕ → Type 0) (session id : ℕ) (item : Inbound) (b : Inbox)
    → All (λ e. e.id ≢ id) (queue_of b session)
    → P id
    → IsFresh P b
    → IsFresh P (enqueue session id item b).0
unfolding enqueue
enqueue-IsFresh P session id item b absent p fresh = set_queue-IsFresh P session (some _) b fresh (
  Distinct-push id item (queue_of b session) absent (fresh session).0,
  All-append (λ e. P e.id) (queue_of b session) _ (fresh session).1 (p, tt),
)

module _ (P : ℕ → Type 0) (session : ℕ) (b : Inbox) (fresh : IsFresh P b) where
  queue_at : (q : Queue) → b.queues session ≡ some q → IsKept P q
  queue_at q e = subst (λ o. IsKept P (option_or o [])) e (fresh session)

  drained : (o : Option Queue) → b.queues session ≡ o → IsFresh P (drain_at session b o).0
  drained none e = fresh
  drained (some q) e =
      set_queue-IsFresh P session (some (drain q).1) b fresh
        (Distinct-drain q (queue_at q e).0, All-drain P q (queue_at q e).1)

  taken : (o : Option Queue) → b.queues session ≡ o → IsFresh P (take_at session b o).0
  unfolding claim
  taken none e = fresh
  taken (some q) e =
      set_queue-IsFresh P session (some (claim q).1) b fresh (IsKept-claim P q _ (queue_at q e))

  edited :
      (id : ℕ) (body : Str) (o : Option Queue)
      → b.queues session ≡ o
      → IsFresh P (edit_at session id body b o).0
  edited id body none e = fresh
  edited id body (some q) e =
      set_queue-IsFresh P session (some (edit_row id body q).0) b fresh
        (Distinct-edit_row id body q (queue_at q e).0, All-edit_row P id body q (queue_at q e).1)

  removed :
      (id : ℕ) (o : Option Queue)
      → b.queues session ≡ o
      → IsFresh P (remove_queued session id b o).0
  unfolding remove_row
  removed id none e = fresh
  removed id (some q) e =
      set_queue-IsFresh P session (some (remove_row id q).1) b fresh
        (IsKept-remove_found P q _ (queue_at q e))

-- Every operation keeps the ids of each queue distinct, and what holds of all ids in the queues, if the
-- id that enters a queue is not in it: an id never comes to name another message.
pub operations-IsFresh :
    (P : ℕ → Type 0) (session id : ℕ) (item : Inbound) (body : Str) (b : Inbox)
    → All (λ e. e.id ≢ id) (queue_of b session)
    → P id
    → IsFresh P b
    → IsFresh P (enqueue session id item b).0
      × IsFresh P (drain_mid_turn session b).0
      × IsFresh P (take_followup session b).0
      × IsFresh P (edit session id body b).0
      × IsFresh P (remove session id b).0
      × IsFresh P (clear session b)
unfolding drain_mid_turn take_followup edit remove clear
operations-IsFresh P session id item body b absent p fresh = (
  enqueue-IsFresh P session id item b absent p fresh,
  drained P session b fresh (b.queues session) refl,
  taken P session b fresh (b.queues session) refl,
  edited P session b fresh id body (b.queues session) refl,
  removed P session b fresh id (b.queues session) refl,
  set_queue-IsFresh P session none b fresh (tt, tt),
)

-- An id that is minted is in no queue and at most the new counter, as all ids in the queues are, until
-- the counter has run through its 64 bits.
pub reserve-IsFresh :
    (b : Inbox)
    → b.next_id + 1 < 18446744073709551616
    → IsFresh (λ n. n ≤ b.next_id) b
    → IsFresh (λ n. n ≢ (reserve b).0) (reserve b).1
      × IsFresh (λ n. n ≤ (reserve b).1.next_id) (reserve b).1
      × ((reserve b).0 ≤ (reserve b).1.next_id)
unfolding reserve
reserve-IsFresh b small fresh = (
  (λ s. (
    (fresh s).0,
    All-imp (λ e. e.id ≤ b.next_id) (λ e h same. omega (arith, small, h, same)) (queue_of b s)
        (fresh s).1,
  )),
  (λ s. (
    (fresh s).0,
    All-imp (λ e. e.id ≤ b.next_id) (λ e h. omega (arith, small, h)) (queue_of b s) (fresh s).1,
  )),
  omega arith,
)
