-- ===== src/Inbox/Ids.antt =====
-- The ids of the rows that a person can address.
use mathlib.Core.Path.{subst}
use sica_rust.Prelude.{
  ℕ, ◌≡◌, ◌≢◌, refl, sym, ap, Bool, true, false, Option, none, some, List, [], ◌∷◌, arith, All,
  if◌then◌else◌, ◌==◌, length, option_or, ==_iff,
}
use sica_rust.Prelude.Str.{Str}
use sica_rust.Protocol.{QueuedDump}
use sica_rust.Budget.Tokens.{u32}
use sica_rust.Inbox.{
  Inbound, followup, steer, inject, Queued, Queue, row_of, add_row, dump, reword, edit_row, Inbox,
  queue_of, same_id, edit, edit_at, rows,
}

-- No two entries of a queue have one id.
abbrev pub Distinct : Queue → Type 0
Distinct [] = Unit
Distinct (e ∷ q) = All (λ x. x.id ≢ e.id) q × Distinct q

-- The rows after an edit of the one with an id.
abbrev pub reword_rows : ℕ → Str → List QueuedDump → List QueuedDump
reword_rows id body [] = []
reword_rows id body (r ∷ rows) =
    (if r.id == id then record r { text = body } else r) ∷ reword_rows id body rows

abbrev pub has_row : ℕ → List QueuedDump → Bool
has_row id [] = false
has_row id (r ∷ rows) = let rest = has_row id rows in if r.id == id then true else rest

-- What an edit does to the rows, and to the ids.
record Edited (id : ℕ) (body : Str) (q : Queue) (r : Queue × Bool) : Type 0 where
  rows : dump r.0 ≡ reword_rows id body (dump q)
  found : r.1 ≡ has_row id (dump q)

-- A queue without an id has no row with it.
absent-rows :
    (id : ℕ) (body : Str) (q : Queue)
    → All (λ x. x.id ≢ id) q
    → (has_row id (dump q) ≡ false) × (reword_rows id body (dump q) ≡ dump q)
unfolding dump
absent-rows id body [] h = (refl, refl)
absent-rows id body (e ∷ q) (k, rest) = absent_first e.item (absent-rows id body q rest)
  where
    absent_first :
        (item : Inbound)
        → (has_row id (dump q) ≡ false) × (reword_rows id body (dump q) ≡ dump q)
        → (has_row id (add_row (row_of e.id item) (dump q)) ≡ false)
          × (reword_rows id body (add_row (row_of e.id item) (dump q))
              ≡ add_row (row_of e.id item) (dump q))
    absent_first (followup _ images) (g, g') =
        let other : (e.id == id) ≡ false = ground arith in rw (other, g, g') (refl, refl)
    absent_first (steer _) g = g
    absent_first (inject _ _) g = g

edit_row-Edited :
    (id : ℕ) (body : Str) (q : Queue) → Distinct q → Edited id body q (edit_row id body q)
unfolding edit_row dump
edit_row-Edited id body [] h = record { rows = refl; found = refl }
edit_row-Edited id body (e ∷ q) (k, rest) =
    edit_first e.item (e.id == id) refl (edit_row-Edited id body q rest)
  where
    with_item : Inbound → Queued
    with_item item = record e { item = item }

    absent : e.id ≡ id → (has_row id (dump q) ≡ false) × (reword_rows id body (dump q) ≡ dump q)
    absent same = absent-rows id body q (subst (λ n. All (λ x. x.id ≢ n) q) same k)

    edit_first :
        (item : Inbound) (hit : Bool)
        → (e.id == id) ≡ hit
        → Edited id body q (edit_row id body q)
        → Edited id body (with_item item ∷ q) (
            if hit
            then ((reword body (with_item item)).0 ∷ q, (reword body (with_item item)).1)
            else (with_item item ∷ (edit_row id body q).0, (edit_row id body q).1))
    edit_first (followup _ images) true h later = record {
      rows = rw (h, (absent ((==_iff e.id id).0 h)).1) refl;
      found = rw h refl;
    }
    edit_first (steer _) true h later =
        let gone = absent ((==_iff e.id id).0 h) in record { rows = sym gone.1; found = sym gone.0 }
    edit_first (inject _ _) true h later =
        let gone = absent ((==_iff e.id id).0 h) in record { rows = sym gone.1; found = sym gone.0 }
    edit_first (followup words images) false h later = record {
      rows =
          rw h (
            ap (◌∷◌ (record { id = e.id; text = words; images = u32 (length images) })) later.rows);
      found = rw h later.found;
    }
    edit_first (steer _) false h later = record { rows = later.rows; found = later.found }
    edit_first (inject _ _) false h later = record { rows = later.rows; found = later.found }

-- What every queue keeps: its ids are distinct, and `P` holds of them.
abbrev pub IsFresh : (ℕ → Type 0) → Inbox → Type 0
IsFresh P b = (session : ℕ) → Distinct (queue_of b session) × All (λ e. P e.id) (queue_of b session)

-- While no two entries of a session's queue have one id, an edit answers whether its id names a waiting
-- row of the session; it gives that row the new text, and leaves every other row, and the order of the
-- rows, as they were.
pub edit-rows :
    (session id : ℕ) (body : Str) (b : Inbox)
    → Distinct (queue_of b session)
    → (rows session (edit session id body b).0 ≡ reword_rows id body (rows session b))
      × ((edit session id body b).1 ≡ has_row id (rows session b))
unfolding edit rows dump
edit-rows session id body b fresh = edited (b.queues session) refl
  where
    edited :
        (o : Option Queue)
        → b.queues session ≡ o
        → (dump (queue_of (edit_at session id body b o).0 session)
            ≡ reword_rows id body (dump (queue_of b session)))
          × ((edit_at session id body b o).1 ≡ has_row id (dump (queue_of b session)))
    edited none e = rw (e, dump) (refl, refl)
    edited (some q) e =
        let distinct : Distinct q = subst (λ o. Distinct (option_or o [])) e fresh in
        let r = edit_row-Edited id body q distinct in rw (e, same_id session) (r.rows, r.found)
