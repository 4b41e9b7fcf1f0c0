-- ===== src/Project/Ratings.antt =====
-- crates/sica-core/src/project.rs: the rows of a log of which the newest counts, ratings and the memory
-- of a session.
use sica_rust.Prelude.{
  ℕ, Bool, true, false, Option, none, some, List, [], ◌∷◌, ◌==◌, ◌&&◌, all, if◌then◌else◌, ◌≡◌,
  refl, ap, ◌∙◌, arith,
}
use sica_rust.Prelude.Str.{Str, is_empty}
use sica_rust.Prelude.Trim.{trim}
use sica_rust.Prelude.Int.{ℤ, pos, negsuc}
use sica_rust.Log.{EventKind, message_feedback, session_memory, SessionEvent}

pub record SessionMemory : Type 0 where
  pub seq : ℕ
  pub ts : ℤ
  pub summary : Str
  pub facts : List Str
  pub through_seq : ℕ
  pub author : Str

unfoldable pub memory_is_empty : SessionMemory → Bool
unfolding trim
memory_is_empty m = is_empty (trim m.summary) && all (λ f. is_empty (trim f)) m.facts

abbrev pub memory_row : SessionEvent → EventKind → Option SessionMemory
memory_row ev (session_memory summary facts through_seq author) = some (record {
  seq = ev.seq;
  ts = ev.ts;
  summary = summary;
  facts = facts;
  through_seq = through_seq;
  author = author;
})
memory_row ev _ = none

abbrev pub newer {ℓ} : {A : Type ℓ} → Option A → Option A → Option A
newer none old = old
newer (some a) old = some a

-- `events.iter().rev().find_map(…)`.
unfoldable pub latest_session_memory : List SessionEvent → Option SessionMemory
latest_session_memory [] = none
latest_session_memory (ev ∷ events) = newer (latest_session_memory events) (memory_row ev ev.kind)

abbrev unless_cleared : Option SessionMemory → Option SessionMemory
unless_cleared none = none
unless_cleared (some m) = if memory_is_empty m then none else some m

-- `session_memory`.
unfoldable pub shown_memory : List SessionEvent → Option SessionMemory
unfolding latest_session_memory memory_is_empty
shown_memory events = unless_cleared (latest_session_memory events)

-- A rating and its note.
abbrev pub Rating : Type 0
Rating = ℤ × Option Str

abbrev pub is_zero : ℤ → Bool
is_zero (pos n) = n == 0
is_zero (negsuc n) = false

-- The map from an assistant message's seq to its rating, as a list of its entries.
abbrev pub RatingMap : Type 0
RatingMap = List (ℕ × Rating)

abbrev pub remove_key : ℕ → RatingMap → RatingMap
remove_key k [] = []
remove_key k ((j, r) ∷ m) = let rest = remove_key k m in if j == k then rest else (j, r) ∷ rest

abbrev pub insert_key : ℕ → Rating → RatingMap → RatingMap
insert_key k r m = (k, r) ∷ remove_key k m

abbrev pub lookup : ℕ → RatingMap → Option Rating
lookup k [] = none
lookup k ((j, r) ∷ m) = if j == k then some r else lookup k m

abbrev pub feedback_kind : EventKind → RatingMap → RatingMap
feedback_kind (message_feedback seq_ref rating note_text) out =
    if is_zero rating then remove_key seq_ref out else insert_key seq_ref (rating, note_text) out
feedback_kind _ out = out

unfoldable pub feedback_from : RatingMap → List SessionEvent → RatingMap
feedback_from out [] = out
feedback_from out (ev ∷ events) = feedback_from (feedback_kind ev.kind out) events

unfoldable pub feedback : List SessionEvent → RatingMap
unfolding feedback_from
feedback events = feedback_from [] events

-- A row that rates the message of a seq.
abbrev pub rated : ℕ → EventKind → Option Rating
rated k (message_feedback seq_ref rating note_text) =
    if seq_ref == k then some (rating, note_text) else none
rated k _ = none

-- The newest such row of a log.
abbrev pub newest_rating : ℕ → List SessionEvent → Option Rating
newest_rating k [] = none
newest_rating k (ev ∷ events) = newer (newest_rating k events) (rated k ev.kind)

abbrev pub unless_zero : Option Rating → Option Rating → Option Rating
unless_zero none old = old
unless_zero (some (rating, note_text)) old =
    if is_zero rating then none else some (rating, note_text)

lookup-remove_key :
    (k j : ℕ) (m : RatingMap) → lookup k (remove_key j m) ≡ (if j == k then none else lookup k m)
lookup-remove_key k j [] = ground arith
lookup-remove_key k j ((i, r) ∷ m) = ground (arith, lookup-remove_key k j m)

feedback_kind-lookup :
    (k : ℕ) (e : EventKind) (m : RatingMap)
    → lookup k (feedback_kind e m) ≡ unless_zero (rated k e) (lookup k m)
feedback_kind-lookup k (message_feedback seq_ref rating note_text) m =
    at (is_zero rating) refl (seq_ref == k) refl
  where
    at :
        (z : Bool)
        → is_zero rating ≡ z
        → (b : Bool) → (seq_ref == k) ≡ b
        → lookup k (if z then remove_key seq_ref m else insert_key seq_ref (rating, note_text) m)
          ≡ unless_zero (if b then some (rating, note_text) else none) (lookup k m)
    at true y true e = rw (lookup-remove_key k seq_ref m, e, y) refl
    at true y false e = rw (lookup-remove_key k seq_ref m, e) refl
    at false y true e = rw (e, y) refl
    at false y false e = rw (e, lookup-remove_key k seq_ref m, e) refl
feedback_kind-lookup k _ m = refl

unless_zero-newer :
    (a b old : Option Rating) → unless_zero a (unless_zero b old) ≡ unless_zero (newer a b) old
unless_zero-newer none b old = refl
unless_zero-newer (some r) b old = refl

feedback_from-lookup :
    (k : ℕ) (events : List SessionEvent) (m : RatingMap)
    → lookup k (feedback_from m events) ≡ unless_zero (newest_rating k events) (lookup k m)
unfolding feedback_from
feedback_from-lookup k [] m = refl
feedback_from-lookup k (ev ∷ events) m =
    feedback_from-lookup k events (feedback_kind ev.kind m)
    ∙ ap (unless_zero (newest_rating k events)) (feedback_kind-lookup k ev.kind m)
    ∙ unless_zero-newer (newest_rating k events) (rated k ev.kind) (lookup k m)

-- The rating of a message is that of the newest row which rates it, whatever other rows the log holds,
-- and it has none if there is no such row, or if the newest one rates it 0.
pub feedback-newest :
    (events : List SessionEvent) (k : ℕ)
    → lookup k (feedback events) ≡ unless_zero (newest_rating k events) none
unfolding feedback
feedback-newest events k = feedback_from-lookup k events []
