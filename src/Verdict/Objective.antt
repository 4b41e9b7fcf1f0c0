-- ===== src/Verdict/Objective.antt =====
-- crates/backend/src/verdict.rs: what the check holds a turn against.
use sica_rust.Prelude.{
  ℕ, Bool, true, false, List, [], ◌∷◌, ◌++◌, if◌then◌else◌, All, ◌≡◌, refl, ◌∙◌, arith,
}
use sica_rust.Prelude.Str.{Str, is_empty}
use sica_rust.Log.{
  SurfaceOp, TurnSource, is_human, EventKind, user_message, turn_start, SessionEvent,
}
use sica_rust.Protocol.{UserImage}
use sica_rust.Verdict.{starts_turn, next_user, next_asked, objective_from, objective}

abbrev is_said : EventKind → Bool
is_said (user_message _ _ _) = true
is_said _ = false

abbrev is_human_start : EventKind → Bool
is_human_start (turn_start _ source) = is_human source
is_human_start _ = false

-- No row starts the turn.
abbrev pub NotStarted : ℕ → List SessionEvent → Type 0
NotStarted turn_id = All (λ e. starts_turn turn_id e.kind ≡ false)

-- No row says a user's words, and none starts a turn of a person.
abbrev pub Quiet : List SessionEvent → Type 0
Quiet = All (λ e. (is_said e.kind ≡ false) × (is_human_start e.kind ≡ false))

-- The rows of machine turns: none of them starts a turn of a person.
abbrev pub ByMachine : List SessionEvent → Type 0
ByMachine = All (λ e. is_human_start e.kind ≡ false)

quiet_user : (k : EventKind) (user : Str) → is_said k ≡ false → next_user k user ≡ user
quiet_user (user_message _ _ _) user h = ground (arith, h)
quiet_user _ user h = refl

machine_asked :
    (k : EventKind) (user asked : Str) → is_human_start k ≡ false → next_asked k user asked ≡ asked
machine_asked (turn_start _ source) user asked h = rw h refl
machine_asked _ user asked h = refl

either_way : {x y c : Str} (b : Bool) → x ≡ c → y ≡ c → (if b then x else y) ≡ c
either_way true first later = first
either_way false first later = later

-- Machine turns leave what was asked as it is, whichever of them is the one that is checked.
objective_from-machine :
    (turn_id : ℕ) (rows : List SessionEvent) (user asked : Str)
    → ByMachine rows
    → objective_from turn_id user asked rows ≡ asked
objective_from-machine turn_id [] user asked h = refl
objective_from-machine turn_id (e ∷ rows) user asked (h, hs) =
    let now = machine_asked e.kind user asked h in
    either_way (starts_turn turn_id e.kind) now (
      objective_from-machine turn_id rows (next_user e.kind user) (next_asked e.kind user asked) hs
      ∙ now)

objective_from-Quiet :
    (turn_id : ℕ) (rows back : List SessionEvent) (user asked : Str)
    → NotStarted turn_id rows
    → Quiet rows
    → objective_from turn_id user asked (rows ++ back) ≡ objective_from turn_id user asked back
objective_from-Quiet turn_id [] back user asked _ _ = refl
objective_from-Quiet turn_id (e ∷ rows) back user asked (n, ns) (q, qs) =
    rw (n, machine_asked e.kind user asked q.1, quiet_user e.kind user q.0)
      (objective_from-Quiet turn_id rows back user asked ns qs)

-- The rows before the turn change the loop's variables and do not end it.
objective_from-before :
    (turn_id : ℕ) (rows back : List SessionEvent) (user asked c : Str)
    → NotStarted turn_id rows
    → ((u a : Str) → objective_from turn_id u a back ≡ c)
    → objective_from turn_id user asked (rows ++ back) ≡ c
objective_from-before turn_id [] back user asked c _ h = h user asked
objective_from-before turn_id (e ∷ rows) back user asked c (n, ns) h = rw n (
    objective_from-before turn_id rows back (next_user e.kind user) (next_asked e.kind user asked) c
      ns h)

objective_from-human :
    (turn_id t : ℕ) (e : SessionEvent) (source : TurnSource) (after : List SessionEvent)
    (c asked : Str)
    → e.kind ≡ turn_start t source
    → is_human source ≡ true
    → is_empty c ≡ false
    → ByMachine after
    → objective_from turn_id c asked (e ∷ after) ≡ c
objective_from-human turn_id t e source after c asked kind h said machine =
    let now : next_asked e.kind c asked ≡ c = rw (kind, h, said) refl in
    either_way (starts_turn turn_id e.kind) now (
      objective_from-machine turn_id after (next_user e.kind c) (next_asked e.kind c asked) machine
      ∙ now)

-- A turn is held against what the person asked for, however many machine turns ago: the words of the last
-- user message before the last turn that a person started, whatever the messages are that opened the
-- machine turns since. The words are some, no other message stands between them and the start of the
-- person's turn, and the turn that is checked did not start before that.
pub objective-last_asked :
    (turn_id t : ℕ) (surface : SurfaceOp) (source : TurnSource)
    (before between after : List SessionEvent) (said start : SessionEvent) (images : List UserImage)
    (c : Str)
    → said.kind ≡ user_message surface c images
    → start.kind ≡ turn_start t source
    → is_human source ≡ true
    → is_empty c ≡ false
    → NotStarted turn_id before
    → NotStarted turn_id between
    → Quiet between
    → ByMachine after
    → objective (before ++ said ∷ (between ++ start ∷ after)) turn_id ≡ c
unfolding objective
objective-last_asked turn_id t surface source before between after said start images c said_is
      start_is human some_words not_before not_between quiet machine =
    objective_from-before turn_id before (said ∷ (between ++ start ∷ after)) [] [] c not_before
      (λ u a. rw said_is (
        objective_from-Quiet turn_id between (start ∷ after) c a not_between quiet
        ∙ objective_from-human turn_id t start source after c a start_is human some_words machine))
