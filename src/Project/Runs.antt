-- ===== src/Project/Runs.antt =====
-- crates/sica-core/src/project.rs: the orchestrated runs of a session, rebuilt from their rows.
use sica_rust.Prelude.{
  ℕ, Bool, true, false, Option, none, some, List, [], ◌∷◌, ◌++◌, ◌==◌, ◌&&◌, option_or, any,
  if◌then◌else◌, ◌≡◌, refl, ap, ◌∙◌, arith,
}
use sica_rust.Prelude.Str.{Str, str_eq}
use sica_rust.Log.{RunState, EventKind, workflow_run, SessionEvent}
use sica_rust.Project.{fold}

pub record RunMember : Type 0 where
  pub id : ℕ
  pub label : Str
  pub state : RunState

pub record RunPhase : Type 0 where
  pub title : Str
  pub members : List RunMember

pub record Run : Type 0 where
  pub run_id : ℕ
  pub call_seq : ℕ
  pub state : RunState
  pub is_open : Bool
  pub phases : List RunPhase

abbrev pub is_started : RunState → Bool
is_started RunState.started = true
is_started _ = false

abbrev with_state : RunState → RunMember → RunMember
with_state state m = record m { state = state }

abbrev end_by_id : ℕ → RunState → List RunMember → List RunMember
end_by_id id state [] = []
end_by_id id state (m ∷ members) =
    let rest = end_by_id id state members in
    if m.id == id then with_state state m ∷ members else m ∷ rest

abbrev still_runs : Str → RunMember → Bool
still_runs label m = str_eq m.label label && is_started m.state

-- The newest member of the label that still runs.
abbrev end_by_label : Str → RunState → List RunMember → List RunMember
end_by_label label state [] = []
end_by_label label state (m ∷ members) =
    let rest = end_by_label label state members in
    if any (still_runs label) members
    then m ∷ rest
    else if still_runs label m
    then with_state state m ∷ members
    else m ∷ members

abbrev end_member : Option ℕ → Str → RunState → List RunMember → List RunMember
end_member none label state members = end_by_label label state members
end_member (some id) label state members =
    if any (λ m. m.id == id) members
    then end_by_id id state members
    else end_by_label label state members

abbrev pub on_member : Option ℕ → Str → RunState → List RunMember → List RunMember
on_member member_id label state members =
    if is_started state
    then members ++ record { id = option_or member_id 0; label = label; state = state } ∷ []
    else end_member member_id label state members

-- The phase of the title, which is put at the end if there is none.
abbrev pub in_phase : Str → (List RunMember → List RunMember) → List RunPhase → List RunPhase
in_phase title f [] = record { title = title; members = f [] } ∷ []
in_phase title f (p ∷ phases) =
    let rest = in_phase title f phases in
    if str_eq p.title title then record p { members = f p.members } ∷ phases else p ∷ rest

abbrev pub run_row : ℕ → ℕ → RunState → List Run → List Run
run_row run_id call_seq state [] =
    record {
      run_id = run_id;
      call_seq = call_seq;
      state = state;
      is_open = is_started state;
      phases = [];
    }
    ∷ []
run_row run_id call_seq state (r ∷ runs) =
    let rest = run_row run_id call_seq state runs in
    if r.run_id == run_id
    then record r { state = state; is_open = is_started state } ∷ runs
    else r ∷ rest

-- A member's row of a run that never started is left out.
abbrev pub member_row : ℕ → (List RunPhase → List RunPhase) → List Run → List Run
member_row run_id f [] = []
member_row run_id f (r ∷ runs) =
    let rest = member_row run_id f runs in
    if r.run_id == run_id then record r { phases = f r.phases } ∷ runs else r ∷ rest

unfoldable pub run_kind : EventKind → List Run → List Run
unfolding str_eq
run_kind (workflow_run run_id call_seq phase none member_id state) runs =
    run_row run_id call_seq state runs
run_kind (workflow_run run_id call_seq phase (some label) member_id state) runs =
    member_row run_id (in_phase (option_or phase []) (on_member member_id label state)) runs
run_kind _ runs = runs

unfoldable pub workflow_runs : List SessionEvent → List Run
unfolding run_kind
workflow_runs = fold (λ runs ev. run_kind ev.kind runs) []

-- What a caller reads of a run: its state, and whether it is open.
abbrev pub standing : ℕ → List Run → Option (RunState × Bool)
standing id [] = none
standing id (r ∷ runs) = if r.run_id == id then some (r.state, r.is_open) else standing id runs

-- What a row says of the run itself.
abbrev pub said_of : ℕ → EventKind → Option (RunState × Bool)
said_of id (workflow_run run_id _ _ none _ state) =
    if run_id == id then some (state, is_started state) else none
said_of id _ = none

abbrev or_older : Option (RunState × Bool) → Option (RunState × Bool) → Option (RunState × Bool)
or_older none older = older
or_older (some s) older = some s

abbrev pub newest_said : ℕ → List SessionEvent → Option (RunState × Bool)
newest_said id [] = none
newest_said id (ev ∷ events) = or_older (newest_said id events) (said_of id ev.kind)

run_row-standing :
    (id run_id call_seq : ℕ) (state : RunState) (runs : List Run)
    → standing id (run_row run_id call_seq state runs)
      ≡ or_older (if run_id == id then some (state, is_started state) else none) (standing id runs)
run_row-standing id run_id call_seq state [] = ground arith
run_row-standing id run_id call_seq state (r ∷ runs) =
    ground (arith, run_row-standing id run_id call_seq state runs)

member_row-standing :
    (id run_id : ℕ) (f : List RunPhase → List RunPhase) (runs : List Run)
    → standing id (member_row run_id f runs) ≡ standing id runs
member_row-standing id run_id f [] = refl
member_row-standing id run_id f (r ∷ runs) = ground (arith, member_row-standing id run_id f runs)

run_kind-standing :
    (id : ℕ) (k : EventKind) (runs : List Run)
    → standing id (run_kind k runs) ≡ or_older (said_of id k) (standing id runs)
unfolding run_kind
run_kind-standing id (workflow_run run_id call_seq phase none member_id state) runs =
    run_row-standing id run_id call_seq state runs
run_kind-standing id (workflow_run run_id call_seq phase (some label) member_id state) runs =
    member_row-standing id run_id (in_phase (option_or phase []) (on_member member_id label state))
      runs
run_kind-standing id _ runs = refl

or_older_assoc :
    (a b c : Option (RunState × Bool)) → or_older a (or_older b c) ≡ or_older (or_older a b) c
or_older_assoc none b c = refl
or_older_assoc (some s) b c = refl

or_older-none : (a : Option (RunState × Bool)) → or_older a none ≡ a
or_older-none none = refl
or_older-none (some s) = refl

fold-standing :
    (id : ℕ) (events : List SessionEvent) (runs : List Run)
    → standing id (fold (λ runs ev. run_kind ev.kind runs) runs events)
      ≡ or_older (newest_said id events) (standing id runs)
fold-standing id [] runs = refl
fold-standing id (ev ∷ events) runs =
    fold-standing id events (run_kind ev.kind runs)
    ∙ ap (λ s. or_older (newest_said id events) s) (run_kind-standing id ev.kind runs)
    ∙ or_older_assoc (newest_said id events) (said_of id ev.kind) (standing id runs)

-- A run is in the list if and only if a row of the log is of the run itself and not of a member, and it
-- stands as the newest such row says: a run that started and neither ended nor failed is open. No row of a
-- member makes a run or changes how it stands.
pub workflow_runs-newest :
    (events : List SessionEvent) (id : ℕ)
    → standing id (workflow_runs events) ≡ newest_said id events
unfolding workflow_runs
workflow_runs-newest events id = fold-standing id events [] ∙ or_older-none (newest_said id events)
