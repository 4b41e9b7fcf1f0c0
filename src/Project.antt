-- ===== src/Project.antt =====
-- crates/sica-core/src/project.rs: projections, the folds over a session's log.
pub mod Stats
pub mod Outline
pub mod Reminders
pub mod Ratings
pub mod Runs
use sica_rust.Prelude.{List, [], ◌∷◌, ◌++◌, ◌≡◌, refl}
use sica_rust.Log.{SessionEvent}

-- `Projection::fold`.
abbrev pub fold {ℓ} : {S : Type ℓ} → (S → SessionEvent → S) → S → List SessionEvent → S
fold apply state [] = state
fold apply state (ev ∷ events) = fold apply (apply state ev) events

-- A client that folded a log goes on with the rows that were added to it.
pub fold-append {ℓ} :
    {S : Type ℓ} (apply : S → SessionEvent → S) (state : S) (seen added : List SessionEvent)
    → fold apply state (seen ++ added) ≡ fold apply (fold apply state seen) added
fold-append apply state [] added = refl
fold-append apply state (ev ∷ seen) added = fold-append apply (apply state ev) seen added
