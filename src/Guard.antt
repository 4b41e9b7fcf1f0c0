-- ===== src/Guard.antt =====
-- crates/agents/src/guard.rs: the reminder that a session repeats one tool call.
pub mod Repeats
use sica_rust.Prelude.{
  ℕ, ◌+◌, Bool, true, false, Option, none, some, List, [], ◌∷◌, ◌++◌, any, ◌==◌, if◌then◌else◌,
}
use sica_rust.Prelude.Str.{Str, str_eq}
use sica_rust.Budget.Tokens.{u32}
use sica_rust.Retain.{utf8_head}

abbrev pub thresholds : List ℕ
thresholds = 3 ∷ 5 ∷ 8 ∷ []

abbrev pub preview_chars : ℕ
preview_chars = 500

pub record RepeatTracker : Type 0 where
  pub key : Str
  pub count : ℕ

abbrev pub new_tracker : RepeatTracker
new_tracker = record { key = []; count = 0 }

-- What the notice tells: its text holds these three values.
pub record Notice : Type 0 where
  pub skill : Str
  pub count : ℕ
  pub preview : Option Str

-- `canonical` is `canonical_json`, with the object keys sorted by `serde_json`, and `args_preview` its
-- one-line rendering: both are functions of a `serde_json` value, and parameters.
module _ {Value : Type 0} (canonical args_preview : Value → Str) where
  abbrev pub call_key : Str → Value → Str
  call_key skill args = skill ++ (0 ∷ canonical args)

  unfoldable pub observe : Str → Value → RepeatTracker → RepeatTracker × Option Notice
  observe skill args t =
      let key = call_key skill args in
      let count = if str_eq key t.key then u32 (t.count + 1) else 1 in
      (
        record { key = key; count = count },
        if any (λ n. n == count) thresholds
            then some (record {
              skill = skill;
              count = count;
              preview = utf8_head (args_preview args) preview_chars;
            })
            else none,
      )

unfoldable pub reset : RepeatTracker → RepeatTracker
reset t = record { key = []; count = 0 }
