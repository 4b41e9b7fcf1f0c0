-- ===== src/Guard/Repeats.antt =====
-- When the reminder comes.
use sica_rust.Prelude.{
  ℕ, ◌+◌, ◌≤◌, ◌<◌, ◌≡◌, refl, ap, ◌∙◌, Bool, true, false, ◌&&◌, ◌||◌, none, some, List, [], ◌∷◌,
  ◌++◌, any, ◌==◌, arith, length, if◌then◌else◌,
}
use sica_rust.Prelude.Str.{Str, str_eq, str_eq_iff}
use sica_rust.Budget.Tokens.{u32}
use sica_rust.Retain.{utf8_head}
use sica_rust.Guard.{RepeatTracker, new_tracker, thresholds, Notice, call_key, observe, reset}

abbrev pub has_nul : Str → Bool
has_nul = any (λ c. c == 0)

nul_apart : (a s b : Str) → has_nul a ≡ false → str_eq a (s ++ (0 ∷ b)) ≡ false
unfolding str_eq
nul_apart [] [] b h = refl
nul_apart [] (_ ∷ _) b h = refl
nul_apart (c ∷ a) [] b h = ground (arith, h)
nul_apart (c ∷ a) (d ∷ s) b h = ground (arith, h, nul_apart a s b)

str_eq_sym : (s t : Str) → str_eq s t ≡ str_eq t s
unfolding str_eq
str_eq_sym [] [] = refl
str_eq_sym [] (_ ∷ _) = refl
str_eq_sym (_ ∷ _) [] = refl
str_eq_sym (c ∷ s) (d ∷ t) = ground (arith, str_eq_sym s t)

-- A separator that neither rest holds keeps the two parts of a key apart.
nul_key :
    (s t a b : Str)
    → has_nul a ≡ false
    → has_nul b ≡ false
    → str_eq (s ++ (0 ∷ a)) (t ++ (0 ∷ b)) ≡ (str_eq s t && str_eq a b)
unfolding str_eq
nul_key [] [] a b ha hb = refl
nul_key [] (d ∷ t) a b ha hb = ground (arith, nul_apart a t b ha)
nul_key (c ∷ s) [] a b ha hb = ground (arith, str_eq_sym (s ++ (0 ∷ a)) b, nul_apart b s a hb)
nul_key (c ∷ s) (d ∷ t) a b ha hb = ground (arith, nul_key s t a b ha hb)

any-thresholds : (n : ℕ) → any (λ t. t == n) thresholds ≡ (n == 3 || n == 5 || n == 8)
any-thresholds n = ground arith

-- What a session's tracker goes through.
pub data Op {ℓ} (Value : Type ℓ) : Type ℓ where
  observes : (skill : Str) (args : Value) → Op Value
  resets : Op Value

module _ {Value : Type 0} (canonical args_preview : Value → Str) where
  -- The state after a history, the newest operation first.
  unfoldable pub track : List (Op Value) → RepeatTracker
  track [] = new_tracker
  track (observes skill args ∷ older) = (observe canonical args_preview skill args (track older)).0
  track (resets ∷ older) = reset (track older)

  -- How many calls of the skill, with arguments that are written like this, the history ends with, with
  -- nothing between them.
  abbrev pub run_length : Str → Str → List (Op Value) → ℕ
  run_length skill written [] = 0
  run_length skill written (resets ∷ older) = 0
  run_length skill written (observes skill' args' ∷ older) =
      let rest = run_length skill written older in
      if str_eq skill skill' && str_eq written (canonical args') then 1 + rest else 0

  run_length-le :
      (skill written : Str) (ops : List (Op Value)) → run_length skill written ops ≤ length ops
  run_length-le skill written [] = omega arith
  run_length-le skill written (resets ∷ older) = omega arith
  run_length-le skill written (observes skill' args' ∷ older) =
      ground (arith, run_length-le skill written older)

  no_key :
      (skill : Str) (args : Value) → str_eq (call_key canonical args_preview skill args) [] ≡ false
  unfolding str_eq
  no_key [] args = refl
  no_key (c ∷ skill) args = refl

  module _ (no_nul : (args : Value) → has_nul (canonical args) ≡ false) where
    -- What `observe` counts is the length of the run that ends with the call.
    observe-count :
        (skill : Str) (args : Value) (ops : List (Op Value))
        → length ops < 4294967295
        → (if str_eq (call_key canonical args_preview skill args) (track ops).key
            then u32 ((track ops).count + 1)
            else 1)
          ≡ 1 + run_length skill (canonical args) ops
    unfolding track observe reset
    observe-count skill args [] few = rw (no_key skill args) refl
    observe-count skill args (resets ∷ older) few = rw (no_key skill args) refl
    observe-count skill args (observes skill' args' ∷ older) few =
        let apart =
          nul_key skill skill' (canonical args) (canonical args') (no_nul args) (no_nul args') in
        rw apart (
          counted (str_eq skill skill') (str_eq (canonical args) (canonical args')) refl refl
            (observe-count skill' args' older (omega (arith, few))))
      where
        counted :
            (one two : Bool)
            → str_eq skill skill' ≡ one
            → str_eq (canonical args) (canonical args') ≡ two
            → (track (observes skill' args' ∷ older)).count
              ≡ 1 + run_length skill' (canonical args') older
            → (if one && two then u32 ((track (observes skill' args' ∷ older)).count + 1) else 1)
              ≡ 1 + (if one && two then 1 + run_length skill (canonical args) older else 0)
        counted false two e e' before = refl
        counted true false e e' before = refl
        counted true true e e' before =
            let again : run_length skill (canonical args) older
                ≡ run_length skill' (canonical args') older =
              ap (λ s. run_length s (canonical args) older) ((str_eq_iff skill skill').0 e)
              ∙ ap (λ w. run_length skill' w older)
                  ((str_eq_iff (canonical args) (canonical args')).0 e') in
            omega (arith, before, again, few, run_length-le skill' (canonical args') older)

    -- A call brings a reminder if and only if it is the third, fifth or eighth of a run of calls of one skill
    -- with arguments that are written alike, with no reset and no other call between them. The reminder
    -- names the skill and that number, and shows the arguments, as far as 500 bytes hold them. (What is
    -- written of arguments holds no NUL, which JSON escapes; the operations are fewer than 2^32.)
    pub observe-reminds :
        (skill : Str) (args : Value) (ops : List (Op Value))
        → length ops < 4294967295
        → (observe canonical args_preview skill args (track ops)).1 ≡ (
            let n : ℕ = 1 + run_length skill (canonical args) ops in
            let notice : Notice = record {
              skill = skill;
              count = n;
              preview = utf8_head (args_preview args) 500;
            } in
            if n == 3 || n == 5 || n == 8 then some notice else none)
    unfolding observe
    observe-reminds skill args ops few =
        let n : ℕ = 1 + run_length skill (canonical args) ops in
        let notice : Notice = record {
          skill = skill;
          count = n;
          preview = utf8_head (args_preview args) 500;
        } in
        rw (observe-count skill args ops few)
          (ap (λ b. if b then some notice else none) (any-thresholds n))
