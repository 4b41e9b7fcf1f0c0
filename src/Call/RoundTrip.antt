-- ===== src/Call/RoundTrip.antt =====
-- crates/agents/src/parse_tool_call.rs: a call that is rendered is read back.
use sica_rust.Prelude.{
  ℕ, suc, Bool, true, false, none, some, List, [], ◌∷◌, ◌++◌, ◌==◌, ◌&&◌, ◌<◌, not, all, length,
  length-append, ◌≡◌, refl, ap, sym, ◌∙◌, arith,
}
use mathlib.Core.Option
use mathlib.Core.List.{append-nil, append_assoc}
use sica_rust.Prelude.Str.{Str, str, is_empty}
use sica_rust.Prelude.Trim.{is_whitespace, trim, trim_start, trim_end}
use sica_rust.Call.Chars.{is_ascii_lowercase, is_ascii_whitespace, quote}
use sica_rust.Call.Rendered.{
  args_then, render_args-append, quoted-escapes, tokens-args, trim_end-append, trim_end-cons,
  trim_end-quote, take_skill_name-append, separator-argument, separator-args, args_then-append,
  trim_end-twice,
}
use sica_rust.Call.Line.{
  line_call, is_valid_skill_name, Quoting, outside, step, separator, is_outside,
  starts_ascii_whitespace, split_on_expectation, trimmed_sides, tokens, tokenize_args, parse_line,
  escapes, render_args, render,
}

pub trim_start-skill :
    (skill t : Str) → is_valid_skill_name skill ≡ true → trim_start (skill ++ t) ≡ skill ++ t
unfolding is_valid_skill_name is_ascii_lowercase trim_start is_whitespace
trim_start-skill [] t h = ground (arith, h)
trim_start-skill (d ∷ s) t h =
    let low : is_ascii_lowercase d ≡ true = ground (arith, h) in
    let solid : is_whitespace d ≡ false = ground (arith, low) in rw solid refl

pub trim_start-space :
    (c : ℕ) (e : Str) → is_whitespace c ≡ false → trim_start (b' ' ∷ c ∷ e) ≡ c ∷ e
unfolding trim_start is_whitespace
trim_start-space c e h = rw h refl

-- The first argument, from its opening quote, and the rest.
abbrev first_then : Str → List Str → Str → Str
first_then a args t = quote ∷ (escapes a ++ (quote ∷ args_then args t))

trim_end-first :
    (a : Str) (args : List Str) (t : Str)
    → trim_end t ≡ []
    → trim_end (first_then a args t) ≡ first_then a args []
trim_end-first a args t h =
    let ih = trim_end-quote args t h in
    let front : Str = quote ∷ escapes a in
    trim_end-append front (quote ∷ args_then args t) (ap is_empty ih) ∙ ap (◌++◌ front) ih

trim-first : (a : Str) (args : List Str) → trim (first_then a args []) ≡ first_then a args []
unfolding trim trim_start is_whitespace
trim-first a args = ap trim_start (trim_end-first a args [] refl)

tokens-first :
    (a : Str) (args : List Str)
    → tokens (suc (length (first_then a args []))) (first_then a args []) ≡ some (a ∷ args)
unfolding tokens is_whitespace
tokens-first a args =
    let rest = args_then args [] in
    let shorter : length rest < length (first_then a args []) =
      omega (arith, length-append (escapes a) (quote ∷ rest)) in
    rw (quoted-escapes a rest)
      (ap (Option.map (◌∷◌ a)) (tokens-args args (length (first_then a args [])) shorter))

tokenize_args-first :
    (a : Str) (args : List Str) → tokenize_args (first_then a args []) ≡ some (a ∷ args)
unfolding tokenize_args
tokenize_args-first a args =
    ap (λ s. tokens (suc (length s)) s) (trim-first a args) ∙ tokens-first a args

separator-first :
    (a : Str) (args : List Str) (t : Str)
    → separator outside false (first_then a args (str " > " ++ t))
      ≡ some (first_then a args (b' ' ∷ []), b' ' ∷ t)
unfolding separator is_ascii_whitespace
separator-first a args t =
    rw (separator-argument false a (args_then args (str " > " ++ t)), separator-args args false t)
      (ap (λ x. some (quote ∷ x, b' ' ∷ t))
        (append_assoc (escapes a) (quote ∷ []) (args_then args (b' ' ∷ []))))

split_on_expectation-first :
    (a : Str) (args : List Str) (c : ℕ) (e : Str)
    → is_whitespace c ≡ false
    → split_on_expectation (first_then a args (str " > " ++ (c ∷ e)))
      ≡ some (first_then a args [], c ∷ e)
unfolding split_on_expectation trim_start is_whitespace
split_on_expectation-first a args c e h =
    ap (Option.map trimmed_sides) (separator-first a args (c ∷ e))
    ∙ cc (trim_end-first a args (b' ' ∷ []) refl, trim_start-space c e h)

trim_end-line :
    (front : Str) (args : List Str) (c : ℕ) (e : Str)
    → is_whitespace c ≡ false
    → trim_end (front ++ args_then args (str " > " ++ (c ∷ e)))
      ≡ front ++ args_then args (str " > " ++ (c ∷ trim_end e))
trim_end-line front args c e k =
    let solid = trim_end-cons c e k in
    let line : Str = front ++ args_then args (str " > ") in
    let split = λ (x : Str).
      append_assoc front (args_then args (str " > ")) x
      ∙ ap (◌++◌ front) (args_then-append args (str " > ") x) in
    ap trim_end (sym (split (c ∷ e)))
    ∙ trim_end-append line (c ∷ e) (ap is_empty solid)
    ∙ ap (◌++◌ line) solid
    ∙ split (c ∷ trim_end e)

trim-line :
    (skill a : Str) (args : List Str) (c : ℕ) (e : Str)
    → is_valid_skill_name skill ≡ true
    → is_whitespace c ≡ false
    → trim (render skill (a ∷ args) ++ (str " > " ++ (c ∷ e)))
      ≡ skill ++ args_then (a ∷ args) (str " > " ++ (c ∷ trim_end e))
unfolding trim render
trim-line skill a args c e h k =
    let tail : Str = str " > " ++ (c ∷ e) in
    ap trim (
      append_assoc skill (render_args (a ∷ args)) tail
      ∙ ap (◌++◌ skill) (render_args-append (a ∷ args) tail))
    ∙ ap trim_start (trim_end-line skill (a ∷ args) c e k)
    ∙ trim_start-skill skill (args_then (a ∷ args) (str " > " ++ (c ∷ trim_end e))) h

pub trim-solid :
    (c : ℕ) (e : Str) → is_whitespace c ≡ false → trim (c ∷ trim_end e) ≡ trim_end (c ∷ e)
unfolding trim trim_start
trim-solid c e k =
    ap trim_start (trim_end-cons c (trim_end e) k ∙ ap (◌∷◌ c) (trim_end-twice e))
    ∙ rw k refl
    ∙ sym (trim_end-cons c e k)

-- A call with an argument or more, its name a skill's name and its expectation a text that does not
-- start with whitespace, is read back from its rendering: the same name, the same arguments, whatever
-- characters they hold, and the expectation, less the whitespace at its end.
pub parse_line-render {ℓ} :
    {J : Type ℓ} (skill a : Str) (args : List Str) (c : ℕ) (e : Str)
    → is_valid_skill_name skill ≡ true
    → is_whitespace c ≡ false
    → parse_line {J = J} (render skill (a ∷ args) ++ (str " > " ++ (c ∷ e)))
      ≡ some (line_call skill (a ∷ args) (trim_end (c ∷ e)))
unfolding parse_line
parse_line-render {J = J} skill a args c e h k =
    let rest : Str = str " > " ++ (c ∷ trim_end e) in
    rw
      (
        trim-line skill a args c e h k,
        take_skill_name-append skill (quote ∷ (escapes a ++ (quote ∷ args_then args rest))) h,
        split_on_expectation-first a args c (trim_end e) k,
        tokenize_args-first a args,
      )
      (ap (λ x. some (line_call skill (a ∷ args) x)) (trim-solid c e k))

abbrev pub no_separator : Str → Bool
no_separator s = all (λ c. not (c == b'>')) s

separator-no_separator :
    (state : Quoting) (before : Bool) (s : Str)
    → no_separator s ≡ true
    → separator state before s ≡ none
unfolding separator
separator-no_separator state before [] h = refl
separator-no_separator state before (c ∷ s) h =
    let later =
      separator-no_separator (step state c) (is_ascii_whitespace c) s (ground (arith, h)) in
    let other : (c == b'>') ≡ false = ground (arith, h) in
    rw (other, later, never (is_outside state) before (starts_ascii_whitespace s)) refl
  where
    never : (a b d : Bool) → (a && false && b && d) ≡ false
    never true b d = refl
    never false b d = refl

no_separator-trim_end : (s : Str) → no_separator s ≡ true → no_separator (trim_end s) ≡ true
unfolding trim_end
no_separator-trim_end [] h = refl
no_separator-trim_end (c ∷ s) h = ground (arith, h, no_separator-trim_end s (ground (arith, h)))

trim-no_args :
    (skill : Str) (c : ℕ) (e : Str)
    → is_valid_skill_name skill ≡ true
    → is_whitespace c ≡ false
    → trim (render skill [] ++ (str " > " ++ (c ∷ e))) ≡ skill ++ (str " > " ++ (c ∷ trim_end e))
unfolding trim render
trim-no_args skill c e h k =
    ap (λ x. trim (x ++ (str " > " ++ (c ∷ e)))) (append-nil skill)
    ∙ ap trim_start (trim_end-line skill [] c e k)
    ∙ trim_start-skill skill (str " > " ++ (c ∷ trim_end e)) h

split_on_expectation-no_args :
    (s : Str) → no_separator s ≡ true → split_on_expectation (str "> " ++ s) ≡ none
unfolding split_on_expectation separator is_ascii_whitespace
split_on_expectation-no_args s h = rw (separator-no_separator outside true s h) refl

-- The same line with no argument is not read back: the separator is looked for past the whitespace
-- that follows the name, and must have whitespace before it. The expectation is one with no `>`.
pub parse_line-no_args {ℓ} :
    {J : Type ℓ} (skill : Str) (c : ℕ) (e : Str)
    → is_valid_skill_name skill ≡ true
    → is_whitespace c ≡ false
    → no_separator (c ∷ e) ≡ true
    → parse_line {J = J} (render skill [] ++ (str " > " ++ (c ∷ e))) ≡ none
unfolding parse_line
parse_line-no_args {J = J} skill c e h k n =
    let kept : no_separator (c ∷ trim_end e) ≡ true =
      ground (arith, n, no_separator-trim_end e (ground (arith, n))) in
    rw
      (
        trim-no_args skill c e h k,
        take_skill_name-append skill (str "> " ++ (c ∷ trim_end e)) h,
        split_on_expectation-no_args (c ∷ trim_end e) kept,
      )
      refl
