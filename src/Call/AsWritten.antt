-- ===== src/Call/AsWritten.antt =====
-- crates/agents/src/parse_tool_call.rs: the one argument of a call, backslashes and all.
use sica_rust.Prelude.{
  ℕ, Bool, true, false, Option, some, [], ◌∷◌, ◌++◌, ◌==◌, ◌&&◌, not, ◌≡◌, refl, ap, sym, ◌∙◌,
  arith, Bool-cases, inl, inr,
}
use mathlib.Core.Option
use mathlib.Core.List.{append_assoc}
use sica_rust.Prelude.Str.{Str, str, is_empty}
use sica_rust.Prelude.Search.{behind}
use sica_rust.Prelude.Trim.{is_whitespace, trim, trim_start, trim_end}
use sica_rust.Call.Chars.{is_ascii_whitespace, quote, backslash}
use sica_rust.Call.Line.{
  line_call, is_valid_skill_name, outside, inside, separator, split_on_expectation, trimmed_sides,
  behind_all,
}
use sica_rust.Call.Rendered.{
  trim_end-append, trim_end-cons, take_skill_name-append, behind_one, behind-behind_all,
}
use sica_rust.Call.RoundTrip.{trim_start-skill, trim_start-space, trim-solid}
use sica_rust.Call.Verbatim.{
  is_one, escapes_quote, verbatim_token, verbatim_tokens, verbatim_from, one_arg, split_one_arg,
  parse_line_for,
}

-- An argument with no single quote, whose last character is no backslash. The flag tells that a
-- backslash stands before it.
abbrev pub plain_arg : Bool → Str → Bool
plain_arg flag [] = not flag
plain_arg flag (c ∷ a) = not (c == quote) && plain_arg (c == backslash) a

separator-plain :
    (flag before : Bool) (a t : Str)
    → plain_arg flag a ≡ true
    → separator (inside quote) before (a ++ (quote ∷ t))
      ≡ Option.map (behind_all (a ++ (quote ∷ []))) (separator outside false t)
unfolding separator is_ascii_whitespace
separator-plain flag before [] t h = behind_one quote (separator outside false t)
separator-plain flag before (c ∷ []) t h =
    let other : (c == quote) ≡ false = ground (arith, h) in
    let solid : (c == backslash) ≡ false = ground (arith, h) in
    rw (solid, other)
      (ap (Option.map (behind c)) (behind_one quote (separator outside false t))
        ∙ behind-behind_all c (quote ∷ []) (separator outside false t))
separator-plain flag before (c ∷ d ∷ a) t h = elim (Bool-cases (c == backslash)) [
  | inl e ↦
      let ih = separator-plain (d == backslash) (is_ascii_whitespace d) a t (ground (arith, h)) in
      rw (e, ih)
        (ap (Option.map (behind c))
            (behind-behind_all d (a ++ (quote ∷ [])) (separator outside false t))
          ∙ behind-behind_all c (d ∷ a ++ (quote ∷ [])) (separator outside false t))
  | inr e ↦
      let other : (c == quote) ≡ false = ground (arith, h) in
      let ih = separator-plain false (is_ascii_whitespace c) (d ∷ a) t (ground (arith, h, e)) in
      rw (e, other, ih) (behind-behind_all c (d ∷ a ++ (quote ∷ [])) (separator outside false t))
]

verbatim_token-plain :
    (flag : Bool) (a t : Str)
    → plain_arg flag a ≡ true
    → verbatim_token quote false (a ++ (quote ∷ t)) ≡ some (a, t)
unfolding verbatim_token
verbatim_token-plain flag [] t h = refl
verbatim_token-plain flag (c ∷ a) t h =
    let other : (c == quote) ≡ false = ground (arith, h) in
    rw
      (
        no_escape a (ground (arith, h)),
        other,
        verbatim_token-plain (c == backslash) a t (ground (arith, h)),
      )
      refl
  where
    no_escape :
        (a : Str)
        → plain_arg (c == backslash) a ≡ true
        → escapes_quote quote c (a ++ (quote ∷ t)) ≡ false
    no_escape [] k = ground (arith, k)
    no_escape (d ∷ a) k = ground (arith, k)

-- The argument between its quotes.
abbrev pub in_quotes : Str → Str
in_quotes a = quote ∷ (a ++ (quote ∷ []))

trim-in_quotes : (a : Str) → trim (in_quotes a) ≡ in_quotes a
unfolding trim trim_start is_whitespace trim_end
trim-in_quotes a = ap trim_start (trim_end-append (quote ∷ a) (quote ∷ []) refl)

verbatim_tokens-in_quotes :
    (a : Str) → plain_arg false a ≡ true → verbatim_tokens (in_quotes a) ≡ some (a ∷ [])
unfolding verbatim_tokens verbatim_from is_whitespace
verbatim_tokens-in_quotes a h = rw (verbatim_token-plain false a [] h) refl

one_arg-in_quotes : (a : Str) → plain_arg false a ≡ true → one_arg (in_quotes a) ≡ some (a ∷ [])
unfolding one_arg
one_arg-in_quotes a h = rw (trim-in_quotes a, verbatim_tokens-in_quotes a h) refl

split_on_expectation-in_quotes :
    (a : Str) (c : ℕ) (e : Str)
    → plain_arg false a ≡ true
    → is_whitespace c ≡ false
    → split_on_expectation (in_quotes a ++ (str " > " ++ (c ∷ e))) ≡ some (in_quotes a, c ∷ e)
unfolding split_on_expectation separator is_ascii_whitespace is_whitespace
split_on_expectation-in_quotes a c e h k =
    let tail : Str = str " > " ++ (c ∷ e) in
    let spaced : Str = quote ∷ b' ' ∷ [] in
    ap (λ x. Option.map trimmed_sides (separator outside false (quote ∷ x)))
      (append_assoc a (quote ∷ []) tail)
    ∙ ap (λ o. Option.map trimmed_sides (Option.map (behind quote) o))
        (separator-plain false false a tail h)
    ∙ cc (
      ap (λ x. trim_end (quote ∷ x)) (append_assoc a (quote ∷ []) (b' ' ∷ [])),
      trim_end-append (quote ∷ a) spaced refl,
      trim_start-space c e k,
    )

trim-call :
    (skill a : Str) (c : ℕ) (e : Str)
    → is_valid_skill_name skill ≡ true
    → is_whitespace c ≡ false
    → trim (skill ++ (b' ' ∷ (in_quotes a ++ (str " > " ++ (c ∷ e)))))
      ≡ skill ++ (b' ' ∷ (in_quotes a ++ (str " > " ++ (c ∷ trim_end e))))
unfolding trim
trim-call skill a c e h k =
    let solid = trim_end-cons c e k in
    let line : Str = skill ++ (b' ' ∷ (in_quotes a ++ str " > ")) in
    let split = λ (x : Str).
      append_assoc skill (b' ' ∷ (in_quotes a ++ str " > ")) x
      ∙ ap (λ y. skill ++ (b' ' ∷ y)) (append_assoc (in_quotes a) (str " > ") x) in
    ap (λ x. trim_start (trim_end x)) (sym (split (c ∷ e)))
    ∙ ap trim_start (trim_end-append line (c ∷ e) (ap is_empty solid))
    ∙ ap (λ x. trim_start (line ++ x)) solid
    ∙ ap trim_start (split (c ∷ trim_end e))
    ∙ trim_start-skill skill (b' ' ∷ (in_quotes a ++ (str " > " ++ (c ∷ trim_end e)))) h

-- The argument of a skill that takes one is read exactly as it is written between single quotes, with
-- its backslashes, if it has no single quote in it and does not end in a backslash. The name is a
-- skill's name, and the expectation starts with no whitespace; it loses the whitespace at its end.
pub parse_line_for-verbatim {ℓ} :
    {J : Type ℓ} (arity : Str → Option ℕ) (skill a : Str) (c : ℕ) (e : Str)
    → is_one (arity skill) ≡ true
    → is_valid_skill_name skill ≡ true
    → plain_arg false a ≡ true
    → is_whitespace c ≡ false
    → parse_line_for {J = J} arity (skill ++ (b' ' ∷ (in_quotes a ++ (str " > " ++ (c ∷ e)))))
      ≡ some (line_call skill (a ∷ []) (trim_end (c ∷ e)))
unfolding parse_line_for split_one_arg
parse_line_for-verbatim {J = J} arity skill a c e one h p k =
    rw
      (
        trim-call skill a c e h k,
        take_skill_name-append skill (in_quotes a ++ (str " > " ++ (c ∷ trim_end e))) h,
        one,
        split_on_expectation-in_quotes a c (trim_end e) p k,
        one_arg-in_quotes a p,
      )
      (ap (λ x. some (line_call skill (a ∷ []) x)) (trim-solid c e k))
