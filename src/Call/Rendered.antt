-- ===== src/Call/Rendered.antt =====
-- crates/agents/src/parse_tool_call.rs: the walks over rendered arguments.
use sica_rust.Prelude.{
  ℕ, zero, suc, Bool, true, false, Option, none, some, List, [], ◌∷◌, ◌++◌, ◌==◌, ◌&&◌, ◌<◌, all,
  length, length-append, ◌≡◌, refl, ap, sym, ◌∙◌, arith, Bool-cases, inl, inr,
}
use mathlib.Core.Option
use mathlib.Core.Path.{subst}
use mathlib.Core.List.{append_assoc}
use sica_rust.Prelude.Str.{Str, str, is_empty}
use sica_rust.Prelude.Search.{behind}
use sica_rust.Prelude.Trim.{is_whitespace, trim_end}
use sica_rust.Call.Chars.{is_ascii_lowercase, is_ascii_digit, is_ascii_whitespace, quote, backslash}
use sica_rust.Call.Line.{
  is_name_char, is_valid_skill_name, name_rest, take_skill_name, outside, inside, separator,
  behind_all, quoted, tokens, escape, escapes, render_args,
}

-- Rendered arguments with a text after them.
abbrev pub args_then : List Str → Str → Str
args_then [] t = t
args_then (a ∷ args) t = b' ' ∷ quote ∷ (escapes a ++ (quote ∷ args_then args t))

pub render_args-append : (args : List Str) (t : Str) → render_args args ++ t ≡ args_then args t
render_args-append [] t = refl
render_args-append (a ∷ args) t =
    ap (λ x. b' ' ∷ quote ∷ x)
      (append_assoc (escapes a) (quote ∷ render_args args) t
        ∙ ap (λ x. escapes a ++ (quote ∷ x)) (render_args-append args t))

-- To prove something of a character: the four that are escaped, and any other.
module _ (P : ℕ → Type 0) where
  pub escape_cases :
      P backslash
      → P quote
      → P b'\n'
      → P b'\t'
      → ((c : ℕ) → (c == backslash) ≡ false → (c == quote) ≡ false → escape c ≡ c ∷ [] → P c)
      → (c : ℕ) → P c
  escape_cases pb pq pn pt plain c = elim (Bool-cases (c == backslash)) [
    | inl e ↦ subst P (ground (arith, e)) pb
    | inr b ↦ elim (Bool-cases (c == quote)) [
      | inl e ↦ subst P (ground (arith, e)) pq
      | inr q ↦ elim (Bool-cases (c == b'\n')) [
        | inl e ↦ subst P (ground (arith, e)) pn
        | inr n ↦ elim (Bool-cases (c == b'\t')) [
          | inl e ↦ subst P (ground (arith, e)) pt
          | inr t ↦ plain c b q (rw (b, q, n, t) refl)
        ]
      ]
    ]
  ]

pub quoted-escape :
    (t : Str) (c : ℕ)
    → quoted quote false (escape c ++ t) ≡ Option.map (behind c) (quoted quote false t)
unfolding quoted
quoted-escape t =
    escape_cases
      (λ c. quoted quote false (escape c ++ t) ≡ Option.map (behind c) (quoted quote false t)) refl
      refl refl refl (λ c b q e. ap (λ x. quoted quote false (x ++ t)) e ∙ rw (b, q) refl)

pub quoted-escapes : (a t : Str) → quoted quote false (escapes a ++ (quote ∷ t)) ≡ some (a, t)
unfolding quoted
quoted-escapes [] t = refl
quoted-escapes (c ∷ a) t =
    ap (quoted quote false) (append_assoc (escape c) (escapes a) (quote ∷ t))
    ∙ quoted-escape (escapes a ++ (quote ∷ t)) c
    ∙ ap (Option.map (behind c)) (quoted-escapes a t)

pub tokens-args :
    (args : List Str) (n : ℕ)
    → length (args_then args []) < n
    → tokens n (args_then args []) ≡ some args
unfolding tokens is_whitespace
tokens-args [] zero h = ground (arith, h)
tokens-args [] (suc n) h = refl
tokens-args (a ∷ args) zero h = ground (arith, h)
tokens-args (a ∷ args) (suc zero) h = ground (arith, h)
tokens-args (a ∷ args) (suc (suc n)) h =
    let rest = args_then args [] in
    let shorter : length rest < n = omega (arith, h, length-append (escapes a) (quote ∷ rest)) in
    rw (quoted-escapes a rest) (ap (Option.map (◌∷◌ a)) (tokens-args args n shorter))

pub is_empty-append : (s t : Str) → is_empty t ≡ false → is_empty (s ++ t) ≡ false
is_empty-append [] t h = h
is_empty-append (c ∷ s) t h = refl

pub trim_end-append :
    (s t : Str) → is_empty (trim_end t) ≡ false → trim_end (s ++ t) ≡ s ++ trim_end t
unfolding trim_end
trim_end-append [] t h = refl
trim_end-append (c ∷ s) t h = rw (trim_end-append s t h, is_empty-append s (trim_end t) h) refl

pub trim_end-cons : (c : ℕ) (s : Str) → is_whitespace c ≡ false → trim_end (c ∷ s) ≡ c ∷ trim_end s
unfolding trim_end
trim_end-cons c s h = ground (arith, h)

-- What ends in a closing quote, or in one and spaces, is trimmed to the quote.
pub trim_end-quote :
    (args : List Str) (t : Str)
    → trim_end t ≡ []
    → trim_end (quote ∷ args_then args t) ≡ quote ∷ args_then args []
unfolding is_whitespace
trim_end-quote [] t h = trim_end-cons quote t refl ∙ ap (◌∷◌ quote) h
trim_end-quote (a ∷ args) t h =
    let ih = trim_end-quote args t h in
    let front : Str = quote ∷ b' ' ∷ quote ∷ escapes a in
    trim_end-append front (quote ∷ args_then args t) (ap is_empty ih) ∙ ap (◌++◌ front) ih

pub name_rest-append :
    (s t : Str) → all is_name_char s ≡ true → name_rest (s ++ (b' ' ∷ t)) ≡ some (s, b' ' ∷ t)
unfolding is_whitespace is_ascii_lowercase is_ascii_digit
name_rest-append [] t h = refl
name_rest-append (c ∷ s) t h =
    let name : is_name_char c ≡ true = ground (arith, h) in
    rw (name, name_rest-append s t (ground (arith, h))) refl

pub take_skill_name-append :
    (skill t : Str)
    → is_valid_skill_name skill ≡ true
    → take_skill_name (skill ++ (b' ' ∷ t)) ≡ some (skill, b' ' ∷ t)
unfolding is_valid_skill_name take_skill_name
take_skill_name-append [] t h = ground (arith, h)
take_skill_name-append (c ∷ s) t h =
    let first : is_ascii_lowercase c ≡ true = ground (arith, h) in
    rw (first, name_rest-append s t (ground (arith, h))) refl

pub behind-behind :
    (c d : ℕ) (o : Option (Str × Str))
    → Option.map (behind c) (Option.map (behind d) o) ≡ Option.map (behind_all (c ∷ d ∷ [])) o
behind-behind c d none = refl
behind-behind c d (some parts) = refl

pub behind_one :
    (c : ℕ) (o : Option (Str × Str)) → Option.map (behind c) o ≡ Option.map (behind_all (c ∷ [])) o
behind_one c none = refl
behind_one c (some parts) = refl

pub behind-behind_all :
    (c : ℕ) (s : Str) (o : Option (Str × Str))
    → Option.map (behind c) (Option.map (behind_all s) o) ≡ Option.map (behind_all (c ∷ s)) o
behind-behind_all c s none = refl
behind-behind_all c s (some parts) = refl

pub behind_all-append :
    (s t : Str) (o : Option (Str × Str))
    → Option.map (behind_all s) (Option.map (behind_all t) o) ≡ Option.map (behind_all (s ++ t)) o
behind_all-append s t none = refl
behind_all-append s t (some parts) = ap (λ x. some (x, parts.1)) (sym (append_assoc s t parts.0))

-- Inside quotes it does not matter what stands before a character.
pub separator-flag :
    (q : ℕ) (before : Bool) (t : Str) → separator (inside q) before t ≡ separator (inside q) false t
unfolding separator
separator-flag q before [] = refl
separator-flag q before (c ∷ t) = refl

pub separator-escape :
    (before : Bool) (t : Str) (c : ℕ)
    → separator (inside quote) before (escape c ++ t)
      ≡ Option.map (behind_all (escape c)) (separator (inside quote) false t)
unfolding separator is_ascii_whitespace
separator-escape before t =
    escape_cases
      (λ c.
        separator (inside quote) before (escape c ++ t)
        ≡ Option.map (behind_all (escape c)) (separator (inside quote) false t))
      (behind-behind backslash backslash (separator (inside quote) false t))
      (behind-behind backslash quote (separator (inside quote) false t))
      (behind-behind backslash b'n' (separator (inside quote) false t))
      (behind-behind backslash b't' (separator (inside quote) false t)) (λ c b q e. plain c b q e)
  where
    plain :
        (c : ℕ)
        → (c == backslash) ≡ false
        → (c == quote) ≡ false
        → escape c ≡ c ∷ []
        → separator (inside quote) before (escape c ++ t)
          ≡ Option.map (behind_all (escape c)) (separator (inside quote) false t)
    plain c b q e =
        subst
          (λ x.
            separator (inside quote) before (x ++ t)
            ≡ Option.map (behind_all x) (separator (inside quote) false t))
          (sym e)
          (rw (b, q, separator-flag quote (is_ascii_whitespace c) t)
            (behind_one c (separator (inside quote) false t)))

-- The walk passes a whole quoted argument.
pub separator-argument :
    (before : Bool) (a t : Str)
    → separator (inside quote) before (escapes a ++ (quote ∷ t))
      ≡ Option.map (behind_all (escapes a ++ (quote ∷ []))) (separator outside false t)
unfolding separator is_ascii_whitespace
separator-argument before [] t = behind_one quote (separator outside false t)
separator-argument before (c ∷ a) t =
    ap (separator (inside quote) before) (append_assoc (escape c) (escapes a) (quote ∷ t))
    ∙ separator-escape before (escapes a ++ (quote ∷ t)) c
    ∙ ap (Option.map (behind_all (escape c))) (separator-argument false a t)
    ∙ behind_all-append (escape c) (escapes a ++ (quote ∷ [])) (separator outside false t)
    ∙ ap (λ x. Option.map (behind_all x) (separator outside false t))
        (sym (append_assoc (escape c) (escapes a) (quote ∷ [])))

pub separator-args :
    (args : List Str) (before : Bool) (t : Str)
    → separator outside before (args_then args (str " > " ++ t))
      ≡ some (args_then args (b' ' ∷ []), b' ' ∷ t)
unfolding separator is_ascii_whitespace
separator-args [] before t = refl
separator-args (a ∷ args) before t =
    rw (separator-argument false a (args_then args (str " > " ++ t)), separator-args args false t)
      (ap (λ x. some (b' ' ∷ quote ∷ x, b' ' ∷ t))
        (append_assoc (escapes a) (quote ∷ []) (args_then args (b' ' ∷ []))))

pub args_then-append :
    (args : List Str) (s t : Str) → args_then args s ++ t ≡ args_then args (s ++ t)
args_then-append [] s t = refl
args_then-append (a ∷ args) s t =
    ap (λ x. b' ' ∷ quote ∷ x)
      (append_assoc (escapes a) (quote ∷ args_then args s) t
        ∙ ap (λ x. escapes a ++ (quote ∷ x)) (args_then-append args s t))

pub trim_end-twice : (s : Str) → trim_end (trim_end s) ≡ trim_end s
unfolding trim_end
trim_end-twice [] = refl
trim_end-twice (c ∷ s) = elim (Bool-cases (is_empty (trim_end s) && is_whitespace c)) [
  | inl e ↦ rw e refl
  | inr e ↦ rw (e, trim_end-twice s, e) refl
]
