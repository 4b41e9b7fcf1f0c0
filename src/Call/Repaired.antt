-- ===== src/Call/Repaired.antt =====
-- crates/agents/src/parse_tool_call.rs: what `repair_json` leaves.
use sica_rust.Prelude.{
  ℕ, Bool, true, false, List, [], ◌∷◌, ◌++◌, ◌==◌, ◌||◌, ◌/◌, ◌%◌, ltb, if◌then◌else◌, ◌≡◌, refl,
  ap, ◌∙◌, arith, Bool-cases, inl, inr, All,
}
use sica_rust.Prelude.Str.{Str, str}
use sica_rust.Call.Chars.{double_quote, backslash}
use sica_rust.Call.Fence.{
  Repair, start_repair, hex_digit, control_escape, popped, string_step, code_step, repair_step,
  is_raw_control, repaired_char, closers, repair_from, repair_json,
}

-- The walk in a string, past no backslash.
abbrev in_text : List ℕ → Bool → Repair
in_text brackets mismatched = record {
  brackets = brackets;
  mismatched = mismatched;
  in_string = true;
  escaped = false;
}

hex_digit-Plain :
    (d : ℕ)
    → ((hex_digit d == backslash) ≡ false)
      × ((hex_digit d == double_quote) ≡ false)
      × (ltb (hex_digit d) b' ' ≡ false)
hex_digit-Plain d = (ground arith, ground arith, ground arith)

module _ (brackets : List ℕ) (mismatched : Bool) where
  text_char :
      (c : ℕ) (t : Str)
      → (c == backslash) ≡ false
      → (c == double_quote) ≡ false
      → ltb c b' ' ≡ false
      → repair_from (in_text brackets mismatched) (c ∷ t)
        ≡ c ∷ repair_from (in_text brackets mismatched) t
  unfolding repair_from
  text_char c t b q l = rw (b, q, l) refl

  text_escape :
      (c : ℕ) (t : Str)
      → repair_from (in_text brackets mismatched) (backslash ∷ c ∷ t)
        ≡ backslash ∷ c ∷ repair_from (in_text brackets mismatched) t
  unfolding repair_from
  text_escape c t = refl

  -- An escape is in the string already.
  text_control :
      (c : ℕ) (t : Str)
      → repair_from (in_text brackets mismatched) (control_escape c ++ t)
        ≡ control_escape c ++ repair_from (in_text brackets mismatched) t
  text_control c t = at (c == b'\n') (c == b'\r') (c == b'\t')
    where
      at :
          (n r tab : Bool)
          → repair_from (in_text brackets mismatched) (
              (if n
                then str "\\n"
                else if r
                then str "\\r"
                else if tab
                then str "\\t"
                else str "\\u00" ++ (hex_digit (c / 16) ∷ hex_digit (c % 16) ∷ []))
              ++ t)
            ≡ (if n
                then str "\\n"
                else if r
                then str "\\r"
                else if tab
                then str "\\t"
                else str "\\u00" ++ (hex_digit (c / 16) ∷ hex_digit (c % 16) ∷ []))
              ++ repair_from (in_text brackets mismatched) t
      at true r tab = text_escape b'n' t
      at false true tab = text_escape b'r' t
      at false false true = text_escape b't' t
      at false false false =
          let x = hex_digit (c / 16) in
          let y = hex_digit (c % 16) in
          let hx = hex_digit-Plain (c / 16) in
          let hy = hex_digit-Plain (c % 16) in
          text_escape b'u' (b'0' ∷ b'0' ∷ x ∷ y ∷ t)
          ∙ ap (λ z. backslash ∷ b'u' ∷ z)
              (text_char b'0' (b'0' ∷ x ∷ y ∷ t) refl refl refl
                ∙ ap (λ z. b'0' ∷ z)
                    (text_char b'0' (x ∷ y ∷ t) refl refl refl
                      ∙ ap (λ z. b'0' ∷ z)
                          (text_char x (y ∷ t) hx.0 hx.1 hx.2
                            ∙ ap (λ z. x ∷ z) (text_char y t hy.0 hy.1 hy.2))))

abbrev state : List ℕ → Bool → Bool → Bool → Repair
state brackets mismatched in_string escaped = record {
  brackets = brackets;
  mismatched = mismatched;
  in_string = in_string;
  escaped = escaped;
}

-- What a character was repaired to is repaired to itself.
again :
    (brackets : List ℕ) (mismatched in_string escaped : Bool) (c : ℕ) (t : Str)
    → let r = state brackets mismatched in_string escaped in
      repair_from r (repaired_char r c ++ t) ≡ repaired_char r c ++ repair_from (repair_step r c) t
unfolding repair_from
again brackets mismatched false escaped c t = refl
again brackets mismatched true true c t = refl
again brackets mismatched true false c t =
    elim (Bool-cases (is_raw_control (in_text brackets mismatched) c)) [
      | inl raw ↦
          let b : (c == backslash) ≡ false = ground (arith, raw) in
          let q : (c == double_quote) ≡ false = ground (arith, raw) in
          rw (raw, b, q) (text_control brackets mismatched c t)
      | inr fine ↦ rw (fine, fine) refl
    ]

abbrev IsCloser : ℕ → Type 0
IsCloser c = (c == b'}' || c == b']') ≡ true

either_IsCloser :
    (b : Bool) (x y : Repair)
    → All IsCloser x.brackets
    → All IsCloser y.brackets
    → All IsCloser (if b then x else y).brackets
either_IsCloser true x y hx hy = hx
either_IsCloser false x y hx hy = hy

popped-IsCloser : (brackets : List ℕ) → All IsCloser brackets → All IsCloser (popped brackets)
popped-IsCloser [] h = tt
popped-IsCloser (b ∷ brackets) h = h.1

repair_step-IsCloser :
    (r : Repair) (c : ℕ) → All IsCloser r.brackets → All IsCloser (repair_step r c).brackets
repair_step-IsCloser r c h =
    either_IsCloser r.in_string (string_step r c) (code_step r c)
      (either_IsCloser r.escaped _ _ h (either_IsCloser (c == backslash) _ _ h h))
      (either_IsCloser (c == double_quote) _ _ h (
        either_IsCloser (c == b'{') _ _ (refl, h)
          (either_IsCloser (c == b'[') _ _ (refl, h)
            (either_IsCloser (c == b'}' || c == b']') _ _ (popped-IsCloser r.brackets h) h))))

-- The brackets that close an open text leave nothing to close.
repair_from-closers :
    (brackets : List ℕ) (escaped : Bool)
    → All IsCloser brackets
    → repair_from (state brackets false false escaped) brackets ≡ brackets
unfolding repair_from
repair_from-closers [] escaped h = refl
repair_from-closers (b ∷ brackets) escaped h =
    let closer : IsCloser b = h.0 in
    let same : (b == b) ≡ true = ground arith in
    let no_quote : (b == double_quote) ≡ false = ground (arith, closer) in
    let no_brace : (b == b'{') ≡ false = ground (arith, closer) in
    let no_bracket : (b == b'[') ≡ false = ground (arith, closer) in
    rw (no_quote, no_brace, no_bracket, closer, same)
      (ap (◌∷◌ b) (repair_from-closers brackets escaped h.1))

repair_from-twice :
    (s : Str) (r : Repair)
    → All IsCloser r.brackets
    → repair_from r (repair_from r s) ≡ repair_from r s
unfolding repair_from
repair_from-twice [] r h = at r.in_string r.mismatched refl refl
  where
    at : (i m : Bool) → r.in_string ≡ i → r.mismatched ≡ m → repair_from r (closers r) ≡ closers r
    at true m e k = rw e refl
    at false true e k = rw (e, k) refl
    at false false e k = rw (e, k) (repair_from-closers r.brackets r.escaped h)
repair_from-twice (c ∷ s) r h =
    again r.brackets r.mismatched r.in_string r.escaped c (repair_from (repair_step r c) s)
    ∙ ap (◌++◌ (repaired_char r c))
        (repair_from-twice s (repair_step r c) (repair_step-IsCloser r c h))

-- What has been repaired needs no repair: no control character stands in one of its strings any more,
-- and if its strings are closed and its brackets match, none is open.
pub repair_json-twice : (body : Str) → repair_json (repair_json body) ≡ repair_json body
unfolding repair_json
repair_json-twice body = repair_from-twice body start_repair tt
