-- ===== src/Stream/Tags.antt =====
-- crates/llm/src/streaming.rs: a tag held against the end of a delta.
use sica_rust.Prelude.{
  ℕ, suc, Bool, true, false, Option, none, some, List, [], ◌∷◌, any, length, if◌then◌else◌, ◌==◌,
  ◌≡◌, ◌≤◌, ◌<◌, refl, ap, sym, ◌∙◌, arith, ◌+◌, take, Bool-cases, inl, inr, All, is_some,
}
use mathlib.Core.Option
use mathlib.Core.Path.{subst}
use sica_rust.Prelude.Str.{Str, str_eq, str_eq_iff}
use sica_rust.Prelude.Search.{split_once, ends_with_str, rsplit, strip_prefix, behind, rsplit_here}
use sica_rust.Stream.{tag, tag_starts}

-- A tag held against a text.
pub data Match : Type 0 where
  -- The tag is there, and `after` follows it.
  full : (after : Str) → Match
  -- The text ends inside the tag.
  partial : Match
  mismatch : Match

abbrev pub match_tag : Str → Str → Match
match_tag [] s = full s
match_tag (c ∷ p) [] = partial
match_tag (c ∷ p) (d ∷ s) = if c == d then match_tag p s else mismatch

pub strip_prefix-full :
    (p s after : Str) → match_tag p s ≡ full after → strip_prefix p s ≡ some after
strip_prefix-full [] s after h = ground (arith, h)
strip_prefix-full (c ∷ p) [] after h = ground (arith, h)
strip_prefix-full (c ∷ p) (d ∷ s) after h = ground (arith, h, strip_prefix-full p s after)

pub strip_prefix-mismatch : (p s : Str) → match_tag p s ≡ mismatch → strip_prefix p s ≡ none
strip_prefix-mismatch [] s h = ground (arith, h)
strip_prefix-mismatch (c ∷ p) [] h = refl
strip_prefix-mismatch (c ∷ p) (d ∷ s) h = ground (arith, h, strip_prefix-mismatch p s)

-- A text that ends inside a tag is a start of the tag.
pub partial_take : (p s : Str) → match_tag p s ≡ partial → (n : ℕ) × (n < length p) × (s ≡ take n p)
partial_take [] s h = ground (arith, h)
partial_take (c ∷ p) [] h = (0, omega arith, refl)
partial_take (c ∷ p) (d ∷ s) h = elim (Bool-cases (c == d)) [
  | inl e ↦
      let same : c ≡ d = ground (arith, e) in
      let ih = partial_take p s (ground (arith, h, e)) in
      (suc ih.0, omega (arith, ih.1), cc (same, ih.2))
  | inr e ↦ ground (arith, h, e)
]

pub split_once-full :
    (c d : ℕ) (p s after : Str)
    → match_tag (c ∷ p) (d ∷ s) ≡ full after
    → split_once (c ∷ p) (d ∷ s) ≡ some ([], after)
unfolding split_once
split_once-full c d p s after h = rw (strip_prefix-full (c ∷ p) (d ∷ s) after h) refl

pub split_once-mismatch :
    (d : ℕ) (p s : Str)
    → match_tag p (d ∷ s) ≡ mismatch
    → split_once p (d ∷ s) ≡ Option.map (behind d) (split_once p s)
unfolding split_once
split_once-mismatch d p s h = rw (strip_prefix-mismatch p (d ∷ s) h) refl

pub match_tag_refl : (p : Str) → match_tag p p ≡ full []
match_tag_refl [] = refl
match_tag_refl (c ∷ p) = ground (arith, match_tag_refl p)

-- A text that is no start of the tag ends in the same starts of it as without its first character.
pub ends_with_str-mismatch :
    (p : Str) (d : ℕ) (s : Str) (starts : List Str)
    → All (λ start. match_tag p start ≡ partial) starts
    → match_tag p (d ∷ s) ≡ mismatch
    → any (λ start. ends_with_str start (d ∷ s)) starts
      ≡ any (λ start. ends_with_str start s) starts
ends_with_str-mismatch p d s [] h k = refl
ends_with_str-mismatch p d s (start ∷ starts) h k = elim (Bool-cases (str_eq start (d ∷ s))) [
  | inl e ↦
      let same : start ≡ d ∷ s = (str_eq_iff start (d ∷ s)).0 e in
      let clash : partial ≡ mismatch = sym h.0 ∙ ap (match_tag p) same ∙ k in ground (arith, clash)
  | inr e ↦ rw (e, ends_with_str-mismatch p d s starts h.1 k) refl
]

pub tag_starts-Partial :
    (t : Bool) → All (λ start. match_tag (tag t) start ≡ partial) (tag_starts t)
tag_starts-Partial true = (refl, (refl, (refl, (refl, (refl, (refl, (refl, tt)))))))
tag_starts-Partial false = (refl, (refl, (refl, (refl, (refl, (refl, tt))))))

pub rsplit_here-is_some :
    (c d : ℕ) (s : Str) (o : Option (Str × Str))
    → is_some o ≡ true
    → is_some (rsplit_here c d s o) ≡ true
rsplit_here-is_some c d s none h = ground (arith, h)
rsplit_here-is_some c d s (some parts) h = refl

-- What ends in a text that has a `<` has a `<`.
pub rsplit-ends_with_str :
    (c : ℕ) (p s : Str)
    → is_some (rsplit c p) ≡ true
    → ends_with_str p s ≡ true
    → is_some (rsplit c s) ≡ true
rsplit-ends_with_str c p [] h k =
    let same : p ≡ [] = (str_eq_iff p []).0 k in subst (λ x. is_some (rsplit c x) ≡ true) same h
rsplit-ends_with_str c p (d ∷ s) h k = elim (Bool-cases (str_eq p (d ∷ s))) [
  | inl e ↦ subst (λ x. is_some (rsplit c x) ≡ true) ((str_eq_iff p (d ∷ s)).0 e) h
  | inr e ↦
      let ih = rsplit-ends_with_str c p s h (ground (arith, e, k)) in
      rsplit_here-is_some c d s (rsplit c s) ih
]

pub rsplit-any :
    (c : ℕ) (starts : List Str) (s : Str)
    → All (λ start. is_some (rsplit c start) ≡ true) starts
    → any (λ start. ends_with_str start s) starts ≡ true
    → is_some (rsplit c s) ≡ true
rsplit-any c [] s h k = ground (arith, k)
rsplit-any c (start ∷ starts) s h k = elim (Bool-cases (ends_with_str start s)) [
  | inl e ↦ rsplit-ends_with_str c start s h.0 e
  | inr e ↦ rsplit-any c starts s h.1 (ground (arith, e, k))
]

pub tag_starts-rsplit :
    (t : Bool) → All (λ start. is_some (rsplit b'<' start) ≡ true) (tag_starts t)
tag_starts-rsplit true = (refl, (refl, (refl, (refl, (refl, (refl, (refl, tt)))))))
tag_starts-rsplit false = (refl, (refl, (refl, (refl, (refl, (refl, tt))))))

pub length-full :
    (p s after : Str) → match_tag p s ≡ full after → length s ≡ length p + length after
length-full [] s after h = ground (arith, h)
length-full (c ∷ p) [] after h = ground (arith, h)
length-full (c ∷ p) (d ∷ s) after h = ground (arith, h, length-full p s after)

-- After a whole tag there is less text.
pub length-after :
    (t : Bool) (d : ℕ) (s after : Str)
    → match_tag (tag t) (d ∷ s) ≡ full after
    → length after ≤ length s
length-after true d s after h = omega (arith, length-full (tag true) (d ∷ s) after h)
length-after false d s after h = omega (arith, length-full (tag false) (d ∷ s) after h)
