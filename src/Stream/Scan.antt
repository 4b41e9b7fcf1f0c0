-- ===== src/Stream/Scan.antt =====
-- crates/llm/src/streaming.rs: `feed` against a scanner that reads one character at a time.
use sica_rust.Prelude.{
  ℕ, zero, suc, Bool, true, false, Option, none, some, [], ◌∷◌, ◌++◌, any, length, if◌then◌else◌,
  ◌≡◌, ◌≤◌, ◌<◌, refl, ap, sym, ◌∙◌, arith, take, is_some,
}
use mathlib.Core.Option
use mathlib.Core.Path.{subst}
use sica_rust.Prelude.Str.{Str, str, is_empty, str_eq}
use sica_rust.Prelude.Search.{split_once, ends_with_str, rsplit, behind, rsplit_here}
use sica_rust.Stream.{
  ThinkSplitter, Fed, tag, tag_starts, push_out, stop, hold, flip, without_tag, feed_loop, feed,
  turn,
}
use sica_rust.Stream.Tags.{
  Match, full, partial, mismatch, match_tag, partial_take, split_once-full, split_once-mismatch,
  ends_with_str-mismatch, tag_starts-Partial, rsplit-any, tag_starts-rsplit, length-after,
}

-- What a scanner does at a character: at a whole tag it skips the tag and changes its mode, where the
-- text ends inside the tag it keeps what is left, and any other character is output.
abbrev pub scan_at : Bool → ℕ → Str → Match → (Bool → Str → Fed) → Fed
scan_at t c s (full after) next = next (flip t) after
scan_at t c s partial next = stop t (c ∷ s)
scan_at t c s mismatch next = push_out t (c ∷ []) (next t s)

unfoldable pub scan : ℕ → Bool → Str → Fed
scan zero t rest = stop t []
scan (suc n) t [] = stop t []
scan (suc n) t (c ∷ s) = scan_at t c s (match_tag (tag t) (c ∷ s)) (scan n)

-- The start of a tag is kept whole.
feed_loop-take :
    (t : Bool) (n k : ℕ)
    → k < length (tag t)
    → feed_loop (suc n) t (take k (tag t)) ≡ stop t (take k (tag t))
unfolding feed_loop split_once str_eq
feed_loop-take true n zero h = refl
feed_loop-take true n (suc zero) h = refl
feed_loop-take true n (suc (suc zero)) h = refl
feed_loop-take true n (suc (suc (suc zero))) h = refl
feed_loop-take true n (suc (suc (suc (suc zero)))) h = refl
feed_loop-take true n (suc (suc (suc (suc (suc zero))))) h = refl
feed_loop-take true n (suc (suc (suc (suc (suc (suc zero)))))) h = refl
feed_loop-take true n (suc (suc (suc (suc (suc (suc (suc zero))))))) h = refl
feed_loop-take true n (suc (suc (suc (suc (suc (suc (suc (suc k)))))))) h = ground (arith, h)
feed_loop-take false n zero h = refl
feed_loop-take false n (suc zero) h = refl
feed_loop-take false n (suc (suc zero)) h = refl
feed_loop-take false n (suc (suc (suc zero))) h = refl
feed_loop-take false n (suc (suc (suc (suc zero)))) h = refl
feed_loop-take false n (suc (suc (suc (suc (suc zero))))) h = refl
feed_loop-take false n (suc (suc (suc (suc (suc (suc zero)))))) h = refl
feed_loop-take false n (suc (suc (suc (suc (suc (suc (suc k))))))) h = ground (arith, h)

-- A character that no tag starts at is output, and the rest is as if it had not been there.
hold-mismatch :
    (t : Bool) (c d : ℕ) (s : Str) (o : Option (Str × Str))
    → is_some o ≡ true
    → hold t (d ∷ s) (rsplit_here c d s o) ≡ push_out t (d ∷ []) (hold t s o)
hold-mismatch t c d s none h = ground (arith, h)
hold-mismatch true c d s (some parts) h = refl
hold-mismatch false c d s (some parts) h = refl

push_out-cons :
    (t : Bool) (d : ℕ) (s : Str) (f : Fed)
    → push_out t (d ∷ s) f ≡ push_out t (d ∷ []) (push_out t s f)
push_out-cons true d s f = refl
push_out-cons false d s f = refl

without_tag-mismatch :
    (t : Bool) (d : ℕ) (s : Str)
    → match_tag (tag t) (d ∷ s) ≡ mismatch
    → without_tag t (d ∷ s) ≡ push_out t (d ∷ []) (without_tag t s)
without_tag-mismatch t d s h =
    rw (ends_with_str-mismatch (tag t) d s (tag_starts t) (tag_starts-Partial t) h)
      (held (any (λ start. ends_with_str start s) (tag_starts t)) refl)
  where
    held :
        (b : Bool)
        → any (λ start. ends_with_str start s) (tag_starts t) ≡ b
        → (if b then hold t (d ∷ s) (rsplit b'<' (d ∷ s)) else push_out t (d ∷ s) (stop t []))
          ≡ push_out t (d ∷ []) (if b then hold t s (rsplit b'<' s) else push_out t s (stop t []))
    held true e =
        hold-mismatch t b'<' d s (rsplit b'<' s)
          (rsplit-any b'<' (tag_starts t) s (tag_starts-rsplit t) e)
    held false e = push_out-cons t d s (stop t [])

turn-mismatch :
    (t : Bool) (d : ℕ) (s : Str) (o : Option (Str × Str)) (next : Str → Fed)
    → match_tag (tag t) (d ∷ s) ≡ mismatch
    → turn t (d ∷ s) (Option.map (behind d) o) next ≡ push_out t (d ∷ []) (turn t s o next)
turn-mismatch t d s none next h = without_tag-mismatch t d s h
turn-mismatch t d s (some parts) next h = push_out-cons t d parts.0 (next parts.1)

feed_loop-turn :
    (n : ℕ) (t : Bool) (s : Str)
    → feed_loop (suc n) t s ≡ turn t s (split_once (tag t) s) (feed_loop n (flip t))
unfolding feed_loop split_once str_eq
feed_loop-turn n true [] = refl
feed_loop-turn n false [] = refl
feed_loop-turn n t (c ∷ s) = refl

feed_loop-mismatch :
    (n : ℕ) (t : Bool) (d : ℕ) (s : Str)
    → match_tag (tag t) (d ∷ s) ≡ mismatch
    → feed_loop (suc n) t (d ∷ s) ≡ push_out t (d ∷ []) (feed_loop (suc n) t s)
feed_loop-mismatch n t d s h =
    let next = feed_loop n (flip t) in
    feed_loop-turn n t (d ∷ s)
    ∙ ap (λ o. turn t (d ∷ s) o next) (split_once-mismatch d (tag t) s h)
    ∙ turn-mismatch t d s (split_once (tag t) s) next h
    ∙ ap (push_out t (d ∷ [])) (sym (feed_loop-turn n t s))

-- A whole tag is skipped, and the loop goes on in the other mode.
feed_loop-full :
    (n : ℕ) (t : Bool) (d : ℕ) (s after : Str)
    → match_tag (tag t) (d ∷ s) ≡ full after
    → feed_loop (suc n) t (d ∷ s) ≡ feed_loop n (flip t) after
feed_loop-full n true d s after h =
    feed_loop-turn n true (d ∷ s)
    ∙ ap (λ o. turn true (d ∷ s) o (feed_loop n false))
        (split_once-full b'<' d (str "/think>") s after h)
feed_loop-full n false d s after h =
    feed_loop-turn n false (d ∷ s)
    ∙ ap (λ o. turn false (d ∷ s) o (feed_loop n true))
        (split_once-full b'<' d (str "think>") s after h)

feed_loop-partial :
    (n : ℕ) (t : Bool) (s : Str) → match_tag (tag t) s ≡ partial → feed_loop (suc n) t s ≡ stop t s
feed_loop-partial n t s h =
    let start = partial_take (tag t) s h in
    subst (λ x. feed_loop (suc n) t x ≡ stop t x) (sym start.2) (feed_loop-take t n start.0 start.1)

pub feed_loop-scan :
    (m n : ℕ) (t : Bool) (s : Str) → length s ≤ m → length s ≤ n → feed_loop n t s ≡ scan m t s
unfolding feed_loop scan
feed_loop-scan zero zero t [] h k = refl
feed_loop-scan zero (suc n) t [] h k = refl
feed_loop-scan (suc m) zero t [] h k = refl
feed_loop-scan (suc m) (suc n) t [] h k = refl
feed_loop-scan zero n t (d ∷ s) h k = ground (arith, h)
feed_loop-scan (suc m) zero t (d ∷ s) h k = ground (arith, k)
feed_loop-scan (suc m) (suc n) t (d ∷ s) h k =
    at (match_tag (tag t) (d ∷ s)) refl
      (feed_loop-scan m (suc n) t s (omega (arith, h)) (omega (arith, k)))
      (λ after. feed_loop-scan m n (flip t) after)
  where
    at :
        (x : Match)
        → match_tag (tag t) (d ∷ s) ≡ x
        → feed_loop (suc n) t s ≡ scan m t s
        → ((after : Str)
            → length after ≤ m
            → length after ≤ n
            → feed_loop n (flip t) after ≡ scan m (flip t) after)
        → feed_loop (suc n) t (d ∷ s) ≡ scan_at t d s x (scan m)
    at (full after) e ih later =
        let short = length-after t d s after e in
        feed_loop-full n t d s after e
        ∙ later after (omega (arith, short, h)) (omega (arith, short, k))
    at partial e ih later = feed_loop-partial n t (d ∷ s) e
    at mismatch e ih later = feed_loop-mismatch n t d s e ∙ ap (push_out t (d ∷ [])) ih

pub joined-combined : (buf raw : Str) → (if is_empty buf then raw else buf ++ raw) ≡ buf ++ raw
joined-combined [] raw = refl
joined-combined (c ∷ buf) raw = refl

-- Whatever the splitter kept and whatever the delta is, `feed` comes to what a scanner comes to that
-- reads the kept text and the delta one character at a time: at a whole tag it skips the tag and
-- changes from content to reasoning or back, where the text ends inside a tag it keeps the rest for
-- the next delta, and it outputs any other character. The loop needs no more turns than characters.
pub feed-scan :
    (splitter : ThinkSplitter) (raw : Str)
    → feed splitter raw
      ≡ scan (length (splitter.buf ++ raw)) splitter.in_think (splitter.buf ++ raw)
unfolding feed
feed-scan splitter raw =
    let n = length (splitter.buf ++ raw) in
    ap (λ s. feed_loop (length s) splitter.in_think s) (joined-combined splitter.buf raw)
    ∙ feed_loop-scan n n splitter.in_think (splitter.buf ++ raw) (omega arith) (omega arith)
