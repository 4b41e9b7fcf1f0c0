-- ===== src/Stream/Chunks.antt =====
-- crates/llm/src/streaming.rs: a text fed in several deltas, and the same text fed in one.
use sica_rust.Prelude.{
  ℕ, zero, suc, Bool, true, false, List, [], ◌∷◌, ◌++◌, length, ◌≡◌, ◌≤◌, refl, ap, sym, ◌∙◌, arith,
  length-append,
}
use mathlib.Core.Path.{subst}
use mathlib.Core.List.{append-nil, append_assoc}
use sica_rust.Prelude.Str.{Str}
use sica_rust.Stream.{ThinkSplitter, Fed, tag, push_out, stop, flip, feed}
use sica_rust.Stream.Tags.{Match, full, partial, mismatch, match_tag, length-after}
use sica_rust.Stream.Scan.{scan, scan_at, feed_loop-scan, feed-scan}

-- What a caller has after two deltas: it appends the outputs, and the splitter is the later one.
abbrev pub then_fed : Fed → Fed → Fed
then_fed f g = record {
  content = f.content ++ g.content;
  reasoning = f.reasoning ++ g.reasoning;
  splitter = g.splitter;
}

-- What a caller has after any deltas.
abbrev pub feed_all : ThinkSplitter → List Str → Fed
feed_all splitter [] = stop splitter.in_think splitter.buf
feed_all splitter (raw ∷ later) =
    let fed = feed splitter raw in then_fed fed (feed_all fed.splitter later)

abbrev pub concat : List Str → Str
concat [] = []
concat (raw ∷ later) = raw ++ concat later

match_tag-append :
    (p s after b : Str) → match_tag p s ≡ full after → match_tag p (s ++ b) ≡ full (after ++ b)
match_tag-append [] s after b h = ap (λ x. full (x ++ b)) (ground (arith, h))
match_tag-append (c ∷ p) [] after b h = ground (arith, h)
match_tag-append (c ∷ p) (d ∷ s) after b h = ground (arith, h, match_tag-append p s after b)

mismatch-append : (p s b : Str) → match_tag p s ≡ mismatch → match_tag p (s ++ b) ≡ mismatch
mismatch-append [] s b h = ground (arith, h)
mismatch-append (c ∷ p) [] b h = ground (arith, h)
mismatch-append (c ∷ p) (d ∷ s) b h = ground (arith, h, mismatch-append p s b)

-- The scanner's fuel does not matter.
scan-fuel : (m k : ℕ) (t : Bool) (s : Str) → length s ≤ m → length s ≤ k → scan m t s ≡ scan k t s
scan-fuel m k t s h l = sym (feed_loop-scan m m t s h h) ∙ feed_loop-scan k m t s l h

push_out-then_fed :
    (t : Bool) (s : Str) (f g : Fed) → then_fed (push_out t s f) g ≡ push_out t s (then_fed f g)
push_out-then_fed true s f g =
    ap (λ r. record { content = f.content ++ g.content; reasoning = r; splitter = g.splitter })
      (append_assoc s f.reasoning g.reasoning)
push_out-then_fed false s f g =
    ap (λ r. record { content = r; reasoning = f.reasoning ++ g.reasoning; splitter = g.splitter })
      (append_assoc s f.content g.content)

-- A scan that goes on where another stopped.
abbrev go_on : ℕ → Str → Fed → Fed
go_on k b f = then_fed f (scan k f.splitter.in_think (f.splitter.buf ++ b))

go_on-push_out :
    (k : ℕ) (b : Str) (t : Bool) (s : Str) (f : Fed)
    → go_on k b (push_out t s f) ≡ push_out t s (go_on k b f)
go_on-push_out k b true s f =
    push_out-then_fed true s f (go_on k b (stop f.splitter.in_think f.splitter.buf))
go_on-push_out k b false s f =
    push_out-then_fed false s f (go_on k b (stop f.splitter.in_think f.splitter.buf))

scan-append :
    (m k : ℕ) (t : Bool) (s b : Str)
    → length (s ++ b) ≤ m
    → length (s ++ b) ≤ k
    → scan m t (s ++ b) ≡ go_on k b (scan m t s)
unfolding scan
scan-append zero k t [] b h l = scan-fuel zero k t b h l
scan-append (suc m) k t [] b h l = scan-fuel (suc m) k t b h l
scan-append zero k t (d ∷ s) b h l = ground (arith, h)
scan-append (suc m) k t (d ∷ s) b h l =
    at (match_tag (tag t) (d ∷ s)) refl
      (scan-append m k t s b (omega (arith, h)) (omega (arith, l)))
      (λ after. scan-append m k (flip t) after b)
  where
    at :
        (x : Match)
        → match_tag (tag t) (d ∷ s) ≡ x
        → scan m t (s ++ b) ≡ go_on k b (scan m t s)
        → ((after : Str)
            → length (after ++ b) ≤ m
            → length (after ++ b) ≤ k
            → scan m (flip t) (after ++ b) ≡ go_on k b (scan m (flip t) after))
        → scan_at t d (s ++ b) (match_tag (tag t) (d ∷ (s ++ b))) (scan m)
          ≡ go_on k b (scan_at t d s x (scan m))
    at (full after) e ih later =
        let short : length (after ++ b) ≤ length (s ++ b) =
          omega (arith, length-append after b, length-append s b, length-after t d s after e) in
        rw (match_tag-append (tag t) (d ∷ s) after b e)
          (later after (omega (arith, short, h)) (omega (arith, short, l)))
    at partial e ih later = scan-fuel (suc m) k t (d ∷ (s ++ b)) h l
    at mismatch e ih later =
        rw (mismatch-append (tag t) (d ∷ s) b e)
          (ap (push_out t (d ∷ [])) ih ∙ sym (go_on-push_out k b t (d ∷ []) (scan m t s)))

-- No more is kept than was read.
length-buf : (m : ℕ) (t : Bool) (s : Str) → length (scan m t s).splitter.buf ≤ length s
unfolding scan
length-buf zero t s = omega arith
length-buf (suc m) t [] = omega arith
length-buf (suc m) t (d ∷ s) =
    at (match_tag (tag t) (d ∷ s)) refl (length-buf m t s) (length-buf m (flip t))
  where
    at :
        (x : Match)
        → match_tag (tag t) (d ∷ s) ≡ x
        → length (scan m t s).splitter.buf ≤ length s
        → ((after : Str) → length (scan m (flip t) after).splitter.buf ≤ length after)
        → length (scan_at t d s x (scan m)).splitter.buf ≤ suc (length s)
    at (full after) e ih later = omega (arith, later after, length-after t d s after e)
    at partial e ih later = omega arith
    at mismatch e ih later =
        elim t as (λ x. length (push_out x (d ∷ []) (scan m t s)).splitter.buf ≤ suc (length s)) [
          | true ↦ omega (arith, ih)
          | false ↦ omega (arith, ih)
        ]

feed-scan_fuel :
    (k : ℕ) (splitter : ThinkSplitter) (raw : Str)
    → length (splitter.buf ++ raw) ≤ k
    → feed splitter raw ≡ scan k splitter.in_think (splitter.buf ++ raw)
feed-scan_fuel k splitter raw h =
    feed-scan splitter raw
    ∙ scan-fuel (length (splitter.buf ++ raw)) k splitter.in_think (splitter.buf ++ raw)
        (omega arith) h

-- A text that is fed in two deltas gives the outputs, and leaves the splitter, that it gives and leaves
-- when it is fed in one, wherever it is cut, inside a tag included.
pub feed-append :
    (splitter : ThinkSplitter) (a b : Str)
    → feed splitter (a ++ b) ≡ then_fed (feed splitter a) (feed (feed splitter a).splitter b)
feed-append splitter a b =
    let s : Str = splitter.buf ++ a in
    let k : ℕ = length (s ++ b) in
    let f : Fed = feed splitter a in
    let regroup : s ++ b ≡ splitter.buf ++ (a ++ b) = append_assoc splitter.buf a b in
    let first : f ≡ scan k splitter.in_think s =
      feed-scan_fuel k splitter a (omega (arith, length-append s b)) in
    let kept : length f.splitter.buf ≤ length s =
      subst (λ x. length x.splitter.buf ≤ length s) (sym first)
        (length-buf k splitter.in_think s) in
    let second : feed f.splitter b ≡ scan k f.splitter.in_think (f.splitter.buf ++ b) =
      feed-scan_fuel k f.splitter b
        (omega (arith, kept, length-append s b, length-append f.splitter.buf b)) in
    feed-scan_fuel k splitter (a ++ b) (omega (arith, ap length regroup))
    ∙ ap (scan k splitter.in_think) (sym regroup)
    ∙ scan-append k k splitter.in_think s b (omega arith) (omega arith)
    ∙ ap (go_on k b) (sym first)
    ∙ ap (then_fed f) (sym second)

-- However a text is cut into deltas, one or more, what the caller has gathered at the end of the
-- stream is what the whole text gives in one delta.
pub feed_all-concat :
    (splitter : ThinkSplitter) (raw : Str) (later : List Str)
    → feed_all splitter (raw ∷ later) ≡ feed splitter (concat (raw ∷ later))
feed_all-concat splitter raw [] =
    let fed : Fed = feed splitter raw in
    let end : then_fed fed (stop fed.splitter.in_think fed.splitter.buf) ≡ fed =
      cc (append-nil fed.content, append-nil fed.reasoning) in
    end ∙ ap (feed splitter) (sym (append-nil raw))
feed_all-concat splitter raw (next ∷ later) =
    let fed = feed splitter raw in
    ap (then_fed fed) (feed_all-concat fed.splitter next later)
    ∙ sym (feed-append splitter raw (concat (next ∷ later)))
