-- ===== src/Retain/Windows.antt =====
-- What `head_tail`, `head_only`, `render` and `notice` keep, drop and report.
use mathlib.Core.List.{append-nil}
use sica_rust.Prelude.{
  ℕ, ◌+◌, ◌-◌, ◌^◌, ◌≤◌, ◌<◌, ◌≡◌, refl, Bool, false, not, ◌&&◌, some, [], ◌∷◌, ◌++◌, arith, leb,
  if◌then◌else◌, leb→le, Bool-cases, inl, inr, ap, sym, ◌∙◌,
}
use sica_rust.Prelude.Str.{Str, str, len, len-append, is_empty, ends_with}
use sica_rust.Prelude.Decimal.{decimal, len-decimal}
use sica_rust.Retain.{Omitted, nothing, bytes, TextWindow, head_tail, head_only, render, notice}
use sica_rust.Retain.Bounds.{utf8_head_prefix, utf8_tail_suffix}

-- Two ways to cut one text: the longer front extends the shorter one.
overlap :
    (p a b q : Str) → p ++ a ≡ b ++ q → len p ≤ len b → (m : Str) × (b ≡ p ++ m) × (a ≡ m ++ q)
unfolding len
overlap [] a b q e h = (b, refl, e)
overlap (c ∷ p) a [] q e h = absurd (ground arith)
overlap (c ∷ p) a (d ∷ b) q e h =
    let same : c ≡ d = cc in
    let (m, longer, rest) = overlap p a b q (cc) (ground (arith, same, h)) in (m, cc, rest)

abbrev pub omitted_len : Omitted → ℕ
omitted_len nothing = 0
omitted_len (bytes n) = n

-- The three parts of a text that `head_tail` splits.
split_middle :
    (s p a b q : Str)
    → s ≡ p ++ a
    → s ≡ b ++ q
    → len p + len q ≤ len s
    → (m : Str) × (s ≡ p ++ (m ++ q)) × (len m ≡ len s - (len p + len q))
split_middle s p a b q left right h =
    let (m, longer, rest) =
      overlap p a b q (sym left ∙ right) (omega (arith, ap len right, len-append b q)) in
    let joined : s ≡ p ++ (m ++ q) = left ∙ ap (λ x. p ++ x) rest in
    (m, joined, omega (arith, ap len joined, len-append p (m ++ q), len-append m q))

-- `head_tail` never panics. The text is the window's head, the part that it reports as omitted with
-- its exact number of bytes, and the window's tail; the head and the tail have at most `head + tail`
-- bytes together.
pub head_tail_parts :
    (s : Str) (head tail : ℕ)
    → (w : TextWindow) × (mid : Str) × (head_tail s head tail ≡ some w)
      × (s ≡ w.head ++ (mid ++ w.tail))
      × (omitted_len w.omitted ≡ len mid)
      × (len w.head + len w.tail ≤ head + tail)
unfolding head_tail
head_tail_parts s head tail = elim (Bool-cases (leb (len s) (head + tail))) [
  | inl fits ↦ (
    record { head = s; tail = []; omitted = nothing },
    [],
    rw fits,
    sym (append-nil s),
    unfold len in refl,
    unfold len in ground arith,
  )
  | inr long ↦
      let (h, a, is_head, left, head_fits) = utf8_head_prefix s head in
      let (t, b, is_tail, right, tail_fits) = utf8_tail_suffix s tail in
      let (m, joined, mid_len) = split_middle s h a b t left right (ground arith) in
      (
        record { head = h; tail = t; omitted = bytes (len s - (len h + len t)) },
        m,
        rw (long, is_head, is_tail),
        joined,
        sym mid_len,
        omega arith,
      )
]

-- `head_only` never panics, and splits the text into the head that it keeps, of at most `max` bytes,
-- and the end, whose number of bytes it reports.
pub head_only_parts :
    (s : Str) (max : ℕ)
    → (w : TextWindow) × (end : Str) × (head_only s max ≡ some w)
      × (s ≡ w.head ++ end)
      × (omitted_len w.omitted ≡ len end)
      × (w.tail ≡ [])
      × (len w.head ≤ max)
unfolding head_only
head_only_parts s max = elim (Bool-cases (leb (len s) max)) [
  | inl fits ↦ (
    record { head = s; tail = []; omitted = nothing },
    [],
    rw fits,
    sym (append-nil s),
    unfold len in refl,
    refl,
    leb→le _ _ fits,
  )
  | inr long ↦
      let (h, a, is_head, left, fits) = utf8_head_prefix s max in
      (
        record { head = h; tail = []; omitted = bytes (len s - len h) },
        a,
        rw (long, is_head),
        left,
        omega (arith, ap len left, len-append h a),
        refl,
        fits,
      )
]

-- The window of a text that does not fit.
pub head_tail_long :
    (s : Str) (head tail : ℕ)
    → head + tail < len s
    → (h t : Str) × (n : ℕ) × (head_tail s head tail
        ≡ some (record { head = h; tail = t; omitted = bytes n }))
      × (len h + len t ≤ head + tail)
      × (n ≤ len s)
unfolding head_tail
head_tail_long s head tail long =
    let (h, a, is_head, left, head_fits) = utf8_head_prefix s head in
    let (t, b, is_tail, right, tail_fits) = utf8_tail_suffix s tail in
    (
      h,
      t,
      len s - (len h + len t),
      rw (too_long (len s) (head + tail) long, is_head, is_tail) refl,
      omega arith,
      omega arith,
    )
  where
    too_long : (l m : ℕ) → m < l → leb l m ≡ false
    too_long l m h = ground arith

len-newline_or_not : (b : Bool) → len (if b then 10 ∷ [] else []) ≤ 1
unfolding len
len-newline_or_not b = ground arith

len-tail_part : (t : Str) → len (if is_empty t then [] else 10 ∷ t) ≤ len t + 1
unfolding len
len-tail_part [] = omega arith
len-tail_part (c ∷ t) = omega arith

-- A rendered window is its head, the marker and its tail, with two line breaks at most.
pub len-render :
    (w : TextWindow) (marker : Str) (n : ℕ)
    → w.omitted ≡ bytes n
    → len (render w marker) ≤ len w.head + len marker + len w.tail + 2
unfolding render
len-render w marker n e =
    let breaks = not (is_empty w.head) && not (ends_with w.head 10) in
    let brk : Str = if breaks then 10 ∷ [] else [] in
    let end : Str = if is_empty w.tail then [] else 10 ∷ w.tail in
    rw e (
      omega (
        arith,
        len-append w.head (brk ++ (marker ++ end)),
        len-append brk (marker ++ end),
        len-append marker end,
        len-newline_or_not breaks,
        len-tail_part w.tail,
      ))

front_len : len (str "[… ") ≡ 5
unfolding len
front_len = refl

short_len : len (str " bytes omitted …]") ≡ 19
unfolding len
short_len = refl

middle_len : len (str " bytes omitted; ") ≡ 16
unfolding len
middle_len = refl

back_len : len (str " …]") ≡ 5
unfolding len
back_len = refl

-- The notice of a cut is the recovery hint with 46 bytes round it, at most.
pub len-notice :
    (n : ℕ) (recovery : Str) → n < 2 ^ 64 → len (notice (bytes n) recovery) ≤ len recovery + 46
unfolding notice
len-notice n [] h = omega (
  arith,
  len-append (str "[… ") (decimal n ++ str " bytes omitted …]"),
  len-append (decimal n) (str " bytes omitted …]"),
  len-decimal n h,
  front_len,
  short_len,
)
len-notice n (c ∷ r) h = omega (
  arith,
  len-append (str "[… ") (decimal n ++ (str " bytes omitted; " ++ ((c ∷ r) ++ str " …]"))),
  len-append (decimal n) (str " bytes omitted; " ++ ((c ∷ r) ++ str " …]")),
  len-append (str " bytes omitted; ") ((c ∷ r) ++ str " …]"),
  len-append (c ∷ r) (str " …]"),
  len-decimal n h,
  front_len,
  middle_len,
  back_len,
)
