-- ===== src/Prelude/Str.antt =====
-- Rust's `str`: a sequence of Unicode scalar values, whose byte positions are those of their UTF-8
-- encoding. What the program uses of the standard library's strings is modelled here.
use Prim.Native.Char.{code}
use Prim.Native.String.{String}
use Prim.Native.Nat.{ℕ, ◌+◌, ◌-◌}
use mathlib.Core.Path.{◌≡◌}
use mathlib.Core.Logic.{◌↔◌}
use mathlib.Core.Bool.{Bool, true, false, ◌&&◌, ◌||◌}
use mathlib.Core.List.{List, [], ◌∷◌, ◌++◌}
use mathlib.Core.Option
use mathlib.Core.Option.{Option, none, some}
use native.Mathlib.Omega.{arith}
use sica_rust.Prelude.Tests.{ltb, leb, ◌==◌, if◌then◌else◌}

-- A text, as the list of its scalar values.
abbrev pub Str : Type 0
Str = List ℕ

-- A literal.
abbrev pub str : String → Str
str String.[] = []
str (String.◌∷◌ c s) = code c ∷ str s

-- Bytes that a scalar value takes in UTF-8 (`char::len_utf8`).
abbrev pub width : ℕ → ℕ
width c = if ltb c 0x80 then 1 else if ltb c 0x800 then 2 else if ltb c 0x10000 then 3 else 4

-- `str::len`, in bytes.
unfoldable pub len : Str → ℕ
len [] = 0
len (c ∷ s) = width c + len s

-- `str::is_char_boundary`.
unfoldable pub is_char_boundary : Str → ℕ → Bool
is_char_boundary [] i = i == 0
is_char_boundary (c ∷ s) i =
    let rest = is_char_boundary s (i - width c) in i == 0 || (leb (width c) i && rest)

-- `&s[..i]`; `none` is the panic of an index that is no boundary.
unfoldable pub slice_to : Str → ℕ → Option Str
slice_to [] i = if i == 0 then some [] else none
slice_to (c ∷ s) i =
    let rest = slice_to s (i - width c) in
    if i == 0 then some [] else if leb (width c) i then Option.map (◌∷◌ c) rest else none

-- `&s[i..]`.
unfoldable pub slice_from : Str → ℕ → Option Str
slice_from [] i = if i == 0 then some [] else none
slice_from (c ∷ s) i =
    let rest = slice_from s (i - width c) in
    if i == 0 then some (c ∷ s) else if leb (width c) i then rest else none

abbrev pub is_empty : Str → Bool
is_empty [] = true
is_empty (_ ∷ _) = false

-- `str::ends_with` of one character.
abbrev pub ends_with : Str → ℕ → Bool
ends_with [] c = false
ends_with (d ∷ []) c = d == c
ends_with (d ∷ e ∷ s) c = ends_with (e ∷ s) c

-- Equality of texts.
unfoldable pub str_eq : Str → Str → Bool
str_eq [] [] = true
str_eq (c ∷ s) (d ∷ t) = c == d && str_eq s t
str_eq _ _ = false

pub str_eq_iff : (s t : Str) → (str_eq s t ≡ true) ↔ (s ≡ t)
unfolding str_eq
str_eq_iff [] [] = ground arith
str_eq_iff (c ∷ s) (d ∷ t) = ground (arith, str_eq_iff s t)
str_eq_iff [] (_ ∷ _) = ground arith
str_eq_iff (_ ∷ _) [] = ground arith

pub len-append : (s t : Str) → len (s ++ t) ≡ len s + len t
unfolding len
len-append [] t = omega arith
len-append (c ∷ s) t = omega (arith, len-append s t)
