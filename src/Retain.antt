-- ===== src/Retain.antt =====
-- crates/sica-core/src/retain.rs: head and tail windows over text, with a notice of what was cut.
pub mod Bounds
pub mod Windows
use sica_rust.Prelude.{
  ℕ, zero, suc, ◌+◌, ◌-◌, ◌*◌, Bool, true, false, not, ◌&&◌, ◌||◌, Option, none, some, List, [],
  ◌∷◌, ◌++◌, if◌then◌else◌, ltb, leb, ◌>>=◌,
}
use sica_rust.Prelude.Str.{
  Str, str, len, is_char_boundary, slice_to, slice_from, is_empty, ends_with,
}
use sica_rust.Prelude.Decimal.{decimal}

-- What a window left out.
pub data Omitted : Type 0 where
  nothing : Omitted
  bytes : ℕ → Omitted

-- The retained parts of a text.
pub record TextWindow : Type 0 where
  pub head : Str
  pub tail : Str
  pub omitted : Omitted

-- The loop of `utf8_head`, from `end` downwards.
head_end : Str → ℕ → ℕ
head_end s zero = 0
head_end s (suc e) = elim (is_char_boundary s (suc e)) [ true ↦ suc e | false ↦ head_end s e ]

unfoldable pub utf8_head : Str → ℕ → Option Str
unfolding head_end
utf8_head s max = if leb (len s) max then some s else slice_to s (head_end s max)

-- The loop of `utf8_tail`, from `start` upwards; `fuel` is the bytes that are left.
tail_start : Str → ℕ → ℕ → ℕ
tail_start s zero start = start
tail_start s (suc fuel) start = elim (ltb start (len s) && not (is_char_boundary s start)) [
  | true ↦ tail_start s fuel (start + 1)
  | false ↦ start
]

unfoldable pub utf8_tail : Str → ℕ → Option Str
unfolding tail_start
utf8_tail s max = if leb (len s) max then some s else slice_from s (tail_start s max (len s - max))

unfoldable pub head_tail : Str → ℕ → ℕ → Option TextWindow
head_tail s head tail =
    if leb (len s) (head + tail)
    then some (record { head = s; tail = []; omitted = nothing })
    else do
      h ← utf8_head s head
      t ← utf8_tail s tail
      some (record { head = h; tail = t; omitted = bytes (len s - (len h + len t)) })

unfoldable pub head_only : Str → ℕ → Option TextWindow
head_only s max =
    if leb (len s) max then some (record { head = s; tail = []; omitted = nothing }) else do
      h ← utf8_head s max
      some (record { head = h; tail = []; omitted = bytes (len s - len h) })

unfoldable pub render : TextWindow → Str → Str
render w marker = elim w.omitted [
  | nothing ↦ w.head
  | bytes _ ↦
      w.head
      ++ ((if not (is_empty w.head) && not (ends_with w.head 10) then 10 ∷ [] else [])
          ++ (marker ++ (if is_empty w.tail then [] else 10 ∷ w.tail)))
]

unfoldable pub notice : Omitted → Str → Str
notice nothing recovery = []
notice (bytes n) recovery =
    if is_empty recovery
    then str "[… " ++ (decimal n ++ str " bytes omitted …]")
    else str "[… " ++ (decimal n ++ (str " bytes omitted; " ++ (recovery ++ str " …]")))
