-- ===== src/Prelude/Split.antt =====
-- `str::split_once` at the first character that is whitespace.
use Prim.Native.Nat.{ℕ}
use mathlib.Core.List.{[], ◌∷◌}
use mathlib.Core.Option
use mathlib.Core.Option.{Option, none, some}
use sica_rust.Prelude.Tests.{if◌then◌else◌}
use sica_rust.Prelude.Str.{Str}
use sica_rust.Prelude.Trim.{is_whitespace}

abbrev before_cons : ℕ → Str × Str → Str × Str
before_cons c (word, rest) = (c ∷ word, rest)

unfoldable pub split_once_whitespace : Str → Option (Str × Str)
unfolding is_whitespace
split_once_whitespace [] = none
split_once_whitespace (c ∷ s) =
    let rest = split_once_whitespace s in
    if is_whitespace c then some ([], s) else Option.map (before_cons c) rest
