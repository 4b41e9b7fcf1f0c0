-- ===== src/Prelude/Search.antt =====
-- Searching a `str` for a pattern, as Rust's standard library does it. A match is at character
-- boundaries, so the slices before and after it are the two halves that are returned.
use Prim.Native.Nat.{ℕ}
use mathlib.Core.Bool.{Bool, ◌||◌}
use mathlib.Core.List.{[], ◌∷◌}
use mathlib.Core.Option
use mathlib.Core.Option.{Option, none, some}
use sica_rust.Prelude.Tests.{◌==◌, if◌then◌else◌}
use sica_rust.Prelude.Tests.{is_some}
use sica_rust.Prelude.Str.{Str, str_eq}

-- `str::strip_prefix`.
abbrev pub strip_prefix : Str → Str → Option Str
strip_prefix [] s = some s
strip_prefix (c ∷ p) [] = none
strip_prefix (c ∷ p) (d ∷ s) = if c == d then strip_prefix p s else none

abbrev pub starts_with : Str → Str → Bool
starts_with p s = is_some (strip_prefix p s)

abbrev pub behind : ℕ → Str × Str → Str × Str
behind c (front, rest) = (c ∷ front, rest)

abbrev split_here : Str → Option Str → Option (Str × Str) → Option (Str × Str)
split_here s none later = later
split_here s (some rest) later = some ([], rest)

-- `s.find(p)`, with the slices before the first match and after it (`str::split_once`).
unfoldable pub split_once : Str → Str → Option (Str × Str)
split_once p [] = split_here [] (strip_prefix p []) none
split_once p (c ∷ s) =
    let later = split_once p s in
    split_here (c ∷ s) (strip_prefix p (c ∷ s)) (Option.map (behind c) later)

-- `str::contains`.
abbrev pub contains : Str → Str → Bool
contains p s = is_some (split_once p s)

-- `str::ends_with` of a text.
abbrev pub ends_with_str : Str → Str → Bool
ends_with_str p [] = str_eq p []
ends_with_str p (c ∷ s) = str_eq p (c ∷ s) || ends_with_str p s

abbrev pub rsplit_here : ℕ → ℕ → Str → Option (Str × Str) → Option (Str × Str)
rsplit_here c d s (some (front, rest)) = some (d ∷ front, rest)
rsplit_here c d s none = if d == c then some ([], d ∷ s) else none

-- `s.rfind(c)`, with the slices before the last match and from it.
abbrev pub rsplit : ℕ → Str → Option (Str × Str)
rsplit c [] = none
rsplit c (d ∷ s) = rsplit_here c d s (rsplit c s)
