-- ===== src/Prelude/Trim.antt =====
-- `str::trim`, `char::is_whitespace` and ASCII case, of Rust's standard library.
use Prim.Native.Nat.{ℕ, ◌+◌}
use mathlib.Core.Bool.{Bool, ◌&&◌, ◌||◌}
use mathlib.Core.List.{[], ◌∷◌, map}
use sica_rust.Prelude.Tests.{leb, ◌==◌, if◌then◌else◌}
use sica_rust.Prelude.Str.{Str, is_empty}

-- The characters with the Unicode property White_Space.
unfoldable pub is_whitespace : ℕ → Bool
is_whitespace c =
    (leb 9 c && leb c 13)
    || (c == 0x20
        || (c == 0x85
            || (c == 0xa0
                || (c == 0x1680
                    || ((leb 0x2000 c && leb c 0x200a)
                        || (c == 0x2028
                            || (c == 0x2029 || (c == 0x202f || (c == 0x205f || c == 0x3000)))))))))

unfoldable pub trim_start : Str → Str
trim_start [] = []
trim_start (c ∷ s) = if is_whitespace c then trim_start s else c ∷ s

unfoldable pub trim_end : Str → Str
trim_end [] = []
trim_end (c ∷ s) =
    let rest = trim_end s in if is_empty rest && is_whitespace c then [] else c ∷ rest

unfoldable pub trim : Str → Str
unfolding trim_start trim_end is_whitespace
trim s = trim_start (trim_end s)

abbrev ascii_lower : ℕ → ℕ
ascii_lower c = if leb b'A' c && leb c b'Z' then c + 32 else c

-- `str::to_ascii_lowercase`.
unfoldable pub to_ascii_lowercase : Str → Str
to_ascii_lowercase = map ascii_lower
