-- ===== src/Call/Chars.antt =====
-- Classes of characters, and cuts of texts, of Rust's standard library that the tool-call parser uses.
use sica_rust.Prelude.{ℕ, Bool, Option, none, some, [], ◌∷◌, ◌==◌, ◌&&◌, ◌||◌, leb, if◌then◌else◌}
use sica_rust.Prelude.Str.{Str, str_eq}
use sica_rust.Prelude.Trim.{to_ascii_lowercase}

unfoldable pub is_ascii_lowercase : ℕ → Bool
is_ascii_lowercase c = leb b'a' c && leb c b'z'

unfoldable pub is_ascii_digit : ℕ → Bool
is_ascii_digit c = leb b'0' c && leb c b'9'

unfoldable pub is_ascii_alphabetic : ℕ → Bool
unfolding is_ascii_lowercase
is_ascii_alphabetic c = is_ascii_lowercase c || (leb b'A' c && leb c b'Z')

unfoldable pub is_ascii_alphanumeric : ℕ → Bool
unfolding is_ascii_alphabetic is_ascii_digit is_ascii_lowercase
is_ascii_alphanumeric c = is_ascii_alphabetic c || is_ascii_digit c

-- `u8::is_ascii_whitespace`, which has no vertical tab.
unfoldable pub is_ascii_whitespace : ℕ → Bool
is_ascii_whitespace c = c == b' ' || (c == b'\t' || (c == b'\n' || (c == 12 || c == b'\r')))

abbrev pub quote : ℕ
quote = b'\''

abbrev pub double_quote : ℕ
double_quote = b'"'

abbrev pub backslash : ℕ
backslash = b'\\'

abbrev pub is_quote : ℕ → Bool
is_quote c = c == quote || c == double_quote

unfoldable pub eq_ignore_ascii_case : Str → Str → Bool
unfolding to_ascii_lowercase str_eq
eq_ignore_ascii_case s t = str_eq (to_ascii_lowercase s) (to_ascii_lowercase t)

-- `s.split('\n').next()`.
abbrev pub first_line : Str → Str
first_line [] = []
first_line (c ∷ s) = if c == b'\n' then [] else c ∷ first_line s

-- The text after the first line break, with `none` where there is none.
abbrev pub after_line : Str → Option Str
after_line [] = none
after_line (c ∷ s) = if c == b'\n' then some s else after_line s
