-- ===== src/Tests/OnRetain.antt =====
-- Windows of a short text with a character of four bytes.
use sica_rust.Prelude.{◌≡◌, refl, some, [], ◌∷◌}
use sica_rust.Prelude.Str.{Str, len, slice_to, slice_from, is_char_boundary}
use sica_rust.Retain.{utf8_head, utf8_tail}

-- "a", a rocket of four bytes, "bc".
abbrev rocket : Str
rocket = 97 ∷ 128640 ∷ 98 ∷ 99 ∷ []

head_splits : utf8_head rocket 4 ≡ some (97 ∷ [])
unfolding utf8_head len slice_to is_char_boundary
head_splits = refl

tail_splits : utf8_tail rocket 5 ≡ some (98 ∷ 99 ∷ [])
unfolding utf8_tail len slice_from is_char_boundary
tail_splits = refl
