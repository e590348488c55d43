-- ===== src/CharClass/Mime.antt =====
-- The classes of MIME.
use sope_appserver.CharClass.Rfc822.{is_char, is_ctl, is_space}
use sope_appserver.CharClass.{one_of, between}
use sope_appserver.Prelude.{ℕ, Bool, not, ◌&&◌, ◌||◌, [], ◌∷◌}

abbrev pub is_special_byte : ℕ → Bool
is_special_byte = one_of (
    b'(' ∷ b')' ∷ b'<' ∷ b'>' ∷ b'@' ∷ b',' ∷ b';' ∷ b':' ∷ b'"' ∷ b'\\' ∷ b'/' ∷ b'=' ∷ b'[' ∷ b']'
    ∷ b'?' ∷ [])

abbrev pub is_token_char : ℕ → Bool
is_token_char c = is_char c && not (is_ctl c || is_space c || is_special_byte c)

abbrev pub is_safe_char : ℕ → Bool
is_safe_char c = between 33 60 c || between 62 126 c

abbrev pub is_valid_type_x_token_char : ℕ → Bool
is_valid_type_x_token_char c = not (is_space c)

abbrev pub is_valid_type_attribute_char : ℕ → Bool
is_valid_type_attribute_char c = is_token_char c
