-- ===== src/CharClass/Url.antt =====
-- The classes of characters in URLs.
use sope_appserver.CharClass.{one_of, between}
use sope_appserver.Prelude.{ℕ, Bool, ◌||◌, [], ◌∷◌, ◌==◌}

abbrev pub is_alpha : ℕ → Bool
is_alpha c = between b'a' b'z' c || between b'A' b'Z' c

abbrev pub is_digit : ℕ → Bool
is_digit c = between b'0' b'9' c

abbrev pub is_safe_char : ℕ → Bool
is_safe_char = one_of (b'$' ∷ b'-' ∷ b'_' ∷ b'@' ∷ b'.' ∷ b'&' ∷ b'+' ∷ [])

abbrev pub is_extra_char : ℕ → Bool
is_extra_char = one_of (b'!' ∷ b'*' ∷ b'"' ∷ b'\'' ∷ b'|' ∷ b',' ∷ [])

abbrev pub is_escape_char : ℕ → Bool
is_escape_char c = c == b'%'

abbrev pub is_reserved_char : ℕ → Bool
is_reserved_char = one_of (b'=' ∷ b';' ∷ b'/' ∷ b'#' ∷ b'?' ∷ b':' ∷ b' ' ∷ [])

abbrev pub is_xalpha : ℕ → Bool
is_xalpha c =
    is_alpha c || (is_digit c || (is_safe_char c || (is_extra_char c || is_escape_char c)))

abbrev pub is_hex_char : ℕ → Bool
is_hex_char c = is_digit c || (between b'a' b'f' c || between b'A' b'F' c)

abbrev pub is_alpha_num : ℕ → Bool
is_alpha_num c = is_alpha c || is_digit c
