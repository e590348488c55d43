-- ===== src/CharClass/Rfc822.antt =====
-- The classes of RFC 822.
use sope_appserver.CharClass.{one_of, between}
use sope_appserver.Prelude.{ℕ, Bool, not, ◌&&◌, ◌||◌, [], ◌∷◌, ltb, ◌==◌}

abbrev pub is_special_byte : ℕ → Bool
is_special_byte =
    one_of (
      b'(' ∷ b')' ∷ b'<' ∷ b'>' ∷ b'@' ∷ b',' ∷ b';' ∷ b':' ∷ b'"' ∷ b'\\' ∷ b'.' ∷ b'[' ∷ b']'
      ∷ [])

abbrev pub is_cr : ℕ → Bool
is_cr c = c == 13

abbrev pub is_lf : ℕ → Bool
is_lf c = c == 10

abbrev pub is_htab : ℕ → Bool
is_htab c = c == 9

abbrev pub is_space : ℕ → Bool
is_space c = c == 32

abbrev pub is_quote : ℕ → Bool
is_quote c = c == 34

abbrev pub is_char : ℕ → Bool
is_char c = ltb c 128

abbrev pub is_ctl : ℕ → Bool
is_ctl c = ltb c 32 || c == 127

abbrev pub is_alpha : ℕ → Bool
is_alpha c = between 65 90 c || between 97 122 c

abbrev pub is_digit : ℕ → Bool
is_digit c = between 48 57 c

abbrev pub is_lwsp : ℕ → Bool
is_lwsp c = is_space c || is_htab c

abbrev pub is_field_name_char : ℕ → Bool
is_field_name_char c = is_char c && not (is_ctl c || is_space c || c == b':')

abbrev pub is_atom_char : ℕ → Bool
is_atom_char c = is_char c && not (is_special_byte c || is_space c || is_ctl c)
