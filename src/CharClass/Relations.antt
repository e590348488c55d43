-- ===== src/CharClass/Relations.antt =====
-- How the classes lie to one another.
use sope_appserver.CharClass.Rfc822.{is_atom_char, is_field_name_char}
use sope_appserver.CharClass.{one_of}
use sope_appserver.CharClass.Mime
use sope_appserver.CharClass.Url
use sope_appserver.Prelude.{ℕ, ◌≡◌, true, false, not, ◌&&◌, ◌||◌, [], ◌∷◌, arith, ◌==◌}

-- A character of a MIME token is a dot or one of an RFC 822 atom, and none of the three that only
-- MIME sets apart; and the other way round.
pub token-atom :
    (c : ℕ)
    → Mime.is_token_char c
      ≡ ((is_atom_char c || c == b'.') && not (one_of (b'/' ∷ b'=' ∷ b'?' ∷ []) c))
token-atom c = ground arith

atom-field : (c : ℕ) → is_atom_char c ≡ true → is_field_name_char c ≡ true
atom-field c h = ground arith

safe-token : (c : ℕ) → Mime.is_token_char c ≡ true → Mime.is_safe_char c ≡ true
safe-token c h = ground arith

-- No character of a URL is both reserved and usable as it is.
pub reserved-xalpha : (c : ℕ) → (Url.is_reserved_char c && Url.is_xalpha c) ≡ false
reserved-xalpha c = ground arith

hex-xalpha : (c : ℕ) → Url.is_hex_char c ≡ true → Url.is_alpha_num c ≡ true
hex-xalpha c h = ground arith
