-- ===== src/Descriptor/Header.antt =====
-- NGBufferedDescriptor_writeHttpHeader: one `key: value` line, with the value encoded if it holds a
-- line break.
pub mod Encoding
pub mod Emission
use sope_appserver.Prelude.{
  ℕ, zero, suc, ◌+◌, ◌/◌, ◌%◌, Bool, true, false, ◌||◌, [], ◌∷◌, ◌++◌, ◌==◌, if◌then◌else◌, Bytes,
  codes,
}
use sope_appserver.Socket.{Socket}
use sope_appserver.Descriptor.State.{Descriptor}
use sope_appserver.Descriptor.Output.{Written, written, no_peer, write_error, write, safe_write}
use sope_appserver.Descriptor.Output.Steps.{Step, ◌>>◌, done}

abbrev pub is_break : ℕ → Bool
is_break c = c == b'\n' || c == b'\r'

-- `index(value, '\n') != NULL || index(value, '\r') != NULL`.
abbrev pub has_break : Bytes → Bool
has_break [] = false
has_break (c ∷ cs) = is_break c || has_break cs

abbrev pub is_special : ℕ → Bool
is_special c = c == b'%' || is_break c

-- `sprintf(buf, "%%%02i", c)`, for a number of at most two digits.
abbrev pub percent_code : ℕ → Bytes
percent_code c = b'%' ∷ (b'0' + c / 10) ∷ (b'0' + c % 10) ∷ []

abbrev pub escape_char : ℕ → Bytes
escape_char c = if is_special c then percent_code c else c ∷ []

abbrev pub line_end : Bytes
line_end = b'\r' ∷ b'\n' ∷ []

abbrev pub separator : Bytes
separator = b':' ∷ b' ' ∷ []

module _ {W : Type 0} where
  -- `write(...) <= 0` is a failure.
  abbrev pub positive : Written × Descriptor × W → Bool × Descriptor × W
  positive (written zero, d, w) = (false, d, w)
  positive (written (suc n), d, w) = (true, d, w)
  positive (no_peer, d, w) = (false, d, w)
  positive (write_error, d, w) = (false, d, w)

  module _ (sock : Socket W) where
    unfoldable pub write_char : ℕ → Step W
    write_char c d w = positive (write sock (escape_char c) d w)

    -- The loop over the value, a `write` for each character.
    unfoldable pub write_escaped : Bytes → Step W
    unfolding write_char
    write_escaped [] = done
    write_escaped (c ∷ cs) = write_char c >> write_escaped cs

    unfoldable pub write_value : Bytes → Step W
    unfolding write_escaped
    write_value v = if has_break v then write_escaped v else safe_write sock v

    unfoldable pub write_http_header : Bytes → Bytes → Step W
    unfolding write_value
    write_http_header key v =
        safe_write sock key
        >> safe_write sock separator
        >> write_value v
        >> safe_write sock line_end
        >> done
