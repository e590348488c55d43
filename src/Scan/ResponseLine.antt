-- ===== src/Scan/ResponseLine.antt =====
-- NGScanResponseLine.
use sope_appserver.Prelude.{
  ℕ, Bool, true, false, not, ◌&&◌, Option, none, some, [], ◌==◌, if◌then◌else◌, Bytes, is_space, ℤ,
  pos, atoi,
}
use sope_appserver.Scan.Source.{Read, pure, ◌>>=◌, is_char, next, collect, skip}

-- The result and what is stored through the pointers (a null pointer takes nothing).
pub record ResponseLine : Type 0 where
  pub accepted : Bool
  pub version : Bytes
  pub status : ℤ
  pub text : Bytes

abbrev pub blank_line : ResponseLine
blank_line = record { accepted = false; version = []; status = pos 0; text = [] }

abbrev pub is_char_at : ℕ → Option ℕ → Bool
is_char_at x none = false
is_char_at x (some c) = c == x

-- A byte of the status code or of the reason.
abbrev pub in_word : ℕ → Bool
in_word c = not (is_space c) && (not (c == b'\r') && not (c == b'\n'))

abbrev pub in_version : ℕ → Bool
in_version c = not (is_space c)

abbrev pub before_line_end : ℕ → Bool
before_line_end c = not (c == b'\n')

module _ {S : Type 0} (read_char : S → Option ℕ × S) (rounds : ℕ) where
  unfoldable pub scan_reason : ResponseLine → Option ℕ → Read S ResponseLine
  scan_reason line c = do
    (text, c₁) ← collect read_char in_word 6 c
    let named = record line { text = text }
    if is_char c₁
        then (do
          c₂ ← skip read_char before_line_end rounds c₁
          pure (record named { accepted = is_char c₂ }))
        else pure named

  -- The character behind the status code and the blanks.
  unfoldable pub scan_after_code : ResponseLine → Option ℕ → Read S ResponseLine
  unfolding scan_reason
  scan_after_code line c =
      if is_char c
      then if is_char_at b'\n' c
        then pure (record line { accepted = true })
        else if is_char_at b'\r' c
        then (do c₁ ← next read_char; pure (record line { accepted = true }))
        else scan_reason line c
      else pure line

  unfoldable pub scan_code : ResponseLine → Option ℕ → Read S ResponseLine
  unfolding scan_after_code
  scan_code line c =
      if is_char c
      then (do
        (code, c₁) ← collect read_char in_word 6 c
        c₂ ← skip read_char is_space rounds c₁
        scan_after_code (record line { status = atoi code }) c₂)
      else pure line

  unfoldable pub scan_response_line : Read S ResponseLine
  unfolding scan_code
  scan_response_line = do
    c ← next read_char
    (version, c₁) ← collect read_char in_version 16 c
    let line = record blank_line { version = version }
    if is_char c₁ then (do c₂ ← skip read_char is_space rounds c₁; scan_code line c₂) else pure line
