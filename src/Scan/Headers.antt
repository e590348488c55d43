-- ===== src/Scan/Headers.antt =====
-- NGScanHeaders.
use sope_appserver.Prelude.{
  ℕ, zero, suc, Bool, not, Option, none, some, ◌==◌, if◌then◌else◌, Bytes, length, is_space,
}
use sope_appserver.Scan.ResponseLine.{is_char_at}
use sope_appserver.Scan.Source.{Read, pure, ◌>>=◌, is_char, next, collect, skip}

abbrev pub in_name : ℕ → Bool
in_name c = not (c == b':')

abbrev pub in_value : ℕ → Bool
in_value c = not (c == b'\r')

-- A header that has been read whole; `none` where the code leaves its loop.
abbrev pub Header : Type 0
Header = Option (Bytes × Bytes)

module _ {S : Type 0} (read_char : S → Option ℕ × S) where
  -- What follows the value.
  unfoldable pub scan_header_end : Bytes → Bytes → Option ℕ → Read S Header
  scan_header_end name value c =
      if is_char_at b'\n' c
      then pure (some (name, value))
      else if is_char_at b'\r' c
      then (do c₁ ← next read_char; pure (if is_char_at b'\n' c₁ then some (name, value) else none))
      else pure none

  unfoldable pub scan_value : Bytes → Option ℕ → Read S Header
  unfolding scan_header_end
  scan_value name c = do
    (value, c₁) ← collect read_char in_value 7999 c
    if length value == 0 then pure none else scan_header_end name value c₁

  unfoldable pub scan_header : ℕ → Option ℕ → Read S Header
  unfolding scan_value
  scan_header rounds c = do
    (name, c₁) ← collect read_char in_name 255 c
    if length name == 0
        then pure none
        else if is_char_at b':' c₁
        then (do c₂ ← next read_char; c₃ ← skip read_char is_space rounds c₂; scan_value name c₃)
        else pure none

  -- The tests at the head of the loop.
  unfoldable pub scan_line : ℕ → Read S Header
  unfolding scan_header
  scan_line rounds = do
    c ← next read_char
    if is_char c
        then if is_char_at b'\n' c
          then pure none
          else if is_char_at b'\r' c
          then (do c₁ ← next read_char; pure none)
          else scan_header rounds c
        else pure none

  -- Apache's table, made by `apr_table_make` and filled by `apr_table_set`.
  module _ {T : Type 0} (table_set : T → Bytes → Bytes → T) where
    abbrev pub loop_on : (T → Read S T) → T → Header → Read S T
    loop_on again t none = pure t
    loop_on again t (some (name, value)) = again (table_set t name value)

    unfoldable pub header_loop : ℕ → T → Read S T
    unfolding scan_line
    header_loop zero t = λ s. none
    header_loop (suc rounds) t = scan_line rounds >>= loop_on (header_loop rounds) t

    -- `none` is a table that could not be made.
    unfoldable pub scan_headers : ℕ → Option T → Read S (Option T)
    unfolding header_loop
    scan_headers rounds none = pure none
    scan_headers rounds (some t) = header_loop rounds t >>= λ filled. pure (some filled)
