-- ===== src/CharBuffer.antt =====
-- sope-core/NGExtensions/NGExtensions/NGCharBuffers.h: a growing buffer of characters with a NUL at
-- its end.
pub mod Strip
pub mod Refinement
pub mod Edits
use sope_appserver.Prelude.{
  ℕ, zero, suc, ◌+◌, ◌*◌, ◌%◌, ◌^◌, Bool, true, false, ◌||◌, ◌&&◌, Option, none, some, [], ◌∷◌,
  ◌++◌, ltb, leb, ◌==◌, if◌then◌else◌, Bytes, length, take, drop,
}

-- `cells` is the part of the block behind `buffer` that has been written so far, `allocated` the
-- size of the block. A write at an index behind `allocated` would be out of bounds.
pub record CharBuffer : Type 0 where
  pub capacity : ℕ
  pub size : ℕ
  pub increase_ratio : ℕ
  pub cells : Bytes
  pub allocated : ℕ

-- A computation on `unsigned`.
abbrev pub unsigned : ℕ → ℕ
unsigned n = n % 2 ^ 32

abbrev pub init : ℕ → CharBuffer
init capacity = record {
  capacity = capacity;
  size = 0;
  increase_ratio = 2;
  cells = 0 ∷ [];
  allocated = capacity;
}

-- The block is freed; a null pointer is left alone.
pub reset : Option CharBuffer → Option CharBuffer
reset none = none
reset (some b) =
    some (record { capacity = 0; size = 0; increase_ratio = 0; cells = []; allocated = 0 })

-- Behind this neither the structure nor its block is left.
pub dealloc : Option CharBuffer → Option CharBuffer
dealloc b = none

-- strcpy(3) into the new block; `size` stays 0.
unfoldable pub new_with_c_string : Bytes → CharBuffer
new_with_c_string s = record (init (unsigned (length s + 2))) { cells = s ++ 0 ∷ [] }

-- `buffer[n] = c`.
unfoldable pub set_cell : ℕ → ℕ → Bytes → Bytes
set_cell n c cells = take n cells ++ c ∷ drop (suc n) cells

-- strlen(3) of the buffer, and what stands before the first NUL and from it on.
unfoldable pub text_length : Bytes → ℕ
text_length [] = 0
text_length (c ∷ cells) = let rest = text_length cells in if c == 0 then 0 else suc rest

-- strcat(3).
unfoldable pub append_text : Bytes → Bytes → Bytes
unfolding text_length
append_text cells s =
    take (text_length cells) cells ++ (s ++ 0 ∷ drop (suc (text_length cells + length s)) cells)

abbrev pub grown_capacity : CharBuffer → ℕ → ℕ
grown_capacity b needed =
    let twice = unsigned (b.capacity * b.increase_ratio) in
    if ltb twice (unsigned (b.size + needed + 1)) then unsigned (twice + needed + 1) else twice

abbrev pub grow : CharBuffer → ℕ → CharBuffer
grow b needed = record b {
  capacity = grown_capacity b needed;
  cells = take (suc b.size) b.cells;
  allocated = unsigned (grown_capacity b needed + 2);
}

unfoldable pub check_capacity : CharBuffer → ℕ → CharBuffer
check_capacity b needed =
    if ltb b.capacity (unsigned (b.size + needed + 1)) then grow b needed else b

abbrev pub put_char : ℕ → CharBuffer → CharBuffer
put_char c b = record b {
  size = unsigned (suc b.size);
  cells = set_cell (unsigned (suc b.size)) 0 (set_cell b.size c b.cells);
}

unfoldable pub add_char : CharBuffer → ℕ → CharBuffer
unfolding check_capacity set_cell
add_char b c = put_char c (check_capacity b 1)

abbrev pub put_text : Bytes → CharBuffer → CharBuffer
put_text s b = record b { size = unsigned (b.size + length s); cells = append_text b.cells s }

-- A null pointer adds nothing.
unfoldable pub add_c_string : CharBuffer → Option Bytes → CharBuffer
unfolding check_capacity append_text
add_c_string b none = b
add_c_string b (some s) = put_text s (check_capacity b (length s))

unfoldable pub remove_contents : CharBuffer → CharBuffer
unfolding set_cell
remove_contents b = record b { size = 0; cells = set_cell 0 0 b.cells }

-- isspace(3) in the C locale, or a line break.
abbrev pub is_space : ℕ → Bool
is_space c = c == b' ' || leb 9 c && leb c 13

-- A cell that has not been written does not occur.
abbrev pub cell_at : ℕ → Bytes → ℕ
cell_at n [] = 0
cell_at zero (c ∷ cells) = c
cell_at (suc n) (c ∷ cells) = cell_at n cells

-- The loop, on `size`.
unfoldable pub strip_loop : ℕ → Bytes → ℕ
strip_loop zero cells = 0
strip_loop (suc n) cells =
    let rest = strip_loop n cells in if is_space (cell_at n cells) then rest else suc n

abbrev pub strip_to : ℕ → CharBuffer → CharBuffer
strip_to n b = record b { size = n; cells = set_cell n 0 b.cells }

unfoldable pub strip_trailing_spaces : Option CharBuffer → Option CharBuffer
unfolding strip_loop set_cell
strip_trailing_spaces none = none
strip_trailing_spaces (some b) =
    if b.size == 0 then some b else some (strip_to (strip_loop b.size b.cells) b)

-- What is returned for the buffer, which is freed: `nil`, a string, or a failed assertion on
-- `strlen(buffer) == length`.
pub data Made : Type 0 where
  no_string : Made
  string : Bytes → Made
  length_mismatch : Made

unfoldable pub make_string_and_dealloc : Option CharBuffer → Made
unfolding text_length
make_string_and_dealloc none = no_string
make_string_and_dealloc (some b) =
    if text_length b.cells == b.size then string (take b.size b.cells) else length_mismatch
