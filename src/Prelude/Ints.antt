-- ===== src/Prelude/Ints.antt =====
-- C's `int` as an integer, and `strtol` and `atoi` of <stdlib.h>.
use Prim.Native.Nat.{ℕ, zero, suc, ◌+◌, ◌-◌, ◌*◌, ◌%◌, ◌^◌, min}
use mathlib.Core.List.{[], ◌∷◌}
use sope_appserver.Prelude.Chars.{is_space, is_digit}
use sope_appserver.Prelude.Lists.{Bytes}
use sope_appserver.Prelude.Tests.{◌==◌, ltb, if◌then◌else◌}

-- `negsuc n` is -(n + 1).
pub data ℤ : Type 0 where
  pos : ℕ → ℤ
  negsuc : ℕ → ℤ

abbrev pub negate : ℕ → ℤ
negate zero = pos 0
negate (suc n) = negsuc n

-- The number that a run of digits denotes, read from the left.
unfoldable pub digits_value : ℕ → Bytes → ℕ
digits_value acc [] = acc
digits_value acc (c ∷ cs) =
    let rest = digits_value (acc * 10 + (c - b'0')) cs in if is_digit c then rest else acc

-- An optional sign, then digits.
signed_number : Bytes → ℤ
unfolding digits_value
signed_number [] = pos 0
signed_number (c ∷ cs) =
    if c == b'-'
    then negate (digits_value 0 cs)
    else if c == b'+'
    then pos (digits_value 0 cs)
    else pos (digits_value 0 (c ∷ cs))

-- The number that a text begins with, behind white space.
unfoldable pub number_of : Bytes → ℤ
unfolding signed_number
number_of [] = pos 0
number_of (c ∷ cs) = let rest = number_of cs in if is_space c then rest else signed_number (c ∷ cs)

-- `strtol` with base 10 and a `long` of 64 bits: out of range it is the nearest bound.
unfoldable pub strtol : Bytes → ℤ
unfolding number_of
strtol s = elim (number_of s) [
  | pos n ↦ pos (min n (2 ^ 63 - 1))
  | negsuc n ↦ negsuc (min n (2 ^ 63 - 1))
]

-- The `int` with the 32 bits of a number.
abbrev int_of_bits : ℕ → ℤ
int_of_bits n = if ltb n (2 ^ 31) then pos n else negsuc (2 ^ 32 - 1 - n)

abbrev pub to_int : ℤ → ℤ
to_int (pos n) = int_of_bits (n % 2 ^ 32)
to_int (negsuc n) = int_of_bits (2 ^ 32 - 1 - n % 2 ^ 32)

-- `(int)strtol(s, NULL, 10)`, as the C library documents it. The C standard leaves a number that no
-- `int` holds undefined.
unfoldable pub atoi : Bytes → ℤ
unfolding strtol
atoi s = to_int (strtol s)
