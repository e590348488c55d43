-- ===== src/Base64.antt =====
-- sope-core/NGExtensions/NGBase64Coding.m: the functions that encode and decode, and the methods of
-- NSData on them.
pub mod Coding
pub mod RoundTrip
use sope_appserver.Prelude.{
  ℕ, zero, suc, ◌+◌, ◌*◌, ◌/◌, ◌%◌, Bool, true, false, not, ltb, ◌-◌, ◌^◌, ◌&&◌, ◌||◌, Option, none,
  some, [], ◌∷◌, ◌++◌, leb, ◌==◌, if◌then◌else◌, Bytes, length, codes,
}

abbrev pub between : ℕ → ℕ → ℕ → Bool
between low high c = leb low c && leb c high

unfoldable pub is_base64 : ℕ → Bool
is_base64 a =
    between b'A' b'Z' a
    || (between b'a' b'z' a || (between b'0' b'9' a || (a == b'+' || a == b'/')))

-- An array at an index; behind its end there is nothing to read.
abbrev pub entry : Bytes → ℕ → ℕ
entry [] n = 0
entry (c ∷ cs) zero = c
entry (c ∷ cs) (suc n) = entry cs n

-- `base64tab`.
abbrev pub base64_tab : Bytes
base64_tab = codes "ABCDEFGHIJKLMNOPQRSTUVWXYZabcdefghijklmnopqrstuvwxyz0123456789+/"

-- `base64idx`, each entry as `& 0xFF` takes it.
abbrev pub base64_idx : Bytes
base64_idx =
    255 ∷ 255 ∷ 255 ∷ 255 ∷ 255 ∷ 255 ∷ 255 ∷ 255 ∷ 255 ∷ 255 ∷ 255 ∷ 255 ∷ 255 ∷ 255 ∷ 255 ∷ 255
    ∷ 255 ∷ 255 ∷ 255 ∷ 255 ∷ 255 ∷ 255 ∷ 255 ∷ 255 ∷ 255 ∷ 255 ∷ 255 ∷ 255 ∷ 255 ∷ 255 ∷ 255 ∷ 255
    ∷ 255 ∷ 255 ∷ 255 ∷ 255 ∷ 255 ∷ 255 ∷ 255 ∷ 255 ∷ 255 ∷ 255 ∷ 255 ∷ 62 ∷ 255 ∷ 255 ∷ 255 ∷ 63
    ∷ 52 ∷ 53 ∷ 54 ∷ 55 ∷ 56 ∷ 57 ∷ 58 ∷ 59 ∷ 60 ∷ 61 ∷ 255 ∷ 255 ∷ 255 ∷ 255 ∷ 255 ∷ 255 ∷ 255 ∷ 0
    ∷ 1 ∷ 2 ∷ 3 ∷ 4 ∷ 5 ∷ 6 ∷ 7 ∷ 8 ∷ 9 ∷ 10 ∷ 11 ∷ 12 ∷ 13 ∷ 14 ∷ 15 ∷ 16 ∷ 17 ∷ 18 ∷ 19 ∷ 20 ∷ 21
    ∷ 22 ∷ 23 ∷ 24 ∷ 25 ∷ 255 ∷ 255 ∷ 255 ∷ 255 ∷ 255 ∷ 255 ∷ 26 ∷ 27 ∷ 28 ∷ 29 ∷ 30 ∷ 31 ∷ 32 ∷ 33
    ∷ 34 ∷ 35 ∷ 36 ∷ 37 ∷ 38 ∷ 39 ∷ 40 ∷ 41 ∷ 42 ∷ 43 ∷ 44 ∷ 45 ∷ 46 ∷ 47 ∷ 48 ∷ 49 ∷ 50 ∷ 51 ∷ 255
    ∷ 255 ∷ 255 ∷ 255 ∷ 255 ∷ []

unfoldable pub tab_char : ℕ → ℕ
tab_char n = entry base64_tab n

unfoldable pub index_of : ℕ → ℕ
index_of c = entry base64_idx c

-- The four characters of an encoded group, in terms of its bytes.
abbrev pub first_char : ℕ → ℕ
first_char c1 = tab_char (c1 / 4 % 64)

abbrev pub second_char : ℕ → ℕ → ℕ
second_char c1 c2 = tab_char (c1 % 4 * 16 + c2 / 16 % 16)

abbrev pub third_char : ℕ → ℕ → ℕ
third_char c2 c3 = tab_char (c2 % 16 * 4 + c3 / 64 % 4)

abbrev pub fourth_char : ℕ → ℕ
fourth_char c3 = tab_char (c3 % 64)

-- The line feed behind a group, if there is one.
abbrev pub after_line : Bool → Bytes → Bytes
after_line true cs = b'\n' ∷ cs
after_line false cs = cs

abbrev pub next_pos : Bool → ℕ → ℕ
next_pos true pos = pos + 5
next_pos false pos = pos + 4

-- With `_maxLineWidth` and `outPos`; three characters in, then what remains.
unfoldable pub encode_base64 : ℕ → ℕ → Bytes → Bytes
encode_base64 width pos [] = []
encode_base64 width pos (c1 ∷ []) = first_char c1 ∷ tab_char (c1 % 4 * 16) ∷ b'=' ∷ b'=' ∷ []
encode_base64 width pos (c1 ∷ c2 ∷ []) =
    first_char c1 ∷ second_char c1 c2 ∷ tab_char (c2 % 16 * 4) ∷ b'=' ∷ []
encode_base64 width pos (c1 ∷ c2 ∷ c3 ∷ src) =
    let full = (pos + 5) % (width + 1) == 0 in
    first_char c1
    ∷ second_char c1 c2
    ∷ third_char c2 c3
    ∷ fourth_char c3
    ∷ after_line full (encode_base64 width (next_pos full pos) src)

abbrev pub is_blank : ℕ → Bool
is_blank c = c == b'\r' || (c == b'\n' || (c == b' ' || c == b'\t'))

-- What a loop for one of the four characters ends with: the character, whether it has met with an
-- error, and the source behind it.
pub record Scan : Type 0 where
  pub char : ℕ
  pub wrong : Bool
  pub rest : Bytes

-- At the end of the source the character is the last one that was passed over.
unfoldable pub next_char : ℕ → Bytes → Scan
next_char a [] = record { char = a; wrong = false; rest = [] }
next_char a (c ∷ cs) = elim (is_base64 c || c == b'=') [
  | true ↦ record { char = c; wrong = false; rest = cs }
  | false ↦ let later = next_char c cs in record later { wrong = later.wrong || not (is_blank c) }
]

-- What four characters make: bytes after which the loop goes on or ends.
pub data Chunk : Type 0 where
  complete : ℕ → ℕ → ℕ → Chunk
  three_chunk : ℕ → ℕ → Chunk
  two_chunk : ℕ → Chunk
  invalid : Chunk

abbrev pub byte_1 : ℕ → ℕ → ℕ
byte_1 a1 a2 = index_of a1 % 64 * 4 + index_of a2 / 16 % 4

abbrev pub byte_2 : ℕ → ℕ → ℕ
byte_2 a2 a3 = index_of a2 % 16 * 16 + index_of a3 / 4 % 16

abbrev pub byte_3 : ℕ → ℕ → ℕ
byte_3 a3 a4 = index_of a3 % 4 * 64 + index_of a4 % 64

unfoldable pub chunk_of : ℕ → ℕ → ℕ → ℕ → Chunk
chunk_of a1 a2 a3 a4 =
    if is_base64 a1 && (is_base64 a2 && (is_base64 a3 && is_base64 a4))
    then complete (byte_1 a1 a2) (byte_2 a2 a3) (byte_3 a3 a4)
    else if is_base64 a1 && (is_base64 a2 && (is_base64 a3 && a4 == b'='))
    then three_chunk (byte_1 a1 a2) (byte_2 a2 a3)
    else if is_base64 a1 && (is_base64 a2 && (a3 == b'=' && a4 == b'='))
    then two_chunk (byte_1 a1 a2)
    else invalid

-- With whether there was an error so far and what is decoded behind the chunk. Behind a complete
-- chunk `isEndSeen` does not hold, since none of its characters is an equals sign.
abbrev pub after_chunk : Bool × Bytes → Chunk → Bool × Bytes
after_chunk (e, bs) (complete b1 b2 b3) = (e, b1 ∷ b2 ∷ b3 ∷ bs)
after_chunk x (three_chunk b1 b2) = (false, b1 ∷ b2 ∷ [])
after_chunk x (two_chunk b1) = (false, b1 ∷ [])
after_chunk x invalid = (false, [])

abbrev pub with_error : Bool → Bool × Bytes → Bool × Bytes
with_error wrong (e, bs) = (wrong || e, bs)

-- The loop: each round takes a character off the source, so as many rounds as there are characters
-- are enough.
unfoldable pub decode_loop : ℕ → Bytes → Bool × Bytes
unfolding next_char
decode_loop rounds [] = (false, [])
decode_loop zero (c ∷ cs) = (false, [])
decode_loop (suc rounds) (c ∷ cs) =
    let s1 = next_char 0 (c ∷ cs) in
    let s2 = next_char 0 s1.rest in
    let s3 = next_char 0 s2.rest in
    let s4 = next_char 0 s3.rest in
    with_error (s1.wrong || (s2.wrong || (s3.wrong || s4.wrong)))
      (after_chunk (decode_loop rounds s4.rest) (chunk_of s1.char s2.char s3.char s4.char))

abbrev pub checked : Bool × Bytes → Option Bytes
checked (true, bs) = none
checked (false, bs) = some bs

-- `none` is the -1.
unfoldable pub decode_base64 : Bytes → Option Bytes
unfolding decode_loop
decode_base64 src = checked (decode_loop (length src) src)

-- `_maxLineWidth` as the `size_t` that `outPos` is divided by, less one: a negative `int` is extended.
abbrev pub width_of : ℕ → ℕ
width_of line_length =
    if ltb line_length (2 ^ 31) then line_length else line_length + (2 ^ 64 - 2 ^ 32)

-- The division by the line length in the size of the destination, and that by the line width plus
-- one behind each group: by zero, or behind an overflow of the `int`.
abbrev pub divides_badly : ℕ → Bytes → Bool
divides_badly line_length src =
    line_length == 0
    || ((line_length == 2 ^ 31 - 1 || line_length == 2 ^ 32 - 1) && leb 3 (length src))

-- The methods of NSData. `none` is undefined behaviour here; below 2^31 bytes the size of the
-- destination does not wrap, and there is room for what is stored.
unfoldable pub data_by_encoding_base64 : ℕ → Bytes → Option Bytes
unfolding encode_base64
data_by_encoding_base64 line_length [] = some []
data_by_encoding_base64 line_length (c ∷ cs) =
    if divides_badly line_length (c ∷ cs)
    then none
    else some (encode_base64 (width_of line_length) 0 (c ∷ cs))

-- `none` is nil.
unfoldable pub data_by_decoding_base64 : Bytes → Option Bytes
unfolding decode_base64
data_by_decoding_base64 [] = some []
data_by_decoding_base64 (c ∷ cs) = decode_base64 (c ∷ cs)
