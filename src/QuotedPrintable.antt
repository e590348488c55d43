-- ===== src/QuotedPrintable.antt =====
-- The quoted-printable coding: the functions of sope-core/NGExtensions/NGQuotedPrintableCoding.m,
-- and their callers in sope-mime/NGMime/NGMimeUtilities.h.
pub mod Coding
pub mod Room
use sope_appserver.Base64.{data_by_decoding_base64}
use sope_appserver.Prelude.{
  ℕ, zero, suc, ◌+◌, ◌-◌, ◌*◌, ◌/◌, ◌%◌, ◌^◌, Bool, true, false, ◌&&◌, ◌||◌, Option, none, some, [],
  ◌∷◌, ltb, leb, ◌==◌, if◌then◌else◌, Bytes, length,
}

-- `__hexToChar`, where `none` is the -1.
unfoldable pub hex_to_char : ℕ → Option ℕ
hex_to_char c =
    if ltb 47 c && ltb c 58
    then some (c - 48)
    else if ltb 64 c && ltb c 71
    then some (c - 55)
    else if ltb 96 c && ltb c 103
    then some (c - 87)
    else none

-- The byte that two digits make.
unfoldable pub byte_of : Option ℕ → Option ℕ → Option ℕ
byte_of (some h) (some l) = some (16 * h + l)
byte_of _ none = none
byte_of none (some l) = none

abbrev pub is_break : ℕ → Bool
is_break c = c == b'\r' || c == b'\n'

-- `_dest[destCnt] = c; destCnt++`.
abbrev pub stored : ℕ → Bool × Bytes → Bool × Bytes
stored c (ok, bs) = (ok, c ∷ bs)

abbrev pub plain_char : ℕ → ℕ
plain_char c = if c == b'_' then 32 else c

-- `past` is the byte behind the source, which is read where the source ends one character behind an
-- equals sign. `room` is `_destLen - destCnt`. The
-- result is what has been stored, and whether the call succeeds; it answers -1 if not.
module _ (past : ℕ) where
  unfoldable pub decode : Bytes → ℕ → Bool × Bytes
  decode [] room = (true, [])
  decode (c ∷ cs) zero = (false, [])
  decode (c ∷ []) (suc room) = if c == b'=' then (false, []) else (true, plain_char c ∷ [])
  decode (c ∷ a ∷ []) (suc room) = elim (c == b'=') [
    | false ↦ stored (plain_char c) (decode (a ∷ []) room)
    | true ↦ elim (is_break a) [
      | true ↦ (true, [])
      | false ↦ elim (byte_of (hex_to_char a) (hex_to_char past)) [
        | some byte ↦ (true, byte ∷ [])
        | none ↦ elim room [ zero ↦ (true, []) | suc r ↦ (true, a ∷ past ∷ []) ]
      ]
    ]
  ]
  decode (c ∷ a ∷ b ∷ cs) (suc room) = elim (c == b'=') [
    | false ↦ stored (plain_char c) (decode (a ∷ b ∷ cs) room)
    | true ↦ elim (is_break a) [
      | true ↦ elim (is_break b) [
        | true ↦ decode cs (suc room)
        | false ↦ decode (b ∷ cs) (suc room)
      ]
      | false ↦ elim (byte_of (hex_to_char a) (hex_to_char b)) [
        | some byte ↦ stored byte (decode cs room)
        | none ↦ elim room [ zero ↦ (false, []) | suc r ↦ stored a (stored b (decode cs r)) ]
      ]
    ]
  ]

  -- NGDecodeQuotedPrintable.
  unfoldable pub decode_quoted_printable : Bytes → ℕ → Bool × Bytes
  unfolding decode
  decode_quoted_printable src dest_len =
      if ltb (length src) dest_len then (false, []) else decode src dest_len

-- `hexT`.
unfoldable pub hex_digit : ℕ → ℕ
hex_digit n = if ltb n 10 then b'0' + n else b'A' + (n - 10)

abbrev pub needs_no_quoting : ℕ → Bool
needs_no_quoting c =
    c == 9 || (c == 10 || (c == 13 || (ltb 31 c && ltb c 61 || ltb 61 c && ltb c 127)))

unfoldable pub encode : Bytes → ℕ → Bool × Bytes
encode [] room = (true, [])
encode (c ∷ cs) zero = (false, [])
encode (c ∷ cs) (suc room) = elim (needs_no_quoting c) [
  | true ↦ stored c (encode cs room)
  | false ↦ elim room [
    | zero ↦ (false, [])
    | suc zero ↦ (false, [])
    | suc (suc r) ↦
        stored b'=' (stored (hex_digit (c / 16 % 16)) (stored (hex_digit (c % 16)) (encode cs r)))
  ]
]

-- NGEncodeQuotedPrintable.
unfoldable pub encode_quoted_printable : Bytes → ℕ → Bool × Bytes
unfolding encode
encode_quoted_printable src dest_len =
    if ltb dest_len (length src) then (false, []) else encode src dest_len

abbrev pub or_data : Bytes → Bool × Bytes → Bytes
or_data bytes (false, bs) = bytes
or_data bytes (true, bs) = bs

-- Whether a byte is greater than 127.
unfoldable pub needs_encoding : Bytes → Bool
needs_encoding [] = false
needs_encoding (c ∷ cs) = ltb 127 c || needs_encoding cs

-- `_quotedPrintableEncoding`.
unfoldable pub quoted_printable_encoding : Bytes → Bytes
unfolding needs_encoding encode_quoted_printable
quoted_printable_encoding bytes =
    if needs_encoding bytes
    then or_data bytes (encode_quoted_printable bytes (length bytes * 3 % 2 ^ 32))
    else bytes

-- `_rfc2047Decoding`; `none` is nil.
unfoldable pub rfc2047_decoding : ℕ → ℕ → Bytes → Option Bytes
unfolding decode_quoted_printable
rfc2047_decoding past enc bytes =
    if enc == b'b' || enc == b'B'
    then data_by_decoding_base64 bytes
    else if enc == b'q' || enc == b'Q'
    then some (or_data bytes (decode_quoted_printable past bytes (length bytes)))
    else some bytes
