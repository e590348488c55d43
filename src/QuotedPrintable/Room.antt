-- ===== src/QuotedPrintable/Room.antt =====
-- Neither function writes more than there is room for.
use sope_appserver.Prelude.{
  ℕ, zero, suc, ◌≤◌, Bool, true, false, Option, none, some, [], ◌∷◌, arith, ltb, ◌==◌, Bytes,
  length, if-holds,
}
use sope_appserver.QuotedPrintable.{
  hex_to_char, byte_of, is_break, stored, plain_char, decode, decode_quoted_printable,
  needs_no_quoting, encode, encode_quoted_printable,
}

-- So much has been stored at most, whether the call succeeds or not.
abbrev pub Fits : ℕ → Bool × Bytes → Type 0
Fits room (ok, bs) = length bs ≤ room

stored-Fits : (c room : ℕ) (x : Bool × Bytes) → Fits room x → Fits (suc room) (stored c x)
stored-Fits c room (ok, bs) h = omega arith

two-Fits :
    (a b room : ℕ) (f : ℕ → Bool × Bytes) (o : Bool × Bytes)
    → Fits 0 o
    → ((r : ℕ) → Fits r (f r))
    → Fits (suc room) (elim room [ zero ↦ o | suc r ↦ stored a (stored b (f r)) ])
two-Fits a b zero f (ok, bs) h k = omega arith
two-Fits a b (suc r) f o h k = let p = k r in omega (arith, p)

if-Fits :
    (room : ℕ) (b : Bool) (x y : Bool × Bytes)
    → Fits room x
    → Fits room y
    → Fits room (elim b [ true ↦ x | false ↦ y ])
if-Fits room true x y h k = h
if-Fits room false x y h k = k

byte-Fits :
    (room : ℕ) (b : Option ℕ) (f : ℕ → Bool × Bytes) (y : Bool × Bytes)
    → ((c : ℕ) → Fits room (f c))
    → Fits room y
    → Fits room (elim b [ some c ↦ f c | none ↦ y ])
byte-Fits room none f y h k = k
byte-Fits room (some c) f y h k = h c

decode-Fits : (past : ℕ) (src : Bytes) (room : ℕ) → Fits room (decode past src room)
unfolding decode
decode-Fits past [] room = omega arith
decode-Fits past (c ∷ cs) zero = omega arith
decode-Fits past (c ∷ []) (suc room) =
    if-holds (Fits (suc room)) (c == b'=') (omega arith) (omega arith)
decode-Fits past (c ∷ a ∷ []) (suc room) =
    if-Fits (suc room) (c == b'=') _ _
      (if-Fits (suc room) (is_break a) _ _ (omega arith) (
        byte-Fits (suc room) (byte_of (hex_to_char a) (hex_to_char past)) _ _ (λ byte. omega arith)
          (two-Fits a past room (λ r. (true, [])) (true, []) (omega arith) (λ r. omega arith))))
      (stored-Fits (plain_char c) room (decode past (a ∷ []) room) (decode-Fits past (a ∷ []) room))
decode-Fits past (c ∷ a ∷ b ∷ cs) (suc room) =
    if-Fits (suc room) (c == b'=') _ _
      (if-Fits (suc room) (is_break a) _ _
        (if-Fits (suc room) (is_break b) _ _ (decode-Fits past cs (suc room))
          (decode-Fits past (b ∷ cs) (suc room)))
        (byte-Fits (suc room) (byte_of (hex_to_char a) (hex_to_char b)) _ _
          (λ byte. stored-Fits byte room (decode past cs room) (decode-Fits past cs room))
          (two-Fits a b room (decode past cs) (false, []) (omega arith) (decode-Fits past cs))))
      (stored-Fits (plain_char c) room (decode past (a ∷ b ∷ cs) room)
        (decode-Fits past (a ∷ b ∷ cs) room))

encode-Fits : (src : Bytes) (room : ℕ) → Fits room (encode src room)
unfolding encode
encode-Fits [] room = omega arith
encode-Fits (c ∷ cs) zero = omega arith
encode-Fits (c ∷ cs) (suc zero) =
    if-Fits 1 (needs_no_quoting c) _ _ (stored-Fits c zero (encode cs zero) (encode-Fits cs zero))
      (omega arith)
encode-Fits (c ∷ cs) (suc (suc zero)) =
    if-Fits 2 (needs_no_quoting c) _ _ (stored-Fits c 1 (encode cs 1) (encode-Fits cs 1))
      (omega arith)
encode-Fits (c ∷ cs) (suc (suc (suc r))) =
    if-Fits (suc (suc (suc r))) (needs_no_quoting c) _ _
      (stored-Fits c (suc (suc r)) (encode cs (suc (suc r))) (encode-Fits cs (suc (suc r))))
      (let p = encode-Fits cs r in omega (arith, p))

-- Neither coding stores more bytes than the destination has room for, whether it succeeds or runs
-- out of room or into an error.
pub decode-encode-Fits :
    (past : ℕ) (src : Bytes) (dest_len : ℕ)
    → Fits dest_len (decode_quoted_printable past src dest_len)
      × Fits dest_len (encode_quoted_printable src dest_len)
unfolding decode_quoted_printable encode_quoted_printable
decode-encode-Fits past src dest_len = (
  if-holds (Fits dest_len) (ltb (length src) dest_len) (omega arith)
      (decode-Fits past src dest_len),
  if-holds (Fits dest_len) (ltb dest_len (length src)) (omega arith) (encode-Fits src dest_len),
)
