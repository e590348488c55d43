-- ===== src/QuotedPrintable/Coding.antt =====
-- Decoding what has been encoded, and the room that both take.
use sope_appserver.Prelude.{
  ℕ, zero, suc, ◌+◌, ◌*◌, ◌/◌, ◌%◌, ◌^◌, ◌<◌, ◌≤◌, ◌≡◌, refl, ap, ap₂, ◌∙◌, inl, inr, true, false,
  some, [], ◌∷◌, ◌++◌, arith, ltb, ◌==◌, Bytes, length, All, Bool-cases,
}
use sope_appserver.QuotedPrintable.{
  hex_to_char, byte_of, is_break, stored, plain_char, decode, decode_quoted_printable, hex_digit,
  needs_no_quoting, encode, encode_quoted_printable, needs_encoding, quoted_printable_encoding,
  rfc2047_decoding,
}

abbrev pub IsByte : ℕ → Type 0
IsByte c = c < 256

-- What becomes of each byte: an underscore comes back as a blank.
abbrev pub underscores_lost : Bytes → Bytes
underscores_lost [] = []
underscores_lost (c ∷ cs) = plain_char c ∷ underscores_lost cs

hex_round : (n : ℕ) → n < 16 → hex_to_char (hex_digit n) ≡ some n
unfolding hex_to_char hex_digit
hex_round n h = ground arith

byte_round :
    (h l : ℕ)
    → h < 16
    → l < 16
    → byte_of (hex_to_char (hex_digit h)) (hex_to_char (hex_digit l)) ≡ some (16 * h + l)
byte_round h l p q = ap₂ byte_of (hex_round h p) (hex_round l q) ∙ (unfold byte_of in refl)

hex_not_break : (n : ℕ) → n < 16 → is_break (hex_digit n) ≡ false
unfolding hex_digit
hex_not_break n h = ground arith

-- The text that stands for a byte.
abbrev pub code_of : ℕ → Bytes
code_of c = elim (needs_no_quoting c) [
  | true ↦ c ∷ []
  | false ↦ b'=' ∷ hex_digit (c / 16 % 16) ∷ hex_digit (c % 16) ∷ []
]

abbrev pub codes_of : Bytes → Bytes
codes_of [] = []
codes_of (c ∷ cs) = code_of c ++ codes_of cs

encode-codes_of :
    (cs : Bytes) (room : ℕ) → 3 * length cs ≤ room → encode cs room ≡ (true, codes_of cs)
unfolding encode
encode-codes_of [] room h = refl
encode-codes_of (c ∷ cs) zero h = absurd (omega arith)
encode-codes_of (c ∷ cs) (suc zero) h = absurd (omega arith)
encode-codes_of (c ∷ cs) (suc (suc zero)) h = absurd (omega arith)
encode-codes_of (c ∷ cs) (suc (suc (suc r))) h = elim (Bool-cases (needs_no_quoting c)) [
  | inl plain ↦
      rw (encode, codes_of, code_of, plain)
        (rw (encode-codes_of cs (suc (suc r)) (omega arith)) refl)
  | inr quoted ↦
      rw (encode, codes_of, code_of, quoted) (rw (encode-codes_of cs r (omega arith)) refl)
]

module _ (past : ℕ) where
  decode-plain :
      (c : ℕ) (cs : Bytes) (room : ℕ)
      → (c == b'=') ≡ false
      → decode past (c ∷ cs) (suc room) ≡ stored (plain_char c) (decode past cs room)
  unfolding decode
  decode-plain c [] room e = rw e refl
  decode-plain c (a ∷ []) room e = rw (decode, e) refl
  decode-plain c (a ∷ b ∷ cs) room e = rw (decode, e) refl

  decode-quoted :
      (h l : ℕ) (cs : Bytes) (room : ℕ)
      → h < 16
      → l < 16
      → decode past (b'=' ∷ hex_digit h ∷ hex_digit l ∷ cs) (suc room)
        ≡ stored (16 * h + l) (decode past cs room)
  unfolding decode
  decode-quoted h l cs room p q = rw (decode, hex_not_break h p) (rw (byte_round h l p q) refl)

  -- Decoding in enough room takes the text of a byte back, but for an underscore.
  decode-code_of :
      (c : ℕ) (cs : Bytes) (room : ℕ)
      → c < 256
      → decode past (code_of c ++ cs) (suc room) ≡ stored (plain_char c) (decode past cs room)
  decode-code_of c cs room h = elim (Bool-cases (needs_no_quoting c)) [
    | inl plain ↦ rw (◌++◌, code_of, plain) (decode-plain c cs room (ground arith))
    | inr quoted ↦
        rw (◌++◌, code_of, quoted)
          (decode-quoted (c / 16 % 16) (c % 16) cs room (omega arith) (omega arith)
            ∙ ap (λ b. stored b (decode past cs room)) (ground arith))
  ]

  decode-codes_of :
      (cs : Bytes) (room : ℕ)
      → All IsByte cs
      → length cs ≤ room
      → decode past (codes_of cs) room ≡ (true, underscores_lost cs)
  decode-codes_of [] room h k = unfold decode in refl
  decode-codes_of (c ∷ cs) zero h k = absurd (omega arith)
  decode-codes_of (c ∷ cs) (suc room) (h, hs) k =
      decode-code_of c (codes_of cs) room h
      ∙ ap (stored (plain_char c)) (decode-codes_of cs room hs (omega arith))

ltb-false : (a b : ℕ) → b ≤ a → ltb a b ≡ false
ltb-false a b h = ground arith

shorter_than_code : (cs : Bytes) → length cs ≤ length (codes_of cs)
shorter_than_code [] = omega arith
shorter_than_code (c ∷ cs) = elim (Bool-cases (needs_no_quoting c)) [
  | inl plain ↦ rw (codes_of, code_of, plain) (omega (arith, shorter_than_code cs))
  | inr quoted ↦ rw (codes_of, code_of, quoted) (omega (arith, shorter_than_code cs))
]

-- A text with a byte above 127 is encoded, and what is decoded from that, as from an encoded word
-- with the letter q, is the text with each underscore replaced by a blank; for fewer than
-- 1431655765 bytes.
pub rfc2047_decoding-quoted_printable_encoding :
    (past : ℕ) (bytes : Bytes)
    → All IsByte bytes
    → needs_encoding bytes ≡ true
    → length bytes * 3 + 1 < 2 ^ 32
    → rfc2047_decoding past b'q' (quoted_printable_encoding bytes) ≡ some (underscores_lost bytes)
unfolding rfc2047_decoding quoted_printable_encoding
rfc2047_decoding-quoted_printable_encoding past bytes h e k = rw (e, encoded, decoded) refl
  where
    encoded : encode_quoted_printable bytes (length bytes * 3 % 2 ^ 32) ≡ (true, codes_of bytes)
    encoded =
        unfold encode_quoted_printable in
        rw (ltb-false (length bytes * 3 % 2 ^ 32) (length bytes) (omega arith))
          (encode-codes_of bytes (length bytes * 3 % 2 ^ 32) (omega arith))

    decoded :
        decode_quoted_printable past (codes_of bytes) (length (codes_of bytes))
        ≡ (true, underscores_lost bytes)
    decoded =
        unfold decode_quoted_printable in
        rw (ltb-false (length (codes_of bytes)) (length (codes_of bytes)) (omega arith))
          (decode-codes_of past bytes (length (codes_of bytes)) h (shorter_than_code bytes))
