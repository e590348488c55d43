-- ===== src/Base64/RoundTrip.antt =====
-- Decoding what has been encoded.
use sope_appserver.Base64.Coding.{
  IsByte, round-lem, tab_token, pad_token, complete-tab, three-tab, two-tab,
}
use sope_appserver.Base64.{
  width_of, after_line, next_pos, tab_char, encode_base64, complete, after_chunk, with_error,
  decode_loop, checked, decode_base64, data_by_encoding_base64, data_by_decoding_base64, first_char,
  second_char, third_char, fourth_char, is_base64, next_char, chunk_of,
}
use sope_appserver.Prelude.{
  ℕ, zero, suc, ◌+◌, ◌*◌, ◌/◌, ◌%◌, ◌≤◌, ◌<◌, ◌≡◌, refl, ap, ◌∙◌, Bool, true, false, ltb, ◌-◌, ◌^◌,
  some, [], ◌∷◌, arith, ◌==◌, Bytes, length, All,
}

-- One group behind a line feed or not, with the bytes it stands for.
module _ (rounds : ℕ) (nl : Bool) (x y : ℕ) (hx : x < 64) (hy : y < 64) where
  complete_round :
      (z u b1 b2 b3 : ℕ) (cs bs : Bytes)
      → z < 64
      → u < 64
      → x % 64 * 4 + y / 16 % 4 ≡ b1
      → y % 16 * 16 + z / 4 % 16 ≡ b2
      → z % 4 * 64 + u % 64 ≡ b3
      → decode_loop rounds cs ≡ (false, bs)
      → decode_loop
          (suc rounds)
          (after_line nl (tab_char x ∷ tab_char y ∷ tab_char z ∷ tab_char u ∷ cs))
        ≡ (false, b1 ∷ b2 ∷ b3 ∷ bs)
  complete_round z u b1 b2 b3 cs bs hz hu e1 e2 e3 e =
      round-lem rounds nl (tab_char x) (tab_char y) (tab_char z) (tab_char u) cs (tab_token x hx)
        (tab_token y hy) (tab_token z hz) (tab_token u hu)
      ∙ ap (λ c. with_error false (after_chunk (decode_loop rounds cs) c))
          (complete-tab x y z u hx hy hz hu)
      ∙ (λ i. with_error false (after_chunk (e i) (complete (e1 i) (e2 i) (e3 i))))

  three_round :
      (z b1 b2 : ℕ)
      → z < 64
      → x % 64 * 4 + y / 16 % 4 ≡ b1
      → y % 16 * 16 + z / 4 % 16 ≡ b2
      → decode_loop (suc rounds) (after_line nl (tab_char x ∷ tab_char y ∷ tab_char z ∷ b'=' ∷ []))
        ≡ (false, b1 ∷ b2 ∷ [])
  three_round z b1 b2 hz e1 e2 =
      round-lem rounds nl (tab_char x) (tab_char y) (tab_char z) b'=' [] (tab_token x hx)
        (tab_token y hy) (tab_token z hz) pad_token
      ∙ ap (λ c. with_error false (after_chunk (decode_loop rounds []) c))
          (three-tab x y z z hx hy hz hz)
      ∙ (λ i. (false, e1 i ∷ e2 i ∷ []))

  two_round :
      (b1 : ℕ)
      → x % 64 * 4 + y / 16 % 4 ≡ b1
      → decode_loop (suc rounds) (after_line nl (tab_char x ∷ tab_char y ∷ b'=' ∷ b'=' ∷ []))
        ≡ (false, b1 ∷ [])
  two_round b1 e1 =
      round-lem rounds nl (tab_char x) (tab_char y) b'=' b'=' [] (tab_token x hx) (tab_token y hy)
        pad_token pad_token
      ∙ ap (λ c. with_error false (after_chunk (decode_loop rounds []) c))
          (two-tab x y y y hx hy hy hy)
      ∙ (λ i. (false, e1 i ∷ []))

line_longer : (nl : Bool) (c : ℕ) (cs : Bytes) → suc (length cs) ≤ length (after_line nl (c ∷ cs))
line_longer true c cs = omega arith
line_longer false c cs = omega arith

-- In at least as many rounds as there are characters.
pub decode-encode :
    (width pos : ℕ) (src : Bytes) (rounds : ℕ) (nl : Bool)
    → All IsByte src
    → length (after_line nl (encode_base64 width pos src)) ≤ rounds
    → decode_loop rounds (after_line nl (encode_base64 width pos src)) ≡ (false, src)
unfolding encode_base64
decode-encode width pos [] rounds false h k = unfold decode_loop in refl
decode-encode width pos [] zero true h k = absurd (omega arith)
decode-encode width pos [] (suc rounds) true h k =
    unfold decode_loop next_char chunk_of is_base64 in refl
decode-encode width pos (c1 ∷ []) zero nl h k = absurd (omega (arith, k, line_longer nl _ _))
decode-encode width pos (c1 ∷ []) (suc rounds) nl (h1, h) k =
    two_round rounds nl (c1 / 4 % 64) (c1 % 4 * 16) (omega arith) (omega arith) c1 (omega arith)
decode-encode width pos (c1 ∷ c2 ∷ []) zero nl h k = absurd (omega (arith, k, line_longer nl _ _))
decode-encode width pos (c1 ∷ c2 ∷ []) (suc rounds) nl (h1, (h2, h)) k =
    three_round rounds nl (c1 / 4 % 64) (c1 % 4 * 16 + c2 / 16 % 16) (omega arith) (omega arith)
      (c2 % 16 * 4) c1 c2 (omega arith) (omega arith) (omega arith)
decode-encode width pos (c1 ∷ c2 ∷ c3 ∷ src) zero nl h k =
    absurd (omega (arith, k, line_longer nl _ _))
decode-encode width pos (c1 ∷ c2 ∷ c3 ∷ src) (suc rounds) nl (h1, (h2, (h3, h))) k =
    let full = (pos + 5) % (width + 1) == 0 in
    let rest = after_line full (encode_base64 width (next_pos full pos) src) in
    let longer =
      line_longer nl (first_char c1)
        (second_char c1 c2 ∷ third_char c2 c3 ∷ fourth_char c3 ∷ rest) in
    complete_round rounds nl (c1 / 4 % 64) (c1 % 4 * 16 + c2 / 16 % 16) (omega arith) (omega arith)
      (c2 % 16 * 4 + c3 / 64 % 4) (c3 % 64) c1 c2 c3 rest src (omega arith) (omega arith)
      (omega arith) (omega arith) (omega arith)
      (decode-encode width (next_pos full pos) src rounds full h (omega (arith, k, longer)))

decode_data : (cs : Bytes) → data_by_decoding_base64 cs ≡ checked (decode_loop (length cs) cs)
decode_data [] = unfold data_by_decoding_base64 decode_loop in refl
decode_data (c ∷ cs) = unfold data_by_decoding_base64 decode_base64 in refl

-- What is encoded as base64, with lines of a length from 1 to 2^31 - 2, is decoded to the same bytes,
-- for fewer than 2^31 bytes; the encoding does not divide by zero.
pub data_by_decoding_base64-data_by_encoding_base64 :
    (line_length : ℕ) (src : Bytes)
    → All IsByte src
    → 0 < line_length
    → line_length < 2 ^ 31 - 1
    → length src < 2 ^ 31
    → (cs : Bytes) × (data_by_encoding_base64 line_length src ≡ some cs)
      × (data_by_decoding_base64 cs ≡ some src)
unfolding data_by_encoding_base64
data_by_decoding_base64-data_by_encoding_base64 line_length [] h p l k =
    ([], refl, unfold data_by_decoding_base64 in refl)
data_by_decoding_base64-data_by_encoding_base64 line_length (c ∷ cs) h p l k =
    let no_zero : (line_length == 0) ≡ false = ground (arith, p) in
    let no_overflow : (line_length == 2 ^ 31 - 1) ≡ false = ground (arith, l) in
    let no_wrap : (line_length == 2 ^ 32 - 1) ≡ false = ground (arith, l) in
    let small : ltb line_length (2 ^ 31) ≡ true = ground (arith, l) in
    let same : width_of line_length ≡ line_length = rw small refl in
    let code = encode_base64 line_length 0 (c ∷ cs) in
    (
      code,
      rw (no_zero, no_overflow, no_wrap) (ap (λ n. some (encode_base64 n 0 (c ∷ cs))) same),
      decode_data code
          ∙ ap checked (decode-encode line_length 0 (c ∷ cs) (length code) false h (omega arith)),
    )
