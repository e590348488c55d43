-- ===== src/UrlEscaping/RoundTrip.antt =====
-- What has been escaped, and its way back.
use sope_appserver.Prelude.{
  ℕ, ◌*◌, ◌/◌, ◌%◌, ◌≤◌, ◌<◌, ◌≡◌, refl, sym, ap, ap₂, ◌∙◌, append-nil, ◌++◌, ◌⊎◌, inl, inr, true,
  false, some, Option, [], ◌∷◌, arith, ◌==◌, Bytes, length, All, Bool-cases,
}
use sope_appserver.UrlEscaping.{
  is_to_be_escaped, upper_hex, escape_url_buffer, value_of_hex_char, is_hex_digit, dec_char, put,
  unescape_url_buffer,
}

abbrev pub IsByte : ℕ → Type 0
IsByte c = c < 256

hex_digit_back : (n : ℕ) → n < 16 → value_of_hex_char (upper_hex n) ≡ some n
unfolding value_of_hex_char upper_hex
hex_digit_back n h = ground arith

hex_digit_known : (n : ℕ) → n < 16 → is_hex_digit (upper_hex n) ≡ true
unfolding is_hex_digit upper_hex
hex_digit_known n h = ground arith

escape_plain : (c : ℕ) → is_to_be_escaped c ≡ false → (c == b'%') ≡ false
unfolding is_to_be_escaped
escape_plain c h = ground arith

pub unescape-plain :
    (c : ℕ) (cs : Bytes)
    → (c == b'%') ≡ false
    → unescape_url_buffer (c ∷ cs) ≡ put c (unescape_url_buffer cs)
unfolding unescape_url_buffer
unescape-plain c [] h = refl
unescape-plain c (a ∷ []) h = rw (unescape_url_buffer, h) refl
unescape-plain c (a ∷ b ∷ cs) h = rw (unescape_url_buffer, h) refl

pub unescape-code :
    (c : ℕ) (cs : Bytes)
    → IsByte c
    → unescape_url_buffer (b'%' ∷ upper_hex (c / 16) ∷ upper_hex (c % 16) ∷ cs)
      ≡ put c (unescape_url_buffer cs)
unfolding unescape_url_buffer
unescape-code c cs h =
    let high = hex_digit_back (c / 16) (omega arith) in
    let low = hex_digit_back (c % 16) (omega arith) in
    let value : dec_char (value_of_hex_char (upper_hex (c / 16)))
          (value_of_hex_char (upper_hex (c % 16)))
        ≡ c =
      ap₂ dec_char high low ∙ omega arith in
    rw (unescape_url_buffer, hex_digit_known (c / 16) (omega arith))
      (ap (λ d. put d (unescape_url_buffer cs)) value)

-- The bytes `bs` in front of what is unescaped behind them.
abbrev pub put_all : Bytes → Option Bytes → Option Bytes
put_all [] o = o
put_all (b ∷ bs) o = put b (put_all bs o)

-- What has been escaped is unescaped to the same bytes, whatever follows.
pub unescape-append :
    (bs rest : Bytes)
    → All IsByte bs
    → unescape_url_buffer (escape_url_buffer bs ++ rest) ≡ put_all bs (unescape_url_buffer rest)
unfolding escape_url_buffer
unescape-append [] rest h = refl
unescape-append (c ∷ cs) rest (h, hs) = elim (Bool-cases (is_to_be_escaped c)) [
  | inl code ↦
      rw (escape_url_buffer, code)
        (unescape-code c (escape_url_buffer cs ++ rest) h ∙ ap (put c) (unescape-append cs rest hs))
  | inr plain ↦
      rw (escape_url_buffer, plain)
        (unescape-plain c (escape_url_buffer cs ++ rest) (escape_plain c plain)
          ∙ ap (put c) (unescape-append cs rest hs))
]

put_all-nil : (bs : Bytes) → put_all bs (some []) ≡ some bs
put_all-nil [] = refl
put_all-nil (b ∷ bs) = ap (put b) (put_all-nil bs)

pub unescape-escape :
    (bs : Bytes) → All IsByte bs → unescape_url_buffer (escape_url_buffer bs) ≡ some bs
unescape-escape bs h =
    let ending : unescape_url_buffer [] ≡ some [] = unfold unescape_url_buffer in refl in
    ap unescape_url_buffer (sym (append-nil (escape_url_buffer bs)))
    ∙ unescape-append bs [] h
    ∙ ap (put_all bs) ending
    ∙ put_all-nil bs

-- The characters that need no escaping, and the percent sign.
abbrev pub IsEscaped : ℕ → Type 0
IsEscaped c = (is_to_be_escaped c ≡ false) ⊎ (c ≡ b'%')

hex_is_safe : (n : ℕ) → n < 16 → is_to_be_escaped (upper_hex n) ≡ false
unfolding is_to_be_escaped upper_hex
hex_is_safe n h = ground arith

pub escape-IsEscaped : (bs : Bytes) → All IsByte bs → All IsEscaped (escape_url_buffer bs)
unfolding escape_url_buffer
escape-IsEscaped [] h = tt
escape-IsEscaped (c ∷ cs) (h, hs) = elim (Bool-cases (is_to_be_escaped c)) [
  | inl code ↦
      rw (escape_url_buffer, code)
        (
          inr refl,
          (
            inl (hex_is_safe (c / 16) (omega arith)),
            (inl (hex_is_safe (c % 16) (omega arith)), escape-IsEscaped cs hs),
          ),
        )
  | inr plain ↦ rw (escape_url_buffer, plain) (inl plain, escape-IsEscaped cs hs)
]

pub length-escape : (bs : Bytes) → length (escape_url_buffer bs) ≤ 3 * length bs
unfolding escape_url_buffer
length-escape [] = omega arith
length-escape (c ∷ cs) = elim (Bool-cases (is_to_be_escaped c)) [
  | inl code ↦ rw (escape_url_buffer, code) (omega (arith, length-escape cs))
  | inr plain ↦ rw (escape_url_buffer, plain) (omega (arith, length-escape cs))
]
