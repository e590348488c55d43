-- ===== src/Descriptor/Header/Encoding.antt =====
-- The encoding of header values.
use sope_appserver.Prelude.{
  ◌≡◌, ◌≢◌, refl, ap, true, false, [], ◌∷◌, ◌++◌, arith, if◌then◌else◌, Bytes,
}
use sope_appserver.Descriptor.Header.{has_break, escape_char}

abbrev pub escaped : Bytes → Bytes
escaped [] = []
escaped (c ∷ cs) = escape_char c ++ escaped cs

-- The text that stands for a value on the wire.
unfoldable pub encode : Bytes → Bytes
encode v = if has_break v then escaped v else v

has_break-escaped : (v : Bytes) → has_break (escaped v) ≡ false
has_break-escaped [] = refl
has_break-escaped (c ∷ cs) = ground (arith, has_break-escaped cs)

-- No line break is left in an encoded value, so a value cannot end its header line.
pub has_break-encode : (v : Bytes) → has_break (encode v) ≡ false
unfolding encode
has_break-encode v = ground (arith, has_break-escaped v)

-- The encoding of a value with a line break is also the encoding of another value, itself: a
-- receiver cannot tell whether a value was encoded.
pub encode-encode :
    (v : Bytes) → has_break v ≡ true → (encode v ≢ v) × (encode (encode v) ≡ encode v)
unfolding encode
encode-encode v h = (
  λ e. cc (h, has_break-encode v, ap has_break e),
  ap (λ b. if b then escaped (encode v) else encode v) (has_break-encode v),
)
