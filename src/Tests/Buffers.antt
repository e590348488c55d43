-- ===== src/Tests/Buffers.antt =====
-- Character buffers, and the codings.
use sope_appserver.Base64.RoundTrip.{data_by_decoding_base64-data_by_encoding_base64}
use sope_appserver.Base64.{data_by_encoding_base64, data_by_decoding_base64, tab_char}
use sope_appserver.CharBuffer.Edits.{
  Edit, char_added, text_added, cleared, stripped, apply_all, text_after_all, make_string-apply_all,
  make_string-new_with_c_string,
}
use sope_appserver.CharBuffer.Strip.{strip_end}
use sope_appserver.CharBuffer.{
  init, new_with_c_string, string, length_mismatch, make_string_and_dealloc,
}
use sope_appserver.Prelude.{◌≤◌, ◌≡◌, refl, none, some, List, [], ◌∷◌, arith, Bytes, length, codes}
use sope_appserver.QuotedPrintable.Coding.{
  underscores_lost, rfc2047_decoding-quoted_printable_encoding,
}
use sope_appserver.QuotedPrintable.Room.{Fits, decode-encode-Fits}
use sope_appserver.QuotedPrintable.{
  decode_quoted_printable, encode_quoted_printable, quoted_printable_encoding, rfc2047_decoding,
  hex_digit, needs_encoding,
}

abbrev edits : List Edit
edits =
    char_added b'x'
    ∷ cleared
    ∷ text_added (some (codes "ab "))
    ∷ text_added none
    ∷ char_added b' '
    ∷ stripped
    ∷ char_added b'c'
    ∷ []

edits_run : text_after_all edits [] ≡ codes "abc"
unfolding strip_end
edits_run = refl

make_string-apply_all_example :
    (make_string_and_dealloc (some (apply_all edits (init 1))) ≡ string (text_after_all edits []))
    × (length (apply_all edits (init 1)).cells ≤ (apply_all edits (init 1)).allocated)
make_string-apply_all_example =
    make_string-apply_all 1 10 edits (omega arith) (omega arith) (omega arith) (omega arith)
      (refl, (tt, ((refl, (refl, (refl, tt))), (tt, (refl, (tt, (refl, tt)))))))

make_string-new_with_c_string_example :
    make_string_and_dealloc (some (new_with_c_string (b'a' ∷ codes "b"))) ≡ length_mismatch
make_string-new_with_c_string_example =
    make_string-new_with_c_string b'a' (codes "b") (refl, (refl, tt))

-- "a_", a byte above 127 and an equals sign.
abbrev latin : Bytes
latin = b'a' ∷ b'_' ∷ 228 ∷ b'=' ∷ []

encoded_run : quoted_printable_encoding latin ≡ codes "a_=E4=3D"
unfolding quoted_printable_encoding hex_digit
encoded_run = refl

rfc2047_decoding-quoted_printable_encoding_example :
    rfc2047_decoding 0 b'q' (quoted_printable_encoding latin) ≡ some (underscores_lost latin)
unfolding needs_encoding
rfc2047_decoding-quoted_printable_encoding_example =
    rfc2047_decoding-quoted_printable_encoding 0 latin
      (omega arith, (omega arith, (omega arith, (omega arith, tt)))) refl (omega arith)

decode-encode-Fits_example :
    Fits 6 (decode_quoted_printable 0 (codes "a=20b=2") 6)
    × Fits 6 (encode_quoted_printable (codes "a=20b=2") 6)
decode-encode-Fits_example = decode-encode-Fits 0 (codes "a=20b=2") 6

abbrev five : Bytes
five = 0 ∷ 255 ∷ b'a' ∷ b'b' ∷ 200 ∷ []

base64_run : data_by_encoding_base64 4 five ≡ some (codes "AP9h\nYsg=")
unfolding data_by_encoding_base64 tab_char
base64_run = refl

data_by_decoding_base64-data_by_encoding_base64_example :
    (cs : Bytes) × (data_by_encoding_base64 4 five ≡ some cs)
    × (data_by_decoding_base64 cs ≡ some five)
data_by_decoding_base64-data_by_encoding_base64_example =
    data_by_decoding_base64-data_by_encoding_base64 4 five
      (omega arith, (omega arith, (omega arith, (omega arith, (omega arith, tt))))) (omega arith)
      (omega arith) (omega arith)
