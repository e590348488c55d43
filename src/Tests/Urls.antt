-- ===== src/Tests/Urls.antt =====
-- Texts that are escaped for URLs.
use sope_appserver.Prelude.{◌≡◌, refl, sym, true, some, [], ◌∷◌, arith, Bytes, codes}
use sope_appserver.UrlEscaping.Texts.{
  IsEncoding, UnescapesTo, string_by_unescaping_url-string_by_escaping_url,
}
use sope_appserver.UrlEscaping.{Strings, text, string_by_escaping_url}

-- Texts of bytes, which both encodings leave as they are.
abbrev byte_strings : Strings Bytes
byte_strings = record {
  empty = [];
  characters = λ s. s;
  c_string = λ s. s;
  of_c_string = λ bs. bs;
  utf8 = λ s. some s;
  of_utf8 = λ bs. some bs;
}

byte_strings-IsEncoding : IsEncoding byte_strings
byte_strings-IsEncoding = record {
  empty_lem = λ s e. e;
  of-nil = refl;
  of-c_string = λ s. refl;
  of-utf8 = λ s bs e. sym e;
  c_string-of = λ bs h. refl;
  characters-of = λ bs h. refl;
  same_ascii = λ bs h. refl;
}

-- An umlaut, a blank and a percent sign.
abbrev umlaut : Bytes
umlaut = 228 ∷ b' ' ∷ b'%' ∷ b'a' ∷ []

escape_umlaut : string_by_escaping_url byte_strings true umlaut ≡ text (codes "%E4%20%25a")
unfolding string_by_escaping_url
escape_umlaut = refl

string_by_unescaping_url-string_by_escaping_url_example :
    UnescapesTo byte_strings true umlaut (string_by_escaping_url byte_strings true umlaut)
string_by_unescaping_url-string_by_escaping_url_example =
    string_by_unescaping_url-string_by_escaping_url byte_strings byte_strings-IsEncoding true umlaut
      umlaut refl
      (
        (omega arith, omega arith),
        (
          (omega arith, omega arith),
          ((omega arith, omega arith), ((omega arith, omega arith), tt)),
        ),
      )
