-- ===== src/UrlEscaping.antt =====
-- The coding of texts for URLs: sope-core/NGExtensions/FdExt.subproj/NSString+URLEscaping.m.
pub mod RoundTrip
pub mod Texts
use sope_appserver.CharClass.{between, one_of}
use sope_appserver.Prelude.{
  ℕ, ◌+◌, ◌-◌, ◌*◌, ◌/◌, ◌%◌, Bool, true, false, not, ◌||◌, Option, none, some, [], ◌∷◌, ◌==◌, ltb,
  leb, if◌then◌else◌, Bytes,
}

-- The file's own classes of characters, which differ from those of NGUrlChars.h.
abbrev pub is_url_alpha : ℕ → Bool
is_url_alpha c = between b'a' b'z' c || between b'A' b'Z' c

abbrev pub is_url_digit : ℕ → Bool
is_url_digit c = between b'0' b'9' c

abbrev pub is_url_safe_char : ℕ → Bool
is_url_safe_char = one_of (b'$' ∷ b'-' ∷ b'_' ∷ b'.' ∷ b'@' ∷ [])

abbrev pub is_url_alpha_num : ℕ → Bool
is_url_alpha_num c = is_url_alpha c || is_url_digit c

unfoldable pub is_to_be_escaped : ℕ → Bool
is_to_be_escaped c = not (is_url_alpha_num c || (c == b'_' || is_url_safe_char c))

-- A digit as `%X` prints it.
unfoldable pub upper_hex : ℕ → ℕ
upper_hex n = if ltb n 10 then b'0' + n else b'A' + (n - 10)

-- NGEscapeUrlBuffer, without the NUL that it puts behind the text.
unfoldable pub escape_url_buffer : Bytes → Bytes
unfolding is_to_be_escaped upper_hex
escape_url_buffer [] = []
escape_url_buffer (c ∷ cs) =
    let rest = escape_url_buffer cs in
    if not (is_to_be_escaped c)
    then c ∷ rest
    else b'%' ∷ upper_hex (c / 16) ∷ upper_hex (c % 16) ∷ rest

-- `_valueOfHexChar`, where `none` is the -1.
unfoldable pub value_of_hex_char : ℕ → Option ℕ
value_of_hex_char c =
    if between b'0' b'9' c
    then some (c - 48)
    else if between b'A' b'F' c
    then some (c - 55)
    else if between b'a' b'f' c
    then some (c - 87)
    else none

unfoldable pub is_hex_digit : ℕ → Bool
is_hex_digit c = between b'0' b'9' c || (between b'A' b'F' c || between b'a' b'f' c)

-- `decChar * 16 + _valueOfHexChar(c)` as an `unsigned char`. The first value is that of a digit.
abbrev pub dec_char : Option ℕ → Option ℕ → ℕ
dec_char (some h) (some l) = (h * 16 + l) % 256
dec_char (some h) none = (h * 16 + 255) % 256
dec_char none (some l) = (240 + l) % 256
dec_char none none = 239

-- `*_dest = c; _dest++`.
abbrev pub put : ℕ → Option Bytes → Option Bytes
put c none = none
put c (some bs) = some (c ∷ bs)

-- NGUnescapeUrlBuffer on a text without a NUL. `none` stands for a run that steps over the NUL
-- behind the source and goes on reading there.
unfoldable pub unescape_url_buffer : Bytes → Option Bytes
unfolding is_hex_digit value_of_hex_char
unescape_url_buffer [] = some []
unescape_url_buffer (c ∷ []) = some (c ∷ [])
unescape_url_buffer (c ∷ h ∷ []) = elim (c == b'%') [
  | false ↦ put c (unescape_url_buffer (h ∷ []))
  | true ↦ if is_hex_digit h then none else some (h ∷ [])
]
unescape_url_buffer (c ∷ h ∷ l ∷ cs) = elim (c == b'%') [
  | false ↦ put c (unescape_url_buffer (h ∷ l ∷ cs))
  | true ↦ elim (is_hex_digit h) [
    | true ↦ put (dec_char (value_of_hex_char h) (value_of_hex_char l)) (unescape_url_buffer cs)
    | false ↦ put h (unescape_url_buffer (l ∷ cs))
  ]
]

-- A C string in a buffer ends at the first NUL.
unfoldable pub until_nul : Bytes → Bytes
until_nul [] = []
until_nul (c ∷ cs) = let rest = until_nul cs in if c == 0 then [] else c ∷ rest

unfoldable pub contains_url_escape_characters : Bytes → Bool
contains_url_escape_characters [] = false
contains_url_escape_characters (c ∷ cs) = c == b'%' || contains_url_escape_characters cs

-- `isToBeEscaped` takes an `unsigned char`, the low byte of a character.
unfoldable pub contains_url_invalid_characters : Bytes → Bool
unfolding is_to_be_escaped
contains_url_invalid_characters [] = false
contains_url_invalid_characters (c ∷ cs) =
    is_to_be_escaped (c % 256) || contains_url_invalid_characters cs

-- What the methods use of NSString: the characters as 16 bit numbers, the text in the default C
-- encoding and in UTF-8 (where there is one), and the texts made of such bytes.
pub record Strings (S : Type 0) : Type 0 where
  pub empty : S
  pub characters : S → Bytes
  pub c_string : S → Bytes
  pub of_c_string : Bytes → S
  pub utf8 : S → Option Bytes
  pub of_utf8 : Bytes → Option S

-- The results of the methods: a text, nil, or a read behind the end of the source.
pub data Result (S : Type 0) : Type 0 where
  text : S → Result S
  nil : Result S
  overrun : Result S

abbrev pub or_nil : {S : Type 0} → Option S → Result S
or_nil none = nil
or_nil (some s) = text s

-- `use_utf8` is the user default NGUseUTF8AsURLEncoding.
module _ {S : Type 0} (strings : Strings S) (use_utf8 : Bool) where
  abbrev pub of_buffer : Option Bytes → Result S
  of_buffer none = overrun
  of_buffer (some bs) =
      if use_utf8
      then or_nil (strings.of_utf8 (until_nul bs))
      else text (strings.of_c_string (until_nul bs))

  abbrev pub unescape_c_string : Bytes → Result S
  unescape_c_string [] = text strings.empty
  unescape_c_string (c ∷ cs) = of_buffer (unescape_url_buffer (until_nul (c ∷ cs)))

  unfoldable pub string_by_unescaping_url : S → Result S
  unfolding contains_url_escape_characters unescape_url_buffer until_nul
  string_by_unescaping_url s =
      if not (contains_url_escape_characters (strings.characters s))
      then text s
      else unescape_c_string (strings.c_string s)

  -- The text that is escaped has no NUL in it.
  abbrev pub escaped : Bytes → Result S
  escaped bs = text (strings.of_c_string (escape_url_buffer bs))

  abbrev pub escape_data : Option Bytes → Result S
  escape_data none = nil
  escape_data (some []) = text strings.empty
  escape_data (some (c ∷ cs)) = escaped (c ∷ cs)

  abbrev pub escape_characters : Bytes → S → Result S
  escape_characters [] s = text strings.empty
  escape_characters (c ∷ cs) s =
      if not (contains_url_invalid_characters (c ∷ cs))
      then text s
      else if use_utf8
      then escape_data (strings.utf8 s)
      else escaped (strings.c_string s)

  unfoldable pub string_by_escaping_url : S → Result S
  unfolding contains_url_invalid_characters escape_url_buffer
  string_by_escaping_url s = escape_characters (strings.characters s) s
