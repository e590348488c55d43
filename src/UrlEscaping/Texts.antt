-- ===== src/UrlEscaping/Texts.antt =====
-- A text that is escaped and unescaped.
use sope_appserver.Prelude.{
  ℕ, ◌%◌, ◌<◌, ◌≡◌, refl, sym, subst, ap, ◌∙◌, inl, inr, Bool, true, false, ◌||◌, some, Option, [],
  ◌∷◌, arith, ◌==◌, if◌then◌else◌, Bytes, All, Bool-cases,
}
use sope_appserver.UrlEscaping.RoundTrip.{IsEscaped, escape-IsEscaped, unescape-escape}
use sope_appserver.UrlEscaping.{
  is_to_be_escaped, escape_url_buffer, unescape_url_buffer, until_nul,
  contains_url_escape_characters, contains_url_invalid_characters, Strings, Result, text, nil,
  overrun, of_buffer, unescape_c_string, string_by_unescaping_url, escaped, escape_data,
  escape_characters, string_by_escaping_url,
}

-- A byte other than NUL, and one of ASCII.
abbrev pub IsChar : ℕ → Type 0
IsChar c = (0 < c) × (c < 256)

abbrev pub IsAscii : ℕ → Type 0
IsAscii c = (0 < c) × (c < 128)

-- What the methods rely on: the default C encoding and UTF-8 give a text back, and both are
-- compatible with ASCII.
pub record IsEncoding {S : Type 0} (strings : Strings S) : Type 0 where
  pub empty_lem : (s : S) → strings.characters s ≡ [] → s ≡ strings.empty
  pub of-nil : strings.of_c_string [] ≡ strings.empty
  pub of-c_string : (s : S) → strings.of_c_string (strings.c_string s) ≡ s
  pub of-utf8 : (s : S) (bs : Bytes) → strings.utf8 s ≡ some bs → strings.of_utf8 bs ≡ some s
  pub c_string-of : (bs : Bytes) → All IsAscii bs → strings.c_string (strings.of_c_string bs) ≡ bs
  pub characters-of :
      (bs : Bytes) → All IsAscii bs → strings.characters (strings.of_c_string bs) ≡ bs
  pub same_ascii :
      (bs : Bytes) → All IsAscii bs → strings.of_utf8 bs ≡ some (strings.of_c_string bs)

All-map : {P Q : ℕ → Type 0} (bs : Bytes) → ((c : ℕ) → P c → Q c) → All P bs → All Q bs
All-map [] f h = tt
All-map (b ∷ bs) f (h, hs) = (f b h, All-map bs f hs)

until_nul-char : (bs : Bytes) → All IsChar bs → until_nul bs ≡ bs
unfolding until_nul
until_nul-char [] h = refl
until_nul-char (c ∷ cs) ((h, k), hs) =
    let e : (c == 0) ≡ false = ground (arith, h) in
    rw (until_nul, e) (ap (λ l. c ∷ l) (until_nul-char cs hs))

IsAscii-of_IsEscaped : (c : ℕ) → IsEscaped c → IsAscii c
unfolding is_to_be_escaped
IsAscii-of_IsEscaped c (inl h) = (ground arith, ground arith)
IsAscii-of_IsEscaped c (inr e) = (omega arith, omega arith)

escape-IsAscii : (bs : Bytes) → All IsChar bs → All IsAscii (escape_url_buffer bs)
escape-IsAscii bs h =
    All-map (escape_url_buffer bs) IsAscii-of_IsEscaped
      (escape-IsEscaped bs (All-map bs (λ c p. p.1) h))

or-false : (a b : Bool) → (a || b) ≡ false → (a ≡ false) × (b ≡ false)
or-false true b h = absurd (cc)
or-false false b h = (refl, h)

-- Without a percent sign nothing was escaped.
escape-same :
    (bs : Bytes)
    → contains_url_escape_characters (escape_url_buffer bs) ≡ false
    → escape_url_buffer bs ≡ bs
unfolding escape_url_buffer contains_url_escape_characters
escape-same [] h = refl
escape-same (c ∷ cs) h = elim (Bool-cases (is_to_be_escaped c)) [
  | inl code ↦
      let e : contains_url_escape_characters (escape_url_buffer (c ∷ cs)) ≡ true =
        rw (escape_url_buffer, code) refl in
      absurd (cc)
  | inr plain ↦
      let e : contains_url_escape_characters (escape_url_buffer (c ∷ cs))
          ≡ (c == b'%' || contains_url_escape_characters (escape_url_buffer cs)) =
        rw (escape_url_buffer, plain) refl in
      let (no_percent, none_later) = or-false (c == b'%') _ (sym e ∙ h) in
      rw (escape_url_buffer, plain) (ap (λ l. c ∷ l) (escape-same cs none_later))
]

percent_escaped : (c : ℕ) → is_to_be_escaped (c % 256) ≡ false → (c == b'%') ≡ false
unfolding is_to_be_escaped
percent_escaped c h = ground arith

percent_invalid :
    (cs : Bytes)
    → contains_url_invalid_characters cs ≡ false
    → contains_url_escape_characters cs ≡ false
unfolding contains_url_invalid_characters contains_url_escape_characters
percent_invalid [] h = refl
percent_invalid (c ∷ cs) h =
    let (valid, later) = or-false (is_to_be_escaped (c % 256)) _ h in
    rw (percent_escaped c valid) (percent_invalid cs later)

-- The method for a text ends with a text that is unescaped to `s`.
abbrev pub UnescapesTo : {S : Type 0} → Strings S → Bool → S → Result S → Type 0
UnescapesTo strings use_utf8 s (text t) = string_by_unescaping_url strings use_utf8 t ≡ text s
UnescapesTo strings use_utf8 s nil = ⊥
UnescapesTo strings use_utf8 s overrun = ⊥

module _ {S : Type 0} (strings : Strings S) (encoding : IsEncoding strings) (use_utf8 : Bool) where
  unescape-plain_text :
      (s : S)
      → contains_url_escape_characters (strings.characters s) ≡ false
      → string_by_unescaping_url strings use_utf8 s ≡ text s
  unfolding string_by_unescaping_url
  unescape-plain_text s h = rw h refl

  unescape_c_string-some :
      (cs : Bytes)
      → contains_url_escape_characters cs ≡ true
      → unescape_c_string strings use_utf8 cs
        ≡ of_buffer strings use_utf8 (unescape_url_buffer (until_nul cs))
  unfolding contains_url_escape_characters
  unescape_c_string-some [] h = absurd (cc)
  unescape_c_string-some (c ∷ cs) h = refl

  unescape_c_string-escape :
      (bs : Bytes)
      → All IsChar bs
      → contains_url_escape_characters (escape_url_buffer bs) ≡ true
      → unescape_c_string strings use_utf8 (escape_url_buffer bs)
        ≡ of_buffer strings use_utf8 (some bs)
  unescape_c_string-escape bs h k =
      let no_nul =
        until_nul-char (escape_url_buffer bs) (
          All-map (escape_url_buffer bs) (λ c p. (p.0, omega (arith, p.1)))
            (escape-IsAscii bs h)) in
      unescape_c_string-some (escape_url_buffer bs) k
      ∙ ap (λ cs. of_buffer strings use_utf8 (unescape_url_buffer cs)) no_nul
      ∙ ap (of_buffer strings use_utf8) (unescape-escape bs (All-map bs (λ c p. p.1) h))

  -- A text of the bytes `bs`, once escaped, is unescaped.
  escaped-UnescapesTo :
      (s : S) (bs : Bytes)
      → All IsChar bs
      → of_buffer strings use_utf8 (some bs) ≡ text s
      → (All IsAscii bs → strings.of_c_string bs ≡ s)
      → UnescapesTo strings use_utf8 s (escaped strings use_utf8 bs)
  unfolding string_by_unescaping_url
  escaped-UnescapesTo s bs h back plain =
      let ascii = escape-IsAscii bs h in
      let chars = encoding.characters-of (escape_url_buffer bs) ascii in
      elim (Bool-cases (contains_url_escape_characters (escape_url_buffer bs))) [
        | inl code ↦
            rw (chars, code, encoding.c_string-of (escape_url_buffer bs) ascii)
              (unescape_c_string-escape bs h code ∙ back)
        | inr unchanged ↦
            let same = escape-same bs unchanged in
            rw (chars, unchanged)
              (ap text (ap strings.of_c_string same ∙ plain (subst (All IsAscii) same ascii)))
      ]

  -- The bytes that the text is encoded as.
  abbrev pub bytes_of : S → Option Bytes
  bytes_of s = if use_utf8 then strings.utf8 s else some (strings.c_string s)

  empty-UnescapesTo :
      (s : S) → strings.characters s ≡ [] → UnescapesTo strings use_utf8 s (text strings.empty)
  empty-UnescapesTo s h =
      let e = encoding.empty_lem s h in
      let none_there : contains_url_escape_characters (strings.characters s) ≡ false =
        rw h (unfold contains_url_escape_characters in refl) in
      subst (λ t. string_by_unescaping_url strings use_utf8 t ≡ text s) e
        (unescape-plain_text s none_there)

  c_bytes : (s : S) (bs : Bytes) → bytes_of s ≡ some bs → use_utf8 ≡ false → strings.c_string s ≡ bs
  c_bytes s bs e off = let same : some (strings.c_string s) ≡ some bs = rw off at e in cc

  -- The bytes of a text without a NUL give the text back.
  back_again :
      (s : S) (bs : Bytes)
      → bytes_of s ≡ some bs
      → All IsChar bs
      → (of_buffer strings use_utf8 (some bs) ≡ text s)
        × (All IsAscii bs → strings.of_c_string bs ≡ s)
  back_again s bs e h = elim (Bool-cases use_utf8) [
    | inl on ↦
        let in_utf8 : strings.utf8 s ≡ some bs = rw on at e in
        let made = encoding.of-utf8 s bs in_utf8 in
        (rw (on, until_nul-char bs h, made) refl, λ a. let same = encoding.same_ascii bs a in cc)
    | inr off ↦
        let made : strings.of_c_string bs ≡ s =
          ap strings.of_c_string (sym (c_bytes s bs e off)) ∙ encoding.of-c_string s in
        (rw (off, until_nul-char bs h, made) refl, λ a. made)
  ]

  escape_data-UnescapesTo :
      (s : S) (bs : Bytes)
      → bytes_of s ≡ some bs
      → All IsChar bs
      → UnescapesTo strings use_utf8 s (escape_data strings use_utf8 (some bs))
  escape_data-UnescapesTo s [] e h =
      let made = (back_again s [] e h).1 tt in
      empty-UnescapesTo s (ap strings.characters (sym made) ∙ encoding.characters-of [] tt)
  escape_data-UnescapesTo s (c ∷ cs) e h =
      let (back, plain) = back_again s (c ∷ cs) e h in escaped-UnescapesTo s (c ∷ cs) h back plain

  escape_characters-UnescapesTo :
      (s : S) (bs cs : Bytes)
      → strings.characters s ≡ cs
      → bytes_of s ≡ some bs
      → All IsChar bs
      → UnescapesTo strings use_utf8 s (escape_characters strings use_utf8 cs s)
  escape_characters-UnescapesTo s bs [] k e h = empty-UnescapesTo s k
  escape_characters-UnescapesTo s bs (c ∷ cs) k e h =
      elim (Bool-cases (contains_url_invalid_characters (c ∷ cs))) [
        | inl invalid ↦ elim (Bool-cases use_utf8) [
          | inl on ↦
              let in_utf8 : strings.utf8 s ≡ some bs = rw on at e in
              rw (invalid, on, in_utf8)
                (subst (λ b. UnescapesTo strings b s (escape_data strings b (some bs))) on
                  (escape_data-UnescapesTo s bs e h))
          | inr off ↦
              let in_c = c_bytes s bs e off in
              let (back, plain) = back_again s bs e h in
              rw (invalid, off, in_c)
                (subst (λ b. UnescapesTo strings b s (escaped strings b bs)) off
                  (escaped-UnescapesTo s bs h back plain))
        ]
        | inr valid ↦ rw valid (unescape-plain_text s (rw k (percent_invalid (c ∷ cs) valid)))
      ]

  -- A text that the encoding in use has bytes for, none of them NUL, is escaped to a text, and that
  -- is unescaped to the text.
  pub string_by_unescaping_url-string_by_escaping_url :
      (s : S) (bs : Bytes)
      → bytes_of s ≡ some bs
      → All IsChar bs
      → UnescapesTo strings use_utf8 s (string_by_escaping_url strings use_utf8 s)
  unfolding string_by_escaping_url
  string_by_unescaping_url-string_by_escaping_url s bs e h =
      escape_characters-UnescapesTo s bs (strings.characters s) refl e h
