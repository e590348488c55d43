-- ===== src/Scan/View/Parsers.antt =====
-- The parsers over a source and over the list of its characters.
use sope_appserver.Prelude.{
  ℕ, zero, suc, true, Option, none, some, length, ◌==◌, if◌then◌else◌, Bytes, is_space, atoi,
}
use sope_appserver.Scan.Headers.{
  in_name, in_value, scan_header_end, scan_value, scan_header, scan_line, header_loop, scan_headers,
}
use sope_appserver.Scan.ResponseLine.{
  ResponseLine, blank_line, is_char_at, in_word, in_version, before_line_end, scan_reason,
  scan_after_code, scan_code, scan_response_line,
}
use sope_appserver.Scan.Source.{is_char}
use sope_appserver.Scan.View.Rules.{
  IsStream, uncons, Follows, Follows-pure, Follows-fail, Follows-bind, Follows-if, Follows-next,
  Follows-collect, Follows-skip,
}

module _ {S : Type 0} {read_char : S → Option ℕ × S} {Valid : S → Type 0} {view : S → Bytes}
    (stream : IsStream read_char Valid view) where
  Follows-reason :
      (rounds : ℕ) (line : ResponseLine) (c : Option ℕ)
      → Follows Valid view (scan_reason read_char rounds line c) (scan_reason uncons rounds line c)
  unfolding scan_reason
  Follows-reason rounds line c = Follows-bind (Follows-collect stream in_word 6 c) λ (text, c₁).
      let named = record line { text = text } in
      Follows-if (is_char c₁)
        (Follows-bind (Follows-skip stream before_line_end rounds c₁)
          λ c₂. Follows-pure (record named { accepted = is_char c₂ }))
        (Follows-pure named)

  Follows-after_code :
      (rounds : ℕ) (line : ResponseLine) (c : Option ℕ)
      → Follows Valid view
          (scan_after_code read_char rounds line c)
          (scan_after_code uncons rounds line c)
  unfolding scan_after_code
  Follows-after_code rounds line c =
      Follows-if (is_char c)
        (Follows-if (is_char_at b'\n' c) (Follows-pure (record line { accepted = true })) (
          Follows-if (is_char_at b'\r' c)
            (Follows-bind (Follows-next stream)
              λ c₁. Follows-pure (record line { accepted = true }))
            (Follows-reason rounds line c)))
        (Follows-pure line)

  Follows-code :
      (rounds : ℕ) (line : ResponseLine) (c : Option ℕ)
      → Follows Valid view (scan_code read_char rounds line c) (scan_code uncons rounds line c)
  unfolding scan_code
  Follows-code rounds line c =
      Follows-if (is_char c)
        (Follows-bind (Follows-collect stream in_word 6 c) λ (code, c₁).
          Follows-bind (Follows-skip stream is_space rounds c₁)
            λ c₂. Follows-after_code rounds (record line { status = atoi code }) c₂)
        (Follows-pure line)

  -- `NGScanResponseLine` computes over a source what it computes over the list of the characters
  -- that the source yields, and consumes the same characters.
  pub Follows-response_line :
      (rounds : ℕ)
      → Follows Valid view (scan_response_line read_char rounds) (scan_response_line uncons rounds)
  unfolding scan_response_line
  Follows-response_line rounds = Follows-bind (Follows-next stream) λ c.
      Follows-bind (Follows-collect stream in_version 16 c) λ (version, c₁).
        Follows-if (is_char c₁)
          (Follows-bind (Follows-skip stream is_space rounds c₁)
            λ c₂. Follows-code rounds (record blank_line { version = version }) c₂)
          (Follows-pure (record blank_line { version = version }))

  Follows-header_end :
      (name value : Bytes) (c : Option ℕ)
      → Follows Valid view
          (scan_header_end read_char name value c)
          (scan_header_end uncons name value c)
  unfolding scan_header_end
  Follows-header_end name value c =
      Follows-if (is_char_at b'\n' c) (Follows-pure (some (name, value))) (
        Follows-if (is_char_at b'\r' c)
          (Follows-bind (Follows-next stream)
            λ c₁. Follows-pure (if is_char_at b'\n' c₁ then some (name, value) else none))
          (Follows-pure none))

  Follows-value :
      (name : Bytes) (c : Option ℕ)
      → Follows Valid view (scan_value read_char name c) (scan_value uncons name c)
  unfolding scan_value
  Follows-value name c = Follows-bind (Follows-collect stream in_value 7999 c) λ (value, c₁).
      Follows-if (length value == 0) (Follows-pure none) (Follows-header_end name value c₁)

  Follows-header :
      (rounds : ℕ) (c : Option ℕ)
      → Follows Valid view (scan_header read_char rounds c) (scan_header uncons rounds c)
  unfolding scan_header
  Follows-header rounds c = Follows-bind (Follows-collect stream in_name 255 c) λ (name, c₁).
      Follows-if (length name == 0) (Follows-pure none) (
        Follows-if (is_char_at b':' c₁)
          (Follows-bind (Follows-next stream)
            λ c₂. Follows-bind (Follows-skip stream is_space rounds c₂) λ c₃. Follows-value name c₃)
          (Follows-pure none))

  pub Follows-line :
      (rounds : ℕ) → Follows Valid view (scan_line read_char rounds) (scan_line uncons rounds)
  unfolding scan_line
  Follows-line rounds = Follows-bind (Follows-next stream) λ c.
      Follows-if (is_char c)
        (Follows-if (is_char_at b'\n' c) (Follows-pure none) (
          Follows-if (is_char_at b'\r' c)
            (Follows-bind (Follows-next stream) λ c₁. Follows-pure none) (Follows-header rounds c)))
        (Follows-pure none)

  module _ {T : Type 0} (table_set : T → Bytes → Bytes → T) where
    Follows-header_loop :
        (rounds : ℕ) (t : T)
        → Follows Valid view
            (header_loop read_char table_set rounds t)
            (header_loop uncons table_set rounds t)
    unfolding header_loop
    Follows-header_loop zero t = Follows-fail
    Follows-header_loop (suc rounds) t = Follows-bind (Follows-line rounds) (elim [
      | none ↦ Follows-pure t
      | some (name, value) ↦ Follows-header_loop rounds (table_set t name value)
    ])

    -- `NGScanHeaders` too.
    pub Follows-headers :
        (rounds : ℕ) (t : Option T)
        → Follows Valid view
            (scan_headers read_char table_set rounds t)
            (scan_headers uncons table_set rounds t)
    unfolding scan_headers
    Follows-headers rounds none = Follows-pure none
    Follows-headers rounds (some t) =
        Follows-bind (Follows-header_loop rounds t) λ filled. Follows-pure (some filled)
