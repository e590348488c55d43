-- ===== src/Descriptor/Header/Emission.antt =====
-- What `writeHttpHeader` gives to the descriptor.
use sope_appserver.Prelude.{
  ◌≡◌, false, Bool, ℕ, zero, suc, ◌<◌, [], ◌∷◌, ◌++◌, arith, Bool-cases, inl, inr, Bytes, length,
}
use sope_appserver.Socket.{Socket, IsWriter}
use sope_appserver.Descriptor.State.{Descriptor}
use sope_appserver.Descriptor.Output.{Written, written, no_peer, write_error}
use sope_appserver.Descriptor.Output.Delivery.{IsWritable, Writes, write-Writes}
use sope_appserver.Descriptor.Output.Steps.{Outcome, Emits, done-Emits, >>-Emits, safe_write-Emits}
use sope_appserver.Descriptor.Header.{
  has_break, escape_char, line_end, separator, positive, write_char, write_escaped, write_value,
  write_http_header,
}
use sope_appserver.Descriptor.Header.Encoding.{escaped, encode, has_break-encode}

-- The text of a header line.
abbrev pub header_line : Bytes → Bytes → Bytes
header_line key v = key ++ (separator ++ (encode v ++ (line_end ++ [])))

positive-Outcome :
    {W : Type 0} (Fail : Type 0) (sent : W → Bytes) (bs : Bytes) (d : Descriptor) (w : W)
    (x : Written × Descriptor × W)
    → 0 < length bs
    → Writes Fail sent bs (length bs) d w x
    → Outcome Fail sent bs d w (positive x)
positive-Outcome Fail sent bs d w (written zero, e, v) h (n, q, r, t) = absurd (omega (arith, n))
positive-Outcome Fail sent bs d w (written (suc k), e, v) h (n, q, r, t) = (q, r, t)
positive-Outcome Fail sent bs d w (no_peer, e, v) h p = p
positive-Outcome Fail sent bs d w (write_error, e, v) h p = p

module _ {W Fail : Type 0} (sock : Socket W) (sent : W → Bytes)
    (writer : IsWriter sock sent Fail) where
  write_char-Emits : (c : ℕ) → Emits Fail sent (escape_char c) (write_char sock c)
  unfolding write_char
  write_char-Emits c = record {
    emits = λ d w v.
        positive-Outcome Fail sent (escape_char c) d w _ (ground arith)
          (write-Writes sock sent writer (escape_char c) d w v);
  }

  write_escaped-Emits : (v : Bytes) → Emits Fail sent (escaped v) (write_escaped sock v)
  unfolding write_escaped
  write_escaped-Emits [] = done-Emits Fail sent
  write_escaped-Emits (c ∷ cs) = >>-Emits Fail sent (write_char-Emits c) (write_escaped-Emits cs)

  write_value-Emits : (v : Bytes) → Emits Fail sent (encode v) (write_value sock v)
  unfolding write_value encode
  write_value-Emits v = elim (Bool-cases (has_break v)) [
    | inl h ↦ rw h (write_escaped-Emits v)
    | inr h ↦ rw h (safe_write-Emits sock sent writer v)
  ]

  pub write_http_header-Emits :
      (key v : Bytes) → Emits Fail sent (header_line key v) (write_http_header sock key v)
  unfolding write_http_header
  write_http_header-Emits key v = >>-Emits Fail sent (safe_write-Emits sock sent writer key) (
      >>-Emits Fail sent (safe_write-Emits sock sent writer separator) (
        >>-Emits Fail sent (write_value-Emits v)
          (>>-Emits Fail sent (safe_write-Emits sock sent writer line_end) (done-Emits Fail sent))))

  -- `NGBufferedDescriptor_writeHttpHeader`, on a descriptor with room: it succeeds and the line
  -- with the key, a colon, a blank, the encoded value and the line end stands behind all that was
  -- given before; or it fails and a first part of all that has gone out. Either way there is room
  -- again, and the reading side and the fault flag are as they were.
  pub write_http_header-Outcome :
      (key v : Bytes) (d : Descriptor) (w : W)
      → IsWritable d
      → Outcome Fail sent (header_line key v) d w (write_http_header sock key v d w)
  write_http_header-Outcome key v d w h = (write_http_header-Emits key v).emits d w h

  -- One line has been sent: the key, a colon, a blank, a text without a line break, and the line end.
  abbrev pub WritesLine : Bytes → Descriptor → W → Bool × Descriptor × W → Type 0
  WritesLine key d w x =
      (text : Bytes) × (has_break text ≡ false)
      × Outcome Fail sent (key ++ (separator ++ (text ++ (line_end ++ [])))) d w x

  -- Whatever the value of a header is, line breaks in it included, the call on a descriptor with room
  -- sends the key, a colon, a blank, a text without a line break and the line end, or fails with
  -- a first part of all that was given sent: no value ends its line early or begins another header.
  pub write_http_header-WritesLine :
      (key v : Bytes) (d : Descriptor) (w : W)
      → IsWritable d
      → WritesLine key d w (write_http_header sock key v d w)
  write_http_header-WritesLine key v d w h =
      (encode v, has_break-encode v, write_http_header-Outcome key v d w h)
