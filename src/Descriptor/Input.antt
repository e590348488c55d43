-- ===== src/Descriptor/Input.antt =====
-- The reading side: NGBufferedDescriptor_read, _safeRead and _readChar.
pub mod Stream
pub mod Safe
pub mod Faults
use sope_appserver.Prelude.{
  ℕ, zero, suc, ◌-◌, Bool, true, false, Option, none, some, [], ◌∷◌, ◌++◌, ltb, leb, ◌==◌,
  if◌then◌else◌, Bytes, length, take,
}
use sope_appserver.Socket.{Recv, got, ended, failed, Socket}
use sope_appserver.Descriptor.State.{Descriptor, available, unread, reset, advance}

-- What a call that stores these bytes through `_buf` returns: their number.
abbrev pub stored : Bytes → Recv
stored [] = ended
stored (b ∷ bs) = got b bs

module _ {W : Type 0} where
  -- The end of the last branch, on what read(2) returned. A negative fill size is handed to memcpy
  -- as its length: that is undefined, and the result is the negative number.
  abbrev pub after_refill : ℕ → Descriptor → Recv × W → Recv × Descriptor × W
  after_refill len d (got b bs, w) =
      let filled = record d { read_buffer = b ∷ bs } in
      if leb len (length (b ∷ bs))
      then (stored (take len (unread filled)), advance len filled, w)
      else (stored (unread filled), reset d, w)
  after_refill len d (ended, w) = (ended, reset d, w)
  after_refill len d (failed, w) = (failed, record (reset d) { faulted = true }, w)

  -- A call of read(2) that goes past the buffer.
  abbrev pub unbuffered : Descriptor → Recv × W → Recv × Descriptor × W
  unbuffered d (r, w) = (r, d, w)

  abbrev pub prefixed : Bytes → Bool × Bytes × Descriptor × W → Bool × Bytes × Descriptor × W
  prefixed bs (done, rest, d, w) = (done, bs ++ rest, d, w)

  -- One round of `_safeRead`, on what the read returned: `again` goes on with what is left.
  abbrev pub after_read :
      (ℕ → Descriptor → W → Bool × Bytes × Descriptor × W)
      → ℕ
      → Recv × Descriptor × W
      → Bool × Bytes × Descriptor × W
  after_read again len (ended, d, w) = (false, [], d, w)
  after_read again len (failed, d, w) = (false, [], d, w)
  after_read again len (got b bs, d, w) = prefixed (b ∷ bs) (again (len - length (b ∷ bs)) d w)

  abbrev pub char_of : Bool × Bytes × Descriptor × W → Option ℕ × Descriptor × W
  char_of (true, c ∷ cs, d, w) = (some c, d, w)
  char_of (_, _, d, w) = (none, d, w)

  module _ (sock : Socket W) where
    unfoldable pub read : ℕ → Descriptor → W → Recv × Descriptor × W
    read len d w =
        if d.read_size == 0
        then unbuffered d (sock.read len w)
        else if leb len (available d)
        then (stored (take len (unread d)), advance len d, w)
        else if ltb 0 (available d)
        then (stored (unread d), reset d, w)
        else if ltb d.read_size len
        then unbuffered d (sock.read len w)
        else after_refill len d (sock.read d.read_size w)

    -- The loop of `_safeRead`, with the bytes that it stored. Each round stores one byte at least,
    -- so `len` rounds are enough.
    unfoldable pub safe_read_loop : ℕ → ℕ → Descriptor → W → Bool × Bytes × Descriptor × W
    safe_read_loop rounds zero d w = (true, [], d, w)
    safe_read_loop zero (suc len) d w = (false, [], d, w)
    safe_read_loop (suc rounds) (suc len) d w =
        after_read (safe_read_loop rounds) (suc len) (read (suc len) d w)

    unfoldable pub safe_read : ℕ → Descriptor → W → Bool × Bytes × Descriptor × W
    unfolding safe_read_loop
    safe_read len = safe_read_loop len len

    -- `none` is the -1 of the code.
    unfoldable pub read_char : Descriptor → W → Option ℕ × Descriptor × W
    unfolding safe_read
    read_char d w = char_of (safe_read 1 d w)
