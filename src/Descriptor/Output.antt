-- ===== src/Descriptor/Output.antt =====
-- The writing side: NGBufferedDescriptor_write, _flush, _safeWrite and _free.
pub mod Delivery
pub mod Steps
pub mod Failures
use sope_appserver.Prelude.{
  ℕ, zero, suc, ◌-◌, Bool, true, false, [], ◌∷◌, ◌++◌, ◌==◌, if◌then◌else◌, Bytes, length, take,
  drop, min,
}
use sope_appserver.Socket.{Sent, accepted, refused, Socket}
use sope_appserver.Descriptor.State.{Descriptor}

-- How a loop over write(2) ended: all bytes are out, or a call returned 0 or a negative number.
pub data Drained : Type 0 where
  drained : Drained
  closed : Drained
  broken : Drained

-- What `NGBufferedDescriptor_write` returns: `_len`, or the 0 or the negative result of a write(2).
pub data Written : Type 0 where
  written : ℕ → Written
  no_peer : Written
  write_error : Written

-- The copy into the buffer at the head of the loop of `_write`: as much as there is room for.
abbrev pub room : Descriptor → Bytes → ℕ
room d bs = min (d.write_size - length d.write_buffer) (length bs)

abbrev pub fill : Descriptor → Bytes → Descriptor
fill d bs = record d { write_buffer = d.write_buffer ++ take (room d bs) bs }

module _ {W : Type 0} where
  abbrev pub after_send : (Bytes → W → Drained × W) → Bytes → Sent × W → Drained × W
  after_send again bs (accepted zero, w) = (closed, w)
  after_send again bs (accepted (suc n), w) = again (drop (suc n) bs) w
  after_send again bs (refused, w) = (broken, w)

  -- `self->writeBufferFillSize` is 0 behind the inner loop of `_write`, however that ended.
  abbrev pub after_drain :
      (Descriptor → W → Written × Descriptor × W)
      → Descriptor
      → Drained × W
      → Written × Descriptor × W
  after_drain again d (drained, w) = again (record d { write_buffer = [] }) w
  after_drain again d (closed, w) = (no_peer, record d { write_buffer = [] }, w)
  after_drain again d (broken, w) = (write_error, record d { write_buffer = [] }, w)

  -- The buffer is emptied only if all of it went out.
  abbrev pub after_flush : Descriptor → Drained × W → Bool × Descriptor × W
  after_flush d (drained, w) = (true, record d { write_buffer = [] }, w)
  after_flush d (_, w) = (false, d, w)

  abbrev pub after_write :
      (Bytes → Descriptor → W → Bool × Descriptor × W)
      → Bytes
      → Written × Descriptor × W
      → Bool × Descriptor × W
  after_write again bs (written zero, d, w) = (false, d, w)
  after_write again bs (written (suc n), d, w) = again (drop (suc n) bs) d w
  after_write again bs (no_peer, d, w) = (false, d, w)
  after_write again bs (write_error, d, w) = (false, d, w)

  module _ (sock : Socket W) where
    -- `while (toGo > 0)` over write(2). A round that goes on has taken off a byte at least, so as
    -- many rounds as there are bytes are enough.
    unfoldable pub drain_loop : ℕ → Bytes → W → Drained × W
    drain_loop rounds [] w = (drained, w)
    drain_loop zero (b ∷ bs) w = (broken, w)
    drain_loop (suc rounds) (b ∷ bs) w =
        after_send (drain_loop rounds) (b ∷ bs) (sock.write (b ∷ bs) w)

    abbrev pub drain : Bytes → W → Drained × W
    drain bs = drain_loop (length bs) bs

    -- The outer loop of `_write`; `len` is `_len`. A round copies a byte at least if the buffer has
    -- a size. If it has none the loop never ends, which counts as a fault.
    unfoldable pub write_loop : ℕ → ℕ → Bytes → Descriptor → W → Written × Descriptor × W
    unfolding drain_loop
    write_loop rounds len [] d w = (written len, d, w)
    write_loop zero len (b ∷ bs) d w = (write_error, record d { faulted = true }, w)
    write_loop (suc rounds) len (b ∷ bs) d w =
        let filled = fill d (b ∷ bs) in
        let again = write_loop rounds len (drop (room d (b ∷ bs)) (b ∷ bs)) in
        let flushed = after_drain again filled (drain filled.write_buffer w) in
        if length filled.write_buffer == d.write_size then flushed else again filled w

    unfoldable pub write : Bytes → Descriptor → W → Written × Descriptor × W
    unfolding write_loop
    write bs = write_loop (length bs) (length bs) bs

    unfoldable pub flush : Descriptor → W → Bool × Descriptor × W
    unfolding drain_loop
    flush d w =
        if length d.write_buffer == 0 then (true, d, w) else after_flush d (drain d.write_buffer w)

    unfoldable pub safe_write_loop : ℕ → Bytes → Descriptor → W → Bool × Descriptor × W
    unfolding write
    safe_write_loop rounds [] d w = (true, d, w)
    safe_write_loop zero (b ∷ bs) d w = (false, record d { faulted = true }, w)
    safe_write_loop (suc rounds) (b ∷ bs) d w =
        after_write (safe_write_loop rounds) (b ∷ bs) (write (b ∷ bs) d w)

    unfoldable pub safe_write : Bytes → Descriptor → W → Bool × Descriptor × W
    unfolding safe_write_loop
    safe_write bs = safe_write_loop (length bs) bs

    -- The structure is gone behind this, and with it what the flush could not send.
    unfoldable pub free : Descriptor → W → W
    unfolding flush
    free d w = let flushed = (flush d w).2 in if d.owns_fd then sock.close flushed else flushed
