-- ===== src/Descriptor/Output/Delivery.antt =====
-- What the writing side hands to the system: the bytes given to it, in order, each once.
use sope_appserver.Prelude.{
  ℕ, zero, suc, ◌+◌, ◌≤◌, ◌<◌, ◌≡◌, refl, sym, inl, inr, ◌∙◌, [], ◌∷◌, ◌++◌, append-nil,
  append_assoc, arith, Bytes, length, take, drop, length-append, length-take, length-drop,
  take-append-drop, Bool-cases, ◌==◌,
}
use sope_appserver.Socket.{Sent, accepted, refused, Socket, IsWriter, Accepts}
use sope_appserver.Descriptor.State.{Descriptor}
use sope_appserver.Descriptor.Output.{
  Drained, drained, closed, broken, Written, written, no_peer, write_error, after_send, after_drain,
  room, fill, drain_loop, write_loop, write,
}

-- There is room in the write buffer; `_write` sends a full buffer before it returns.
pub record IsWritable (d : Descriptor) : Type 0 where
  pub has_room : length d.write_buffer < d.write_size

-- `e` is `d` but for its write buffer.
pub record SameInput (d e : Descriptor) : Type 0 where
  pub same_size : e.write_size ≡ d.write_size
  pub same_read_buffer : e.read_buffer ≡ d.read_buffer
  pub same_read_pos : e.read_pos ≡ d.read_pos
  pub same_read_size : e.read_size ≡ d.read_size
  pub same_faulted : e.faulted ≡ d.faulted

-- A part of `bs` went out and `rest` did not.
abbrev pub SendsPart : {W : Type 0} → Type 0 → (W → Bytes) → Bytes → W → Drained × W → Type 0
SendsPart Fail sent bs w (drained, w') = sent w' ≡ sent w ++ bs
SendsPart Fail sent bs w (closed, w') = (rest : Bytes) × (sent w' ++ rest ≡ sent w ++ bs) × Fail
SendsPart Fail sent bs w (broken, w') = (rest : Bytes) × (sent w' ++ rest ≡ sent w ++ bs) × Fail

module _ {W : Type 0} (Fail : Type 0) (sent : W → Bytes) where
  SendsPart-append :
      (ps bs : Bytes) (w w' : W) (x : Drained × W)
      → sent w' ≡ sent w ++ ps
      → SendsPart Fail sent bs w' x
      → SendsPart Fail sent (ps ++ bs) w x
  SendsPart-append ps bs w w' (drained, v) e p = p ∙ rw (e, append_assoc)
  SendsPart-append ps bs w w' (closed, v) e (r, p, f) = (r, p ∙ rw (e, append_assoc), f)
  SendsPart-append ps bs w w' (broken, v) e (r, p, f) = (r, p ∙ rw (e, append_assoc), f)

  after_send-SendsPart :
      (again : Bytes → W → Drained × W) (bs : Bytes) (w : W) (r : Sent) (w' : W)
      → ((n : ℕ) → SendsPart Fail sent (drop (suc n) bs) w' (again (drop (suc n) bs) w'))
      → Accepts Fail sent bs w (r, w')
      → SendsPart Fail sent bs w (after_send again bs (r, w'))
  after_send-SendsPart again bs w (accepted zero) w' ih (e, f) = (bs, rw e, f)
  after_send-SendsPart again bs w (accepted (suc n)) w' ih (k, e) =
      rw (take-append-drop (suc n) bs) at (
        SendsPart-append (take (suc n) bs) (drop (suc n) bs) w w' (again (drop (suc n) bs) w') e
          (ih n))
  after_send-SendsPart again bs w refused w' ih (e, f) = (bs, rw e, f)

module _ {W Fail : Type 0} (sock : Socket W) (sent : W → Bytes)
    (writer : IsWriter sock sent Fail) where
  pub drain_loop-SendsPart :
      (rounds : ℕ) (bs : Bytes) (w : W)
      → length bs ≤ rounds
      → SendsPart Fail sent bs w (drain_loop sock rounds bs w)
  unfolding drain_loop
  drain_loop-SendsPart zero [] w h = sym (append-nil (sent w))
  drain_loop-SendsPart (suc rounds) [] w h = sym (append-nil (sent w))
  drain_loop-SendsPart zero (b ∷ bs) w h = absurd (omega arith)
  drain_loop-SendsPart (suc rounds) (b ∷ bs) w h =
      after_send-SendsPart Fail sent (drain_loop sock rounds) (b ∷ bs) w _ _
        (λ n. drain_loop-SendsPart rounds (drop n bs) _ (omega (arith, length-drop n bs)))
        (writer.accepts (b ∷ bs) w (omega arith))

-- All that has been given to the descriptor: what the system has taken, then the buffer.
abbrev pub output : {W : Type 0} → (W → Bytes) → Descriptor → W → Bytes
output sent d w = sent w ++ d.write_buffer

-- The bytes `bs` went in behind what was there before; or, after a failure, what went out is a part
-- of that from its start, and what did not is lost.
abbrev pub Delivered : {W : Type 0} → (W → Bytes) → Bytes → Descriptor → W → Descriptor × W → Type 0
Delivered sent bs d w (d', w') = output sent d' w' ≡ output sent d w ++ bs

abbrev pub Lost : {W : Type 0} → Type 0 → (W → Bytes) → Bytes → Descriptor → W → W → Type 0
Lost Fail sent bs d w w' = (rest : Bytes) × (sent w' ++ rest ≡ output sent d w ++ bs) × Fail

abbrev pub Writes :
    {W : Type 0}
    → Type 0
    → (W → Bytes)
    → Bytes
    → ℕ
    → Descriptor
    → W
    → Written × Descriptor × W
    → Type 0
Writes Fail sent bs len d w (written n, d', w') =
    (n ≡ len) × Delivered sent bs d w (d', w') × IsWritable d' × SameInput d d'
Writes Fail sent bs len d w (no_peer, d', w') =
    Lost Fail sent bs d w w' × IsWritable d' × SameInput d d'
Writes Fail sent bs len d w (write_error, d', w') =
    Lost Fail sent bs d w w' × IsWritable d' × SameInput d d'

pub SameInput-refl : (d : Descriptor) → SameInput d d
SameInput-refl d = ground arith

pub SameInput-trans : {d e f : Descriptor} → SameInput d e → SameInput e f → SameInput d f
SameInput-trans s t = ground arith

module _ {W : Type 0} (Fail : Type 0) (sent : W → Bytes) where
  Writes-append :
      (ps bs : Bytes) (len : ℕ) (d e : Descriptor) (w v : W) (x : Written × Descriptor × W)
      → Delivered sent ps d w (e, v)
      → SameInput d e
      → Writes Fail sent bs len e v x
      → Writes Fail sent (ps ++ bs) len d w x
  Writes-append ps bs len d e w v (written n, d', w') k s (p, q, r, t) =
      (p, q ∙ rw (k, append_assoc), r, SameInput-trans s t)
  Writes-append ps bs len d e w v (no_peer, d', w') k s ((rest, q, f), r, t) =
      ((rest, q ∙ rw (k, append_assoc), f), r, SameInput-trans s t)
  Writes-append ps bs len d e w v (write_error, d', w') k s ((rest, q, f), r, t) =
      ((rest, q ∙ rw (k, append_assoc), f), r, SameInput-trans s t)

  fill-Delivered :
      (bs : Bytes) (d : Descriptor) (w : W)
      → Delivered sent (take (room d bs) bs) d w (fill d bs, w)
  fill-Delivered bs d w = sym (append_assoc (sent w) d.write_buffer (take (room d bs) bs))

  after_drain-Writes :
      (again : Descriptor → W → Written × Descriptor × W) (bs : Bytes) (len : ℕ) (d : Descriptor)
      (w : W) (r : Drained) (w' : W)
      → 0 < d.write_size
      → ((e : Descriptor) (v : W) → IsWritable e → Writes Fail sent bs len e v (again e v))
      → SendsPart Fail sent d.write_buffer w (r, w')
      → Writes Fail sent bs len d w (after_drain again d (r, w'))
  after_drain-Writes again bs len d w drained w' h ih p =
      let e = record d { write_buffer = [] } in
      Writes-append [] bs len d e w w' (again e w') (rw (append-nil, append-nil) p) (ground arith)
        (ih e w' (record { has_room = h }))
  after_drain-Writes again bs len d w closed w' h ih (rest, p, f) =
      ((rest ++ bs, rw (← append_assoc, p), f), record { has_room = h }, ground arith)
  after_drain-Writes again bs len d w broken w' h ih (rest, p, f) =
      ((rest ++ bs, rw (← append_assoc, p), f), record { has_room = h }, ground arith)

length-fill :
    (bs : Bytes) (d : Descriptor)
    → length (fill d bs).write_buffer ≡ length d.write_buffer + room d bs
length-fill bs d =
    omega
      (arith, length-append {0} d.write_buffer (take (room d bs) bs), length-take (room d bs) bs)

module _ {W Fail : Type 0} (sock : Socket W) (sent : W → Bytes)
    (writer : IsWriter sock sent Fail) where
  write_loop-Writes :
      (rounds len : ℕ) (bs : Bytes) (d : Descriptor) (w : W)
      → length bs ≤ rounds
      → IsWritable d
      → Writes Fail sent bs len d w (write_loop sock rounds len bs d w)
  unfolding write_loop
  write_loop-Writes zero len [] d w h v = (refl, sym (append-nil _), v, SameInput-refl d)
  write_loop-Writes (suc rounds) len [] d w h v = (refl, sym (append-nil _), v, SameInput-refl d)
  write_loop-Writes zero len (b ∷ bs) d w h v = absurd (omega arith)
  write_loop-Writes (suc rounds) len (b ∷ bs) d w h v =
      let n = room d (b ∷ bs) in
      let filled = fill d (b ∷ bs) in
      let rest = drop n (b ∷ bs) in
      let again = write_loop sock rounds len rest in
      let shorter : length rest ≤ rounds = omega (arith, length-drop n (b ∷ bs)) in
      let onward = λ (e : Descriptor) (u : W) (k : IsWritable e).
        write_loop-Writes rounds len rest e u shorter k in
      let whole = λ (x : Written × Descriptor × W) (k : Writes Fail sent rest len filled w x).
        rw take-append-drop at (
          Writes-append Fail sent (take n (b ∷ bs)) rest len d filled w w x
            (fill-Delivered Fail sent (b ∷ bs) d w) (ground arith) k) in
      elim (Bool-cases (length filled.write_buffer == d.write_size)) [
        | inl full ↦ rw full (
            whole _ (
              after_drain-Writes Fail sent again rest len filled w _ _ (omega arith) onward
                (drain_loop-SendsPart sock sent writer _ filled.write_buffer w (omega arith))))
        | inr not_full ↦ rw not_full (
            whole _
              (onward filled w (record { has_room = ground (arith, length-fill (b ∷ bs) d) })))
      ]

  -- `NGBufferedDescriptor_write`, on a descriptor with room: it returns `_len` and the bytes stand
  -- behind all that was given before, partly with the system and partly in the buffer; or it fails,
  -- and a first part of all that has gone out. Either way there is room again, and the reading side
  -- and the fault flag are as they were.
  pub write-Writes :
      (bs : Bytes) (d : Descriptor) (w : W)
      → IsWritable d
      → Writes Fail sent bs (length bs) d w (write sock bs d w)
  unfolding write
  write-Writes bs d w v = write_loop-Writes (length bs) (length bs) bs d w (omega arith) v
