-- ===== src/Descriptor/Output/Failures.antt =====
-- What goes wrong on the writing side.
use sope_appserver.Prelude.{
  ℕ, zero, suc, ◌≡◌, refl, sym, ◌∙◌, ap, true, false, [], ◌∷◌, ◌++◌, append-nil, arith, min, Bytes,
  length, ◌==◌, Bool-cases, inl, inr,
}
use sope_appserver.Descriptor.Output.Delivery.{IsWritable}
use sope_appserver.Descriptor.Output.Steps.{flush-Emits, flush-Empties, Outcome}
use sope_appserver.Descriptor.Output.{
  Drained, drained, closed, broken, write_loop, flush, after_flush,
}
use sope_appserver.Descriptor.State.{Descriptor}
use sope_appserver.Socket.{Socket, IsWriter}

abbrev pub without_buffer : Descriptor → Descriptor
without_buffer d = record d { write_buffer = []; write_size = 0 }

-- A descriptor whose write buffer has size 0 never takes a byte in: whatever the number of rounds,
-- the loop of `_write` does not end, which the model records as a fault.
pub write_loop_stalls :
    {W : Type 0} (sock : Socket W) (rounds len b : ℕ) (bs : Bytes) (d : Descriptor) (w : W)
    → (write_loop sock rounds len (b ∷ bs) (without_buffer d) w).1.faulted ≡ true
unfolding write_loop
write_loop_stalls sock zero len b bs d w = refl
write_loop_stalls sock (suc rounds) len b bs d w =
    let e : min 0 (suc (length bs)) ≡ 0 = omega arith in
    rw e (write_loop_stalls sock rounds len b bs d w)

failed_flush :
    {W : Type 0} (d e : Descriptor) (w : W) (x : Drained × W)
    → after_flush d x ≡ (false, e, w)
    → e ≡ d
failed_flush d e w (drained, v) h = cc
failed_flush d e w (closed, v) h = ap (λ p. p.1) (sym h)
failed_flush d e w (broken, v) h = ap (λ p. p.1) (sym h)

flush_keeps :
    {W : Type 0} (sock : Socket W) (d e : Descriptor) (w v : W)
    → flush sock d w ≡ (false, e, v)
    → e ≡ d
unfolding flush
flush_keeps sock d e w v h = elim (Bool-cases (length d.write_buffer == 0)) [
  | inl none_left ↦ let g : (true, d, w) ≡ (false, e, v) = rw none_left at h in absurd (cc)
  | inr some_left ↦ failed_flush d e v _ (rw some_left at h)
]

-- A flush that fails, on a descriptor with room, keeps the whole buffer, also what it has sent of
-- it: the next flush, if it succeeds, as that of `NGBufferedDescriptor_free` can, sends all of it
-- again.
pub flush_resends :
    {W Fail : Type 0} (sock : Socket W) (sent : W → Bytes)
    → IsWriter sock sent Fail
    → (d e f : Descriptor) (w v u : W) → IsWritable d
    → flush sock d w ≡ (false, e, v)
    → flush sock e v ≡ (true, f, u)
    → sent u ≡ sent v ++ d.write_buffer
flush_resends {W} {Fail} sock sent writer d e f w v u k p q =
    let same = flush_keeps sock d e w v p in
    let given : Outcome Fail sent [] e v (true, f, u) =
      rw q at ((flush-Emits sock sent writer).emits e v (rw same k)) in
    let emptied : f.write_buffer ≡ [] = rw q at (flush-Empties sock e v) in
    sym (append-nil (sent u))
    ∙ ap (λ b. sent u ++ b) (sym emptied)
    ∙ given.0
    ∙ append-nil _
    ∙ ap (λ (x : Descriptor). sent v ++ x.write_buffer) same
