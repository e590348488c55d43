-- ===== src/Descriptor/Output/Steps.antt =====
-- Steps that give bytes to a descriptor, the answer `false` standing for the 0 on which the code
-- gives up, and the rules by which a chain of them is proved to emit what its parts emit.
use sope_appserver.Prelude.{
  ℕ, zero, suc, ◌≤◌, ◌<◌, ◌≡◌, refl, sym, ap, ◌∙◌, inl, inr, Bool, true, false, [], ◌∷◌, ◌++◌,
  append-nil, append_assoc, arith, Bytes, length, drop_all, nil_of_length, Bool-cases, ◌==◌,
}
use sope_appserver.Socket.{Socket, IsWriter}
use sope_appserver.Descriptor.State.{Descriptor}
use sope_appserver.Descriptor.Output.{
  Drained, drained, closed, broken, Written, written, no_peer, write_error, after_flush,
  after_write, flush, safe_write_loop, safe_write,
}
use sope_appserver.Descriptor.Output.Delivery.{
  IsWritable, SameInput, SameInput-refl, SameInput-trans, SendsPart, drain_loop-SendsPart,
  Delivered, Lost, Writes, write-Writes,
}

abbrev pub Step : Type 0 → Type 0
Step W = Descriptor → W → Bool × Descriptor × W

module _ {W : Type 0} where
  abbrev pub go_on : Step W → Bool × Descriptor × W → Bool × Descriptor × W
  go_on k (true, d, w) = k d w
  go_on k (false, d, w) = (false, d, w)

  -- `if (!m) return 0;` and on with `k`.
  infixr 5 ◌>>◌
  abbrev pub ◌>>◌ : Step W → Step W → Step W
  ◌>>◌ m k d w = go_on k (m d w)

  abbrev pub done : Step W
  done d w = (true, d, w)

  -- What is behind a flush that succeeds: an empty buffer.
  abbrev pub Empties : Bool × Descriptor × W → Type 0
  Empties (true, e, v) = e.write_buffer ≡ []
  Empties (false, e, v) = Unit {0}

  go_on-Empties :
      (k : Step W) (x : Bool × Descriptor × W)
      → ((e : Descriptor) (v : W) → Empties (k e v))
      → Empties (go_on k x)
  go_on-Empties k (true, e, v) h = h e v
  go_on-Empties k (false, e, v) h = tt

  -- A step not taken counts as done.
  abbrev pub when : Bool → Step W → Step W
  when true m = m
  when false m = done

-- Whenever the step succeeds the write buffer is empty.
pub record Clears {W : Type 0} (m : Step W) : Type 0 where
  pub clears : (d : Descriptor) (w : W) → Empties (m d w)

pub >>-Clears : {W : Type 0} (m : Step W) {k : Step W} → Clears k → Clears (m >> k)
>>-Clears m {k} h = record { clears = λ d w. go_on-Empties k (m d w) h.clears }

-- What became of the bytes `bs` that a step was to give to the descriptor.
abbrev pub Outcome :
    {W : Type 0} → Type 0 → (W → Bytes) → Bytes → Descriptor → W → Bool × Descriptor × W → Type 0
Outcome Fail sent bs d w (true, d', w') =
    Delivered sent bs d w (d', w') × IsWritable d' × SameInput d d'
Outcome Fail sent bs d w (false, d', w') = Lost Fail sent bs d w w' × IsWritable d' × SameInput d d'

-- On any descriptor with room the step either gives it exactly `bs`, or fails with a first part of
-- all that was given sent.
pub record Emits {W : Type 0} (Fail : Type 0) (sent : W → Bytes) (bs : Bytes) (m : Step W)
    : Type 0 where
  pub emits : (d : Descriptor) (w : W) → IsWritable d → Outcome Fail sent bs d w (m d w)

module _ {W : Type 0} (Fail : Type 0) (sent : W → Bytes) where
  Outcome-append :
      (ps bs : Bytes) (d e : Descriptor) (w v : W) (x : Bool × Descriptor × W)
      → Delivered sent ps d w (e, v)
      → SameInput d e
      → Outcome Fail sent bs e v x
      → Outcome Fail sent (ps ++ bs) d w x
  Outcome-append ps bs d e w v (true, d', w') k s (q, r, t) =
      (q ∙ rw (k, append_assoc), r, SameInput-trans s t)
  Outcome-append ps bs d e w v (false, d', w') k s ((rest, q, f), r, t) =
      ((rest, q ∙ rw (k, append_assoc), f), r, SameInput-trans s t)

  pub done-Emits : Emits Fail sent [] done
  done-Emits = record { emits = λ d w v. (sym (append-nil _), v, SameInput-refl d) }

  go_on-Outcome :
      (ps bs : Bytes) (k : Step W) (d : Descriptor) (w : W) (x : Bool × Descriptor × W)
      → Emits Fail sent bs k
      → Outcome Fail sent ps d w x
      → Outcome Fail sent (ps ++ bs) d w (go_on k x)
  go_on-Outcome ps bs k d w (true, e, v) h (q, r, t) =
      Outcome-append ps bs d e w v (k e v) q t (h.emits e v r)
  go_on-Outcome ps bs k d w (false, e, v) h ((rest, q, f), r, t) =
      ((rest ++ bs, rw (← append_assoc, q, append_assoc), f), r, t)

  pub >>-Emits :
      {ps bs : Bytes} {m k : Step W}
      → Emits Fail sent ps m
      → Emits Fail sent bs k
      → Emits Fail sent (ps ++ bs) (m >> k)
  >>-Emits {ps} {bs} {m} {k} h g = record {
    emits = λ d w v. go_on-Outcome ps bs k d w (m d w) g (h.emits d w v);
  }

  after_write-Outcome :
      (again : Bytes → Step W) (bs : Bytes) (d : Descriptor) (w : W) (x : Written × Descriptor × W)
      → 0 < length bs
      → ((e : Descriptor) (v : W) → again [] e v ≡ (true, e, v))
      → Writes Fail sent bs (length bs) d w x
      → Outcome Fail sent bs d w (after_write again bs x)
  after_write-Outcome again bs d w (written zero, e, v) h stop (n, q, r, t) =
      absurd (omega (arith, n))
  after_write-Outcome again bs d w (written (suc n), e, v) h stop (k, q, r, t) =
      rw (drop_all (suc n) bs (omega (arith, k)), stop e v) (q, r, t)
  after_write-Outcome again bs d w (no_peer, e, v) h stop p = p
  after_write-Outcome again bs d w (write_error, e, v) h stop p = p

  after_flush-Outcome :
      (d : Descriptor) (w : W) (x : Drained × W)
      → IsWritable d
      → SendsPart Fail sent d.write_buffer w x
      → Outcome Fail sent [] d w (after_flush d x)
  after_flush-Outcome d w (drained, v) h p =
      (ap (λ bs. bs ++ []) p, record { has_room = omega arith }, ground arith)
  after_flush-Outcome d w (closed, v) h (rest, p, f) =
      ((rest, p ∙ sym (append-nil _), f), h, SameInput-refl d)
  after_flush-Outcome d w (broken, v) h (rest, p, f) =
      ((rest, p ∙ sym (append-nil _), f), h, SameInput-refl d)

module _ {W : Type 0} (sock : Socket W) where
  after_flush-Empties : (d : Descriptor) (x : Drained × W) → Empties (after_flush d x)
  after_flush-Empties d (drained, v) = refl
  after_flush-Empties d (closed, v) = tt
  after_flush-Empties d (broken, v) = tt

  safe_write_loop-nil :
      (rounds : ℕ) (d : Descriptor) (w : W) → safe_write_loop sock rounds [] d w ≡ (true, d, w)
  unfolding safe_write_loop
  safe_write_loop-nil zero d w = refl
  safe_write_loop-nil (suc rounds) d w = refl

  -- A flush that succeeds has handed everything that was ever given to the system, and a flush
  -- that fails leaves the buffer as it was, though a part of it may be out.
  pub flush-Empties : (d : Descriptor) (w : W) → Empties (flush sock d w)
  unfolding flush
  flush-Empties d w = elim (Bool-cases (length d.write_buffer == 0)) [
    | inl none_left ↦ rw none_left (nil_of_length d.write_buffer (ground arith))
    | inr some_left ↦ rw some_left (after_flush-Empties d _)
  ]

  pub flush-Clears : Clears (flush sock)
  flush-Clears = record { clears = flush-Empties }

module _ {W Fail : Type 0} (sock : Socket W) (sent : W → Bytes)
    (writer : IsWriter sock sent Fail) where
  safe_write_loop-Outcome :
      (rounds : ℕ) (bs : Bytes) (d : Descriptor) (w : W)
      → length bs ≤ rounds
      → IsWritable d
      → Outcome Fail sent bs d w (safe_write_loop sock rounds bs d w)
  unfolding safe_write_loop
  safe_write_loop-Outcome zero [] d w h v = (done-Emits Fail sent).emits d w v
  safe_write_loop-Outcome (suc rounds) [] d w h v = (done-Emits Fail sent).emits d w v
  safe_write_loop-Outcome zero (b ∷ bs) d w h v = absurd (omega arith)
  safe_write_loop-Outcome (suc rounds) (b ∷ bs) d w h v =
      after_write-Outcome Fail sent (safe_write_loop sock rounds) (b ∷ bs) d w _ (omega arith)
        (safe_write_loop-nil sock rounds) (write-Writes sock sent writer (b ∷ bs) d w v)

  -- `NGBufferedDescriptor_safeWrite`, on a descriptor with room: it succeeds and the bytes stand
  -- behind all that was given before; or it fails and a first part of all that has gone out. Either
  -- way there is room again, and the reading side and the fault flag are as they were.
  pub safe_write-Outcome :
      (bs : Bytes) (d : Descriptor) (w : W)
      → IsWritable d
      → Outcome Fail sent bs d w (safe_write sock bs d w)
  unfolding safe_write
  safe_write-Outcome bs d w v = safe_write_loop-Outcome (length bs) bs d w (omega arith) v

  pub safe_write-Emits : (bs : Bytes) → Emits Fail sent bs (safe_write sock bs)
  safe_write-Emits bs = record { emits = safe_write-Outcome bs }

  flush-Outcome :
      (d : Descriptor) (w : W) → IsWritable d → Outcome Fail sent [] d w (flush sock d w)
  unfolding flush
  flush-Outcome d w v = elim (Bool-cases (length d.write_buffer == 0)) [
    | inl none_left ↦ rw none_left ((done-Emits Fail sent).emits d w v)
    | inr some_left ↦ rw some_left (
        after_flush-Outcome Fail sent d w _ v (
          drain_loop-SendsPart sock sent writer (length d.write_buffer) d.write_buffer w
            (omega arith)))
  ]

  -- `NGBufferedDescriptor_flush` adds nothing to what was given.
  pub flush-Emits : Emits Fail sent [] (flush sock)
  flush-Emits = record { emits = flush-Outcome }
