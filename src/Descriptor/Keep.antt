-- ===== src/Descriptor/Keep.antt =====
-- A property of the system's state, which may depend on whether the descriptor owns its file
-- descriptor, is kept by the operations of a descriptor if each write(2) and each read(2) keeps it.
pub mod Reads
use sope_appserver.Descriptor.Header.{write_char, write_escaped, write_value, write_http_header}
use sope_appserver.Descriptor.Header.{positive, escape_char, has_break, separator, line_end}
use sope_appserver.Descriptor.Output.{
  Drained, drained, closed, broken, Written, written, no_peer, write_error, after_send, after_drain,
  after_flush, after_write, fill, room, drain, drain_loop, write_loop, write, flush,
  safe_write_loop, safe_write,
}
use sope_appserver.Descriptor.Output.Steps.{Step, go_on, ◌>>◌, done, when}
use sope_appserver.Descriptor.State.{Descriptor}
use sope_appserver.Prelude.{
  ℕ, zero, suc, Bool, true, false, [], ◌∷◌, ◌==◌, Bytes, length, drop, if-holds, if◌then◌else◌,
}
use sope_appserver.Socket.{Sent, accepted, refused, Socket}

-- Each write(2) keeps the property.
abbrev pub WritesKeep : {W : Type 0} → (W → Type 0) → Socket W → Type 0
WritesKeep {W} P sock = (bs : Bytes) (w : W) → P w → P (sock.write bs w).1

-- The state in a result has the property.
abbrev pub Kept : {A W : Type 0} → (W → Type 0) → A × W → Type 0
Kept P (a, w) = P w

abbrev pub Behind : {A W : Type 0} → (Bool → W → Type 0) → A × Descriptor × W → Type 0
Behind P x = P x.1.owns_fd x.2

pub if-Behind :
    {A W : Type 0} (P : Bool → W → Type 0) (b : Bool) (x y : A × Descriptor × W)
    → Behind P x
    → Behind P y
    → Behind P (if b then x else y)
if-Behind P true x y p q = p
if-Behind P false x y p q = q

-- The state behind a step has the property if the state before it has.
pub record Keeps {W : Type 0} (P : Bool → W → Type 0) (m : Step W) : Type 0 where
  pub keeps : (d : Descriptor) (w : W) → P d.owns_fd w → Behind P (m d w)

module _ {W : Type 0} (P : Bool → W → Type 0) where
  pub done-Keeps : Keeps P done
  done-Keeps = record { keeps = λ d w p. p }

  go_on-Keeps :
      (k : Step W) (x : Bool × Descriptor × W) → Keeps P k → Behind P x → Behind P (go_on k x)
  go_on-Keeps k (true, e, v) h p = h.keeps e v p
  go_on-Keeps k (false, e, v) h p = p

  pub >>-Keeps : {m k : Step W} → Keeps P m → Keeps P k → Keeps P (m >> k)
  >>-Keeps {m} {k} h g = record { keeps = λ d w p. go_on-Keeps k (m d w) g (h.keeps d w p) }

  pub when-Keeps : (b : Bool) {m : Step W} → Keeps P m → Keeps P (when b m)
  when-Keeps true h = h
  when-Keeps false h = done-Keeps

  after_send-Kept :
      (o : Bool) (again : Bytes → W → Drained × W) (bs : Bytes) (x : Sent × W)
      → ((cs : Bytes) (v : W) → P o v → Kept (P o) (again cs v))
      → P o x.1
      → Kept (P o) (after_send again bs x)
  after_send-Kept o again bs (accepted zero, v) h p = p
  after_send-Kept o again bs (accepted (suc n), v) h p = h (drop (suc n) bs) v p
  after_send-Kept o again bs (refused, v) h p = p

  after_drain-Keeps :
      (again : Descriptor → W → Written × Descriptor × W) (d : Descriptor) (x : Drained × W)
      → ((e : Descriptor) (v : W) → P e.owns_fd v → Behind P (again e v))
      → Kept (P d.owns_fd) x
      → Behind P (after_drain again d x)
  after_drain-Keeps again d (drained, v) h p = h _ v p
  after_drain-Keeps again d (closed, v) h p = p
  after_drain-Keeps again d (broken, v) h p = p

  after_flush-Keeps :
      (d : Descriptor) (x : Drained × W) → Kept (P d.owns_fd) x → Behind P (after_flush d x)
  after_flush-Keeps d (drained, v) p = p
  after_flush-Keeps d (closed, v) p = p
  after_flush-Keeps d (broken, v) p = p

  after_write-Keeps :
      (again : Bytes → Step W) (bs : Bytes) (x : Written × Descriptor × W)
      → ((cs : Bytes) → Keeps P (again cs))
      → Behind P x
      → Behind P (after_write again bs x)
  after_write-Keeps again bs (written zero, d, v) h p = p
  after_write-Keeps again bs (written (suc n), d, v) h p = (h (drop (suc n) bs)).keeps d v p
  after_write-Keeps again bs (no_peer, d, v) h p = p
  after_write-Keeps again bs (write_error, d, v) h p = p

  positive-Keeps : (x : Written × Descriptor × W) → Behind P x → Behind P (positive x)
  positive-Keeps (written zero, d, v) p = p
  positive-Keeps (written (suc n), d, v) p = p
  positive-Keeps (no_peer, d, v) p = p
  positive-Keeps (write_error, d, v) p = p

  module _ (sock : Socket W) (kept : (o : Bool) → WritesKeep (P o) sock) where
    drain_loop-Kept :
        (o : Bool) (rounds : ℕ) (bs : Bytes) (w : W)
        → P o w
        → Kept (P o) (drain_loop sock rounds bs w)
    unfolding drain_loop
    drain_loop-Kept o rounds [] w p = p
    drain_loop-Kept o zero (b ∷ bs) w p = p
    drain_loop-Kept o (suc rounds) (b ∷ bs) w p =
        after_send-Kept o (drain_loop sock rounds) (b ∷ bs) _ (drain_loop-Kept o rounds)
          (kept o (b ∷ bs) w p)

    drain-Kept : (o : Bool) (bs : Bytes) (w : W) → P o w → Kept (P o) (drain sock bs w)
    drain-Kept o bs w p = drain_loop-Kept o (length bs) bs w p

    write_loop-Keeps :
        (rounds len : ℕ) (bs : Bytes) (d : Descriptor) (w : W)
        → P d.owns_fd w
        → Behind P (write_loop sock rounds len bs d w)
    unfolding write_loop
    write_loop-Keeps rounds len [] d w p = p
    write_loop-Keeps zero len (b ∷ bs) d w p = p
    write_loop-Keeps (suc rounds) len (b ∷ bs) d w p =
        let filled = fill d (b ∷ bs) in
        let again = write_loop-Keeps rounds len (drop (room d (b ∷ bs)) (b ∷ bs)) in
        if-holds (Behind P) (length filled.write_buffer == d.write_size)
          (after_drain-Keeps (write_loop sock rounds len (drop (room d (b ∷ bs)) (b ∷ bs))) filled _
            again (drain-Kept d.owns_fd filled.write_buffer w p))
          (again filled w p)

    write-Keeps :
        (bs : Bytes) (d : Descriptor) (w : W) → P d.owns_fd w → Behind P (write sock bs d w)
    unfolding write
    write-Keeps bs d w p = write_loop-Keeps (length bs) (length bs) bs d w p

    pub flush-Keeps : Keeps P (flush sock)
    unfolding flush
    flush-Keeps = record {
      keeps = λ d w p.
          if-holds (Behind P) (length d.write_buffer == 0) p
            (after_flush-Keeps d _ (drain-Kept d.owns_fd d.write_buffer w p));
    }

    safe_write_loop-Keeps : (rounds : ℕ) (bs : Bytes) → Keeps P (safe_write_loop sock rounds bs)
    unfolding safe_write_loop
    safe_write_loop-Keeps rounds [] = done-Keeps
    safe_write_loop-Keeps zero (b ∷ bs) = record { keeps = λ d w p. p }
    safe_write_loop-Keeps (suc rounds) (b ∷ bs) = record {
      keeps = λ d w p.
          after_write-Keeps (safe_write_loop sock rounds) (b ∷ bs) _ (safe_write_loop-Keeps rounds)
            (write-Keeps (b ∷ bs) d w p);
    }

    pub safe_write-Keeps : (bs : Bytes) → Keeps P (safe_write sock bs)
    unfolding safe_write
    safe_write-Keeps bs = safe_write_loop-Keeps (length bs) bs

    write_char-Keeps : (c : ℕ) → Keeps P (write_char sock c)
    unfolding write_char
    write_char-Keeps c = record {
      keeps = λ d w p. positive-Keeps _ (write-Keeps (escape_char c) d w p);
    }

    write_escaped-Keeps : (v : Bytes) → Keeps P (write_escaped sock v)
    unfolding write_escaped
    write_escaped-Keeps [] = done-Keeps
    write_escaped-Keeps (c ∷ cs) = >>-Keeps (write_char-Keeps c) (write_escaped-Keeps cs)

    write_value-Keeps : (v : Bytes) → Keeps P (write_value sock v)
    unfolding write_value
    write_value-Keeps v =
        if-holds (Keeps P) (has_break v) (write_escaped-Keeps v) (safe_write-Keeps v)

    pub write_http_header-Keeps : (key v : Bytes) → Keeps P (write_http_header sock key v)
    unfolding write_http_header
    write_http_header-Keeps key v = >>-Keeps (safe_write-Keeps key) (
        >>-Keeps (safe_write-Keeps separator)
          (>>-Keeps (write_value-Keeps v) (>>-Keeps (safe_write-Keeps line_end) done-Keeps)))
