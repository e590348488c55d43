-- ===== src/Descriptor/Keep/Reads.antt =====
-- The same for the reading side.
use sope_appserver.Descriptor.Input.{
  stored, after_refill, unbuffered, prefixed, after_read, read, safe_read_loop, safe_read,
}
use sope_appserver.Descriptor.Keep.{Behind, if-Behind}
use sope_appserver.Descriptor.State.{Descriptor, available, unread, advance, reset}
use sope_appserver.Prelude.{
  ℕ, zero, suc, Bool, ◌∷◌, ltb, leb, ◌==◌, Bytes, length, if-holds, ◌-◌, ◌+◌, if◌then◌else◌, take,
}
use sope_appserver.Socket.{Recv, got, ended, failed, Socket}

-- Each read(2) keeps the property.
abbrev pub ReadsKeep : {W : Type 0} → (W → Type 0) → Socket W → Type 0
ReadsKeep {W} P sock = (n : ℕ) (w : W) → P w → P (sock.read n w).1

abbrev pub Stored : {W : Type 0} → (Bool → W → Type 0) → Bool × Bytes × Descriptor × W → Type 0
Stored P x = P x.2.owns_fd x.3

module _ {W : Type 0} (P : Bool → W → Type 0) where
  advance-Behind :
      (r : Recv) (len : ℕ) (d : Descriptor) (w : W) → P d.owns_fd w → Behind P (r, advance len d, w)
  advance-Behind r len d w p =
      let moved = record d { read_pos = d.read_pos + len } in
      if-holds (λ e. P (Descriptor.owns_fd e) w) (available moved == 0) p p

  unbuffered-Keeps : (d : Descriptor) (x : Recv × W) → P d.owns_fd x.1 → Behind P (unbuffered d x)
  unbuffered-Keeps d (r, v) p = p

  after_refill-Keeps :
      (len : ℕ) (d : Descriptor) (x : Recv × W) → P d.owns_fd x.1 → Behind P (after_refill len d x)
  after_refill-Keeps len d (got b bs, v) p =
      let filled = record d { read_buffer = b ∷ bs } in
      if-Behind P (leb len (length (b ∷ bs)))
        (stored (take len (unread filled)), advance len filled, v)
        (stored (unread filled), reset d, v)
        (advance-Behind (stored (take len (unread filled))) len filled v p) p
  after_refill-Keeps len d (ended, v) p = p
  after_refill-Keeps len d (failed, v) p = p

  prefixed-Keeps :
      (bs : Bytes) (x : Bool × Bytes × Descriptor × W) → Stored P x → Stored P (prefixed bs x)
  prefixed-Keeps bs (done, rest, d, v) p = p

  after_read-Keeps :
      (again : ℕ → Descriptor → W → Bool × Bytes × Descriptor × W) (len : ℕ)
      (x : Recv × Descriptor × W)
      → ((n : ℕ) (e : Descriptor) (v : W) → P e.owns_fd v → Stored P (again n e v))
      → Behind P x
      → Stored P (after_read again len x)
  after_read-Keeps again len (ended, d, v) h p = p
  after_read-Keeps again len (failed, d, v) h p = p
  after_read-Keeps again len (got b bs, d, v) h p =
      prefixed-Keeps (b ∷ bs) (again (len - length (b ∷ bs)) d v) (h _ d v p)

  module _ (sock : Socket W) (kept : (o : Bool) → ReadsKeep (P o) sock) where
    read-Keeps : (len : ℕ) (d : Descriptor) (w : W) → P d.owns_fd w → Behind P (read sock len d w)
    unfolding read
    read-Keeps len d w p =
        let direct = unbuffered d (sock.read len w) in
        let refill = after_refill len d (sock.read d.read_size w) in
        let past = if ltb d.read_size len then direct else refill in
        let rest : Recv × Descriptor × W = (stored (unread d), reset d, w) in
        let short = if ltb 0 (available d) then rest else past in
        let inside : Recv × Descriptor × W = (stored (take len (unread d)), advance len d, w) in
        let direct-Behind = unbuffered-Keeps d (sock.read len w) (kept d.owns_fd len w p) in
        if-Behind P (d.read_size == 0) direct (if leb len (available d) then inside else short)
          direct-Behind
          (if-Behind P (leb len (available d)) inside short
            (advance-Behind (stored (take len (unread d))) len d w p)
            (if-Behind P (ltb 0 (available d)) rest past p (
              if-Behind P (ltb d.read_size len) direct refill direct-Behind (
                after_refill-Keeps len d (sock.read d.read_size w)
                  (kept d.owns_fd d.read_size w p)))))

    safe_read_loop-Keeps :
        (rounds len : ℕ) (d : Descriptor) (w : W)
        → P d.owns_fd w
        → Stored P (safe_read_loop sock rounds len d w)
    unfolding safe_read_loop
    safe_read_loop-Keeps rounds zero d w p = p
    safe_read_loop-Keeps zero (suc len) d w p = p
    safe_read_loop-Keeps (suc rounds) (suc len) d w p =
        after_read-Keeps (safe_read_loop sock rounds) (suc len) _ (safe_read_loop-Keeps rounds)
          (read-Keeps (suc len) d w p)

    pub safe_read-Keeps :
        (len : ℕ) (d : Descriptor) (w : W) → P d.owns_fd w → Stored P (safe_read sock len d w)
    unfolding safe_read
    safe_read-Keeps len d w p = safe_read_loop-Keeps len len d w p
