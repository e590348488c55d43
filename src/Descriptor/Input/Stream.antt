-- ===== src/Descriptor/Input/Stream.antt =====
-- The buffered descriptor reads the byte stream of its socket, whatever the pieces in which the
-- system delivers it.
use sope_appserver.Prelude.{
  ℕ, ◌+◌, ◌≤◌, ◌<◌, ◌≡◌, ◌≢◌, refl, ◌∙◌, ◌⊎◌, inl, inr, Bool, true, false, [], ◌∷◌, ◌++◌,
  append_assoc, arith, Bool-cases, leb, Bytes, length, take, drop, length-drop, take-append-drop,
  length-take, drop-drop, drop_all,
}
use native.Mathlib.Decide.{ℕ_discrete, dec_le, dec_lt}
use sope_appserver.Socket.{Recv, got, ended, failed, Socket, Delivers, IsReader}
use sope_appserver.Descriptor.State.{Descriptor, available, unread, reset, advance}
use sope_appserver.Descriptor.Input.{stored, after_refill, read}

-- The positions lie in the buffer, and a position at its end has been reset.
pub record IsReadable (d : Descriptor) : Type 0 where
  pub in_buffer : d.read_pos ≤ length d.read_buffer
  pub rewound : d.read_pos ≡ length d.read_buffer → d.read_pos ≡ 0
  pub fits : length d.read_buffer ≤ d.read_size

advance-IsReadable :
    (n : ℕ) (d : Descriptor) → IsReadable d → n ≤ available d → IsReadable (advance n d)
advance-IsReadable n d v h = ground arith

length-unread : (d : Descriptor) → IsReadable d → length (unread d) ≡ available d
length-unread d v = ground (arith, length-drop d.read_pos d.read_buffer)

unread-advance :
    (n : ℕ) (d : Descriptor)
    → IsReadable d
    → n ≤ available d
    → unread (advance n d) ≡ drop n (unread d)
unread-advance n d v h =
    ground (arith, drop-drop d.read_pos n d.read_buffer, drop_all (d.read_pos + n) d.read_buffer)

-- What the reader has not seen yet: the rest of the buffer, then what is pending at the socket.
abbrev pub stream : {W : Type 0} → (W → Bytes) → Descriptor → W → Bytes
stream pending d w = unread d ++ pending w

abbrev pub Reads : {W : Type 0} → (W → Bytes) → ℕ → Descriptor → W → Recv × Descriptor × W → Type 0
Reads pending len d w (got b bs, d', w') =
    (stream pending d w ≡ (b ∷ bs) ++ stream pending d' w')
    × (length (b ∷ bs) ≤ len)
    × IsReadable d'
    × (d'.faulted ≡ d.faulted)
Reads pending len d w (ended, d', w') =
    (stream pending d w ≡ [])
    × (stream pending d' w' ≡ [])
    × IsReadable d'
    × (d'.faulted ≡ d.faulted)
Reads pending len d w (failed, d', w') = ⊥

module _ {W : Type 0} (pending : W → Bytes) where
  stored-Reads :
      (bs : Bytes) (len : ℕ) (d d' : Descriptor) (w w' : W)
      → 0 < length bs
      → length bs ≤ len
      → stream pending d w ≡ bs ++ stream pending d' w'
      → IsReadable d'
      → d'.faulted ≡ d.faulted
      → Reads pending len d w (stored bs, d', w')
  stored-Reads [] len d d' w w' h k e v f = absurd (omega arith)
  stored-Reads (b ∷ bs) len d d' w w' h k e v f = (e, k, v, f)

  -- Taking `len` of the bytes at hand.
  taken-Reads :
      (len : ℕ) (d : Descriptor) (w : W)
      → 0 < len
      → IsReadable d
      → len ≤ available d
      → Reads pending len d w (stored (take len (unread d)), advance len d, w)
  taken-Reads len d w h v k =
      stored-Reads (take len (unread d)) len d (advance len d) w w
        (omega (arith, length-take len (unread d), length-unread d v))
        (omega (arith, length-take len (unread d)))
        (rw (unread-advance len d v k, ← append_assoc, take-append-drop))
        (advance-IsReadable len d v k) (ground arith)

  -- Handing out all that is at hand.
  all-Reads :
      (len : ℕ) (d : Descriptor) (w : W)
      → IsReadable d
      → 0 < available d
      → available d ≤ len
      → Reads pending len d w (stored (unread d), reset d, w)
  all-Reads len d w v h k =
      stored-Reads (unread d) len d (reset d) w w (omega (arith, length-unread d v))
        (omega (arith, length-unread d v)) refl
        (record { in_buffer = omega arith; rewound = λ _. refl; fits = omega arith }) refl

  -- A read that goes past the empty buffer.
  unbuffered-Reads :
      (len : ℕ) (d : Descriptor) (w : W) (r : Recv) (w' : W)
      → IsReadable d
      → unread d ≡ []
      → Delivers pending len w (r, w')
      → Reads pending len d w (r, d, w')
  unbuffered-Reads len d w (got b bs) w' v e (p, q) = (rw (e, p), q, v, refl)
  unbuffered-Reads len d w ended w' v e (p, q) = (rw (e, p), rw (e, q), v, refl)
  unbuffered-Reads len d w failed w' v e p = p

  -- What a call reads is said of the stream, so a state with the same stream serves as well.
  Reads-of_stream :
      (len : ℕ) (c d : Descriptor) (u w : W) (x : Recv × Descriptor × W)
      → stream pending d w ≡ stream pending c u
      → c.faulted ≡ d.faulted
      → Reads pending len c u x
      → Reads pending len d w x
  Reads-of_stream len c d u w (got b bs, d', w') e f (p, q, v, g) = (e ∙ p, q, v, g ∙ f)
  Reads-of_stream len c d u w (ended, d', w') e f (p, q, v, g) = (e ∙ p, q, v, g ∙ f)
  Reads-of_stream len c d u w (failed, d', w') e f p = p

  unread-of_available : (d : Descriptor) → IsReadable d → available d ≡ 0 → unread d ≡ []
  unread-of_available d v e =
      drop_all d.read_pos d.read_buffer
        (omega (arith, length-unread d v, length-drop d.read_pos d.read_buffer))

  pos-of_available : (d : Descriptor) → IsReadable d → available d ≡ 0 → d.read_pos ≡ 0
  pos-of_available d v e = ground arith

  filled-Reads :
      (len b : ℕ) (bs : Bytes) (d : Descriptor) (w : W)
      → 0 < len
      → d.read_pos ≡ 0
      → length (b ∷ bs) ≤ d.read_size
      → Reads pending len (record d { read_buffer = b ∷ bs }) w (after_refill len d (got b bs, w))
  filled-Reads len b bs d w h z k = elim (Bool-cases (leb len (length (b ∷ bs)))) [
    | inl enough ↦ rw enough (taken-Reads len filled w h v (ground arith))
    | inr short ↦ rw short (all-Reads len filled w v (ground arith) (ground arith))
  ]
    where
      filled : Descriptor
      filled = record d { read_buffer = b ∷ bs }

      v : IsReadable filled
      v = record { in_buffer = omega arith; rewound = λ _. z; fits = k }

  after_refill-Reads :
      (len : ℕ) (d : Descriptor) (w : W) (r : Recv) (w' : W)
      → 0 < len
      → IsReadable d
      → available d ≡ 0
      → Delivers pending d.read_size w (r, w')
      → Reads pending len d w (after_refill len d (r, w'))
  after_refill-Reads len d w (got b bs) w' h v e (p, q) =
      let z = pos-of_available d v e in
      Reads-of_stream len (record d { read_buffer = b ∷ bs }) d w' w
        (after_refill len d (got b bs, w')) (rw (unread-of_available d v e, p, z)) refl
        (filled-Reads len b bs d w' h z q)
  after_refill-Reads len d w ended w' h v e (p, q) = (
    rw (unread-of_available d v e, p),
    q,
    record { in_buffer = omega arith; rewound = λ _. refl; fits = omega arith },
    refl,
  )
  after_refill-Reads len d w failed w' h v e p = p

module _ {W : Type 0} (sock : Socket W) (len : ℕ) (d : Descriptor) (w : W) where
  read-unbuffered :
      (d.read_size ≡ 0) ⊎ ((available d ≡ 0) × (d.read_size < len))
      → read sock len d w ≡ ((sock.read len w).0, d, (sock.read len w).1)
  unfolding read
  read-unbuffered h = ground arith

  read-taken :
      d.read_size ≢ 0
      → len ≤ available d
      → read sock len d w ≡ (stored (take len (unread d)), advance len d, w)
  unfolding read
  read-taken z h = ground arith

  read-all :
      d.read_size ≢ 0
      → available d < len
      → 0 < available d
      → read sock len d w ≡ (stored (unread d), reset d, w)
  unfolding read
  read-all z h k = ground arith

  read-refill :
      d.read_size ≢ 0
      → available d ≡ 0
      → 0 < len
      → len ≤ d.read_size
      → read sock len d w ≡ after_refill len d (sock.read d.read_size w)
  unfolding read
  read-refill z e h k = ground arith

module _ {W : Type 0} (sock : Socket W) (pending : W → Bytes) (reader : IsReader sock pending) where
  -- On a stream that does not break and a descriptor in order, `_read` of a positive length hands
  -- out the next bytes of the stream, at least one and no more than asked for, or reports the end
  -- of the stream, which is then empty; it keeps its buffer in order and runs into no fault.
  pub read-Reads :
      (len : ℕ) (d : Descriptor) (w : W)
      → 0 < len
      → IsReadable d
      → Reads pending len d w (read sock len d w)
  read-Reads len d w h v = elim (ℕ_discrete d.read_size 0) [
    | yes z ↦ past (ground arith) (inl z)
    | no z ↦ elim (dec_le len (available d)) [
      | yes t ↦ rw (read-taken sock len d w z t) (taken-Reads pending len d w h v t)
      | no t ↦ elim (dec_lt 0 (available d)) [
        | yes k ↦
            rw (read-all sock len d w z (omega arith) k)
              (all-Reads pending len d w v k (omega arith))
        | no k ↦ elim (dec_lt d.read_size len) [
          | yes big ↦ past (omega arith) (inr (omega arith, big))
          | no small ↦ rw (read-refill sock len d w z (omega arith) h (omega arith)) (
              after_refill-Reads pending len d w _ _ h v (omega arith)
                (reader.delivers d.read_size w (omega arith)))
        ]
      ]
    ]
  ]
    where
      past :
          available d ≡ 0
          → (d.read_size ≡ 0) ⊎ ((available d ≡ 0) × (d.read_size < len))
          → Reads pending len d w (read sock len d w)
      past e k = rw (read-unbuffered sock len d w k) (
          unbuffered-Reads pending len d w _ _ v (unread-of_available pending d v e)
            (reader.delivers len w h))

-- What `_safeRead` does with a stream: it hands out the next `len` bytes, or all there are left if
-- they are fewer.
pub data SafelyReads {W : Type 0} (pending : W → Bytes) (len : ℕ) (d : Descriptor) (w : W)
    : Bool × Bytes × Descriptor × W → Type 0 where
  complete :
      {bs : Bytes} {d' : Descriptor} {w' : W}
      → length bs ≡ len
      → stream pending d w ≡ bs ++ stream pending d' w'
      → IsReadable d'
      → d'.faulted ≡ d.faulted
      → SafelyReads pending len d w (true, bs, d', w')
  short :
      {bs : Bytes} {d' : Descriptor} {w' : W}
      → length bs < len
      → stream pending d w ≡ bs
      → stream pending d' w' ≡ []
      → IsReadable d'
      → d'.faulted ≡ d.faulted
      → SafelyReads pending len d w (false, bs, d', w')
