-- ===== src/Sns/Reply.antt =====
-- The reading of the session name server's answer.
use sope_appserver.Prelude.{
  ℕ, ◌≤◌, ◌<◌, ◌^◌, ◌≡◌, refl, sym, subst, ap, ◌∙◌, Bool, true, false, ◌++◌, arith, Bytes, length,
  if◌then◌else◌, ltb, leb, inl, inr, Bool-cases, length-append, append-injective,
}
use sope_appserver.Descriptor.Input.Safe.{safe_read-SafelyReads}
use sope_appserver.Descriptor.Input.Stream.{IsReadable, stream, SafelyReads, complete, short}
use sope_appserver.Descriptor.Input.{safe_read}
use sope_appserver.Descriptor.State.{Descriptor}
use sope_appserver.Sns.Query.{int_of-int_bytes}
use sope_appserver.Sns.{
  Answer, address, overflow, int_bytes, int_of, take_address, take_size, take_domain, read_answer,
}
use sope_appserver.Socket.{Socket, IsReader}

abbrev Exactly :
    {W : Type 0} → (W → Bytes) → Bool → Bytes → Bytes → Bool × Bytes × Descriptor × W → Type 0
Exactly pending o bs rest (done, read, d, w) =
    (done ≡ true) × (read ≡ bs) × (stream pending d w ≡ rest) × (d.faulted ≡ o) × IsReadable d

-- What the answer is: an address that does not fit the buffer of 1000 bytes is written behind it.
abbrev pub expected : ℕ → Bytes → Answer
expected domain addr =
    if ltb 1000 (length addr) then overflow else address domain (length addr) addr

-- The fault flag is `o`.
abbrev pub Gets :
    {W : Type 0} → (W → Bytes) → Bool → Answer → Bytes → Answer × Descriptor × W → Type 0
Gets pending o answer rest (a, d, w) =
    (a ≡ answer) × (stream pending d w ≡ rest) × (d.faulted ≡ o) × IsReadable d

module _ {W : Type 0} (pending : W → Bytes) where
  -- A read of the next `length bs` bytes of a stream that begins with `bs`.
  Exactly-of_SafelyReads :
      (n : ℕ) (bs rest : Bytes) (d : Descriptor) (w : W) {x : Bool × Bytes × Descriptor × W}
      → n ≡ length bs
      → stream pending d w ≡ bs ++ rest
      → SafelyReads pending n d w x
      → Exactly pending d.faulted bs rest x
  Exactly-of_SafelyReads n bs rest d w l e (complete {bs = us} h k v f) =
      let (p, q) = append-injective us bs _ rest (h ∙ l) (sym k ∙ e) in (refl, p, q, f, v)
  Exactly-of_SafelyReads n bs rest d w l e (short {bs = us} h k z v f) =
      absurd (omega (arith, ap length (sym k ∙ e), length-append {0} bs rest))

  same_flag :
      {o p : Bool} {bs rest : Bytes} (x : Bool × Bytes × Descriptor × W)
      → o ≡ p
      → Exactly pending o bs rest x
      → Exactly pending p bs rest x
  same_flag {bs = bs} {rest = rest} x e h = subst (λ b. Exactly pending b bs rest x) e h

  take_address-Gets :
      (o : Bool) (domain n : ℕ) (addr rest : Bytes) (x : Bool × Bytes × Descriptor × W)
      → n ≡ length addr
      → Exactly pending o addr rest x
      → Gets pending o (expected domain addr) rest (take_address domain n x)
  take_address-Gets o domain n addr rest (done, bs, d, w) h (p, q, r, f, v) =
      elim (Bool-cases (ltb 1000 (length bs))) [
        | inl big ↦ rw (big, ← q, big) (refl, r, f, v)
        | inr small ↦ rw (small, p, h, ← q, small) (refl, r, f, v)
      ]

module _ {W : Type 0} (sock : Socket W) (pending : W → Bytes) (reader : IsReader sock pending) where
  exact_read :
      (n : ℕ) (bs rest : Bytes) (d : Descriptor) (w : W)
      → n ≡ length bs
      → stream pending d w ≡ bs ++ rest
      → IsReadable d
      → Exactly pending d.faulted bs rest (safe_read sock n d w)
  exact_read n bs rest d w h e v =
      Exactly-of_SafelyReads pending n bs rest d w h e
        (safe_read-SafelyReads sock pending reader n d w v)

  take_size-Gets :
      (o : Bool) (domain : ℕ) (addr rest : Bytes) (x : Bool × Bytes × Descriptor × W)
      → length addr ≤ 1024
      → Exactly pending o (int_bytes (length addr)) (addr ++ rest) x
      → Gets pending o (expected domain addr) rest (take_size sock domain x)
  take_size-Gets o domain addr rest (false, bs, d, w) h (p, q, r, f, v) = absurd (cc)
  take_size-Gets o domain addr rest (true, bs, d, w) h (p, q, r, f, v) =
      let e : int_of bs ≡ length addr =
        ap int_of q ∙ int_of-int_bytes (length addr) (omega arith) in
      let positive : leb (2 ^ 31) (length addr) ≡ false = ground arith in
      let small : ltb 1024 (length addr) ≡ false = ground arith in
      rw (e, positive, small)
        (take_address-Gets pending o domain (length addr) addr rest _ refl
          (same_flag pending _ f (exact_read (length addr) addr rest d w refl r v)))

  take_domain-Gets :
      (o : Bool) (domain : ℕ) (addr rest : Bytes) (x : Bool × Bytes × Descriptor × W)
      → domain < 2 ^ 32
      → length addr ≤ 1024
      → Exactly pending o (int_bytes domain) (int_bytes (length addr) ++ (addr ++ rest)) x
      → Gets pending o (expected domain addr) rest (take_domain sock x)
  take_domain-Gets o domain addr rest (false, bs, d, w) k h (p, q, r, f, v) = absurd (cc)
  take_domain-Gets o domain addr rest (true, bs, d, w) k h (p, q, r, f, v) =
      let e : int_of bs ≡ domain = ap int_of q ∙ int_of-int_bytes domain k in
      rw e (
        take_size-Gets o domain addr rest _ h (
          same_flag pending _ f
            (exact_read 4 (int_bytes (length addr)) (addr ++ rest) d w refl r v)))

  -- An answer of a domain, a length of at most 1024 and as many bytes is read as it was sent if the
  -- length is at most 1000; a longer one is written behind the end of the buffer. Either way just
  -- the answer is taken off the stream, and the fault flag is as it was.
  pub read_answer-Gets :
      (domain : ℕ) (addr rest : Bytes) (d : Descriptor) (w : W)
      → domain < 2 ^ 32
      → length addr ≤ 1024
      → stream pending d w ≡ int_bytes domain ++ (int_bytes (length addr) ++ (addr ++ rest))
      → IsReadable d
      → Gets pending d.faulted (expected domain addr) rest (read_answer sock d w)
  unfolding read_answer
  read_answer-Gets domain addr rest d w k h e v =
      take_domain-Gets d.faulted domain addr rest _ k h
        (exact_read 4 (int_bytes domain) (int_bytes (length addr) ++ (addr ++ rest)) d w refl e v)
