-- ===== src/Descriptor/Input/Safe.antt =====
-- `_safeRead` and `_readChar` on a stream that does not break.
use sope_appserver.Prelude.{
  ℕ, zero, suc, ◌-◌, ◌≤◌, ◌<◌, ◌≡◌, refl, ◌∙◌, Bool, Option, none, some, [], ◌∷◌, ◌++◌,
  append_assoc, arith, Bytes, length, length-append,
}
use sope_appserver.Socket.{Recv, got, ended, failed, Socket, IsReader}
use sope_appserver.Descriptor.State.{Descriptor}
use sope_appserver.Descriptor.Input.Stream.{
  IsReadable, stream, Reads, read-Reads, SafelyReads, complete, short,
}
use sope_appserver.Descriptor.Input.{
  after_read, prefixed, safe_read_loop, safe_read, char_of, read_char,
}

module _ {W : Type 0} (pending : W → Bytes) where
  prefixed-SafelyReads :
      (bs : Bytes) (len : ℕ) (d d' : Descriptor) (w w' : W) {x : Bool × Bytes × Descriptor × W}
      → stream pending d w ≡ bs ++ stream pending d' w'
      → length bs ≤ len
      → d'.faulted ≡ d.faulted
      → SafelyReads pending (len - length bs) d' w' x
      → SafelyReads pending len d w (prefixed bs x)
  prefixed-SafelyReads bs len d d' w w' e h f (complete {bs = rest} k g v j) =
      complete (omega (arith, length-append {0} bs rest, k)) (e ∙ rw (g, append_assoc)) v (j ∙ f)
  prefixed-SafelyReads bs len d d' w w' e h f (short {bs = rest} k g z v j) =
      short (omega (arith, length-append {0} bs rest, k)) (e ∙ rw g) z v (j ∙ f)

  after_read-SafelyReads :
      (again : ℕ → Descriptor → W → Bool × Bytes × Descriptor × W) (len : ℕ) (d : Descriptor)
      (w : W) (r : Recv) (d' : Descriptor) (w' : W)
      → 0 < len
      → ((n : ℕ) → n < len → IsReadable d' → SafelyReads pending n d' w' (again n d' w'))
      → Reads pending len d w (r, d', w')
      → SafelyReads pending len d w (after_read again len (r, d', w'))
  after_read-SafelyReads again len d w (got b bs) d' w' h ih (e, k, v, f) =
      prefixed-SafelyReads (b ∷ bs) len d d' w w' e k f (ih (len - length (b ∷ bs)) (omega arith) v)
  after_read-SafelyReads again len d w ended d' w' h ih (e, z, v, f) = short h e z v f
  after_read-SafelyReads again len d w failed d' w' h ih p = absurd p

module _ {W : Type 0} (sock : Socket W) (pending : W → Bytes) (reader : IsReader sock pending) where
  safe_read_loop-SafelyReads :
      (rounds len : ℕ) (d : Descriptor) (w : W)
      → len ≤ rounds
      → IsReadable d
      → SafelyReads pending len d w (safe_read_loop sock rounds len d w)
  unfolding safe_read_loop
  safe_read_loop-SafelyReads rounds zero d w h v = complete refl refl v refl
  safe_read_loop-SafelyReads zero (suc len) d w h v = absurd (omega arith)
  safe_read_loop-SafelyReads (suc rounds) (suc len) d w h v =
      after_read-SafelyReads pending (safe_read_loop sock rounds) (suc len) d w _ _ _ (omega arith)
        (λ n k u. safe_read_loop-SafelyReads rounds n _ _ (omega arith) u)
        (read-Reads sock pending reader (suc len) d w (omega arith) v)

  -- On a stream that does not break and a descriptor in order, `NGBufferedDescriptor_safeRead`
  -- succeeds exactly when the stream still holds `len` bytes, and hands out these; otherwise it
  -- drains the stream and fails.
  pub safe_read-SafelyReads :
      (len : ℕ) (d : Descriptor) (w : W)
      → IsReadable d
      → SafelyReads pending len d w (safe_read sock len d w)
  unfolding safe_read
  safe_read-SafelyReads len d w v = safe_read_loop-SafelyReads len len d w (omega arith) v

abbrev pub uncons : Bytes → Option ℕ × Bytes
uncons [] = (none, [])
uncons (c ∷ cs) = (some c, cs)

abbrev pub ReadsChar :
    {W : Type 0} → (W → Bytes) → Descriptor → W → Option ℕ × Descriptor × W → Type 0
ReadsChar pending d w (c, d', w') =
    ((c, stream pending d' w') ≡ uncons (stream pending d w))
    × IsReadable d'
    × (d'.faulted ≡ d.faulted)

module _ {W : Type 0} (pending : W → Bytes) where
  char_of-ReadsChar :
      (d : Descriptor) (w : W) {x : Bool × Bytes × Descriptor × W}
      → SafelyReads pending 1 d w x
      → ReadsChar pending d w (char_of x)
  char_of-ReadsChar d w (complete {bs = []} k e v f) = absurd (omega (arith, k))
  char_of-ReadsChar d w (complete {bs = c ∷ []} k e v f) = (rw e, v, f)
  char_of-ReadsChar d w (complete {bs = c ∷ b ∷ bs} k e v f) = absurd (omega (arith, k))
  char_of-ReadsChar d w (short {bs = []} k e z v f) = (rw (e, z), v, f)
  char_of-ReadsChar d w (short {bs = c ∷ bs} k e z v f) = absurd (omega (arith, k))

-- On a stream that does not break and a descriptor in order, `NGBufferedDescriptor_readChar` takes
-- the next byte off the stream, and answers -1 when the stream is at its end.
pub read_char-uncons :
    {W : Type 0} (sock : Socket W) (pending : W → Bytes)
    → IsReader sock pending
    → (d : Descriptor) (w : W) → IsReadable d
    → ReadsChar pending d w (read_char sock d w)
unfolding read_char
read_char-uncons sock pending reader d w v =
    char_of-ReadsChar pending d w (safe_read-SafelyReads sock pending reader 1 d w v)
