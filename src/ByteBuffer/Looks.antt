-- ===== src/ByteBuffer/Looks.antt =====
-- Looking ahead fetches what is missing from the stream, and finds the byte that is there.
use sope_appserver.ByteBuffer.Ahead.{
  Holds, store-Holds, store_all-Holds, store_all-was_eof, first_unfetched-Holds,
}
use sope_appserver.ByteBuffer.{
  ByteBuffer, slot, store, store_all, Chunk, received, end_of_stream, stream_error, Source, Fetch,
  fetched, broken, endless, after_byte, fetch_bytes, after_block, fetch_blocks, fetch,
}
use sope_appserver.Prelude.{
  ℕ, zero, suc, ◌+◌, ◌-◌, ◌≤◌, ◌<◌, ◌≡◌, ap, ◌∙◌, sym, refl, subst, ◌⊎◌, inl, inr, true, false,
  Bool-cases, Option, none, some, [], ◌∷◌, ◌++◌, append_assoc, ltb, ◌==◌, arith, Bytes, length,
  length-append,
}

abbrev pub Gives : {W : Type 0} → (W → Bytes) → W → Option ℕ × W → Type 0
Gives pending w (some c, v) = pending w ≡ c ∷ pending v
Gives pending w (none, v) = (pending w ≡ []) × (pending v ≡ [])

abbrev pub Brings : {W : Type 0} → (W → Bytes) → ℕ → W → Chunk × W → Type 0
Brings pending n w (received cs, v) =
    (pending w ≡ cs ++ pending v) × (0 < length cs) × (length cs ≤ n)
Brings pending n w (end_of_stream, v) = (pending w ≡ []) × (pending v ≡ [])
Brings pending n w (stream_error, v) = ⊥

-- A stream without errors: `pending` is what it will still deliver. A block has a byte at least and
-- no more than was asked for, and the end is reported just when nothing is left.
pub record IsStream {W : Type 0} (source : Source W) (pending : W → Bytes) : Type 0 where
  pub gives : (w : W) → Gives pending w (source.read_byte w)
  pub brings : (n : ℕ) (w : W) → 0 < n → Brings pending n w (source.read_bytes n w)

-- What the buffer and the stream together still hold is `zs`.
pub record Ahead {W : Type 0} (pending : W → Bytes) (n : ℕ) (zs : Bytes) (b : ByteBuffer) (w : W)
    : Type 0 where
  pub bytes : Bytes
  pub holds : Holds bytes b
  pub joined : bytes ++ pending w ≡ zs
  pub size : b.buf_len ≡ n
  pub over : b.was_eof ≡ true → pending w ≡ []

-- What has been fetched, up to the position `k` or to the end of the stream.
abbrev pub Fetches : {W : Type 0} → (W → Bytes) → ℕ → Bytes → ℕ → Fetch W → Type 0
Fetches pending n zs k (fetched b i w) =
    (a : Ahead pending n zs b w) × (i ≡ length a.bytes)
    × (((b.was_eof ≡ false) × (i ≡ suc k)) ⊎ ((b.was_eof ≡ true) × (i ≤ k)))
Fetches pending n zs k (broken b w) = ⊥
Fetches pending n zs k endless = ⊥

eof-Holds : (xs : Bytes) (b : ByteBuffer) → Holds xs b → Holds xs (record b { was_eof = true })
unfolding slot
eof-Holds xs b h = record {
  ring = record { times = h.ring.times; divides = h.ring.divides; positive = h.ring.positive };
  fits = h.fits;
  ready = h.ready;
  unfetched = h.unfetched;
  unmarked = λ f. absurd (cc);
}

module _ {W : Type 0} (source : Source W) (pending : W → Bytes) (stream : IsStream source pending)
    (k : ℕ) where
  ended-Fetches :
      (zs xs : Bytes) (b : ByteBuffer) (w v : W)
      → Holds xs b
      → length xs ≤ k
      → xs ++ pending w ≡ zs
      → (pending w ≡ []) × (pending v ≡ [])
      → Fetches pending b.buf_len zs k (fetched (record b { was_eof = true }) (length xs) v)
  ended-Fetches zs xs b w v h l j (e, f) = (
    record {
      bytes = xs;
      holds = eof-Holds xs b h;
      joined = ap (λ p. xs ++ p) (f ∙ sym e) ∙ j;
      size = refl;
      over = λ _. f;
    },
    refl,
    inr (refl, l),
  )

  -- What remains to be shown of the bytes that are still to be read.
  abbrev Continues : ℕ → (ℕ → ByteBuffer → W → Fetch W) → Type 0
  Continues n again =
      (zs xs : Bytes) (b : ByteBuffer) (w : W)
      → Holds xs b
      → length xs + n ≡ suc k
      → k < b.buf_len
      → b.was_eof ≡ false
      → xs ++ pending w ≡ zs
      → Fetches pending b.buf_len zs k (again (length xs) b w)

  after_byte-Fetches :
      (n : ℕ) (again : ℕ → ByteBuffer → W → Fetch W) (zs xs : Bytes) (b : ByteBuffer) (w : W)
      (x : Option ℕ × W)
      → Continues n again
      → Holds xs b
      → length xs + suc n ≡ suc k
      → k < b.buf_len
      → b.was_eof ≡ false
      → xs ++ pending w ≡ zs
      → Gives pending w x
      → Fetches pending b.buf_len zs k (after_byte source (again (suc (length xs))) (length xs) b x)
  after_byte-Fetches n again zs xs b w (none, v) go h l m e j g =
      ended-Fetches zs xs b w v h (omega (arith, l)) j g
  after_byte-Fetches n again zs xs b w (some c, v) go h l m e j g =
      let longer : length (xs ++ c ∷ []) ≡ suc (length xs) =
        omega (arith, length-append xs (c ∷ [])) in
      subst (λ i. Fetches pending b.buf_len zs k (again i (store (length xs) c b) v)) longer
        (go zs (xs ++ c ∷ []) (store (length xs) c b) v
          (store-Holds xs c b h (omega (arith, l, m)) e) (omega (arith, longer, l)) m e
          (append_assoc xs (c ∷ []) (pending v) ∙ ap (λ p. xs ++ p) (sym g) ∙ j))

  fetch_bytes-Fetches : (n : ℕ) → Continues n (λ i b w. fetch_bytes source i n b w)
  unfolding fetch_bytes
  fetch_bytes-Fetches zero zs xs b w h l m e j = (
    record { bytes = xs; holds = h; joined = j; size = refl; over = λ f. absurd (cc) },
    refl,
    inl (e, omega (arith, l)),
  )
  fetch_bytes-Fetches (suc n) zs xs b w h l m e j =
      after_byte-Fetches n (λ i c v. fetch_bytes source i n c v) zs xs b w (source.read_byte w)
        (fetch_bytes-Fetches n) h l m e j (stream.gives w)

  after_block-Fetches :
      (n : ℕ) (again : ℕ → ℕ → ByteBuffer → W → Fetch W) (zs xs : Bytes) (b : ByteBuffer) (w : W)
      (x : Chunk × W)
      → ((m : ℕ) → 0 < m → m < n → Continues m (λ i. again i m))
      → Holds xs b
      → length xs + n ≡ suc k
      → 0 < n
      → k < b.buf_len
      → b.was_eof ≡ false
      → xs ++ pending w ≡ zs
      → Brings pending n w x
      → Fetches pending b.buf_len zs k (after_block source again (length xs) n b x)
  after_block-Fetches n again zs xs b w (end_of_stream, v) go h l p m e j g =
      ended-Fetches zs xs b w v h (omega (arith, l, p)) j g
  after_block-Fetches n again zs xs b w (stream_error, v) go h l p m e j g = absurd g
  after_block-Fetches n again zs xs b w (received cs, v) go h l p m e j (g, some_there, most) =
      let stored = store_all-Holds xs cs b h (omega (arith, l, m, most)) e in
      let (same_eof, same_len) = store_all-was_eof (length xs) cs b in
      let joined = append_assoc xs cs (pending v) ∙ ap (λ q. xs ++ q) (sym g) ∙ j in
      let longer = length-append xs cs in
      elim (Bool-cases (length cs == n)) [
        | inl whole ↦ rw whole (
          record {
            bytes = xs ++ cs;
            holds = stored;
            joined = joined;
            size = same_len;
            over = λ f. absurd (cc);
          },
          sym longer,
          inl (same_eof ∙ e, ground (arith, whole, l)),
        )
        | inr part ↦ rw part (
            subst
              (λ i.
                Fetches pending b.buf_len zs k
                  (again i (n - length cs) (store_all (length xs) cs b) v))
              longer
              (subst
                (λ u.
                  Fetches pending u zs k
                    (again (length (xs ++ cs)) (n - length cs) (store_all (length xs) cs b) v))
                same_len
                (go (n - length cs) (ground (arith, part, most)) (omega (arith, some_there, p)) zs
                  (xs ++ cs) (store_all (length xs) cs b) v stored (omega (arith, longer, l, most))
                  (omega (arith, m, same_len)) (same_eof ∙ e) joined)))
      ]

  fetch_blocks-Fetches :
      (rounds n : ℕ)
      → 0 < n
      → n ≤ rounds
      → Continues n (λ i b w. fetch_blocks source rounds i n b w)
  unfolding fetch_blocks
  fetch_blocks-Fetches zero n p r zs xs b w h l m e j = absurd (omega arith)
  fetch_blocks-Fetches (suc rounds) n p r zs xs b w h l m e j =
      after_block-Fetches n (λ i m c v. fetch_blocks source rounds i m c v) zs xs b w
        (source.read_bytes n w) (λ m q s. fetch_blocks-Fetches rounds m q (omega (arith, s, r))) h l
        p m e j (stream.brings n w p)

  -- Where the position has not been fetched.
  pub fetch-Fetches :
      (zs xs : Bytes) (b : ByteBuffer) (w : W)
      → Holds xs b
      → length xs ≤ k
      → k < b.buf_len
      → b.was_eof ≡ false
      → xs ++ pending w ≡ zs
      → Fetches pending b.buf_len zs k (fetch source k b w)
  unfolding fetch
  fetch-Fetches zs xs b w h l m e j =
      let start = first_unfetched-Holds xs b 0 k h (omega arith) (omega arith) (omega arith) in
      elim (Bool-cases (ltb 5 (k - length xs + 1))) [
        | inl many ↦
            rw (start, many)
              (fetch_blocks-Fetches (k - length xs + 1) (k - length xs + 1) (omega arith)
                (omega arith) zs xs b w h (omega arith) m e j)
        | inr few ↦
            rw (start, few)
              (fetch_bytes-Fetches (suc k - length xs) zs xs b w h (omega arith) m e j)
      ]
