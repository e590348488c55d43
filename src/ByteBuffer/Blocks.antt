-- ===== src/ByteBuffer/Blocks.antt =====
-- Reading blocks out of a buffer: `readBytes:count:`.
use sope_appserver.ByteBuffer.Ahead.{at, Holds, at-some}
use sope_appserver.ByteBuffer.Looks.{IsStream, Ahead}
use sope_appserver.ByteBuffer.Runs.{Consumes, Takes, consume-Consumes, next_byte-Takes}
use sope_appserver.ByteBuffer.{
  ByteBuffer, cell, Source, value, at_end, too_far, failed, Looked, looked, unending, consume,
  consume_then, consume_count, next_byte, BytesRead, got, raised, not_read, never, fetched_run,
  one_byte, copied, read_into,
}
use sope_appserver.Prelude.{
  ℕ, zero, suc, ◌+◌, ◌≤◌, ◌<◌, ◌≡◌, ap, ◌∙◌, sym, refl, subst, inl, inr, Bool, true, false, not,
  if◌then◌else◌, Bool-cases, Option, none, some, [], ◌∷◌, ◌++◌, ltb, ◌==◌, arith, Bytes, length,
  take, drop, drop-drop, drop_all, length-take,
}

drop-at : (xs : Bytes) (i c : ℕ) → at xs i ≡ some c → drop i xs ≡ c ∷ drop (suc i) xs
unfolding at
drop-at [] i c h = absurd (cc)
drop-at (x ∷ xs) zero c h = let e : x ≡ c = cc in ap (λ y. y ∷ xs) e
drop-at (x ∷ xs) (suc i) c h = drop-at xs i c h

fetched_run-Holds :
    (xs : Bytes) (b : ByteBuffer) (i m : ℕ)
    → Holds xs b
    → i + m ≤ b.buf_len
    → fetched_run b i m ≡ take m (drop i xs)
unfolding fetched_run
fetched_run-Holds xs b i zero h l = refl
fetched_run-Holds xs b i (suc m) h l = elim (Bool-cases (ltb i (length xs))) [
  | inl inside ↦
      let (c, here) = at-some xs i (ground (arith, inside)) in
      ap (λ d. if d.is_fetched then d.byte ∷ fetched_run b (suc i) m else []) (h.ready i c here)
      ∙ ap (λ cs. c ∷ cs) (fetched_run-Holds xs b (suc i) m h (omega arith))
      ∙ sym (ap (take (suc m)) (drop-at xs i c here))
  | inr outside ↦
      let behind : length xs ≤ i = ground (arith, outside) in
      rw (h.unfetched i behind (omega arith), drop_all i xs behind) refl
]

take-take : (k : ℕ) (xs ys : Bytes) → take k xs ≡ take (length (take k xs)) (xs ++ ys)
take-take zero xs ys = refl
take-take (suc k) [] ys = refl
take-take (suc k) (x ∷ xs) ys = ap (λ cs. x ∷ cs) (take-take k xs ys)

-- What remains in front of a client.
abbrev Leaves : {W : Type 0} → (W → Bytes) → ℕ → Bytes → Option (ByteBuffer × W) → Type 0
Leaves pending n zs none = ⊥
Leaves pending n zs (some (b, w)) = Ahead pending n zs b w

-- A block of one byte at least and no more than was asked for, or the exception at the end; what is
-- behind it is left.
abbrev pub ReadsInto : {W : Type 0} → (W → Bytes) → ℕ → ℕ → Bytes → BytesRead W → Type 0
ReadsInto pending n len zs (got cs b w) =
    (0 < length cs)
    × (length cs ≤ len)
    × (cs ≡ take (length cs) zs)
    × Ahead pending n (drop (length cs) zs) b w
ReadsInto pending n len zs (raised b w) = (zs ≡ []) × Ahead pending n [] b w
ReadsInto pending n len zs (not_read b w) = ⊥
ReadsInto pending n len zs never = ⊥

module _ {W : Type 0} (source : Source W) (pending : W → Bytes) (stream : IsStream source pending)
    (n : ℕ) (positive : 0 < n) where
  consume_then-Leaves :
      (zs ys : Bytes) (again : ByteBuffer → W → Option (ByteBuffer × W))
      (x : Option (ByteBuffer × W))
      → ((b : ByteBuffer) (w : W)
          → Ahead pending n (drop 1 zs) b w
          → Leaves pending n ys (again b w))
      → Consumes pending n zs x
      → Leaves pending n ys (consume_then source again x)
  consume_then-Leaves zs ys again none go f = f
  consume_then-Leaves zs ys again (some (b, w)) go a = go b w a

  consume_count-Leaves :
      (m : ℕ) (zs : Bytes) (b : ByteBuffer) (w : W)
      → Ahead pending n zs b w
      → Leaves pending n (drop m zs) (consume_count source m b w)
  unfolding consume_count
  consume_count-Leaves zero zs b w a = a
  consume_count-Leaves (suc m) zs b w a =
      consume_then-Leaves zs (drop (suc m) zs) (consume_count source m) (consume source b w)
        (λ c v k.
          let e : 1 + m ≡ suc m = omega arith in
          subst (λ ys. Leaves pending n ys (consume_count source m c v))
            (drop-drop 1 m zs ∙ ap (λ k. drop k zs) e) (consume_count-Leaves m (drop 1 zs) c v k))
        (consume-Consumes pending source stream n positive zs b w a)

  one_byte-ReadsInto :
      (len : ℕ) (zs : Bytes) (x : Looked W)
      → 0 < len
      → Takes pending n zs x
      → ReadsInto pending n len zs (one_byte source x)
  unfolding at
  one_byte-ReadsInto len zs unending p f = f
  one_byte-ReadsInto len [] (looked (value c) b w) p (e, a) = absurd (cc)
  one_byte-ReadsInto len (z ∷ zs) (looked (value c) b w) p (e, a) =
      let same : c ≡ z = cc in (omega arith, omega arith, ap (λ d. d ∷ []) same, a)
  one_byte-ReadsInto len [] (looked at_end b w) p (e, a) = (refl, a)
  one_byte-ReadsInto len (z ∷ zs) (looked at_end b w) p (e, a) = absurd (cc)
  one_byte-ReadsInto len [] (looked too_far b w) p (e, a) = absurd (cc)
  one_byte-ReadsInto len (z ∷ zs) (looked too_far b w) p (e, a) = absurd (cc)
  one_byte-ReadsInto len [] (looked failed b w) p (e, a) = absurd (cc)
  one_byte-ReadsInto len (z ∷ zs) (looked failed b w) p (e, a) = absurd (cc)

  copied-ReadsInto :
      (len : ℕ) (zs cs : Bytes) (x : Option (ByteBuffer × W))
      → 0 < length cs
      → length cs ≤ len
      → cs ≡ take (length cs) zs
      → Leaves pending n (drop (length cs) zs) x
      → ReadsInto pending n len zs (copied source cs x)
  copied-ReadsInto len zs cs none p l e f = f
  copied-ReadsInto len zs cs (some (b, w)) p l e a = (p, l, e, a)

  -- What is copied where the first byte has been fetched.
  fetched_block :
      (len : ℕ) (zs : Bytes) (b : ByteBuffer) (w : W) (a : Ahead pending n zs b w)
      → 0 < len
      → (cell b 0).is_fetched ≡ true
      → (limit : ℕ) → limit ≤ len
      → limit ≤ b.buf_len
      → 0 < limit
      → (cs : Bytes) → cs ≡ fetched_run b 0 limit
      → ReadsInto pending n len zs (copied source cs (consume_count source (length cs) b w))
  fetched_block len zs b w a p there limit l k q cs made =
      let some_bytes : 0 < length a.bytes = elim (Bool-cases (ltb 0 (length a.bytes))) [
        | inl inside ↦ ground (arith, inside)
        | inr outside ↦
            let absent = a.holds.unfetched 0 (ground (arith, outside)) (omega (arith, k, q)) in
            absurd (cc)
      ] in
      let first : cs ≡ take limit a.bytes =
        made ∙ fetched_run-Holds a.bytes b 0 limit a.holds (omega (arith, k)) in
      let long = ap length first ∙ length-take limit a.bytes in
      let front : cs ≡ take (length cs) zs =
        first
        ∙ take-take limit a.bytes (pending w)
        ∙ ap (λ m. take m (a.bytes ++ pending w)) (ap length (sym first))
        ∙ ap (take (length cs)) a.joined in
      copied-ReadsInto len zs cs (consume_count source (length cs) b w)
        (omega (arith, long, some_bytes, q)) (omega (arith, long, l)) front
        (consume_count-Leaves (length cs) zs b w a)

  -- Reading at most `len` bytes, one at least, from a buffer in front of a stream without errors gives
  -- the next bytes of what the buffer and the stream still hold, at least one and at most `len`, and
  -- leaves those behind them; if nothing is left it raises the exception for the end of the stream.
  pub read_into-ReadsInto :
      (len : ℕ) (zs : Bytes) (b : ByteBuffer) (w : W)
      → 0 < len
      → Ahead pending n zs b w
      → ReadsInto pending n len zs (read_into source len b w)
  unfolding read_into
  read_into-ReadsInto len zs b w p a =
      let size = a.size in
      let limit = if ltb len b.buf_len then len else b.buf_len in
      let cs = fetched_run b 0 limit in
      let block = copied source cs (consume_count source (length cs) b w) in
      let wanted : (len == 0) ≡ false = ground (arith, p) in
      let tested = λ (there : Bool).
        ReadsInto pending n len zs
          (if not there then one_byte source (next_byte source b w) else block) in
      rw wanted (elim (Bool-cases (cell b 0).is_fetched) [
        | inl there ↦ subst tested (sym there) (
            fetched_block len zs b w a p there limit (ground arith) (ground arith)
              (ground (arith, p, size, positive)) cs refl)
        | inr absent ↦ subst tested (sym absent) (
            one_byte-ReadsInto len zs (next_byte source b w) p
              (next_byte-Takes pending source stream n positive zs b w a))
      ])
