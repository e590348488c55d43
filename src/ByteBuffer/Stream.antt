-- ===== src/ByteBuffer/Stream.antt =====
-- A buffer is the list of the bytes of its stream: what is seen ahead in it, and what is consumed.
use sope_appserver.ByteBuffer.Ahead.{at, full_cell, at-some, at-none, at-append}
use sope_appserver.ByteBuffer.Looks.{IsStream, Ahead, Fetches, fetch-Fetches}
use sope_appserver.ByteBuffer.Moves.{mark_all-is_eof, mark_all-Holds, mark_all-was_eof}
use sope_appserver.ByteBuffer.{
  ByteBuffer, cell, mark_all, Source, Fetch, fetched, broken, endless, Look, value, at_end, too_far,
  with_marks, Looked, looked, unending, cell_value, fetch, after_fetch, look_ahead,
}
use sope_appserver.Prelude.{
  ℕ, suc, ◌-◌, ◌≤◌, ◌<◌, ◌≡◌, ap, ◌∙◌, sym, refl, subst, ◌⊎◌, inl, inr, Bool, true, false, not,
  ◌||◌, if◌then◌else◌, Bool-cases, Option, none, some, ◌++◌, append-nil, ltb, arith, Bytes, length,
}

-- The byte at a position, or the end.
abbrev pub answer_at : Option ℕ → Look
answer_at none = at_end
answer_at (some c) = value c

-- The position has been fetched, or the stream has ended before it.
abbrev pub IsSettled : ℕ → Bytes → ByteBuffer → Type 0
IsSettled k xs b = (k < length xs) ⊎ ((b.was_eof ≡ true) × (length xs ≤ k))

abbrev pub Sees : {W : Type 0} → (W → Bytes) → ℕ → Bytes → ℕ → Looked W → Type 0
Sees pending n zs k (looked r b w) =
    (a : Ahead pending n zs b w) × (r ≡ answer_at (at zs k)) × IsSettled k a.bytes b
Sees pending n zs k unending = ⊥

module _ {W : Type 0} (pending : W → Bytes) where
  at-bytes :
      (n : ℕ) (zs : Bytes) (b : ByteBuffer) (w : W) (k c : ℕ) (a : Ahead pending n zs b w)
      → at a.bytes k ≡ some c
      → at zs k ≡ some c
  at-bytes n zs b w k c a e = ap (λ l. at l k) (sym a.joined) ∙ at-append a.bytes (pending w) k c e

  at-over :
      (n : ℕ) (zs : Bytes) (b : ByteBuffer) (w : W) (k : ℕ) (a : Ahead pending n zs b w)
      → b.was_eof ≡ true
      → length a.bytes ≤ k
      → at zs k ≡ none
  at-over n zs b w k a e l =
      let whole : a.bytes ≡ zs =
        sym (append-nil a.bytes) ∙ ap (λ p. a.bytes ++ p) (sym (a.over e)) ∙ a.joined in
      ap (λ l. at l k) (sym whole) ∙ at-none a.bytes k l

  -- A cell that has been fetched shows its byte.
  value_there :
      (n : ℕ) (zs : Bytes) (b : ByteBuffer) (w : W) (k : ℕ) (a : Ahead pending n zs b w)
      → k < length a.bytes
      → (c : ℕ) × (cell b k ≡ full_cell c) × (at zs k ≡ some c)
  value_there n zs b w k a l =
      let (c, e) = at-some a.bytes k l in (c, a.holds.ready k c e, at-bytes n zs b w k c a e)

  after_fetch-Sees :
      (source : Source W) (n : ℕ) (zs : Bytes) (k : ℕ) (x : Fetch W)
      → k < n
      → Fetches pending n zs k x
      → Sees pending n zs k (after_fetch source k x)
  after_fetch-Sees source n zs k (broken b w) h f = absurd f
  after_fetch-Sees source n zs k endless h f = absurd f
  after_fetch-Sees source n zs k (fetched b i w) h (a, at_i, inl (open_yet, reached)) =
      let inside : k < length a.bytes = omega (arith, at_i, reached) in
      let (c, there, seen) = value_there n zs b w k a inside in
      let same : with_marks source k i b ≡ b =
        ap (λ e. if e then mark_all i (suc k - i) b else b) open_yet in
      subst (λ c. Sees pending n zs k (looked (cell_value (cell c k)) c w)) (sym same)
        (a, ap cell_value there ∙ sym (ap answer_at seen), inl inside)
  after_fetch-Sees source n zs k (fetched b i w) h (a, at_i, inr (ended, short)) =
      let size = a.size in
      let (same_eof, same_len) = mark_all-was_eof b i (suc k - i) in
      let marked =
        mark_all-is_eof b i (suc k - i) k a.holds.ring short (omega (arith, short))
          (omega (arith, short, size, h)) in
      let shown : cell_value (cell (mark_all i (suc k - i) b) k) ≡ at_end = rw marked refl in
      let gone = at-over n zs b w k a ended (omega (arith, at_i, short)) in
      let same : with_marks source k i b ≡ mark_all i (suc k - i) b =
        ap (λ e. if e then mark_all i (suc k - i) b else b) ended in
      subst (λ c. Sees pending n zs k (looked (cell_value (cell c k)) c w)) (sym same)
        (
          record {
            bytes = a.bytes;
            holds =
                mark_all-Holds a.bytes b i (suc k - i) a.holds ended (omega (arith, at_i))
                  (omega (arith, short, size, h));
            joined = a.joined;
            size = same_len ∙ size;
            over = λ e. a.over ended;
          },
          shown ∙ sym (ap answer_at gone),
          inr (same_eof ∙ ended, omega (arith, at_i, short)),
        )

  module _ (source : Source W) (stream : IsStream source pending) where
    -- The branches of `la:`, by what it tests.
    abbrev branch : ℕ → ByteBuffer → W → Bool → Bool → Bool → Looked W
    branch k b w far ended there =
        if far
        then looked too_far b w
        else if ended
        then looked (if not there || (cell b k).is_eof then at_end else value (cell b k).byte) b w
        else if there
        then looked (cell_value (cell b k)) b w
        else after_fetch source k (fetch source k b w)

    look_ahead-branch :
        (k : ℕ) (b : ByteBuffer) (w : W) (ended there : Bool)
        → k < b.buf_len
        → b.was_eof ≡ ended
        → (cell b k).is_fetched ≡ there
        → look_ahead source k b w ≡ branch k b w false ended there
    unfolding look_ahead
    look_ahead-branch k b w ended there h e f =
        let near : ltb (b.buf_len - 1) k ≡ false = ground (arith, h) in
        ap (λ n. branch k b w n b.was_eof (cell b k).is_fetched) near
        ∙ ap (λ v. branch k b w false v (cell b k).is_fetched) e
        ∙ ap (branch k b w false ended) f

    -- A byte that has been fetched is seen, whether the stream has ended or not.
    branch_there :
        (k : ℕ) (b : ByteBuffer) (w : W) (c : ℕ) (ended : Bool)
        → cell b k ≡ full_cell c
        → branch k b w false ended true ≡ looked (value c) b w
    branch_there k b w c true e = ap (λ d. looked (if d.is_eof then at_end else value d.byte) b w) e
    branch_there k b w c false e = ap (λ d. looked (cell_value d) b w) e

    branch_outside :
        (n : ℕ) (zs : Bytes) (k : ℕ) (b : ByteBuffer) (w : W) (ended : Bool)
        (a : Ahead pending n zs b w)
        → k < b.buf_len
        → b.was_eof ≡ ended
        → length a.bytes ≤ k
        → Sees pending n zs k (branch k b w false ended false)
    branch_outside n zs k b w true a h e l =
        (a, sym (ap answer_at (at-over n zs b w k a e l)), inr (e, l))
    branch_outside n zs k b w false a h e l =
        let size = a.size in
        after_fetch-Sees source n zs k (fetch source k b w) (omega (arith, h, size)) (
          subst (λ u. Fetches pending u zs k (fetch source k b w)) size
            (fetch-Fetches source pending stream k zs a.bytes b w a.holds l h e a.joined))

    -- Looking ahead within the length of the buffer answers the byte at that position of what the
    -- buffer and the stream still hold, or the end, and changes nothing of that.
    pub look_ahead-Sees :
        (n : ℕ) (zs : Bytes) (k : ℕ) (b : ByteBuffer) (w : W)
        → k < n
        → Ahead pending n zs b w
        → Sees pending n zs k (look_ahead source k b w)
    look_ahead-Sees n zs k b w h a =
        let size = a.size in
        let inside_ring : k < b.buf_len = omega (arith, h, size) in
        elim (Bool-cases (ltb k (length a.bytes))) [
          | inl inside ↦
              let fetched_yet : k < length a.bytes = ground (arith, inside) in
              let (c, there, seen) = value_there n zs b w k a fetched_yet in
              let looks =
                look_ahead-branch k b w b.was_eof true inside_ring refl
                  (ap (λ d. d.is_fetched) there)
                ∙ branch_there k b w c b.was_eof there in
              subst (Sees pending n zs k) (sym looks) (a, sym (ap answer_at seen), inl fetched_yet)
          | inr outside ↦
              let behind : length a.bytes ≤ k = ground (arith, outside) in
              let absent = a.holds.unfetched k behind inside_ring in
              subst (Sees pending n zs k)
                (sym (look_ahead-branch k b w b.was_eof false inside_ring refl absent))
                (branch_outside n zs k b w b.was_eof a inside_ring refl behind)
        ]
