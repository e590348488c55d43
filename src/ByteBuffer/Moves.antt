-- ===== src/ByteBuffer/Moves.antt =====
-- The marks at the end of the stream, and the head that moves on.
use sope_appserver.ByteBuffer.Ahead.{at, Holds, at-lt, mark_eof-Holds}
use sope_appserver.ByteBuffer.Slots.{
  IsRing, cell-with_cell, cell_other, slot-lem, slot-next, slot_other,
}
use sope_appserver.ByteBuffer.{
  ByteBuffer, Cell, slot, cell, with_cell, mark_eof, mark_all, consumed,
}
use sope_appserver.Prelude.{
  ℕ, zero, suc, ◌+◌, ◌%◌, ◌≤◌, ◌<◌, ◌≡◌, ap, ◌∙◌, sym, refl, ◌⊎◌, inl, inr, true, false, Bool-cases,
  [], ◌∷◌, ltb, ◌==◌, arith, Bytes, length,
}

abbrev mark : Cell → Cell
mark old = record old { is_eof = true }

mark_all-before :
    (b : ByteBuffer) (i n j : ℕ)
    → IsRing b
    → j < i
    → i + n ≤ b.buf_len
    → cell (mark_all i n b) j ≡ cell b j
unfolding mark_all
mark_all-before b i zero j r h k = refl
mark_all-before b i (suc n) j r h k =
    let ring : IsRing (mark_eof i b) = record {
      times = r.times;
      divides = r.divides;
      positive = r.positive;
    } in
    mark_all-before (mark_eof i b) (suc i) n j ring (omega arith) (omega arith)
    ∙ cell_other b j i mark r (omega arith) (omega arith) (ground (arith, h))

-- The marked cells.
pub mark_all-is_eof :
    (b : ByteBuffer) (i n j : ℕ)
    → IsRing b
    → i ≤ j
    → j < i + n
    → i + n ≤ b.buf_len
    → (cell (mark_all i n b) j).is_eof ≡ true
unfolding mark_all
mark_all-is_eof b i zero j r h l k = absurd (omega arith)
mark_all-is_eof b i (suc n) j r h l k =
    let ring : IsRing (mark_eof i b) = record {
      times = r.times;
      divides = r.divides;
      positive = r.positive;
    } in
    elim (Bool-cases (j == i)) [
      | inl same ↦
          let e : j ≡ i = ground (arith, same) in
          ap (λ c. c.is_eof)
            (mark_all-before (mark_eof i b) (suc i) n j ring (omega arith) (omega arith))
          ∙ ap (λ m. (cell (mark_eof i b) m).is_eof) e
          ∙ ap (λ c. c.is_eof) (cell-with_cell b i mark)
      | inr other ↦
          mark_all-is_eof (mark_eof i b) (suc i) n j ring (ground (arith, other, h)) (omega arith)
            (omega arith)
    ]

pub mark_all-Holds :
    (xs : Bytes) (b : ByteBuffer) (i n : ℕ)
    → Holds xs b
    → b.was_eof ≡ true
    → length xs ≤ i
    → i + n ≤ b.buf_len
    → Holds xs (mark_all i n b)
unfolding mark_all
mark_all-Holds xs b i zero h e l k = h
mark_all-Holds xs b i (suc n) h e l k =
    mark_all-Holds xs (mark_eof i b) (suc i) n (mark_eof-Holds xs b i h e l (omega arith)) e
      (omega arith) (omega arith)

pub mark_all-was_eof :
    (b : ByteBuffer) (i n : ℕ)
    → ((mark_all i n b).was_eof ≡ b.was_eof) × ((mark_all i n b).buf_len ≡ b.buf_len)
unfolding mark_all
mark_all-was_eof b i zero = (refl, refl)
mark_all-was_eof b i (suc n) = mark_all-was_eof (mark_eof i b) (suc i) n

abbrev clear : Cell → Cell
clear old = record old { is_fetched = false }

-- Behind the head: the next cell, or the one that is left, at the far end of the ring.
consumed-cell :
    (b : ByteBuffer) (i : ℕ) → IsRing b → suc i < b.buf_len → cell (consumed b) i ≡ cell b (suc i)
consumed-cell b i r h =
    let shifted : slot (consumed b) i ≡ slot b (suc i) = unfold slot in slot-next b i in
    ap (with_cell 0 clear b).la shifted
    ∙ rw (slot_other b (suc i) 0 r h r.positive (ground arith)) refl

slot-around : (b : ByteBuffer) → IsRing b → slot b b.buf_len ≡ slot b 0
slot-around b r =
    slot-lem b b.buf_len r
    ∙ (let e : (b.buf_len + b.head_idx) % b.buf_len ≡ (0 + b.head_idx) % b.buf_len = grind arith in
        e)
    ∙ sym (slot-lem b 0 r)

consumed_last :
    (b : ByteBuffer) (i : ℕ) → IsRing b → suc i ≡ b.buf_len → cell (consumed b) i ≡ clear (cell b 0)
consumed_last b i r h =
    let shifted : slot (consumed b) i ≡ slot b (suc i) = unfold slot in slot-next b i in
    let same : (slot b 0 == slot b 0) ≡ true = ground arith in
    ap (with_cell 0 clear b).la (shifted ∙ ap (slot b) h ∙ slot-around b r) ∙ rw same refl

consumed_split : (n i : ℕ) → i < n → (suc i < n) ⊎ (suc i ≡ n)
consumed_split n i h = elim (Bool-cases (ltb (suc i) n)) [
  | inl inside ↦ inl (ground (arith, inside))
  | inr edge ↦ inr (ground (arith, edge, h))
]

consumed_unfetched :
    (b : ByteBuffer) (i : ℕ)
    → IsRing b
    → i < b.buf_len
    → (suc i < b.buf_len → (cell b (suc i)).is_fetched ≡ false)
    → (cell (consumed b) i).is_fetched ≡ false
consumed_unfetched b i r h later = elim (consumed_split b.buf_len i h) [
  | inl inside ↦ ap (λ c. c.is_fetched) (consumed-cell b i r inside) ∙ later inside
  | inr edge ↦ ap (λ c. c.is_fetched) (consumed_last b i r edge)
]

consumed-IsRing : (b : ByteBuffer) → IsRing b → IsRing (consumed b)
consumed-IsRing b r = record { times = r.times; divides = r.divides; positive = r.positive }

-- A byte that is consumed.
pub consumed-Holds :
    (x : ℕ) (xs : Bytes) (b : ByteBuffer) → Holds (x ∷ xs) b → Holds xs (consumed b)
consumed-Holds x xs b h = record {
  ring = consumed-IsRing b h.ring;
  fits = let f = h.fits in omega arith;
  ready = λ i c e.
      let inside = at-lt xs i c e in
      let f = h.fits in
      consumed-cell b i h.ring (omega (arith, inside, f)) ∙ h.ready (suc i) c (unfold at in e);
  unfetched = λ i l k.
      consumed_unfetched b i h.ring k (λ inside. h.unfetched (suc i) (omega (arith, l)) inside);
  unmarked = λ e i l k. elim (consumed_split b.buf_len i k) [
    | inl inside ↦
        ap (λ c. c.is_eof) (consumed-cell b i h.ring inside)
        ∙ h.unmarked e (suc i) (omega (arith, l)) inside
    | inr edge ↦
        ap (λ c. c.is_eof) (consumed_last b i h.ring edge)
        ∙ ap (λ c. c.is_eof) (h.ready 0 x (unfold at in refl))
  ];
}

-- At the end of the stream there is nothing to consume, and the head moves on all the same.
pub consumed_end : (b : ByteBuffer) → Holds [] b → b.was_eof ≡ true → Holds [] (consumed b)
consumed_end b h e = record {
  ring = consumed-IsRing b h.ring;
  fits = omega arith;
  ready = λ i c f. absurd (omega (arith, at-lt [] i c f));
  unfetched =
      λ i l k. consumed_unfetched b i h.ring k (λ inside. h.unfetched (suc i) (omega arith) inside);
  unmarked = λ f. absurd (cc);
}
