-- ===== src/ByteBuffer/Slots.antt =====
-- The cells of the ring: one for each position ahead.
use native.Mathlib.Nat.{add-mul-mod_self_right}
use sope_appserver.ByteBuffer.{ByteBuffer, Cell, slot, cell, with_cell}
use sope_appserver.Prelude.{
  ℕ, suc, ◌+◌, ◌*◌, ◌%◌, ◌/◌, ◌≤◌, ◌<◌, ◌≡◌, ap, ◌∙◌, sym, refl, inl, inr, true, false, Bool-cases,
  ltb, ◌==◌, ◌^◌, arith,
}

-- The length is a power of two, of at most 2^32, so that the index may wrap.
pub record IsRing (b : ByteBuffer) : Type 0 where
  pub times : ℕ
  pub divides : times * b.buf_len ≡ 2 ^ 32
  pub positive : 0 < b.buf_len

wrap : (m s x : ℕ) → m * s ≡ 2 ^ 32 → x % 2 ^ 32 % s ≡ x % s
wrap m s x h =
    let q = x / 2 ^ 32 in
    let e : x % 2 ^ 32 + q * m * s ≡ x = grind arith in
    sym (add-mul-mod_self_right (x % 2 ^ 32) (q * m) s) ∙ ap (λ n. n % s) e

close_up : (s x y : ℕ) → 0 < s → x ≤ y → y < x + s → x % s ≡ y % s → x ≡ y
close_up s x y p h k e = grind arith

pub slot-lem : (b : ByteBuffer) (i : ℕ) → IsRing b → slot b i ≡ (i + b.head_idx) % b.buf_len
unfolding slot
slot-lem b i r = wrap r.times b.buf_len (i + b.head_idx) r.divides

slot_ordered :
    (b : ByteBuffer) (i j : ℕ) → IsRing b → i < j → j < b.buf_len → slot b i ≡ slot b j → ⊥
slot_ordered b i j r h k e =
    let same =
      close_up b.buf_len (i + b.head_idx) (j + b.head_idx) r.positive (omega arith) (omega arith)
        (sym (slot-lem b i r) ∙ e ∙ slot-lem b j r) in
    absurd (omega arith)

-- Two positions within the ring have the same cell just when they are the same.
pub slot_other :
    (b : ByteBuffer) (i j : ℕ)
    → IsRing b
    → i < b.buf_len
    → j < b.buf_len
    → (i == j) ≡ false
    → (slot b i == slot b j) ≡ false
slot_other b i j r h k ne = elim (Bool-cases (slot b i == slot b j)) [
  | inr other ↦ other
  | inl same ↦
      let e : slot b i ≡ slot b j = ground (arith, same) in
      elim (Bool-cases (ltb i j)) [
        | inl before ↦ absurd (slot_ordered b i j r (ground (arith, before)) k e)
        | inr behind ↦ absurd (slot_ordered b j i r (ground (arith, behind, ne)) h (sym e))
      ]
]

-- The cells behind a change of one.
pub cell-with_cell :
    (b : ByteBuffer) (i : ℕ) (f : Cell → Cell) → cell (with_cell i f b) i ≡ f (cell b i)
cell-with_cell b i f =
    let same : slot (with_cell i f b) i ≡ slot b i = unfold slot in refl in
    let e : (slot b i == slot b i) ≡ true = ground arith in rw (same, e) refl

pub cell_other :
    (b : ByteBuffer) (i j : ℕ) (f : Cell → Cell)
    → IsRing b
    → i < b.buf_len
    → j < b.buf_len
    → (i == j) ≡ false
    → cell (with_cell j f b) i ≡ cell b i
cell_other b i j f r h k ne =
    let same : slot (with_cell j f b) i ≡ slot b i = unfold slot in refl in
    rw (same, slot_other b i j r h k ne) refl

-- The cell that follows when the head moves on.
pub slot-next :
    (b : ByteBuffer) (i : ℕ)
    → slot (record b { head_idx = (b.head_idx + 1) % 2 ^ 32 }) i ≡ slot b (suc i)
unfolding slot
slot-next b i =
    let e : (i + (b.head_idx + 1) % 2 ^ 32) % 2 ^ 32 ≡ (suc i + b.head_idx) % 2 ^ 32 =
      omega arith in
    ap (λ n. n % b.buf_len) e
