-- ===== src/ByteBuffer/Ahead.antt =====
-- What lies ahead in a buffer: the bytes that have been fetched.
use sope_appserver.ByteBuffer.Slots.{IsRing, cell-with_cell, cell_other}
use sope_appserver.ByteBuffer.{ByteBuffer, Cell, cell, store, store_all, mark_eof, first_unfetched}
use sope_appserver.Prelude.{
  ℕ, zero, suc, ◌+◌, ◌≤◌, ◌<◌, ◌≡◌, ap, ap₂, ◌∙◌, sym, refl, subst, ◌⊎◌, inl, inr, true, false,
  Bool-cases, Option, none, some, [], ◌∷◌, ◌++◌, append_assoc, append-nil, ltb, ◌==◌, arith, Bytes,
  length, length-append,
}

-- The byte at a position.
unfoldable pub at : Bytes → ℕ → Option ℕ
at [] i = none
at (c ∷ cs) zero = some c
at (c ∷ cs) (suc i) = at cs i

abbrev pub full_cell : ℕ → Cell
full_cell c = record { byte = c; is_eof = false; is_fetched = true }

-- The cells from the head on hold the bytes `xs`, and no others are fetched; before the end of the
-- stream none is marked as the end.
pub record Holds (xs : Bytes) (b : ByteBuffer) : Type 0 where
  pub ring : IsRing b
  pub fits : length xs ≤ b.buf_len
  pub ready : (i c : ℕ) → at xs i ≡ some c → cell b i ≡ full_cell c
  pub unfetched : (i : ℕ) → length xs ≤ i → i < b.buf_len → (cell b i).is_fetched ≡ false
  pub unmarked :
      b.was_eof ≡ false → (i : ℕ) → length xs ≤ i → i < b.buf_len → (cell b i).is_eof ≡ false

pub at-lt : (xs : Bytes) (i c : ℕ) → at xs i ≡ some c → i < length xs
unfolding at
at-lt [] i c h = absurd (cc)
at-lt (x ∷ xs) zero c h = omega arith
at-lt (x ∷ xs) (suc i) c h = omega (arith, at-lt xs i c h)

pub at-some : (xs : Bytes) (i : ℕ) → i < length xs → (c : ℕ) × (at xs i ≡ some c)
unfolding at
at-some [] i h = absurd (omega arith)
at-some (x ∷ xs) zero h = (x, refl)
at-some (x ∷ xs) (suc i) h = at-some xs i (omega arith)

pub at-append : (xs ys : Bytes) (i c : ℕ) → at xs i ≡ some c → at (xs ++ ys) i ≡ some c
unfolding at
at-append [] ys i c h = absurd (cc)
at-append (x ∷ xs) ys zero c h = h
at-append (x ∷ xs) ys (suc i) c h = at-append xs ys i c h

pub at-none : (xs : Bytes) (i : ℕ) → length xs ≤ i → at xs i ≡ none
unfolding at
at-none [] i h = refl
at-none (x ∷ xs) zero h = absurd (omega arith)
at-none (x ∷ xs) (suc i) h = at-none xs i (omega arith)

at-last :
    (xs : Bytes) (d i c : ℕ)
    → at (xs ++ d ∷ []) i ≡ some c
    → (at xs i ≡ some c) ⊎ ((i ≡ length xs) × (c ≡ d))
unfolding at
at-last [] d zero c h = inr (refl, cc)
at-last [] d (suc i) c h = absurd (cc)
at-last (x ∷ xs) d zero c h = inl h
at-last (x ∷ xs) d (suc i) c h = elim (at-last xs d i c h) [
  | inl before ↦ inl before
  | inr (e, k) ↦ inr (ap suc e, k)
]

-- A byte that is fetched into the next cell.
pub store-Holds :
    (xs : Bytes) (d : ℕ) (b : ByteBuffer)
    → Holds xs b
    → length xs < b.buf_len
    → b.was_eof ≡ false
    → Holds (xs ++ d ∷ []) (store (length xs) d b)
store-Holds xs d b h room open_yet =
    let longer = length-append xs (d ∷ []) in
    let other = λ (i : ℕ) (l : i < b.buf_len) (ne : (i == length xs) ≡ false).
      cell_other b i (length xs) (λ old. record old { byte = d; is_fetched = true }) h.ring l room
        ne in
    record {
      ring = record { times = h.ring.times; divides = h.ring.divides; positive = h.ring.positive };
      fits = omega arith;
      ready = λ i c e. elim (at-last xs d i c e) [
        | inl before ↦
            other i (let l = at-lt xs i c before in omega (arith, l, room))
              (let l = at-lt xs i c before in ground (arith, l))
            ∙ h.ready i c before
        | inr (last, same) ↦
            ap (cell (store (length xs) d b)) last
            ∙ cell-with_cell b (length xs) (λ old. record old { byte = d; is_fetched = true })
            ∙ ap₂ (λ v e. record { byte = v; is_eof = e; is_fetched = true }) (sym same)
                (h.unmarked open_yet (length xs) (omega arith) room)
      ];
      unfetched = λ i l k.
          ap (λ c. c.is_fetched) (other i k (ground (arith, l, longer)))
          ∙ h.unfetched i (omega (arith, l, longer)) k;
      unmarked = λ e i l k.
          ap (λ c. c.is_eof) (other i k (ground (arith, l, longer)))
          ∙ h.unmarked e i (omega (arith, l, longer)) k;
    }

pub store_all-Holds :
    (xs cs : Bytes) (b : ByteBuffer)
    → Holds xs b
    → length xs + length cs ≤ b.buf_len
    → b.was_eof ≡ false
    → Holds (xs ++ cs) (store_all (length xs) cs b)
unfolding store_all
store_all-Holds xs [] b h room e = rw append-nil h
store_all-Holds xs (c ∷ cs) b h room e =
    let longer : length (xs ++ c ∷ []) ≡ suc (length xs) =
      omega (arith, length-append xs (c ∷ [])) in
    let joined : (xs ++ c ∷ []) ++ cs ≡ xs ++ c ∷ cs = append_assoc xs (c ∷ []) cs in
    let rest =
      store_all-Holds (xs ++ c ∷ []) cs (store (length xs) c b)
        (store-Holds xs c b h (omega arith) e) (omega arith) e in
    subst (λ n. Holds (xs ++ c ∷ cs) (store_all n cs (store (length xs) c b))) longer
      (subst (λ ys. Holds ys (store_all (length (xs ++ c ∷ [])) cs (store (length xs) c b))) joined
        rest)

pub store_all-was_eof :
    (i : ℕ) (cs : Bytes) (b : ByteBuffer)
    → ((store_all i cs b).was_eof ≡ b.was_eof) × ((store_all i cs b).buf_len ≡ b.buf_len)
unfolding store_all
store_all-was_eof i [] b = (refl, refl)
store_all-was_eof i (c ∷ cs) b = store_all-was_eof (suc i) cs (store i c b)

pub fetched_at :
    (xs : Bytes) (b : ByteBuffer) (i : ℕ)
    → Holds xs b
    → i < length xs
    → (cell b i).is_fetched ≡ true
fetched_at xs b i h l = let (c, e) = at-some xs i l in ap (λ k. k.is_fetched) (h.ready i c e)

-- The search for the first cell that is not fetched.
pub first_unfetched-Holds :
    (xs : Bytes) (b : ByteBuffer) (i n : ℕ)
    → Holds xs b
    → i ≤ length xs
    → length xs ≤ i + n
    → i + n < b.buf_len
    → first_unfetched b i n ≡ length xs
unfolding first_unfetched
first_unfetched-Holds xs b i zero h l k m = omega arith
first_unfetched-Holds xs b i (suc n) h l k m = elim (Bool-cases (ltb i (length xs))) [
  | inl before ↦
      rw (first_unfetched, fetched_at xs b i h (ground (arith, before)))
        (first_unfetched-Holds xs b (suc i) n h (ground (arith, before)) (omega arith)
          (omega arith))
  | inr behind ↦
      let e : i ≡ length xs = ground (arith, behind, l) in
      rw (first_unfetched, h.unfetched i (omega arith) (omega arith)) e
]

-- The marks behind the bytes at the end of the stream.
pub mark_eof-Holds :
    (xs : Bytes) (b : ByteBuffer) (i : ℕ)
    → Holds xs b
    → b.was_eof ≡ true
    → length xs ≤ i
    → i < b.buf_len
    → Holds xs (mark_eof i b)
mark_eof-Holds xs b i h e l k = record {
  ring = record { times = h.ring.times; divides = h.ring.divides; positive = h.ring.positive };
  fits = h.fits;
  ready = λ j c a.
      let m = at-lt xs j c a in
      cell_other b j i (λ old. record old { is_eof = true }) h.ring (omega (arith, m, l, k)) k
        (ground (arith, m, l))
      ∙ h.ready j c a;
  unfetched = λ j m o. elim (Bool-cases (j == i)) [
    | inl same ↦
        let at_i : j ≡ i = ground (arith, same) in
        ap (λ n. (cell (mark_eof i b) n).is_fetched) at_i
        ∙ ap (λ c. c.is_fetched) (cell-with_cell b i (λ old. record old { is_eof = true }))
        ∙ h.unfetched i l k
    | inr ne ↦
        ap (λ c. c.is_fetched)
          (cell_other b j i (λ old. record old { is_eof = true }) h.ring o k ne)
        ∙ h.unfetched j m o
  ];
  unmarked = λ f. absurd (cc);
}
