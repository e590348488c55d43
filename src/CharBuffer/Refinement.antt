-- ===== src/CharBuffer/Refinement.antt =====
-- A buffer that holds a text, and how it grows.
use sope_appserver.CharBuffer.{
  CharBuffer, unsigned, set_cell, text_length, append_text, grown_capacity, grow, check_capacity,
  put_char, put_text,
}
use sope_appserver.Prelude.{
  ℕ, suc, ◌+◌, ◌*◌, ◌^◌, ◌≤◌, ◌<◌, ◌≡◌, refl, sym, ap, ◌∙◌, inl, inr, false, [], ◌∷◌, ◌++◌,
  append_assoc, arith, ltb, ◌==◌, if◌then◌else◌, Bytes, length, take, drop, All, length-append,
  length-take, length-drop, take-append, drop_past, drop-drop, Bool-cases,
}

abbrev pub NotNul : ℕ → Type 0
NotNul c = (c == 0) ≡ false

-- A buffer that holds this text, within its block, whose capacity is at most three times the limit.
pub record Holds (limit : ℕ) (text : Bytes) (b : CharBuffer) : Type 0 where
  pub behind : Bytes
  pub cells_are : b.cells ≡ text ++ 0 ∷ behind
  pub size_is : b.size ≡ length text
  pub no_nul : All NotNul text
  pub has_room : length text < b.capacity
  pub written : length b.cells ≤ b.allocated
  pub owned : b.capacity ≤ b.allocated
  pub ratio : b.increase_ratio ≡ 2
  pub bounded : b.capacity ≤ 3 * limit

set_cell-end : (c d : ℕ) (t r : Bytes) → set_cell (length t) c (t ++ d ∷ r) ≡ t ++ c ∷ r
unfolding set_cell
set_cell-end c d t r = rw (take-append t (d ∷ r), drop_past t d r) refl

set_cell-next :
    (c : ℕ) (t r : Bytes) → set_cell (suc (length t)) 0 (t ++ c ∷ r) ≡ t ++ c ∷ 0 ∷ drop 1 r
unfolding set_cell
set_cell-next c [] r = refl
set_cell-next c (x ∷ t) r = ap (λ u. x ∷ u) (set_cell-next c t r)

take_past : (t : Bytes) (c : ℕ) (r : Bytes) → take (suc (length t)) (t ++ c ∷ r) ≡ t ++ c ∷ []
take_past [] c r = refl
take_past (x ∷ t) c r = ap (λ u. x ∷ u) (take_past t c r)

All-append : (s t : Bytes) → All NotNul s → All NotNul t → All NotNul (s ++ t)
All-append [] t h k = k
All-append (x ∷ s) t (h, hs) k = (h, All-append s t hs k)

pub text_length-end : (t r : Bytes) → All NotNul t → text_length (t ++ 0 ∷ r) ≡ length t
unfolding text_length
text_length-end [] r h = refl
text_length-end (c ∷ t) r (h, hs) = rw (h, text_length-end t r hs) refl

suc_add : (m n : ℕ) → suc (m + n) ≡ suc m + n
suc_add m n = omega arith

drop_behind : (s t r : Bytes) → drop (suc (length t + length s)) (t ++ 0 ∷ r) ≡ drop (length s) r
drop_behind s t r =
    ap (λ n. drop n (t ++ 0 ∷ r)) (suc_add (length t) (length s))
    ∙ sym (drop-drop (suc (length t)) (length s) (t ++ 0 ∷ r))
    ∙ ap (drop (length s)) (drop_past t 0 r)

append_text-end :
    (s t r : Bytes) → All NotNul t → append_text (t ++ 0 ∷ r) s ≡ (t ++ s) ++ 0 ∷ drop (length s) r
unfolding append_text
append_text-end s t r h =
    rw (text_length-end t r h) (
      rw (take-append t (0 ∷ r), drop_behind s t r)
        (sym (append_assoc t s (0 ∷ drop (length s) r))))

abbrev Grown : ℕ → ℕ → ℕ → Type 0
Grown least most n = (least < n) × (n ≤ most)

grown_lem :
    (capacity size needed limit : ℕ)
    → size < capacity
    → size + needed < limit
    → 3 * limit + 2 < 2 ^ 32
    → capacity < size + needed + 1
    → Grown (size + needed) (3 * limit) (
        if ltb (unsigned (capacity * 2)) (unsigned (size + needed + 1))
        then unsigned (unsigned (capacity * 2) + needed + 1)
        else unsigned (capacity * 2))
grown_lem capacity size needed limit h k l m =
    elim (Bool-cases (ltb (unsigned (capacity * 2)) (unsigned (size + needed + 1)))) [
      | inl more ↦ rw more (omega arith, omega arith)
      | inr enough ↦ rw enough (ground arith, omega arith)
    ]

module _ (limit : ℕ) (small : 3 * limit + 2 < 2 ^ 32) where
  grow-Holds :
      (t : Bytes) (b : CharBuffer) (n : ℕ)
      → Holds limit t b
      → length t + n < limit
      → b.capacity < length t + n + 1
      → Holds limit t (grow b n) × (length t + n < (grow b n).capacity)
  grow-Holds t b n h k l =
      let g : Grown (length t + n) (3 * limit) (grown_capacity b n) =
        rw (h.size_is, h.ratio) (grown_lem b.capacity (length t) n limit h.has_room k small l) in
      (
        record {
          behind = [];
          cells_are = rw (h.size_is, h.cells_are) (take_past t 0 h.behind);
          size_is = h.size_is;
          no_nul = h.no_nul;
          has_room = omega (arith, g.0);
          written = omega (arith, g, h.size_is, length-take (suc b.size) b.cells);
          owned = omega (arith, g);
          ratio = h.ratio;
          bounded = g.1;
        },
        g.0,
      )

  pub check_capacity-Holds :
      (t : Bytes) (b : CharBuffer) (n : ℕ)
      → Holds limit t b
      → length t + n < limit
      → Holds limit t (check_capacity b n) × (length t + n < (check_capacity b n).capacity)
  unfolding check_capacity
  check_capacity-Holds t b n h k = elim (Bool-cases (ltb b.capacity (unsigned (b.size + n + 1)))) [
    | inl more ↦ rw more (grow-Holds t b n h k (ground (arith, h.size_is)))
    | inr enough ↦ rw enough (h, ground (arith, h.size_is))
  ]

  pub put_char-Holds :
      (t : Bytes) (c : ℕ) (b : CharBuffer)
      → NotNul c
      → Holds limit t b
      → length t + 1 < b.capacity
      → Holds limit (t ++ c ∷ []) (put_char c b)
  put_char-Holds t c b e h k =
      let next : unsigned (suc b.size) ≡ suc (length t) = omega (arith, h.size_is, h.bounded) in
      let cells : (put_char c b).cells ≡ (t ++ c ∷ []) ++ 0 ∷ drop 1 h.behind =
        rw (next, h.size_is, h.cells_are, set_cell-end c 0 t h.behind, set_cell-next c t h.behind)
          (sym (append_assoc t (c ∷ []) (0 ∷ drop 1 h.behind))) in
      record {
        behind = drop 1 h.behind;
        cells_are = cells;
        size_is = omega (arith, h.size_is, h.bounded, length-append {0} t (c ∷ []));
        no_nul = All-append t (c ∷ []) h.no_nul (e, tt);
        has_room = omega (arith, length-append {0} t (c ∷ []));
        written = omega (
          arith,
          h.written,
          h.owned,
          ap length cells,
          ap length h.cells_are,
          length-append {0} (t ++ c ∷ []) (0 ∷ drop 1 h.behind),
          length-append {0} t (0 ∷ h.behind),
          length-append {0} t (c ∷ []),
          length-drop 1 h.behind,
        );
        owned = h.owned;
        ratio = h.ratio;
        bounded = h.bounded;
      }

  pub put_text-Holds :
      (t s : Bytes) (b : CharBuffer)
      → All NotNul s
      → Holds limit t b
      → length t + length s < b.capacity
      → Holds limit (t ++ s) (put_text s b)
  put_text-Holds t s b e h k =
      let cells = ap (λ cs. append_text cs s) h.cells_are ∙ append_text-end s t h.behind h.no_nul in
      record {
        behind = drop (length s) h.behind;
        cells_are = cells;
        size_is = omega (arith, h.size_is, h.bounded, length-append {0} t s);
        no_nul = All-append t s h.no_nul e;
        has_room = omega (arith, length-append {0} t s);
        written = omega (
          arith,
          h.written,
          h.owned,
          ap length cells,
          ap length h.cells_are,
          length-append {0} (t ++ s) (0 ∷ drop (length s) h.behind),
          length-append {0} t (0 ∷ h.behind),
          length-append {0} t s,
          length-drop (length s) h.behind,
        );
        owned = h.owned;
        ratio = h.ratio;
        bounded = h.bounded;
      }
