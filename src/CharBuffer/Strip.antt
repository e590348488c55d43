-- ===== src/CharBuffer/Strip.antt =====
-- What the loop that strips trailing spaces finds.
use sope_appserver.CharBuffer.{is_space, cell_at, strip_loop}
use sope_appserver.Prelude.{
  ℕ, zero, suc, ◌+◌, ◌≤◌, ◌<◌, ◌≡◌, refl, sym, ap, ◌∙◌, inl, inr, Bool, true, false, ◌&&◌, [], ◌∷◌,
  ◌++◌, arith, if◌then◌else◌, Bytes, length, take, drop, take_all, length-append, Bool-cases,
}

-- A text without the spaces at its end.
abbrev pub is_empty : Bytes → Bool
is_empty [] = true
is_empty (c ∷ cs) = false

unfoldable pub strip_end : Bytes → Bytes
strip_end [] = []
strip_end (c ∷ t) = let rest = strip_end t in if is_space c && is_empty rest then [] else c ∷ rest

take_next :
    (n : ℕ) (t r : Bytes) → n < length t → take (suc n) t ≡ take n t ++ cell_at n (t ++ r) ∷ []
take_next n [] r h = absurd (omega arith)
take_next zero (c ∷ t) r h = refl
take_next (suc n) (c ∷ t) r h = ap (λ u. c ∷ u) (take_next n t r (omega arith))

strip_end-space : (t : Bytes) (c : ℕ) → is_space c ≡ true → strip_end (t ++ c ∷ []) ≡ strip_end t
unfolding strip_end
strip_end-space [] c h = rw h refl
strip_end-space (d ∷ t) c h = rw (strip_end-space t c h) refl

is_empty-snoc : (t : Bytes) (c : ℕ) → is_empty (t ++ c ∷ []) ≡ false
is_empty-snoc [] c = refl
is_empty-snoc (d ∷ t) c = refl

false_right : (a b : Bool) → b ≡ false → (a && b) ≡ false
false_right true b h = h
false_right false b h = refl

strip_end-other : (t : Bytes) (c : ℕ) → is_space c ≡ false → strip_end (t ++ c ∷ []) ≡ t ++ c ∷ []
unfolding strip_end
strip_end-other [] c h = rw h refl
strip_end-other (d ∷ t) c h =
    rw (strip_end-other t c h)
      (rw (false_right (is_space d) (is_empty (t ++ c ∷ [])) (is_empty-snoc t c)) refl)

length-next : (n : ℕ) (t : Bytes) → suc n ≤ length t → length (take n t) + 1 ≡ suc n
length-next zero t h = refl
length-next (suc n) [] h = absurd (omega arith)
length-next (suc n) (c ∷ t) h = omega (arith, length-next n t (omega arith))

strip_loop-take :
    (n : ℕ) (t r : Bytes) → n ≤ length t → strip_loop n (t ++ r) ≡ length (strip_end (take n t))
unfolding strip_loop
strip_loop-take zero t r h = unfold strip_end in refl
strip_loop-take (suc n) t r h = elim (Bool-cases (is_space (cell_at n (t ++ r)))) [
  | inl space ↦
      rw (space, take_next n t r (omega arith))
        (strip_loop-take n t r (omega arith)
          ∙ ap length (sym (strip_end-space (take n t) (cell_at n (t ++ r)) space)))
  | inr other ↦
      rw (other, take_next n t r (omega arith))
        (sym (length-next n t h)
          ∙ sym (length-append (take n t) (cell_at n (t ++ r) ∷ []))
          ∙ ap length (sym (strip_end-other (take n t) (cell_at n (t ++ r)) other)))
]

pub strip_loop-strip_end : (t r : Bytes) → strip_loop (length t) (t ++ r) ≡ length (strip_end t)
strip_loop-strip_end t r =
    strip_loop-take (length t) t r (omega arith)
    ∙ ap (λ u. length (strip_end u)) (take_all (length t) t (omega arith))

-- The stripped text is a first part of the text.
pub strip_end-prefix : (t : Bytes) → t ≡ strip_end t ++ drop (length (strip_end t)) t
unfolding strip_end
strip_end-prefix [] = refl
strip_end-prefix (c ∷ t) = elim (Bool-cases (is_space c && is_empty (strip_end t))) [
  | inl gone ↦ rw gone refl
  | inr kept ↦ rw kept (ap (λ u. c ∷ u) (strip_end-prefix t))
]
