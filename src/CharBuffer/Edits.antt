-- ===== src/CharBuffer/Edits.antt =====
-- Any sequence of edits of a buffer, and the string that is made of it at the end.
use sope_appserver.CharBuffer.Refinement.{
  NotNul, Holds, text_length-end, check_capacity-Holds, put_char-Holds, put_text-Holds,
}
use sope_appserver.CharBuffer.Strip.{strip_end, strip_loop-strip_end, strip_end-prefix}
use sope_appserver.CharBuffer.{
  CharBuffer, init, new_with_c_string, set_cell, text_length, check_capacity, add_char,
  add_c_string, remove_contents, strip_loop, strip_to, strip_trailing_spaces, string,
  length_mismatch, make_string_and_dealloc,
}
use sope_appserver.Prelude.{
  ℕ, suc, ◌+◌, ◌*◌, ◌^◌, ◌≤◌, ◌<◌, ◌≡◌, refl, sym, ap, subst, inl, inr, true, Option, none, some,
  List, [], ◌∷◌, ◌++◌, append_assoc, arith, ◌==◌, if◌then◌else◌, Bytes, length, drop, All,
  length-append, length-drop, take-append, nil_of_length, Bool-cases,
}

pub data Edit : Type 0 where
  char_added : ℕ → Edit
  text_added : Option Bytes → Edit
  cleared : Edit
  stripped : Edit

abbrev or_same : CharBuffer → Option CharBuffer → CharBuffer
or_same b none = b
or_same b (some c) = c

abbrev pub apply : Edit → CharBuffer → CharBuffer
apply (char_added c) b = add_char b c
apply (text_added s) b = add_c_string b s
apply cleared b = remove_contents b
apply stripped b = or_same b (strip_trailing_spaces (some b))

abbrev pub apply_all : List Edit → CharBuffer → CharBuffer
apply_all [] b = b
apply_all (e ∷ es) b = apply_all es (apply e b)

-- The edits on a text.
abbrev pub text_after : Edit → Bytes → Bytes
text_after (char_added c) t = t ++ c ∷ []
text_after (text_added none) t = t
text_after (text_added (some s)) t = t ++ s
text_after cleared t = []
text_after stripped t = strip_end t

abbrev pub text_after_all : List Edit → Bytes → Bytes
text_after_all [] t = t
text_after_all (e ∷ es) t = text_after_all es (text_after e t)

-- No NUL is added.
abbrev pub IsClean : Edit → Type 0
IsClean (char_added c) = NotNul c
IsClean (text_added none) = Unit {0}
IsClean (text_added (some s)) = All NotNul s
IsClean cleared = Unit {0}
IsClean stripped = Unit {0}

abbrev pub added : Edit → ℕ
added (char_added c) = 1
added (text_added none) = 0
added (text_added (some s)) = length s
added cleared = 0
added stripped = 0

abbrev pub total_added : List Edit → ℕ
total_added [] = 0
total_added (e ∷ es) = added e + total_added es

set_cell-at : (u r : Bytes) → set_cell (length u) 0 (u ++ r) ≡ u ++ 0 ∷ drop 1 r
unfolding set_cell
set_cell-at [] r = refl
set_cell-at (x ∷ u) r = ap (λ v. x ∷ v) (set_cell-at u r)

All-prefix : (u v : Bytes) → All NotNul (u ++ v) → All NotNul u
All-prefix [] v h = tt
All-prefix (x ∷ u) v (h, hs) = (h, All-prefix u v hs)

equal_sizes : (n : ℕ) → (n == n) ≡ true
equal_sizes n = ground arith

module _ (limit : ℕ) where
  -- A buffer that is cut to a first part of its text.
  strip_to-Holds :
      (u v : Bytes) (b : CharBuffer)
      → Holds limit (u ++ v) b
      → Holds limit u (strip_to (length u) b)
  strip_to-Holds u v b h =
      let cells : set_cell (length u) 0 b.cells ≡ u ++ 0 ∷ drop 1 (v ++ 0 ∷ h.behind) =
        rw (h.cells_are, append_assoc) (set_cell-at u (v ++ 0 ∷ h.behind)) in
      record {
        behind = drop 1 (v ++ 0 ∷ h.behind);
        cells_are = cells;
        size_is = refl;
        no_nul = All-prefix u v h.no_nul;
        has_room = omega (arith, h.has_room, length-append {0} u v);
        written = omega (
          arith,
          h.written,
          ap length cells,
          ap length h.cells_are,
          length-append {0} u (0 ∷ drop 1 (v ++ 0 ∷ h.behind)),
          length-drop 1 (v ++ 0 ∷ h.behind),
          length-append {0} v (0 ∷ h.behind),
          length-append {0} (u ++ v) (0 ∷ h.behind),
          length-append {0} u v,
        );
        owned = h.owned;
        ratio = h.ratio;
        bounded = h.bounded;
      }

  remove_contents-Holds :
      (t : Bytes) (b : CharBuffer) → Holds limit t b → Holds limit [] (remove_contents b)
  unfolding remove_contents
  remove_contents-Holds t b h = strip_to-Holds [] t b h

  strip-Holds :
      (t : Bytes) (b : CharBuffer)
      → Holds limit t b
      → Holds limit (strip_end t) (or_same b (strip_trailing_spaces (some b)))
  unfolding strip_trailing_spaces
  strip-Holds t b h = elim (Bool-cases (b.size == 0)) [
    | inl none_left ↦ rw none_left (
        subst (λ u. Holds limit (strip_end u) b) (sym (nil_of_length t (ground (arith, h.size_is))))
          (unfold strip_end in
            subst (λ u. Holds limit u b) (nil_of_length t (ground (arith, h.size_is))) h))
    | inr some_left ↦
        let end_found : strip_loop b.size b.cells ≡ length (strip_end t) =
          rw (h.size_is, h.cells_are) (strip_loop-strip_end t (0 ∷ h.behind)) in
        rw (some_left, end_found)
          (strip_to-Holds (strip_end t) (drop (length (strip_end t)) t) b
            (subst (λ u. Holds limit u b) (strip_end-prefix t) h))
  ]

  init-Holds : (capacity : ℕ) → 0 < capacity → capacity ≤ 3 * limit → Holds limit [] (init capacity)
  init-Holds capacity h k = record {
    behind = [];
    cells_are = refl;
    size_is = refl;
    no_nul = tt;
    has_room = h;
    written = omega arith;
    owned = omega arith;
    ratio = refl;
    bounded = k;
  }

  make_string-Holds :
      (t : Bytes) (b : CharBuffer) → Holds limit t b → make_string_and_dealloc (some b) ≡ string t
  unfolding make_string_and_dealloc
  make_string-Holds t b h =
      let counted : text_length b.cells ≡ b.size =
        rw (h.cells_are, h.size_is) (text_length-end t h.behind h.no_nul) in
      rw (counted, equal_sizes b.size)
        (ap string (rw (h.cells_are, h.size_is) (take-append t (0 ∷ h.behind))))

  module _ (small : 3 * limit + 2 < 2 ^ 32) where
    apply-Holds :
        (e : Edit) (t : Bytes) (b : CharBuffer)
        → IsClean e
        → length t + added e < limit
        → Holds limit t b
        → Holds limit (text_after e t) (apply e b)
    unfolding add_char add_c_string
    apply-Holds (char_added c) t b k l h =
        let (g, r) = check_capacity-Holds limit small t b 1 h l in
        put_char-Holds limit small t c (check_capacity b 1) k g r
    apply-Holds (text_added none) t b k l h = h
    apply-Holds (text_added (some s)) t b k l h =
        let (g, r) = check_capacity-Holds limit small t b (length s) h l in
        put_text-Holds limit small t s (check_capacity b (length s)) k g r
    apply-Holds cleared t b k l h = remove_contents-Holds t b h
    apply-Holds stripped t b k l h = strip-Holds t b h

    length-strip_end : (t : Bytes) → length (strip_end t) ≤ length t
    length-strip_end t = omega (
      arith,
      ap length (strip_end-prefix t),
      length-append {0} (strip_end t) (drop (length (strip_end t)) t),
    )

    length-text_after : (e : Edit) (t : Bytes) → length (text_after e t) ≤ length t + added e
    length-text_after (char_added c) t = omega (arith, length-append {0} t (c ∷ []))
    length-text_after (text_added none) t = omega arith
    length-text_after (text_added (some s)) t = omega (arith, length-append {0} t s)
    length-text_after cleared t = omega arith
    length-text_after stripped t = omega (arith, length-strip_end t)

    apply_all-Holds :
        (es : List Edit) (t : Bytes) (b : CharBuffer)
        → All IsClean es
        → length t + total_added es < limit
        → Holds limit t b
        → Holds limit (text_after_all es t) (apply_all es b)
    apply_all-Holds [] t b k l h = h
    apply_all-Holds (e ∷ es) t b (k, ks) l h =
        apply_all-Holds es (text_after e t) (apply e b) ks (omega (arith, l, length-text_after e t))
          (apply-Holds e t b k (omega (arith, l)) h)

-- A buffer with a capacity that is not 0, on which any edits that add no NUL are done: the string
-- made of it is the text that the edits make, and all its characters and its NUL lie within its
-- block. The capacity and three times the number of the added characters stay below 2^32.
pub make_string-apply_all :
    (capacity limit : ℕ) (es : List Edit)
    → 0 < capacity
    → capacity ≤ 3 * limit
    → 3 * limit + 2 < 2 ^ 32
    → total_added es < limit
    → All IsClean es
    → (make_string_and_dealloc (some (apply_all es (init capacity)))
        ≡ string (text_after_all es []))
      × (length (apply_all es (init capacity)).cells ≤ (apply_all es (init capacity)).allocated)
make_string-apply_all capacity limit es h k l m c =
    let held =
      apply_all-Holds limit l es [] (init capacity) c (omega (arith, m))
        (init-Holds limit capacity h k) in
    (
      make_string-Holds limit (text_after_all es []) (apply_all es (init capacity)) held,
      held.written,
    )

-- A buffer that is made of a C string that is not empty has a length of 0: no string can be made of
-- it.
pub make_string-new_with_c_string :
    (c : ℕ) (s : Bytes)
    → All NotNul (c ∷ s)
    → make_string_and_dealloc (some (new_with_c_string (c ∷ s))) ≡ length_mismatch
unfolding make_string_and_dealloc new_with_c_string
make_string-new_with_c_string c s h = rw (text_length-end (c ∷ s) [] h) (no_match (length s))
  where
    no_match : (n : ℕ) → (if suc n == 0 then string [] else length_mismatch) ≡ length_mismatch
    no_match n = ground arith
