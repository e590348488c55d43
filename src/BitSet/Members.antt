-- ===== src/BitSet/Members.antt =====
-- What the operations that change a set do to its members, and that they keep it valid.
use sope_appserver.BitSet.Validity.{
  IsValid, is_member-test_bit, Becomes, Becomes-same, unchanged-Becomes, but, but-same,
  set_bit-Becomes, clear_bit-Becomes,
}
use sope_appserver.BitSet.Bits.{
  length-zeros, test_bit-zeros, test_bit-append_zeros, word_at-none, test_bit-outside,
}
use sope_appserver.BitSet.Counting.{count_below, count_below-same, count_below-extend}
use sope_appserver.BitSet.{
  remove_all_members, BitSet, zeros, test_bit, universe_for, init_with_capacity, expand_to_include,
  is_member, set_bit, grown_for, add_member, remove_member,
}
use sope_appserver.Prelude.{
  ℕ, zero, suc, ◌+◌, ◌-◌, ◌*◌, ◌/◌, ◌^◌, ◌≤◌, ◌<◌, ◌≡◌, refl, ap, ◌∙◌, sym, subst, inl, inr, Bool,
  true, false, Option, none, some, List, ◌++◌, ◌==◌, ltb, leb, take, take_all, leb→le, length,
  length-append, arith, if◌then◌else◌, Bool-cases,
}

-- The largest element for which the size of the universe is a number of 32 bits.
abbrev pub max_element : ℕ
max_element = 2 ^ 32 - 33

-- A set with these words, whose bits hold of just `P`, and as many counted.
built-Becomes :
    (n c : ℕ) (ws : List ℕ) (P : ℕ → Bool)
    → length ws * 32 ≡ n
    → n < 2 ^ 32
    → ((y : ℕ) → test_bit ws y ≡ P y)
    → c ≡ count_below P n
    → Becomes n P (some (record { universe = n; count = c; storage = ws }))
built-Becomes n c ws P block small h e =
    let t : BitSet = record { universe = n; count = c; storage = ws } in
    let valid : IsValid t = record {
      block = block;
      in_word = small;
      counted = e ∙ count_below-same P (test_bit ws) n (λ y k. sym (h y));
    } in
    (valid, refl, λ y. is_member-test_bit t y valid ∙ h y)

none_below : (n : ℕ) → count_below (λ y. false) n ≡ 0
unfolding count_below
none_below zero = refl
none_below (suc n) = omega (arith, none_below n)

abbrev pub full_universe : ℕ → ℕ
full_universe x = (x / 32 + 1) * 32

universe_for-lem : (x : ℕ) → x ≤ max_element → universe_for x ≡ full_universe x
universe_for-lem x h = omega arith

pub init_with_capacity-Becomes :
    (capacity : ℕ)
    → capacity ≤ max_element
    → Becomes (full_universe capacity) (λ y. false) (some (init_with_capacity capacity))
unfolding init_with_capacity
init_with_capacity-Becomes capacity h =
    let size = length-zeros (full_universe capacity / 32) in
    rw (universe_for-lem capacity h) (
      built-Becomes (full_universe capacity) 0 (zeros (full_universe capacity / 32)) (λ y. false)
        (omega (arith, size)) (omega arith) (test_bit-zeros (full_universe capacity / 32))
        (sym (none_below (full_universe capacity))))

-- A larger block has the same members.
pub expand_to_include-Becomes :
    (x : ℕ) (s : BitSet)
    → IsValid s
    → x ≤ max_element
    → s.universe ≤ x
    → Becomes (full_universe x) (λ y. is_member y s) (some (expand_to_include x s))
unfolding expand_to_include
expand_to_include-Becomes x s v h k =
    let b = v.block in
    let n = full_universe x in
    let grows : ltb s.universe n ≡ true = ground (arith, k) in
    let whole : take (s.universe / 32) s.storage ≡ s.storage =
      take_all (s.universe / 32) s.storage (omega arith) in
    let size = length-append s.storage (zeros (n / 32 - s.universe / 32)) in
    let size_zeros = length-zeros (n / 32 - s.universe / 32) in
    let beyond : (y : ℕ) → s.universe ≤ y → test_bit s.storage y ≡ false =
      λ y l. test_bit-outside s.storage y (omega arith) in
    let split : n ≡ (n - s.universe) + s.universe = omega arith in
    let same_count =
      v.counted
      ∙ sym (count_below-extend (test_bit s.storage) s.universe (n - s.universe) beyond)
      ∙ ap (count_below (test_bit s.storage)) (sym split) in
    rw (universe_for-lem x h, grows, whole)
      (Becomes-same n (test_bit s.storage) (λ y. is_member y s)
        (some (record {
          universe = n;
          count = s.count;
          storage = s.storage ++ zeros (n / 32 - s.universe / 32);
        }))
        (λ y. sym (is_member-test_bit s y v))
        (built-Becomes n s.count (s.storage ++ zeros (n / 32 - s.universe / 32))
          (test_bit s.storage) (omega arith) (omega arith)
          (test_bit-append_zeros s.storage (n / 32 - s.universe / 32)) same_count))

-- What is done next to a set that has become one of these members.
pub Becomes-then :
    (n m : ℕ) (P Q : ℕ → Bool) (s : BitSet) (f : BitSet → Option BitSet)
    → Becomes n P (some s)
    → ((t : BitSet)
        → IsValid t
        → t.universe ≡ n
        → ((y : ℕ) → is_member y t ≡ P y)
        → Becomes m Q (f t))
    → Becomes m Q (f s)
Becomes-then n m P Q s f (v, e, k) h = h s v e k

abbrev pub universe_with : ℕ → BitSet → ℕ
universe_with x s = if leb s.universe x then full_universe x else s.universe

pub grown_for-Becomes :
    (x : ℕ) (s : BitSet)
    → IsValid s
    → x ≤ max_element
    → Becomes (universe_with x s) (λ y. is_member y s) (some (grown_for x s))
grown_for-Becomes x s v h = elim (Bool-cases (leb s.universe x)) [
  | inl out ↦ rw out (expand_to_include-Becomes x s v h (leb→le s.universe x out))
  | inr inside ↦ rw inside (unchanged-Becomes s (λ y. is_member y s) v (λ y. refl))
]

pub universe_with-lem : (x : ℕ) (s : BitSet) → x < universe_with x s
universe_with-lem x s = ground arith

-- An element that is added.
pub add_member-Becomes :
    (x : ℕ) (s : BitSet)
    → IsValid s
    → x ≤ max_element
    → Becomes (universe_with x s) (but x true (λ y. is_member y s)) (add_member x s)
unfolding add_member
add_member-Becomes x s v h =
    Becomes-then (universe_with x s) (universe_with x s) (λ y. is_member y s)
      (but x true (λ y. is_member y s)) (grown_for x s) (set_bit x) (grown_for-Becomes x s v h)
      (λ t w e k.
        subst (λ n. Becomes n (but x true (λ y. is_member y s)) (set_bit x t)) e
          (Becomes-same t.universe (but x true (λ y. is_member y t)) _ _
            (λ y. ap (λ b. if y == x then true else b) (k y))
            (set_bit-Becomes x t w (subst (λ n. x < n) (sym e) (universe_with-lem x s)))))

-- An element that is removed.
pub remove_member-Becomes :
    (x : ℕ) (s : BitSet)
    → IsValid s
    → Becomes s.universe (but x false (λ y. is_member y s)) (remove_member x s)
unfolding remove_member
remove_member-Becomes x s v = elim (Bool-cases (leb s.universe x)) [
  | inl out ↦
      let absent : is_member x s ≡ false = unfold is_member in rw out refl in
      rw out (
        unchanged-Becomes s (but x false (λ y. is_member y s)) v (λ y.
          but-same x (λ z. is_member z s) y ∙ ap (λ c. but x c (λ z. is_member z s) y) absent))
  | inr inside ↦ rw inside (clear_bit-Becomes x s v (ground arith))
]

-- All members are removed.
pub remove_all_members-Becomes :
    (s : BitSet) → IsValid s → Becomes s.universe (λ y. false) (some (remove_all_members s))
unfolding remove_all_members
remove_all_members-Becomes s v =
    let b = v.block in
    let size = length-zeros (s.universe / 32) in
    built-Becomes s.universe 0 (zeros (s.universe / 32)) (λ y. false) (omega arith) v.in_word
      (test_bit-zeros (s.universe / 32)) (sym (none_below s.universe))

-- For the last 32 numbers of 32 bits the size of the universe comes out as 0, so the block does not
-- grow and the element is written outside it.
pub add_member-overflow :
    (x : ℕ) (s : BitSet) → IsValid s → max_element < x → x < 2 ^ 32 → add_member x s ≡ none
unfolding add_member expand_to_include set_bit
add_member-overflow x s v h k =
    let b = v.block in
    let small = v.in_word in
    let wraps : universe_for x ≡ 0 = omega arith in
    let out : leb s.universe x ≡ true = ground (arith, h, b, small) in
    let stays : ltb s.universe 0 ≡ false = ground arith in
    rw (out, wraps, stays, word_at-none s.storage (x / 32) (omega arith)) refl
