-- ===== src/BitSet/Ends.antt =====
-- The first member and the last.
use sope_appserver.BitSet.Bits.{test_bit-outside}
use sope_appserver.BitSet.Validity.{IsValid, is_member-test_bit}
use sope_appserver.BitSet.{
  BitSet, Words, test_bit, is_member, first_from, first_member, Search, element, ns_not_found,
  outside, unending, last_loop, last_member,
}
use sope_appserver.Prelude.{
  ℕ, zero, suc, ◌-◌, ◌*◌, ◌/◌, ◌%◌, ◌^◌, leb, length, subst, ◌+◌, ◌≤◌, ◌<◌, ◌≡◌, ap, ◌∙◌, inl, inr,
  Bool, true, false, Option, none, some, ltb, arith, ◌==◌, Bool-cases,
}

-- The least number of which a test holds, or none.
abbrev pub First : (ℕ → Bool) → Option ℕ → Type 0
First P none = (y : ℕ) → P y ≡ false
First P (some x) = (P x ≡ true) × ((y : ℕ) → y < x → P y ≡ false)

-- The greatest; with none the search has left the block, and NSNotFound never comes back.
abbrev pub Last : (ℕ → Bool) → Search → Type 0
Last P (element x) = (P x ≡ true) × ((y : ℕ) → x < y → P y ≡ false)
Last P ns_not_found = ⊥
Last P outside = (y : ℕ) → P y ≡ false
Last P unending = ⊥

first_from-First :
    (ws : Words) (x n : ℕ)
    → ((y : ℕ) → y < x → test_bit ws y ≡ false)
    → ((y : ℕ) → x + n ≤ y → test_bit ws y ≡ false)
    → First (test_bit ws) (first_from ws x n)
unfolding first_from
first_from-First ws x zero before behind = λ y. elim (Bool-cases (ltb y x)) [
  | inl l ↦ before y (ground arith)
  | inr l ↦ behind y (ground arith)
]
first_from-First ws x (suc n) before behind = elim (Bool-cases (test_bit ws x)) [
  | inl there ↦ rw (first_from, there) (there, before)
  | inr absent ↦
      rw (first_from, absent)
        (first_from-First ws (suc x) n
          (λ y l. elim (Bool-cases (y == x)) [
            | inl same ↦ let e : y ≡ x = ground arith in ap (test_bit ws) e ∙ absent
            | inr other ↦ before y (ground arith)
          ])
          (λ y l. behind y (omega arith)))
]

-- Below the elements that have been passed over, of which there are `n` left.
last_loop-Last :
    (ws : Words) (n : ℕ)
    → length ws * 32 < 2 ^ 32
    → n ≤ length ws * 32
    → ((y : ℕ) → n ≤ y → test_bit ws y ≡ false)
    → Last (test_bit ws) (last_loop ws (suc n) ((n + (2 ^ 32 - 1)) % 2 ^ 32))
unfolding last_loop
last_loop-Last ws zero h k behind =
    let start : (0 + (2 ^ 32 - 1)) % 2 ^ 32 ≡ 2 ^ 32 - 1 = omega arith in
    let gone : ltb ((2 ^ 32 - 1) / 32) (length ws) ≡ false = ground (arith, h) in
    rw (start, gone) (λ y. behind y (omega arith))
last_loop-Last ws (suc n) h k behind =
    let start : (suc n + (2 ^ 32 - 1)) % 2 ^ 32 ≡ n = omega (arith, h, k) in
    let inside : ltb (n / 32) (length ws) ≡ true = ground (arith, k) in
    let any : leb 0 n ≡ true = ground arith in
    elim (Bool-cases (test_bit ws n)) [
      | inl there ↦ rw (start, any, inside, there) (there, λ y l. behind y (omega arith))
      | inr absent ↦
          rw (start, any, inside, absent)
            (last_loop-Last ws n h (omega arith) (λ y l. elim (Bool-cases (y == n)) [
              | inl same ↦ let e : y ≡ n = ground arith in ap (test_bit ws) e ∙ absent
              | inr other ↦ behind y (ground arith)
            ]))
    ]

First-same : (P Q : ℕ → Bool) (o : Option ℕ) → ((y : ℕ) → Q y ≡ P y) → First P o → First Q o
First-same P Q none h f = λ y. h y ∙ f y
First-same P Q (some x) h (p, f) = (h x ∙ p, λ y l. h y ∙ f y l)

Last-same : (P Q : ℕ → Bool) (o : Search) → ((y : ℕ) → Q y ≡ P y) → Last P o → Last Q o
Last-same P Q (element x) h (p, f) = (h x ∙ p, λ y l. h y ∙ f y l)
Last-same P Q ns_not_found h f = absurd f
Last-same P Q outside h f = λ y. h y ∙ f y
Last-same P Q unending h f = absurd f

-- The first member of a valid set is the least, with NSNotFound for an empty set; the last one is
-- the greatest, and for an empty set the search reads outside the block: it never answers NSNotFound,
-- as the element below 0 is 2^32 - 1.
pub first_member-last_member :
    (s : BitSet)
    → IsValid s
    → First (λ y. is_member y s) (first_member s) × Last (λ y. is_member y s) (last_member s)
unfolding first_member last_member
first_member-last_member s v =
    let b = v.block in
    let members = λ (y : ℕ). is_member-test_bit s y v in
    (
      First-same (test_bit s.storage) (λ y. is_member y s) (first_from s.storage 0 s.universe)
          members
          (first_from-First s.storage 0 s.universe (λ y l. absurd (omega arith))
            (λ y l. test_bit-outside s.storage y (omega arith))),
      Last-same (test_bit s.storage) (λ y. is_member y s) (last_member s) members
          (subst
            (λ n.
              Last (test_bit s.storage) (last_loop s.storage (suc n) ((n + (2 ^ 32 - 1)) % 2 ^ 32)))
            b
            (last_loop-Last s.storage (length s.storage * 32)
              (let small = v.in_word in omega (arith, b, small)) (omega arith)
              (λ y l. test_bit-outside s.storage y (omega arith)))),
    )
