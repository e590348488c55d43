-- ===== src/BitSet/Equality.antt =====
-- When two sets count as equal.
use sope_appserver.BitSet.Bits.{test_bit-outside}
use sope_appserver.BitSet.Counting.{
  count_below, count_below-same, count_below-extend, count_below-part,
}
use sope_appserver.BitSet.Validity.{IsValid, is_member-test_bit}
use sope_appserver.BitSet.{BitSet, Words, test_bit, is_member, all_members_in, is_equal_to_set}
use sope_appserver.Prelude.{
  ℕ, zero, suc, ◌+◌, ◌≤◌, ◌<◌, ◌≡◌, ◌↔◌, refl, ap, ◌∙◌, sym, inl, inr, Bool, true, false, not, ◌&&◌,
  ◌==◌, ltb, leb, arith, if◌then◌else◌, Bool-cases,
}

-- Each element that is found in the words is in the other set.
abbrev Included : Words → BitSet → ℕ → ℕ → Type 0
Included ws other x n =
    (y : ℕ) → x ≤ y → y < x + n → test_bit ws y ≡ true → is_member y other ≡ true

missing : (a b : Bool) → (a && not b) ≡ false → a ≡ true → b ≡ true
missing true true h e = refl
missing true false h e = absurd (cc)
missing false b h e = absurd (cc)

found_there : (a b : Bool) → (a ≡ true → b ≡ true) → (a && not b) ≡ false
found_there true b h = rw (h refl) refl
found_there false b h = refl

all_members_in-Included :
    (ws : Words) (other : BitSet) (x n : ℕ)
    → all_members_in ws other x n ≡ true
    → Included ws other x n
unfolding all_members_in
all_members_in-Included ws other x zero h y l k e = absurd (omega arith)
all_members_in-Included ws other x (suc n) h y l k e =
    elim (Bool-cases (test_bit ws x && not (is_member x other))) [
      | inl wrong ↦
          let f : all_members_in ws other x (suc n) ≡ false = rw (all_members_in, wrong) refl in
          absurd (cc)
      | inr fine ↦
          let f : all_members_in ws other x (suc n) ≡ all_members_in ws other (suc x) n =
            rw (all_members_in, fine) refl in
          elim (Bool-cases (y == x)) [
            | inl here ↦
                let at_x : x ≡ y = ground arith in
                missing (test_bit ws y) (is_member y other) (rw at_x at fine) e
            | inr later ↦
                all_members_in-Included ws other (suc x) n (sym f ∙ h) y (ground arith)
                  (omega arith) e
          ]
    ]

Included-all_members_in :
    (ws : Words) (other : BitSet) (x n : ℕ)
    → Included ws other x n
    → all_members_in ws other x n ≡ true
unfolding all_members_in
Included-all_members_in ws other x zero h = refl
Included-all_members_in ws other x (suc n) h =
    let fine = found_there (test_bit ws x) (is_member x other) (h x (omega arith) (omega arith)) in
    rw (all_members_in, fine)
      (Included-all_members_in ws other (suc x) n (λ y l k e. h y (omega arith) (omega arith) e))

both_hold : (c d : Bool) → (if not c then false else d) ≡ true → (c ≡ true) × (d ≡ true)
both_hold true d h = (refl, h)
both_hold false d h = absurd (cc)

module _ (a b : BitSet) (v : IsValid a) (u : IsValid b) where
  beyond_a : (y : ℕ) → a.universe ≤ y → test_bit a.storage y ≡ false
  beyond_a y h = let e = v.block in test_bit-outside a.storage y (omega arith)

  beyond_b : (y : ℕ) → b.universe ≤ y → test_bit b.storage y ≡ false
  beyond_b y h = let e = u.block in test_bit-outside b.storage y (omega arith)

  abbrev both : ℕ
  both = b.universe + a.universe

  count_a : a.count ≡ count_below (test_bit a.storage) both
  count_a = v.counted ∙ sym (count_below-extend (test_bit a.storage) a.universe b.universe beyond_a)

  count_b : b.count ≡ count_below (test_bit b.storage) both
  count_b =
      let order : a.universe + b.universe ≡ both = omega arith in
      u.counted
      ∙ sym (count_below-extend (test_bit b.storage) b.universe a.universe beyond_b)
      ∙ ap (count_below (test_bit b.storage)) order

  member_in_b :
      Included a.storage b 0 a.universe
      → (z : ℕ) → test_bit a.storage z ≡ true
      → test_bit b.storage z ≡ true
  member_in_b h z m = elim (Bool-cases (leb a.universe z)) [
    | inl out ↦ let none_there = beyond_a z (ground (arith, out)) in absurd (cc)
    | inr there ↦ sym (is_member-test_bit b z u) ∙ h z (omega arith) (ground (arith, there)) m
  ]

  -- As many members in both, and those of the one in the other.
  same_if_Included :
      a.count ≡ b.count
      → Included a.storage b 0 a.universe
      → (y : ℕ) → test_bit a.storage y ≡ test_bit b.storage y
  same_if_Included e h y =
      let part =
        count_below-part (test_bit a.storage) (test_bit b.storage) both
          (λ z l m. member_in_b h z m) in
      elim (Bool-cases (ltb y both)) [
        | inl below ↦ part.1 (sym count_a ∙ e ∙ count_b) y (ground arith)
        | inr above ↦ beyond_a y (ground (arith, above)) ∙ sym (beyond_b y (ground (arith, above)))
      ]

  -- Two valid sets count as equal just when they have the same members.
  pub is_equal_to_set_iff : (is_equal_to_set a b ≡ true) ↔ ((y : ℕ) → is_member y a ≡ is_member y b)
  unfolding is_equal_to_set
  is_equal_to_set_iff = (
    λ h y.
        let (counts, all_there) = both_hold (a.count == b.count) _ h in
        is_member-test_bit a y v
        ∙ same_if_Included (ground (arith, counts))
            (all_members_in-Included a.storage b 0 a.universe all_there) y
        ∙ sym (is_member-test_bit b y u),
    λ h.
        let bits = λ (y : ℕ). sym (is_member-test_bit a y v) ∙ h y ∙ is_member-test_bit b y u in
        let counts : a.count ≡ b.count =
          count_a ∙ count_below-same _ _ both (λ y l. bits y) ∙ sym count_b in
        let same : (a.count == b.count) ≡ true = ground (arith, counts) in
        let included =
          Included-all_members_in a.storage b 0 a.universe
            (λ y l k e. sym (h y) ∙ is_member-test_bit a y v ∙ e) in
        rw (same, included) refl,
  )
