-- ===== src/BitSet/Copies.antt =====
-- The copy of a set by its enumerator.
use sope_appserver.BitSet.Listing.{listed, listed_count, listed_members, Holds, add_members}
use sope_appserver.BitSet.Members.{init_with_capacity-Becomes}
use sope_appserver.BitSet.Validity.{IsValid}
use sope_appserver.BitSet.{
  BitSet, Words, test_bit, init, is_member, add_member, and_then, add_all, first_from, Enumerator,
  next_object, object_enumerator, copy_loop, init_with_bit_set,
}
use sope_appserver.Prelude.{
  ℕ, zero, suc, ◌+◌, ◌-◌, ◌≤◌, ◌<◌, ◌≡◌, refl, ap, ap₂, ◌∙◌, sym, subst, inl, inr, true, false,
  Option, none, some, leb, List, [], ◌∷◌, arith, ◌==◌, nil_of_length, length, Bool-cases,
}

-- The search for the next element finds the head of the list.
first_from-listed :
    (ws : Words) (x n y : ℕ) (ys : List ℕ)
    → listed (test_bit ws) x n ≡ y ∷ ys
    → (first_from ws x n ≡ some y)
      × (ys ≡ listed (test_bit ws) (suc y) (x + n - suc y))
      × (y < x + n)
      × (x ≤ y)
unfolding listed first_from
first_from-listed ws x zero y ys h = absurd (cc)
first_from-listed ws x (suc n) y ys h = elim (Bool-cases (test_bit ws x)) [
  | inl there ↦
      let whole : listed (test_bit ws) x (suc n) ≡ x ∷ listed (test_bit ws) (suc x) n =
        rw (listed, there) refl in
      let split : x ∷ listed (test_bit ws) (suc x) n ≡ y ∷ ys = sym whole ∙ h in
      let head : x ≡ y = cc in
      let tail : listed (test_bit ws) (suc x) n ≡ ys = cc in
      let rest : n ≡ x + suc n - suc y = omega arith in
      (
        rw (first_from, there) (ap some head),
        sym tail
            ∙ ap (λ z. listed (test_bit ws) (suc z) n) head
            ∙ ap (listed (test_bit ws) (suc y)) rest,
        omega arith,
        omega arith,
      )
  | inr absent ↦
      let whole : listed (test_bit ws) x (suc n) ≡ listed (test_bit ws) (suc x) n =
        rw (listed, absent) refl in
      let (found, rest, small, above) = first_from-listed ws (suc x) n y ys (sym whole ∙ h) in
      let e : suc x + n - suc y ≡ x + suc n - suc y = omega arith in
      (
        rw (first_from, absent) found,
        rest ∙ ap (listed (test_bit ws) (suc y)) e,
        omega arith,
        omega arith,
      )
]

and_then-same :
    {f g : BitSet → Option BitSet} (o : Option BitSet)
    → ((u : BitSet) → f u ≡ g u)
    → and_then f o ≡ and_then g o
and_then-same none h = refl
and_then-same (some u) h = h u

module _ (ws : Words) (universe count : ℕ) where
  abbrev at_position : ℕ → ℕ → Enumerator
  at_position position found = record {
    universe = universe;
    count = count;
    storage = ws;
    position = position;
    found = found;
  }

  -- The elements that are left.
  abbrev left_at : ℕ → List ℕ
  left_at position = listed (test_bit ws) position (universe - position)

  copy_loop-add_all :
      (rounds position found : ℕ) (xs : List ℕ) (t : BitSet)
      → left_at position ≡ xs
      → length xs + found ≡ count
      → length xs < rounds
      → copy_loop rounds (at_position position found) t ≡ add_all xs t
  unfolding copy_loop next_object add_all
  copy_loop-add_all zero position found xs t h c k = absurd (omega arith)
  copy_loop-add_all (suc rounds) position found [] t h c k =
      let same : (found == count) ≡ true = ground (arith, c) in rw (copy_loop, same) refl
  copy_loop-add_all (suc rounds) position found (x ∷ xs) t h c k =
      let (at_x, rest, small, above) = first_from-listed ws position (universe - position) x xs h in
      let more : (found == count) ≡ false = ground (arith, c) in
      let inside : leb universe position ≡ false = ground (arith, small, above) in
      let next : left_at (x + 1)
          ≡ listed (test_bit ws) (suc x) (position + (universe - position) - suc x) =
        ap₂ (listed (test_bit ws)) (omega arith) (omega (arith, small, above)) in
      rw (copy_loop, more, inside, at_x)
        (and_then-same (add_member x t) (λ u.
          copy_loop-add_all rounds (x + 1) (found + 1) xs u (next ∙ sym rest) (omega arith)
            (omega arith)))

add_all-none :
    (s : BitSet) → IsValid s → s.count ≡ 0 → listed (test_bit s.storage) 0 s.universe ≡ []
add_all-none s v h = nil_of_length _ (listed_count s v ∙ h)

-- The copy of a valid set has the same members.
pub init_with_bit_set-Holds :
    (s : BitSet) → IsValid s → Holds (λ y. is_member y s) (init_with_bit_set s)
unfolding init_with_bit_set object_enumerator add_all
init_with_bit_set-Holds s v =
    let bits = listed (test_bit s.storage) 0 s.universe in
    let whole : left_at s.storage s.universe s.count 0 ≡ bits =
      ap (listed (test_bit s.storage) 0) (omega arith) in
    let size = listed_count s v in
    let copied : Holds (λ y. is_member y s) (add_all bits init) =
      subst (λ xs. Holds (λ y. is_member y s) (add_all xs init)) (sym (listed_members s v))
        (add_members 64 s init v (init_with_capacity-Becomes 32 (omega arith))) in
    elim (Bool-cases (s.count == 0)) [
      | inl empty ↦ rw empty (
          subst (λ xs. Holds (λ y. is_member y s) (add_all xs init))
            (add_all-none s v (ground arith)) copied)
      | inr some_there ↦ rw some_there (
          subst (Holds (λ y. is_member y s))
            (sym (
              copy_loop-add_all s.storage s.universe s.count (suc s.count) 0 0 bits init whole
                (omega (arith, size)) (omega (arith, size))))
            copied)
    ]
