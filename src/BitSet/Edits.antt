-- ===== src/BitSet/Edits.antt =====
-- A set is what the edits of it make of a set of numbers.
use sope_appserver.BitSet.Listing.{Holds}
use sope_appserver.BitSet.Members.{
  max_element, init_with_capacity-Becomes, add_member-Becomes, remove_member-Becomes,
  remove_all_members-Becomes,
}
use sope_appserver.BitSet.Ranges.{
  within, add_members_in_range-Becomes, remove_members_in_range-Becomes,
  add_members_from_bit_set-Becomes,
}
use sope_appserver.BitSet.Validity.{IsValid, Becomes}
use sope_appserver.BitSet.{
  BitSet, is_member, init_with_capacity, and_then, add_member, remove_member, add_members_in_range,
  add_members_from_bit_set, remove_members_in_range, remove_all_members,
}
use sope_appserver.Prelude.{
  ℕ, suc, ◌+◌, ◌^◌, ◌≤◌, ◌<◌, ◌≡◌, ap, ◌∙◌, Bool, true, false, not, ◌&&◌, ◌||◌, Option, none, some,
  List, [], ◌∷◌, ◌==◌, All, if◌then◌else◌,
}

-- The operations that change a set.
pub data Edit : Type 0 where
  add : ℕ → Edit
  remove : ℕ → Edit
  add_range : ℕ → ℕ → Edit
  remove_range : ℕ → ℕ → Edit
  add_set : BitSet → Edit
  remove_all : Edit

abbrev pub edit : Edit → BitSet → Option BitSet
edit (add x) s = add_member x s
edit (remove x) s = remove_member x s
edit (add_range location length) s = add_members_in_range location length s
edit (remove_range location length) s = remove_members_in_range location length s
edit (add_set other) s = add_members_from_bit_set other s
edit remove_all s = some (remove_all_members s)

-- What an edit makes of a number and of whether it was a member.
abbrev pub change : Edit → ℕ → Bool → Bool
change (add x) y b = if y == x then true else b
change (remove x) y b = if y == x then false else b
change (add_range location length) y b = within location length y || b
change (remove_range location length) y b = not (within location length y) && b
change (add_set other) y b = is_member y other || b
change remove_all y b = false

-- Elements that the block can grow to, ranges that are not empty, and valid other sets.
abbrev pub IsProper : Edit → Type 0
IsProper (add x) = x ≤ max_element
IsProper (remove x) = Unit {0}
IsProper (add_range location length) = (0 < length) × (location + length ≤ suc max_element)
IsProper (remove_range location length) = (0 < length) × (location + length ≤ 2 ^ 32)
IsProper (add_set other) = IsValid other × (other.universe ≤ max_element)
IsProper remove_all = Unit {0}

unfoldable pub edit_all : List Edit → BitSet → Option BitSet
edit_all [] s = some s
edit_all (e ∷ es) s = and_then (edit_all es) (edit e s)

unfoldable pub change_all : List Edit → ℕ → Bool → Bool
change_all [] y b = b
change_all (e ∷ es) y b = change_all es y (change e y b)

Holds-of_Becomes : (n : ℕ) (P : ℕ → Bool) (o : Option BitSet) → Becomes n P o → Holds P o
Holds-of_Becomes n P none b = b
Holds-of_Becomes n P (some t) (v, e, k) = (v, k)

edit-Holds :
    (e : Edit) (s : BitSet)
    → IsValid s
    → IsProper e
    → Holds (λ y. change e y (is_member y s)) (edit e s)
edit-Holds (add x) s v h = Holds-of_Becomes _ _ (add_member x s) (add_member-Becomes x s v h)
edit-Holds (remove x) s v h = Holds-of_Becomes _ _ (remove_member x s) (remove_member-Becomes x s v)
edit-Holds (add_range location length) s v (p, h) =
    Holds-of_Becomes _ _ (add_members_in_range location length s)
      (add_members_in_range-Becomes location length s v p h)
edit-Holds (remove_range location length) s v (p, h) =
    Holds-of_Becomes _ _ (remove_members_in_range location length s)
      (remove_members_in_range-Becomes location length s v p h)
edit-Holds (add_set other) s v (w, h) =
    Holds-of_Becomes _ _ (add_members_from_bit_set other s)
      (add_members_from_bit_set-Becomes other s v h)
edit-Holds remove_all s v h =
    Holds-of_Becomes _ _ (some (remove_all_members s)) (remove_all_members-Becomes s v)

after_edit :
    (P Q : ℕ → Bool) (o : Option BitSet) (f : BitSet → Option BitSet)
    → Holds P o
    → ((t : BitSet) → IsValid t → ((y : ℕ) → is_member y t ≡ P y) → Holds Q (f t))
    → Holds Q (and_then f o)
after_edit P Q none f b h = absurd b
after_edit P Q (some t) f (v, k) h = h t v k

edit_all-Changes :
    (es : List Edit) (s : BitSet) (P : ℕ → Bool)
    → IsValid s
    → ((y : ℕ) → is_member y s ≡ P y)
    → All IsProper es
    → Holds (λ y. change_all es y (P y)) (edit_all es s)
unfolding edit_all change_all
edit_all-Changes [] s P v k h = (v, k)
edit_all-Changes (e ∷ es) s P v k (h, hs) =
    after_edit (λ y. change e y (is_member y s)) (λ y. change_all es y (change e y (P y)))
      (edit e s) (edit_all es) (edit-Holds e s v h)
      (λ t w m.
        edit_all-Changes es t (λ y. change e y (P y)) w (λ y. m y ∙ ap (change e y) (k y)) hs)

-- For any proper edits of a new set: there is no access outside the block, the result is valid (its
-- count is the number of its members), and a number is a member just when the edits make it one.
pub edit_all-change_all :
    (capacity : ℕ) (es : List Edit)
    → capacity ≤ max_element
    → All IsProper es
    → Holds (λ y. change_all es y false) (edit_all es (init_with_capacity capacity))
edit_all-change_all capacity es h hs =
    let (v, n, k) = init_with_capacity-Becomes capacity h in
    edit_all-Changes es (init_with_capacity capacity) (λ y. false) v k hs
