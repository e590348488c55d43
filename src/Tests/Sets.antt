-- ===== src/Tests/Sets.antt =====
-- Sets of numbers.
use sope_appserver.BitSet.Copies.{init_with_bit_set-Holds}
use sope_appserver.BitSet.Edits.{
  Edit, add, remove, add_range, remove_range, IsProper, edit_all, change_all, edit_all-change_all,
}
use sope_appserver.BitSet.Ends.{First, Last, first_member-last_member}
use sope_appserver.BitSet.Equality.{is_equal_to_set_iff}
use sope_appserver.BitSet.Listing.{Holds, init_with_coder-encode_with_coder}
use sope_appserver.BitSet.Members.{add_member-overflow}
use sope_appserver.BitSet.Ranges.{remove_members_in_range-empty}
use sope_appserver.BitSet.Validity.{IsValid, Becomes}
use sope_appserver.BitSet.{
  BitSet, init_with_capacity, is_member, add_member, remove_members_in_range, first_member,
  last_member, is_equal_to_set, init_with_coder, encode_with_coder, init_with_bit_set, to_array,
}
use sope_appserver.Prelude.{
  ℕ, ◌≡◌, ◌↔◌, ◌^◌, ◌-◌, refl, true, false, none, [], ◌∷◌, List, arith, All,
}

abbrev edits : List Edit
edits = add 3 ∷ add_range 30 5 ∷ remove 31 ∷ remove_range 33 1 ∷ add 70 ∷ []

edits-IsProper : All IsProper edits
edits-IsProper = (
  omega arith,
  ((omega arith, omega arith), (tt, ((omega arith, omega arith), (omega arith, tt)))),
)

edit_all-change_all_example :
    Holds (λ y. change_all edits y false) (edit_all edits (init_with_capacity 32))
edit_all-change_all_example = edit_all-change_all 32 edits (omega arith) edits-IsProper

-- The members 3 and 40 in three words.
abbrev pair : BitSet
pair = record { universe = 64; count = 2; storage = 8 ∷ 256 ∷ [] }

-- The same members in a larger block.
abbrev large : BitSet
large = record { universe = 96; count = 2; storage = 8 ∷ 256 ∷ 0 ∷ [] }

pair-IsValid : IsValid pair
unfolding sope_appserver.BitSet.test_bit sope_appserver.BitSet.Counting.count_below
pair-IsValid = record { block = refl; in_word = omega arith; counted = refl }

large-IsValid : IsValid large
unfolding sope_appserver.BitSet.test_bit sope_appserver.BitSet.Counting.count_below
large-IsValid = record { block = refl; in_word = omega arith; counted = refl }

array_of_pair : to_array pair ≡ 3 ∷ 40 ∷ []
unfolding to_array
array_of_pair = refl

is_equal_to_set_iff_example :
    (is_equal_to_set pair large ≡ true) ↔ ((y : ℕ) → is_member y pair ≡ is_member y large)
is_equal_to_set_iff_example = is_equal_to_set_iff pair large pair-IsValid large-IsValid

init_with_coder-encode_with_coder_example :
    Holds (λ y. is_member y pair) (init_with_coder (encode_with_coder pair))
init_with_coder-encode_with_coder_example = init_with_coder-encode_with_coder pair pair-IsValid

init_with_bit_set-Holds_example : Holds (λ y. is_member y pair) (init_with_bit_set pair)
init_with_bit_set-Holds_example = init_with_bit_set-Holds pair pair-IsValid

first_member-last_member_example :
    First (λ y. is_member y pair) (first_member pair)
    × Last (λ y. is_member y pair) (last_member pair)
first_member-last_member_example = first_member-last_member pair pair-IsValid

remove_members_in_range-empty_example : Becomes 64 (λ y. false) (remove_members_in_range 0 0 pair)
remove_members_in_range-empty_example = remove_members_in_range-empty pair pair-IsValid

add_member-overflow_example : add_member (2 ^ 32 - 1) pair ≡ none
add_member-overflow_example =
    add_member-overflow (2 ^ 32 - 1) pair pair-IsValid (omega arith) (omega arith)
