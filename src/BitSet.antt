-- ===== src/BitSet.antt =====
-- The set of numbers as bits: sope-core/NGExtensions/NGBitSet.m.
pub mod Bits
pub mod Counting
pub mod Validity
pub mod Members
pub mod Ranges
pub mod Equality
pub mod Listing
pub mod Copies
pub mod Ends
pub mod Edits
use sope_appserver.Prelude.{
  ℕ, zero, suc, ◌+◌, ◌-◌, ◌*◌, ◌/◌, ◌%◌, ◌^◌, Bool, true, false, not, ◌&&◌, ◌||◌, Option, none,
  some, List, [], ◌∷◌, ◌++◌, ◌==◌, ltb, leb, if◌then◌else◌, take, length,
}

-- The words of the block; an entry is an `unsigned int` of 32 bits.
abbrev pub Words : Type 0
Words = List ℕ

pub record BitSet : Type 0 where
  pub universe : ℕ
  pub count : ℕ
  pub storage : Words

-- `w & (1 << k)`, as the test of the lowest bit behind k shifts.
unfoldable pub has_bit : ℕ → ℕ → Bool
has_bit w zero = w % 2 == 1
has_bit w (suc k) = has_bit (w / 2) k

-- A word of the block, if the index is inside.
unfoldable pub word_at : Words → ℕ → Option ℕ
word_at [] i = none
word_at (w ∷ ws) zero = some w
word_at (w ∷ ws) (suc i) = word_at ws i

unfoldable pub store_word : Words → ℕ → ℕ → Words
store_word [] i v = []
store_word (w ∷ ws) zero v = v ∷ ws
store_word (w ∷ ws) (suc i) v = w ∷ store_word ws i v

unfoldable pub zeros : ℕ → Words
zeros zero = []
zeros (suc n) = 0 ∷ zeros n

abbrev pub bit_of : Option ℕ → ℕ → Bool
bit_of none k = false
bit_of (some w) k = has_bit w k

-- NGTestBit. The callers that are modelled with it stay within the block.
unfoldable pub test_bit : Words → ℕ → Bool
unfolding word_at has_bit
test_bit ws x = bit_of (word_at ws (x / 32)) (x % 32)

-- `(x / NGBitsPerEntry + 1) * NGBitsPerEntry` as an `unsigned int`.
abbrev pub universe_for : ℕ → ℕ
universe_for x = (x / 32 + 1) * 32 % 2 ^ 32

-- `initWithCapacity:`.
unfoldable pub init_with_capacity : ℕ → BitSet
unfolding zeros
init_with_capacity capacity = record {
  universe = universe_for capacity;
  count = 0;
  storage = zeros (universe_for capacity / 32);
}

-- `init`.
abbrev pub init : BitSet
init = init_with_capacity 32

-- `_expandToInclude:`; the old words are copied to the front of the new block.
unfoldable pub expand_to_include : ℕ → BitSet → BitSet
unfolding zeros
expand_to_include x s =
    if ltb s.universe (universe_for x)
    then record {
      universe = universe_for x;
      count = s.count;
      storage = take (s.universe / 32) s.storage ++ zeros (universe_for x / 32 - s.universe / 32);
    }
    else s

unfoldable pub is_member : ℕ → BitSet → Bool
unfolding test_bit
is_member x s = if leb s.universe x then false else test_bit s.storage x

-- `if ((storage[x / n] & pattern) == 0) { storage[x / n] |= pattern; count++; }`, where `none` is
-- an access outside the block.
abbrev pub with_bit : ℕ → BitSet → Option ℕ → Option BitSet
with_bit x s none = none
with_bit x s (some w) =
    if not (has_bit w (x % 32))
    then some (record s {
      storage = store_word s.storage (x / 32) (w + 2 ^ (x % 32));
      count = (s.count + 1) % 2 ^ 32;
    })
    else some s

unfoldable pub set_bit : ℕ → BitSet → Option BitSet
unfolding word_at has_bit store_word
set_bit x s = with_bit x s (word_at s.storage (x / 32))

-- The same for `storage[x / n] -= pattern; count--`.
abbrev pub without_bit : ℕ → BitSet → Option ℕ → Option BitSet
without_bit x s none = none
without_bit x s (some w) =
    if has_bit w (x % 32)
    then some (record s {
      storage = store_word s.storage (x / 32) (w - 2 ^ (x % 32));
      count = (s.count + (2 ^ 32 - 1)) % 2 ^ 32;
    })
    else some s

unfoldable pub clear_bit : ℕ → BitSet → Option BitSet
unfolding word_at has_bit store_word
clear_bit x s = without_bit x s (word_at s.storage (x / 32))

abbrev pub grown_for : ℕ → BitSet → BitSet
grown_for x s = if leb s.universe x then expand_to_include x s else s

unfoldable pub add_member : ℕ → BitSet → Option BitSet
unfolding expand_to_include set_bit
add_member x s = set_bit x (grown_for x s)

unfoldable pub remove_member : ℕ → BitSet → Option BitSet
unfolding clear_bit
remove_member x s = if leb s.universe x then some s else clear_bit x s

abbrev pub and_then : {A B : Type 0} → (A → Option B) → Option A → Option B
and_then f none = none
and_then f (some s) = f s

-- The loop over so many elements from one on.
unfoldable pub each_from : (ℕ → BitSet → Option BitSet) → ℕ → ℕ → BitSet → Option BitSet
each_from f from zero s = some s
each_from f from (suc n) s = and_then (each_from f (suc from) n) (f from s)

-- `from + length - 1` as an `unsigned int`.
abbrev pub last_of : ℕ → ℕ → ℕ
last_of location length = (location + length + (2 ^ 32 - 1)) % 2 ^ 32

-- `addMembersInRange:`. Where `to` is the largest number the loop does not end, but gets outside
-- the block before that.
unfoldable pub add_members_in_range : ℕ → ℕ → BitSet → Option BitSet
unfolding expand_to_include set_bit each_from
add_members_in_range location length s =
    let to = last_of location length in
    each_from set_bit location (suc to - location) (grown_for to s)

-- `addMembersFromBitSet:`.
abbrev pub add_if_member : BitSet → ℕ → BitSet → Option BitSet
add_if_member other x s = if is_member x other then set_bit x s else some s

unfoldable pub add_members_from_bit_set : BitSet → BitSet → Option BitSet
unfolding expand_to_include set_bit each_from is_member
add_members_from_bit_set other s =
    each_from (add_if_member other) 0 other.universe
      (if ltb s.universe other.universe then expand_to_include other.universe s else s)

-- `removeMembersInRange:`.
unfoldable pub remove_members_in_range : ℕ → ℕ → BitSet → Option BitSet
unfolding clear_bit each_from
remove_members_in_range location length s =
    let to = last_of location length in
    let end = if leb s.universe to then s.universe - 1 else to in
    if leb s.universe location then some s else each_from clear_bit location (suc end - location) s

unfoldable pub remove_all_members : BitSet → BitSet
unfolding zeros
remove_all_members s = record s { storage = zeros (s.universe / 32); count = 0 }

-- The first element from one on, among so many, that is in the set.
unfoldable pub first_from : Words → ℕ → ℕ → Option ℕ
unfolding test_bit
first_from ws x zero = none
first_from ws x (suc n) =
    let later = first_from ws (suc x) n in if test_bit ws x then some x else later

-- `firstMember`, where `none` is NSNotFound.
unfoldable pub first_member : BitSet → Option ℕ
unfolding first_from
first_member s = first_from s.storage 0 s.universe

-- What the search for the last member comes to: an element, NSNotFound, or a read outside the block.
-- The last case stands for used-up rounds.
pub data Search : Type 0 where
  element : ℕ → Search
  ns_not_found : Search
  outside : Search
  unending : Search

-- `for (element = ...; element >= 0; element--)`, with an `unsigned int` that wraps.
unfoldable pub last_loop : Words → ℕ → ℕ → Search
unfolding test_bit
last_loop ws zero x = unending
last_loop ws (suc rounds) x =
    let before = last_loop ws rounds ((x + (2 ^ 32 - 1)) % 2 ^ 32) in
    if leb 0 x
    then if ltb (x / 32) (length ws) then if test_bit ws x then element x else before else outside
    else ns_not_found

-- `lastMember`, with a round for each element of the universe and one behind them.
unfoldable pub last_member : BitSet → Search
unfolding last_loop
last_member s = last_loop s.storage (suc s.universe) ((s.universe + (2 ^ 32 - 1)) % 2 ^ 32)

unfoldable pub all_members_in : Words → BitSet → ℕ → ℕ → Bool
unfolding test_bit is_member
all_members_in ws other x zero = true
all_members_in ws other x (suc n) =
    let later = all_members_in ws other (suc x) n in
    if test_bit ws x && not (is_member x other) then false else later

-- `isEqualToSet:`, of another object.
unfoldable pub is_equal_to_set : BitSet → BitSet → Bool
unfolding all_members_in
is_equal_to_set s other =
    if not (s.count == other.count) then false else all_members_in s.storage other 0 s.universe

-- The elements from one on that the loops of `toArray` and `encodeWithCoder:` find, with what
-- remains of the universe and of the count.
unfoldable pub members_from : Words → ℕ → ℕ → ℕ → List ℕ
unfolding test_bit
members_from ws x zero left = []
members_from ws x (suc n) zero = []
members_from ws x (suc n) (suc left) =
    let found = members_from ws (suc x) n left in
    let passed = members_from ws (suc x) n (suc left) in if test_bit ws x then x ∷ found else passed

unfoldable pub to_array : BitSet → List ℕ
unfolding members_from
to_array s = members_from s.storage 0 s.universe s.count

-- What the coder is given: the count, and the elements.
abbrev pub Coded : Type 0
Coded = ℕ × List ℕ

unfoldable pub encode_with_coder : BitSet → Coded
unfolding to_array
encode_with_coder s = (s.count, to_array s)

unfoldable pub add_all : List ℕ → BitSet → Option BitSet
unfolding add_member
add_all [] s = some s
add_all (x ∷ xs) s = and_then (add_all xs) (add_member x s)

-- `initWithCoder:` of what a coder was given.
unfoldable pub init_with_coder : Coded → Option BitSet
unfolding add_all zeros
init_with_coder (n, xs) =
    add_all (take n xs) (record { universe = 32; count = 0; storage = zeros 1 })

-- `initWithNullTerminatedArray:` of the numbers before the 0.
unfoldable pub init_with_null_terminated_array : List ℕ → Option BitSet
unfolding add_all init_with_capacity
init_with_null_terminated_array xs = add_all xs init

-- The enumerator: where it stands in the words.
pub record Enumerator : Type 0 where
  pub universe : ℕ
  pub count : ℕ
  pub storage : Words
  pub position : ℕ
  pub found : ℕ

-- What `nextObject` comes to: nil, an element, or a read behind the end of the block.
pub data Next : Type 0 where
  finished : Next
  element : ℕ → Enumerator → Next
  outside : Next

abbrev pub at_element : Enumerator → Option ℕ → Next
at_element e none = outside
at_element e (some x) = element x (record e { found = e.found + 1; position = x + 1 })

-- `nextObject`. The search for the next bit does not look at the universe.
unfoldable pub next_object : Enumerator → Next
unfolding first_from
next_object e =
    if e.found == e.count
    then finished
    else if leb e.universe e.position
    then finished
    else at_element e (first_from e.storage e.position (e.universe - e.position))

-- `objectEnumerator`.
unfoldable pub object_enumerator : BitSet → Option Enumerator
object_enumerator s =
    if s.count == 0
    then none
    else some (record {
      universe = s.universe;
      count = s.count;
      storage = s.storage;
      position = 0;
      found = 0;
    })

-- The loop of `initWithBitSet:` over an enumerator, in so many rounds; `none` also where they do not
-- suffice.
abbrev pub after_next : (Enumerator → BitSet → Option BitSet) → BitSet → Next → Option BitSet
after_next again t finished = some t
after_next again t (element x e) = and_then (again e) (add_member x t)
after_next again t outside = none

unfoldable pub copy_loop : ℕ → Enumerator → BitSet → Option BitSet
unfolding next_object add_member
copy_loop zero e t = none
copy_loop (suc rounds) e t = after_next (copy_loop rounds) t (next_object e)

-- A message to nil answers nil.
abbrev pub copy_from : ℕ → Option Enumerator → BitSet → Option BitSet
copy_from rounds none t = some t
copy_from rounds (some e) t = copy_loop rounds e t

-- `initWithBitSet:`, and with it `copyWithZone:`.
unfoldable pub init_with_bit_set : BitSet → Option BitSet
unfolding copy_loop object_enumerator init_with_capacity
init_with_bit_set s = copy_from (suc s.count) (object_enumerator s) init

-- stringValueForBitset, for a width that is not negative.
unfoldable pub string_value_from : ℕ → ℕ → ℕ → ℕ → ℕ → List ℕ
unfolding has_bit
string_value_from set set_c unset_c pos zero = []
string_value_from set set_c unset_c pos (suc n) =
    (if has_bit set pos then set_c else unset_c) ∷ string_value_from set set_c unset_c (suc pos) n

abbrev pub string_value_for_bitset : ℕ → ℕ → ℕ → ℕ → List ℕ
string_value_for_bitset set set_c unset_c wide = string_value_from set set_c unset_c 0 wide
