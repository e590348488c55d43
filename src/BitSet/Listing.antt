-- ===== src/BitSet/Listing.antt =====
-- The members in order: the array, the coding, and the first and the last.
use sope_appserver.BitSet.Counting.{one_if, count_below}
use sope_appserver.BitSet.Members.{
  max_element, init_with_capacity-Becomes, add_member-Becomes, universe_with,
}
use sope_appserver.BitSet.Ranges.{within, is_member-outside}
use sope_appserver.BitSet.Validity.{IsValid, is_member-test_bit, Becomes, but}
use sope_appserver.BitSet.{
  BitSet, Words, zeros, test_bit, is_member, init_with_capacity, add_member, and_then, members_from,
  to_array, encode_with_coder, add_all, init_with_coder,
}
use sope_appserver.Prelude.{
  ℕ, zero, suc, ◌+◌, ◌≤◌, ◌≡◌, refl, ap, ap₂, ◌∙◌, sym, subst, inl, inr, Bool, true, false, ◌||◌,
  ◌&&◌, nil_of_length, if-holds, Option, none, some, List, [], ◌∷◌, ◌==◌, leb, arith, length, take,
  take_all, All, if◌then◌else◌, Bool-cases,
}

-- The numbers from one on, so many, for which a test holds.
unfoldable pub listed : (ℕ → Bool) → ℕ → ℕ → List ℕ
listed P x zero = []
listed P x (suc n) = let rest = listed P (suc x) n in if P x then x ∷ rest else rest

length-listed :
    (P : ℕ → Bool) (x n : ℕ) → length (listed P x n) + count_below P x ≡ count_below P (n + x)
unfolding listed count_below
length-listed P x zero =
    let e : 0 + x ≡ x = omega arith in
    let same : count_below P (0 + x) ≡ count_below P x = ap (count_below P) e in omega (arith, same)
length-listed P x (suc n) =
    let e : suc n + x ≡ n + suc x = omega arith in
    let rest = length-listed P (suc x) n in
    elim (Bool-cases (P x)) [
      | inl holds ↦
          let one : one_if (P x) ≡ 1 = ap one_if holds in
          rw (listed, holds) (omega (arith, one, rest) ∙ sym (ap (count_below P) e))
      | inr fails ↦
          let one : one_if (P x) ≡ 0 = ap one_if fails in
          rw (listed, fails) (omega (arith, one, rest) ∙ sym (ap (count_below P) e))
    ]

-- The loop finds them all if the count is theirs.
members_from-listed :
    (ws : Words) (x n left : ℕ)
    → length (listed (test_bit ws) x n) ≡ left
    → members_from ws x n left ≡ listed (test_bit ws) x n
unfolding members_from listed
members_from-listed ws x zero left h = refl
members_from-listed ws x (suc n) zero h = sym (nil_of_length (listed (test_bit ws) x (suc n)) h)
members_from-listed ws x (suc n) (suc left) h = elim (Bool-cases (test_bit ws x)) [
  | inl holds ↦
      let whole : length (listed (test_bit ws) x (suc n))
          ≡ suc (length (listed (test_bit ws) (suc x) n)) =
        rw (listed, holds) refl in
      rw (members_from, listed, holds)
        (ap (λ l. x ∷ l) (members_from-listed ws (suc x) n left (omega (arith, h, whole))))
  | inr fails ↦
      let whole : length (listed (test_bit ws) x (suc n))
          ≡ length (listed (test_bit ws) (suc x) n) =
        rw (listed, fails) refl in
      rw (members_from, listed, fails) (members_from-listed ws (suc x) n (suc left) (sym whole ∙ h))
]

listed-same : (P Q : ℕ → Bool) (x n : ℕ) → ((y : ℕ) → P y ≡ Q y) → listed P x n ≡ listed Q x n
unfolding listed
listed-same P Q x zero h = refl
listed-same P Q x (suc n) h =
    ap₂ (λ b l. if b then x ∷ l else l) (h x) (listed-same P Q (suc x) n h)

pub listed_count :
    (s : BitSet) → IsValid s → length (listed (test_bit s.storage) 0 s.universe) ≡ s.count
listed_count s v =
    let zero_at : s.universe + 0 ≡ s.universe = omega arith in
    let total = length-listed (test_bit s.storage) 0 s.universe in
    let none_before : count_below (test_bit s.storage) 0 ≡ 0 = unfold count_below in refl in
    let counted = v.counted ∙ sym (ap (count_below (test_bit s.storage)) zero_at) in
    omega (arith, total, none_before, counted)

pub listed_members :
    (s : BitSet)
    → IsValid s
    → listed (test_bit s.storage) 0 s.universe ≡ listed (λ y. is_member y s) 0 s.universe
listed_members s v =
    listed-same (test_bit s.storage) (λ y. is_member y s) 0 s.universe
      (λ y. sym (is_member-test_bit s y v))

-- The array has the members in ascending order.
pub to_array-listed :
    (s : BitSet) → IsValid s → to_array s ≡ listed (λ y. is_member y s) 0 s.universe
unfolding to_array
to_array-listed s v =
    members_from-listed s.storage 0 s.universe s.count (listed_count s v) ∙ listed_members s v

-- Whether a number is in a list.
unfoldable pub has : List ℕ → ℕ → Bool
has [] y = false
has (x ∷ xs) y = y == x || has xs y

-- A valid set with these members.
abbrev pub Holds : (ℕ → Bool) → Option BitSet → Type 0
Holds P none = ⊥
Holds P (some t) = IsValid t × ((y : ℕ) → is_member y t ≡ P y)

Holds-same : (P Q : ℕ → Bool) (o : Option BitSet) → ((y : ℕ) → P y ≡ Q y) → Holds P o → Holds Q o
Holds-same P Q none h b = b
Holds-same P Q (some t) h (v, k) = (v, λ y. k y ∙ h y)

and_then-Holds :
    (n : ℕ) (P Q : ℕ → Bool) (o : Option BitSet) (f : BitSet → Option BitSet)
    → Becomes n P o
    → ((t : BitSet) → IsValid t → ((y : ℕ) → is_member y t ≡ P y) → Holds Q (f t))
    → Holds Q (and_then f o)
and_then-Holds n P Q none f b h = absurd b
and_then-Holds n P Q (some t) f (v, e, k) h = h t v k

abbrev IsElement : ℕ → Type 0
IsElement x = x ≤ max_element

or_turn : (c h m : Bool) → (h || (if c then true else m)) ≡ ((c || h) || m)
or_turn true true m = refl
or_turn true false m = refl
or_turn false h m = refl

pub add_all-Holds :
    (xs : List ℕ) (s : BitSet)
    → IsValid s
    → All IsElement xs
    → Holds (λ y. has xs y || is_member y s) (add_all xs s)
unfolding add_all has
add_all-Holds [] s v h = (v, λ y. refl)
add_all-Holds (x ∷ xs) s v (h, hs) =
    and_then-Holds (universe_with x s) (but x true (λ y. is_member y s))
      (λ y. has (x ∷ xs) y || is_member y s) (add_member x s) (add_all xs)
      (add_member-Becomes x s v h)
      (λ t w k.
        Holds-same (λ y. has xs y || is_member y t) (λ y. has (x ∷ xs) y || is_member y s)
          (add_all xs t)
          (λ y. ap (λ b. has xs y || b) (k y) ∙ or_turn (y == x) (has xs y) (is_member y s))
          (add_all-Holds xs t w hs))

listed-has : (P : ℕ → Bool) (x n y : ℕ) → has (listed P x n) y ≡ (within x n y && P y)
unfolding listed has
listed-has P x zero y = let e : within x 0 y ≡ false = ground arith in rw e refl
listed-has P x (suc n) y =
    let rest = listed-has P (suc x) n y in
    elim (Bool-cases (y == x)) [
      | inl same ↦
          let at_x : y ≡ x = ground arith in
          let now : within x (suc n) y ≡ true = ground arith in
          let later : within (suc x) n y ≡ false = ground arith in
          elim (Bool-cases (P x)) [
            | inl holds ↦ rw (listed, holds, has, same, now) (sym (ap P at_x ∙ holds))
            | inr fails ↦ rw (listed, fails, rest, now, later) (sym (ap P at_x ∙ fails))
          ]
      | inr other ↦
          let e : within (suc x) n y ≡ within x (suc n) y = ground arith in
          elim (Bool-cases (P x)) [
            | inl holds ↦ rw (listed, holds, has, other, rest, e) refl
            | inr fails ↦ rw (listed, fails, rest, e) refl
          ]
    ]

listed-IsElement : (P : ℕ → Bool) (x n : ℕ) → x + n ≤ suc max_element → All IsElement (listed P x n)
unfolding listed
listed-IsElement P x zero h = tt
listed-IsElement P x (suc n) h =
    let rest = listed-IsElement P (suc x) n (omega arith) in
    if-holds (All IsElement) (P x) (omega arith, rest) rest

or_none : (b : Bool) → (b || false) ≡ b
or_none true = refl
or_none false = refl

within_all : (s : BitSet) (y : ℕ) → (within 0 s.universe y && is_member y s) ≡ is_member y s
within_all s y = elim (Bool-cases (leb s.universe y)) [
  | inl out ↦
      let e : within 0 s.universe y ≡ false = ground (arith, out) in
      rw e (sym (is_member-outside s y out))
  | inr there ↦ let e : within 0 s.universe y ≡ true = ground (arith, there) in rw e refl
]

-- The members of a set, added to one without any.
pub add_members :
    (n : ℕ) (s t : BitSet)
    → IsValid s
    → Becomes n (λ y. false) (some t)
    → Holds (λ y. is_member y s) (add_all (listed (λ y. is_member y s) 0 s.universe) t)
add_members n s t v (w, e, k) =
    let b = v.block in
    let small = v.in_word in
    Holds-same (λ y. has (listed (λ z. is_member z s) 0 s.universe) y || is_member y t)
      (λ y. is_member y s) _
      (λ y.
        ap₂ (λ p q. p || q) (listed-has (λ z. is_member z s) 0 s.universe y) (k y)
        ∙ or_none _
        ∙ within_all s y)
      (add_all-Holds (listed (λ y. is_member y s) 0 s.universe) t w
        (listed-IsElement (λ y. is_member y s) 0 s.universe (omega arith)))

coder_start :
    Becomes 32 (λ y. false) (some (record { universe = 32; count = 0; storage = zeros 1 }))
unfolding init_with_capacity
coder_start = init_with_capacity-Becomes 0 (omega arith)

-- What has been encoded is decoded to a set with the same members.
pub init_with_coder-encode_with_coder :
    (s : BitSet) → IsValid s → Holds (λ y. is_member y s) (init_with_coder (encode_with_coder s))
unfolding init_with_coder encode_with_coder
init_with_coder-encode_with_coder s v =
    let coded : take s.count (to_array s) ≡ listed (λ y. is_member y s) 0 s.universe =
      ap (take s.count) (to_array-listed s v)
      ∙ take_all s.count _ (omega (arith, listed_count s v, ap length (listed_members s v))) in
    let start : BitSet = record { universe = 32; count = 0; storage = zeros 1 } in
    subst (λ xs. Holds (λ y. is_member y s) (add_all xs start)) (sym coded)
      (add_members 32 s start v coder_start)
