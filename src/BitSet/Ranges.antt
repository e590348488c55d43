-- ===== src/BitSet/Ranges.antt =====
-- The operations on ranges of elements.
use sope_appserver.BitSet.Members.{
  max_element, full_universe, universe_with, universe_with-lem, expand_to_include-Becomes,
  grown_for-Becomes, Becomes-then,
}
use sope_appserver.BitSet.Validity.{
  IsValid, Becomes, Becomes-same, unchanged-Becomes, but, but-same, set_bit-Becomes,
  clear_bit-Becomes,
}
use sope_appserver.BitSet.{
  BitSet, expand_to_include, is_member, set_bit, clear_bit, grown_for, and_then, each_from, last_of,
  add_members_in_range, add_if_member, add_members_from_bit_set, remove_members_in_range,
}
use sope_appserver.Prelude.{
  ℕ, zero, suc, ◌+◌, ◌-◌, ◌^◌, ◌≤◌, ◌<◌, ◌≡◌, refl, ap, ◌∙◌, sym, subst, inl, inr, Bool, not, true,
  false, ◌&&◌, ◌||◌, Option, none, some, ◌==◌, ltb, leb, arith, if◌then◌else◌, Bool-cases,
}

abbrev pub within : ℕ → ℕ → ℕ → Bool
within from n y = leb from y && ltb y (from + n)

-- What is made of the members in a range.
abbrev pub over : ℕ → ℕ → (ℕ → Bool → Bool) → (ℕ → Bool) → ℕ → Bool
over from n g P y = if within from n y then g y (P y) else P y

pub and_then-Becomes :
    (n m : ℕ) (P Q : ℕ → Bool) (o : Option BitSet) (f : BitSet → Option BitSet)
    → Becomes n P o
    → ((t : BitSet)
        → IsValid t
        → t.universe ≡ n
        → ((y : ℕ) → is_member y t ≡ P y)
        → Becomes m Q (f t))
    → Becomes m Q (and_then f o)
and_then-Becomes n m P Q none f b h = absurd b
and_then-Becomes n m P Q (some t) f (v, e, k) h = h t v e k

over-none : (from : ℕ) (g : ℕ → Bool → Bool) (P : ℕ → Bool) (y : ℕ) → P y ≡ over from 0 g P y
over-none from g P y = let e : within from 0 y ≡ false = ground arith in rw e refl

over-suc :
    (from n : ℕ) (g : ℕ → Bool → Bool) (P : ℕ → Bool) (y : ℕ)
    → over (suc from) n g (but from (g from (P from)) P) y ≡ over from (suc n) g P y
over-suc from n g P y = elim (Bool-cases (y == from)) [
  | inl same ↦
      let e : y ≡ from = ground arith in
      let later : within (suc from) n y ≡ false = ground arith in
      let now : within from (suc n) y ≡ true = ground arith in
      rw (later, now, same) (ap (λ x. g x (P x)) (sym e))
  | inr other ↦
      let e : within (suc from) n y ≡ within from (suc n) y = ground arith in rw (other, e) refl
]

module _ (f : ℕ → BitSet → Option BitSet) (g : ℕ → Bool → Bool)
    (step : (x : ℕ) (s : BitSet)
      → IsValid s
      → x < s.universe
      → Becomes s.universe (but x (g x (is_member x s)) (λ y. is_member y s)) (f x s)) where
  pub each_from-Becomes :
      (from n : ℕ) (s : BitSet)
      → IsValid s
      → from + n ≤ s.universe
      → Becomes s.universe (over from n g (λ y. is_member y s)) (each_from f from n s)
  unfolding each_from
  each_from-Becomes from zero s v h =
      unchanged-Becomes s _ v (over-none from g (λ y. is_member y s))
  each_from-Becomes from (suc n) s v h =
      and_then-Becomes s.universe s.universe
        (but from (g from (is_member from s)) (λ y. is_member y s))
        (over from (suc n) g (λ y. is_member y s)) (f from s) (each_from f (suc from) n)
        (step from s v (omega arith))
        (λ t w e k.
          subst
            (λ m. Becomes m (over from (suc n) g (λ y. is_member y s)) (each_from f (suc from) n t))
            e
            (Becomes-same t.universe (over (suc from) n g (λ y. is_member y t))
              (over from (suc n) g (λ y. is_member y s)) (each_from f (suc from) n t)
              (λ y.
                ap (λ b. if within (suc from) n y then g y b else b) (k y)
                ∙ over-suc from n g (λ z. is_member z s) y)
              (each_from-Becomes (suc from) n t w (omega (arith, e)))))

  -- The same, behind the growth of the block.
  grown-Becomes :
      (n from k : ℕ) (s t : BitSet)
      → Becomes n (λ y. is_member y s) (some t)
      → from + k ≤ n
      → Becomes n (over from k g (λ y. is_member y s)) (each_from f from k t)
  grown-Becomes n from k s t b h =
      Becomes-then n n (λ y. is_member y s) (over from k g (λ y. is_member y s)) t
        (each_from f from k) b
        (λ u w e m.
          subst (λ i. Becomes i (over from k g (λ y. is_member y s)) (each_from f from k u)) e
            (Becomes-same u.universe (over from k g (λ y. is_member y u)) _ (each_from f from k u)
              (λ y. ap (λ b. if within from k y then g y b else b) (m y))
              (each_from-Becomes from k u w (omega (arith, e, h)))))

if_or : (a b : Bool) → (if a then true else b) ≡ (a || b)
if_or true b = refl
if_or false b = refl

if_and : (a b : Bool) → (if a then false else b) ≡ (not a && b)
if_and true b = refl
if_and false b = refl

-- The members of a range that is not empty are added.
pub add_members_in_range-Becomes :
    (location length : ℕ) (s : BitSet)
    → IsValid s
    → 0 < length
    → location + length ≤ suc max_element
    → Becomes
        (universe_with (location + length - 1) s)
        (λ y. within location length y || is_member y s)
        (add_members_in_range location length s)
unfolding add_members_in_range
add_members_in_range-Becomes location length s v p h =
    let to = location + length - 1 in
    let last : last_of location length ≡ to = omega arith in
    let rounds : suc to - location ≡ length = omega arith in
    let inside = universe_with-lem to s in
    rw (last, rounds)
      (Becomes-same (universe_with to s) (over location length (λ x b. true) (λ y. is_member y s))
        (λ y. within location length y || is_member y s)
        (each_from set_bit location length (grown_for to s))
        (λ y. if_or (within location length y) (is_member y s))
        (grown-Becomes set_bit (λ x b. true) (λ x t w k. set_bit-Becomes x t w k)
          (universe_with to s) location length s (grown_for to s)
          (grown_for-Becomes to s v (omega arith)) (omega arith)))

-- The members of another set are added.
add_if_member-Becomes :
    (other : BitSet) (x : ℕ) (s : BitSet)
    → IsValid s
    → x < s.universe
    → Becomes s.universe
        (but x (is_member x other || is_member x s) (λ y. is_member y s))
        (add_if_member other x s)
add_if_member-Becomes other x s v h = elim (Bool-cases (is_member x other)) [
  | inl there ↦ rw there (set_bit-Becomes x s v h)
  | inr absent ↦ rw absent (unchanged-Becomes s _ v (but-same x (λ y. is_member y s)))
]

pub is_member-outside : (s : BitSet) (y : ℕ) → leb s.universe y ≡ true → is_member y s ≡ false
unfolding is_member
is_member-outside s y h = rw h refl

over_other :
    (other : BitSet) (P : ℕ → Bool) (y : ℕ)
    → over 0 other.universe (λ x b. is_member x other || b) P y ≡ (is_member y other || P y)
over_other other P y = elim (Bool-cases (within 0 other.universe y)) [
  | inl in_range ↦ rw in_range refl
  | inr out ↦ rw (out, is_member-outside other y (ground (arith, out))) refl
]

abbrev pub universe_of : BitSet → BitSet → ℕ
universe_of other s =
    if ltb s.universe other.universe then full_universe other.universe else s.universe

universe_of-le : (other s : BitSet) → other.universe ≤ universe_of other s
universe_of-le other s = ground arith

grown_other :
    (other s : BitSet)
    → IsValid s
    → other.universe ≤ max_element
    → Becomes
        (universe_of other s)
        (λ y. is_member y s)
        (some (if ltb s.universe other.universe then expand_to_include other.universe s else s))
grown_other other s v h = elim (Bool-cases (ltb s.universe other.universe)) [
  | inl larger ↦ rw larger (expand_to_include-Becomes other.universe s v h (ground arith))
  | inr fits ↦ rw fits (unchanged-Becomes s _ v (λ y. refl))
]

pub add_members_from_bit_set-Becomes :
    (other s : BitSet)
    → IsValid s
    → other.universe ≤ max_element
    → Becomes
        (universe_of other s)
        (λ y. is_member y other || is_member y s)
        (add_members_from_bit_set other s)
unfolding add_members_from_bit_set
add_members_from_bit_set-Becomes other s v h =
    let grown = if ltb s.universe other.universe then expand_to_include other.universe s else s in
    Becomes-same (universe_of other s)
      (over 0 other.universe (λ x b. is_member x other || b) (λ y. is_member y s))
      (λ y. is_member y other || is_member y s)
      (each_from (add_if_member other) 0 other.universe grown)
      (over_other other (λ y. is_member y s))
      (grown-Becomes (add_if_member other) (λ x b. is_member x other || b)
        (λ x t w k. add_if_member-Becomes other x t w k) (universe_of other s) 0 other.universe s
        grown (grown_other other s v h) (omega (arith, universe_of-le other s)))

-- The loop that clears bits, where the members that it leaves are those of `Q`.
clear_range :
    (location n : ℕ) (s : BitSet) (Q : ℕ → Bool)
    → IsValid s
    → location + n ≤ s.universe
    → ((y : ℕ) → y < s.universe → (not (within location n y) && is_member y s) ≡ Q y)
    → ((y : ℕ) → leb s.universe y ≡ true → Q y ≡ false)
    → Becomes s.universe Q (each_from clear_bit location n s)
clear_range location n s Q v h inside outside =
    Becomes-same s.universe (over location n (λ x b. false) (λ y. is_member y s)) Q
      (each_from clear_bit location n s)
      (λ y. if_and (within location n y) (is_member y s) ∙ elim (Bool-cases (leb s.universe y)) [
        | inl out ↦
            let e : within location n y ≡ false = ground (arith, h, out) in
            rw (e, is_member-outside s y out, outside y out) refl
        | inr there ↦ inside y (ground arith)
      ])
      (each_from-Becomes clear_bit (λ x b. false) (λ x t w k. clear_bit-Becomes x t w k) location n
        s v h)

and-false : (b c : Bool) → c ≡ false → (b && c) ≡ false
and-false true c h = h
and-false false c h = refl

-- The members of a range that is not empty are removed.
pub remove_members_in_range-Becomes :
    (location length : ℕ) (s : BitSet)
    → IsValid s
    → 0 < length
    → location + length ≤ 2 ^ 32
    → Becomes s.universe
        (λ y. not (within location length y) && is_member y s)
        (remove_members_in_range location length s)
unfolding remove_members_in_range
remove_members_in_range-Becomes location length s v p h =
    let to = location + length - 1 in
    let last : last_of location length ≡ to = omega arith in
    let beyond = λ (y : ℕ) (out : leb s.universe y ≡ true).
      and-false (not (within location length y)) _ (is_member-outside s y out) in
    elim (Bool-cases (leb s.universe location)) [
      | inl out ↦ rw out (
          unchanged-Becomes s _ v (λ y. elim (Bool-cases (within location length y)) [
            | inl there ↦ rw there (is_member-outside s y (ground (arith, out, there)))
            | inr other ↦ rw other refl
          ]))
      | inr starts ↦ elim (Bool-cases (leb s.universe to)) [
        | inl cut ↦
            rw (starts, last, cut)
              (clear_range location (suc (s.universe - 1) - location) s _ v (ground (arith, starts))
                (λ y l.
                  let e : within location (suc (s.universe - 1) - location) y
                      ≡ within location length y =
                    ground (arith, l, cut, starts) in
                  ap (λ b. not b && is_member y s) e)
                beyond)
        | inr whole ↦
            rw (starts, last, whole)
              (clear_range location (suc to - location) s _ v (ground (arith, whole))
                (λ y l.
                  let e : within location (suc to - location) y ≡ within location length y =
                    ground (arith, l, p) in
                  ap (λ b. not b && is_member y s) e)
                beyond)
      ]
    ]

-- An empty range at 0: all members are removed.
pub remove_members_in_range-empty :
    (s : BitSet) → IsValid s → Becomes s.universe (λ y. false) (remove_members_in_range 0 0 s)
unfolding remove_members_in_range
remove_members_in_range-empty s v =
    let small = v.in_word in
    elim (Bool-cases (leb s.universe 0)) [
      | inl nothing ↦
          rw nothing
            (unchanged-Becomes s _ v (λ y. is_member-outside s y (ground (arith, nothing))))
      | inr some_there ↦
          let cut : leb s.universe (last_of 0 0) ≡ true = ground (arith, small) in
          rw (some_there, cut)
            (clear_range 0 (suc (s.universe - 1) - 0) s _ v (ground (arith, some_there))
              (λ y l.
                let e : within 0 (suc (s.universe - 1) - 0) y ≡ true =
                  ground (arith, l, some_there) in
                rw e refl)
              (λ y out. refl))
    ]
