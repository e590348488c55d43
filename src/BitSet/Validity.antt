-- ===== src/BitSet/Validity.antt =====
-- Valid sets, and the change of a single bit.
use sope_appserver.BitSet.Bits.{
  word_at-some, length-store_word, test_bit-set, test_bit-cleared, test_bit-outside, test_bit-word,
}
use sope_appserver.BitSet.Counting.{count_below, count_below-le, count_below-same, count_below-more}
use sope_appserver.BitSet.{
  BitSet, has_bit, word_at, test_bit, is_member, with_bit, set_bit, without_bit, clear_bit,
}
use sope_appserver.Prelude.{
  ℕ, ◌*◌, ◌/◌, ◌%◌, ◌^◌, ◌≤◌, ◌<◌, ◌≡◌, refl, ap, ◌∙◌, sym, subst, inl, inr, Bool, true, false,
  Option, none, some, List, ◌==◌, leb, length, arith, if◌then◌else◌, Bool-cases,
}

-- The block has the bits of the universe, and the count is that of the members.
pub record IsValid (s : BitSet) : Type 0 where
  pub block : length s.storage * 32 ≡ s.universe
  pub in_word : s.universe < 2 ^ 32
  pub counted : s.count ≡ count_below (test_bit s.storage) s.universe

pub is_member-test_bit : (s : BitSet) (x : ℕ) → IsValid s → is_member x s ≡ test_bit s.storage x
unfolding is_member
is_member-test_bit s x v = elim (Bool-cases (leb s.universe x)) [
  | inl out ↦
      let b = v.block in rw out (sym (test_bit-outside s.storage x (ground (arith, b, out))))
  | inr inside ↦ rw inside refl
]

-- The result is a valid set with this universe and these members.
abbrev pub Becomes : ℕ → (ℕ → Bool) → Option BitSet → Type 0
Becomes n P none = ⊥
Becomes n P (some t) = IsValid t × (t.universe ≡ n) × ((y : ℕ) → is_member y t ≡ P y)

pub changed-Becomes :
    (s : BitSet) (ws : List ℕ) (n : ℕ) (P : ℕ → Bool)
    → IsValid s
    → length ws ≡ length s.storage
    → ((y : ℕ) → test_bit ws y ≡ P y)
    → n ≡ count_below P s.universe
    → Becomes s.universe P (some (record s { storage = ws; count = n }))
changed-Becomes s ws n P v l h c =
    let t : BitSet = record s { storage = ws; count = n } in
    let valid : IsValid t = record {
      block = let b = v.block in omega arith;
      in_word = v.in_word;
      counted = c ∙ count_below-same P (test_bit ws) s.universe (λ y k. sym (h y));
    } in
    (valid, refl, λ y. is_member-test_bit t y valid ∙ h y)

pub unchanged-Becomes :
    (s : BitSet) (P : ℕ → Bool)
    → IsValid s
    → ((y : ℕ) → is_member y s ≡ P y)
    → Becomes s.universe P (some s)
unchanged-Becomes s P v h = (v, refl, h)

-- Members but for one element, for which it is `b`.
abbrev pub but : ℕ → Bool → (ℕ → Bool) → ℕ → Bool
but x b P y = if y == x then b else P y

but-at : (x : ℕ) (b : Bool) (P : ℕ → Bool) → but x b P x ≡ b
but-at x b P = let e : (x == x) ≡ true = ground arith in rw e refl

but-other : (x : ℕ) (b : Bool) (P : ℕ → Bool) (y : ℕ) → (y == x) ≡ false → P y ≡ but x b P y
but-other x b P y h = rw h refl

pub but-same : (x : ℕ) (P : ℕ → Bool) (y : ℕ) → P y ≡ but x (P x) P y
but-same x P y = elim (Bool-cases (y == x)) [
  | inl same ↦ let e : y ≡ x = ground arith in rw same (ap P e)
  | inr other ↦ rw other refl
]

pub Becomes-same :
    (n : ℕ) (P Q : ℕ → Bool) (o : Option BitSet)
    → ((y : ℕ) → P y ≡ Q y)
    → Becomes n P o
    → Becomes n Q o
Becomes-same n P Q none h b = b
Becomes-same n P Q (some t) h (v, e, k) = (v, e, λ y. k y ∙ h y)

module _ (x : ℕ) (s : BitSet) (v : IsValid s) (inside : x < s.universe) where
  abbrev bits : ℕ → Bool
  bits = test_bit s.storage

  index_inside : x / 32 < length s.storage
  index_inside = let b = v.block in omega arith

  -- The bit was as it is to be.
  unchanged_bit : (b : Bool) → bits x ≡ b → Becomes s.universe (but x b bits) (some s)
  unchanged_bit b h =
      unchanged-Becomes s (but x b bits) v
        (λ y. is_member-test_bit s y v ∙ but-same x bits y ∙ ap (λ c. but x c bits y) h)

  bounded : count_below bits s.universe ≤ s.universe
  bounded = count_below-le bits s.universe

  with_bit-Becomes :
      (w : ℕ)
      → word_at s.storage (x / 32) ≡ some w
      → Becomes s.universe (but x true bits) (with_bit x s (some w))
  with_bit-Becomes w found = elim (Bool-cases (has_bit w (x % 32))) [
    | inl already ↦ rw already (unchanged_bit true (test_bit-word s.storage x w found ∙ already))
    | inr absent ↦
        let absent' = test_bit-word s.storage x w found ∙ absent in
        let more =
          count_below-more bits (but x true bits) x s.universe inside absent' (but-at x true bits)
            (but-other x true bits) in
        let c = v.counted in
        let small = v.in_word in
        let most = count_below-le (but x true bits) s.universe in
        rw absent (
          changed-Becomes s _ _ (but x true bits) v (length-store_word s.storage (x / 32) _)
            (test_bit-set s.storage x w _ found index_inside refl absent) (omega arith))
  ]

  without_bit-Becomes :
      (w : ℕ)
      → word_at s.storage (x / 32) ≡ some w
      → Becomes s.universe (but x false bits) (without_bit x s (some w))
  without_bit-Becomes w found = elim (Bool-cases (has_bit w (x % 32))) [
    | inl present ↦
        let present' = test_bit-word s.storage x w found ∙ present in
        let more =
          count_below-more (but x false bits) bits x s.universe inside (but-at x false bits)
            present' (λ y h. sym (but-other x false bits y h)) in
        let c = v.counted in
        let small = v.in_word in
        rw present (
          changed-Becomes s _ _ (but x false bits) v (length-store_word s.storage (x / 32) _)
            (test_bit-cleared s.storage x w _ found index_inside refl present)
            (omega (arith, bounded)))
    | inr absent ↦ rw absent (unchanged_bit false (test_bit-word s.storage x w found ∙ absent))
  ]

  abbrev members : ℕ → Bool
  members y = is_member y s

  of_bits : (b : Bool) (y : ℕ) → but x b bits y ≡ but x b members y
  of_bits b y = ap (λ c. if y == x then b else c) (sym (is_member-test_bit s y v))

  pub set_bit-Becomes : Becomes s.universe (but x true members) (set_bit x s)
  unfolding set_bit
  set_bit-Becomes =
      let (w, found) = word_at-some s.storage (x / 32) index_inside in
      Becomes-same s.universe (but x true bits) (but x true members) _ (of_bits true) (
        subst (λ o. Becomes s.universe (but x true bits) (with_bit x s o)) (sym found)
          (with_bit-Becomes w found))

  pub clear_bit-Becomes : Becomes s.universe (but x false members) (clear_bit x s)
  unfolding clear_bit
  clear_bit-Becomes =
      let (w, found) = word_at-some s.storage (x / 32) index_inside in
      Becomes-same s.universe (but x false bits) (but x false members) _ (of_bits false) (
        subst (λ o. Becomes s.universe (but x false bits) (without_bit x s o)) (sym found)
          (without_bit-Becomes w found))
