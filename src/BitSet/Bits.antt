-- ===== src/BitSet/Bits.antt =====
-- A bit that is set or cleared in a word, and a word in the block.
use sope_appserver.BitSet.{has_bit, word_at, store_word, zeros, Words, bit_of, test_bit}
use sope_appserver.Prelude.{
  ℕ, zero, suc, ◌+◌, ◌-◌, ◌*◌, ◌/◌, ◌%◌, ◌^◌, ◌≤◌, ◌<◌, ◌≡◌, refl, ap, ◌∙◌, Bool, true, false, not,
  ◌&&◌, ◌||◌, none, some, [], ◌∷◌, ◌++◌, ◌==◌, length, arith, if◌then◌else◌, inl, inr, Bool-cases,
}

same_suc : (a b : ℕ) → (suc a == suc b) ≡ (a == b)
same_suc a b = ground arith

suc_zero : (a : ℕ) → (suc a == 0) ≡ false
suc_zero a = ground arith

zero_suc : (a : ℕ) → (0 == suc a) ≡ false
zero_suc a = ground arith

same_parity : (v w : ℕ) → v % 2 ≡ w % 2 → (v % 2 == 1) ≡ (w % 2 == 1)
same_parity v w h = ap (λ r. r == 1) h

has_bit-add : (k w j : ℕ) → has_bit w k ≡ false → has_bit (w + 2 ^ k) j ≡ (j == k || has_bit w j)
unfolding has_bit
has_bit-add zero w zero h = ground arith
has_bit-add zero w (suc j) h =
    let half : (w + 1) / 2 ≡ w / 2 = ground (arith, h) in
    ap (λ v. has_bit v j) half ∙ rw (suc_zero j) refl
has_bit-add (suc k) w zero h = same_parity (w + 2 ^ suc k) w (omega arith) ∙ rw (zero_suc k) refl
has_bit-add (suc k) w (suc j) h =
    let half : (w + 2 ^ suc k) / 2 ≡ w / 2 + 2 ^ k = omega arith in
    ap (λ v. has_bit v j) half ∙ has_bit-add k (w / 2) j h ∙ rw (same_suc j k) refl

has_bit-pattern : (k w : ℕ) → has_bit w k ≡ true → 2 ^ k ≤ w
unfolding has_bit
has_bit-pattern zero w h = ground (arith, h)
has_bit-pattern (suc k) w h = omega (arith, has_bit-pattern k (w / 2) h)

has_bit-subtract :
    (k w j : ℕ) → has_bit w k ≡ true → has_bit (w - 2 ^ k) j ≡ (not (j == k) && has_bit w j)
unfolding has_bit
has_bit-subtract zero w zero h = ground arith
has_bit-subtract zero w (suc j) h =
    let half : (w - 1) / 2 ≡ w / 2 = ground (arith, h) in
    ap (λ v. has_bit v j) half ∙ rw (suc_zero j) refl
has_bit-subtract (suc k) w zero h =
    let inside = has_bit-pattern k (w / 2) h in
    same_parity (w - 2 ^ suc k) w (omega arith) ∙ rw (zero_suc k) refl
has_bit-subtract (suc k) w (suc j) h =
    let inside = has_bit-pattern k (w / 2) h in
    let half : (w - 2 ^ suc k) / 2 ≡ w / 2 - 2 ^ k = omega arith in
    ap (λ v. has_bit v j) half ∙ has_bit-subtract k (w / 2) j h ∙ rw (same_suc j k) refl

pub has_bit-zero : (k : ℕ) → has_bit 0 k ≡ false
unfolding has_bit
has_bit-zero zero = refl
has_bit-zero (suc k) = has_bit-zero k

-- The word behind a store.
word_at-store_word :
    (ws : Words) (i v j : ℕ)
    → i < length ws
    → word_at (store_word ws i v) j ≡ (if j == i then some v else word_at ws j)
unfolding word_at store_word
word_at-store_word [] i v j h = absurd (omega arith)
word_at-store_word (w ∷ ws) zero v zero h = refl
word_at-store_word (w ∷ ws) zero v (suc j) h = rw (suc_zero j) refl
word_at-store_word (w ∷ ws) (suc i) v zero h = rw (zero_suc i) refl
word_at-store_word (w ∷ ws) (suc i) v (suc j) h =
    word_at-store_word ws i v j (omega arith) ∙ rw (same_suc j i) refl

pub word_at-some : (ws : Words) (i : ℕ) → i < length ws → (w : ℕ) × (word_at ws i ≡ some w)
unfolding word_at
word_at-some [] i h = absurd (omega arith)
word_at-some (w ∷ ws) zero h = (w, refl)
word_at-some (w ∷ ws) (suc i) h = word_at-some ws i (omega arith)

pub length-store_word : (ws : Words) (i v : ℕ) → length (store_word ws i v) ≡ length ws
unfolding store_word
length-store_word [] i v = refl
length-store_word (w ∷ ws) zero v = refl
length-store_word (w ∷ ws) (suc i) v = ap suc (length-store_word ws i v)

pub length-zeros : (n : ℕ) → length (zeros n) ≡ n
unfolding zeros
length-zeros zero = refl
length-zeros (suc n) = ap suc (length-zeros n)

word_at-zeros : (n i k : ℕ) → bit_of (word_at (zeros n) i) k ≡ false
unfolding zeros word_at
word_at-zeros zero i k = refl
word_at-zeros (suc n) zero k = has_bit-zero k
word_at-zeros (suc n) (suc i) k = word_at-zeros n i k

word_at-append_zeros :
    (ws : Words) (n i k : ℕ) → bit_of (word_at (ws ++ zeros n) i) k ≡ bit_of (word_at ws i) k
unfolding word_at
word_at-append_zeros [] n i k = word_at-zeros n i k
word_at-append_zeros (w ∷ ws) n zero k = refl
word_at-append_zeros (w ∷ ws) n (suc i) k = word_at-append_zeros ws n i k

pub test_bit-zeros : (n x : ℕ) → test_bit (zeros n) x ≡ false
unfolding test_bit
test_bit-zeros n x = word_at-zeros n (x / 32) (x % 32)

pub test_bit-append_zeros : (ws : Words) (n x : ℕ) → test_bit (ws ++ zeros n) x ≡ test_bit ws x
unfolding test_bit
test_bit-append_zeros ws n x = word_at-append_zeros ws n (x / 32) (x % 32)

-- The same place in the block.
place : (x y : ℕ) → (y / 32 == x / 32) ≡ true → (y % 32 == x % 32) ≡ (y == x)
place x y h = ground arith

other_place : (x y : ℕ) → (y / 32 == x / 32) ≡ false → (y == x) ≡ false
other_place x y h = ground arith

pub word_at-none : (ws : Words) (i : ℕ) → length ws ≤ i → word_at ws i ≡ none
unfolding word_at
word_at-none [] i h = refl
word_at-none (w ∷ ws) zero h = absurd (omega arith)
word_at-none (w ∷ ws) (suc i) h = word_at-none ws i (omega arith)

or_if : (a b : Bool) → (a || b) ≡ (if a then true else b)
or_if true b = refl
or_if false b = refl

and_if : (a b : Bool) → (not a && b) ≡ (if a then false else b)
and_if true b = refl
and_if false b = refl

-- The bit at an element, behind the store of another word in its place.
module _ (ws : Words) (x w v : ℕ) (found : word_at ws (x / 32) ≡ some w)
    (inside : x / 32 < length ws) where
  test_bit-store_word :
      (b : Bool)
      → ((j : ℕ) → has_bit v j ≡ (if j == x % 32 then b else has_bit w j))
      → (y : ℕ) → test_bit (store_word ws (x / 32) v) y ≡ (if y == x then b else test_bit ws y)
  unfolding test_bit
  test_bit-store_word b h y =
      ap (λ o. bit_of o (y % 32)) (word_at-store_word ws (x / 32) v (y / 32) inside)
      ∙ elim (Bool-cases (y / 32 == x / 32)) [
        | inl same ↦
            let index : y / 32 ≡ x / 32 = ground (arith, same) in
            let word : word_at ws (y / 32) ≡ some w = ap (word_at ws) index ∙ found in
            rw (same, word) (h (y % 32) ∙ rw (place x y same) refl)
        | inr other ↦ rw (other, other_place x y other) refl
      ]

  pub test_bit-set :
      v ≡ w + 2 ^ (x % 32)
      → has_bit w (x % 32) ≡ false
      → (y : ℕ) → test_bit (store_word ws (x / 32) v) y ≡ (if y == x then true else test_bit ws y)
  test_bit-set e h =
      test_bit-store_word true (λ j. rw e (has_bit-add (x % 32) w j h ∙ or_if (j == x % 32) _))

  pub test_bit-cleared :
      v ≡ w - 2 ^ (x % 32)
      → has_bit w (x % 32) ≡ true
      → (y : ℕ) → test_bit (store_word ws (x / 32) v) y ≡ (if y == x then false else test_bit ws y)
  test_bit-cleared e h =
      test_bit-store_word false
        (λ j. rw e (has_bit-subtract (x % 32) w j h ∙ and_if (j == x % 32) _))

pub test_bit-outside : (ws : Words) (x : ℕ) → length ws * 32 ≤ x → test_bit ws x ≡ false
unfolding test_bit
test_bit-outside ws x h = ap (λ o. bit_of o (x % 32)) (word_at-none ws (x / 32) (omega arith))

pub test_bit-word :
    (ws : Words) (x w : ℕ) → word_at ws (x / 32) ≡ some w → test_bit ws x ≡ has_bit w (x % 32)
unfolding test_bit
test_bit-word ws x w h = ap (λ o. bit_of o (x % 32)) h
