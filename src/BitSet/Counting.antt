-- ===== src/BitSet/Counting.antt =====
-- How many numbers below a bound a test holds of.
use sope_appserver.Prelude.{
  ℕ, zero, suc, ◌+◌, ◌≤◌, ◌<◌, ◌≡◌, refl, ap, ◌∙◌, inl, inr, Bool, true, false, ◌==◌, arith,
  Bool-cases,
}

abbrev pub one_if : Bool → ℕ
one_if true = 1
one_if false = 0

unfoldable pub count_below : (ℕ → Bool) → ℕ → ℕ
count_below P zero = 0
count_below P (suc n) = one_if (P n) + count_below P n

one_if-le : (b : Bool) → one_if b ≤ 1
one_if-le true = omega arith
one_if-le false = omega arith

pub count_below-le : (P : ℕ → Bool) (n : ℕ) → count_below P n ≤ n
unfolding count_below
count_below-le P zero = omega arith
count_below-le P (suc n) = omega (arith, one_if-le (P n), count_below-le P n)

pub count_below-same :
    (P Q : ℕ → Bool) (n : ℕ) → ((y : ℕ) → y < n → P y ≡ Q y) → count_below P n ≡ count_below Q n
unfolding count_below
count_below-same P Q zero h = refl
count_below-same P Q (suc n) h =
    let rest = count_below-same P Q n (λ y l. h y (omega arith)) in
    omega (arith, rest, ap one_if (h n (omega arith)))

-- One number more.
pub count_below-more :
    (P Q : ℕ → Bool) (x n : ℕ)
    → x < n
    → P x ≡ false
    → Q x ≡ true
    → ((y : ℕ) → (y == x) ≡ false → P y ≡ Q y)
    → count_below Q n ≡ suc (count_below P n)
unfolding count_below
count_below-more P Q x zero l p q h = absurd (omega arith)
count_below-more P Q x (suc n) l p q h = elim (Bool-cases (n == x)) [
  | inl same ↦
      let e : n ≡ x = ground arith in
      let rest = count_below-same P Q n (λ y k. h y (ground arith)) in
      let before : one_if (P n) ≡ 0 = ap (λ k. one_if (P k)) e ∙ ap one_if p in
      let after : one_if (Q n) ≡ 1 = ap (λ k. one_if (Q k)) e ∙ ap one_if q in omega arith
  | inr other ↦
      let rest = count_below-more P Q x n (ground arith) p q h in
      omega (arith, rest, ap one_if (h n other))
]

-- A bound behind which there is nothing.
pub count_below-extend :
    (P : ℕ → Bool) (m n : ℕ)
    → ((y : ℕ) → m ≤ y → P y ≡ false)
    → count_below P (n + m) ≡ count_below P m
unfolding count_below
count_below-extend P m zero h = let e : 0 + m ≡ m = omega arith in ap (count_below P) e
count_below-extend P m (suc n) h =
    let e : suc n + m ≡ suc (n + m) = omega arith in
    let last : one_if (P (n + m)) ≡ 0 = ap one_if (h (n + m) (omega arith)) in
    let rest = count_below-extend P m n h in ap (count_below P) e ∙ omega arith

one_if-part : (a b : Bool) → (a ≡ true → b ≡ true) → one_if a ≤ one_if b
one_if-part true b h = let e : one_if b ≡ 1 = ap one_if (h refl) in omega arith
one_if-part false b h = omega arith

one_if-injective : (a b : Bool) → one_if a ≡ one_if b → a ≡ b
one_if-injective true true h = refl
one_if-injective true false h = absurd (omega arith)
one_if-injective false true h = absurd (omega arith)
one_if-injective false false h = refl

-- A part with as many numbers as the whole is the whole.
pub count_below-part :
    (P Q : ℕ → Bool) (n : ℕ)
    → ((y : ℕ) → y < n → P y ≡ true → Q y ≡ true)
    → (count_below P n ≤ count_below Q n)
      × (count_below P n ≡ count_below Q n → (y : ℕ) → y < n → P y ≡ Q y)
unfolding count_below
count_below-part P Q zero h = (omega arith, λ e y l. absurd (omega arith))
count_below-part P Q (suc n) h =
    let (le, same) = count_below-part P Q n (λ y l. h y (omega arith)) in
    let here = one_if-part (P n) (Q n) (h n (omega arith)) in
    (
      omega arith,
      λ e y l. elim (Bool-cases (y == n)) [
        | inl last ↦
            let at_n : y ≡ n = ground arith in rw at_n (one_if-injective (P n) (Q n) (omega arith))
        | inr before ↦ same (omega arith) y (ground arith)
      ],
    )
