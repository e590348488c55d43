-- ===== src/Scan/Runs.antt =====
-- The two reading loops on a list that begins with a run of characters which pass their test.
use sope_appserver.Prelude.{
  ℕ, zero, suc, ◌≤◌, ◌≡◌, refl, ◌⊎◌, inl, inr, Bool, true, false, Option, some, [], ◌∷◌, ◌++◌,
  arith, Bytes, length, All,
}
use sope_appserver.Scan.Source.{Read, passes, collect, skip}
use sope_appserver.Scan.View.Rules.{uncons}

-- With the first character of the list looked ahead.
abbrev pub cursor : {A : Type 0} → (Option ℕ → Read Bytes A) → Bytes → Option (A × Bytes)
cursor m l = m (uncons l).0 (uncons l).1

abbrev pub AllPass : (ℕ → Bool) → Bytes → Type 0
AllPass test = All (λ x. passes test x ≡ true)

pub collect_run :
    (test : ℕ → Bool) (n : ℕ) (xs : Bytes) (c : ℕ) (rest : Bytes)
    → AllPass test xs
    → length xs ≤ n
    → (n ≡ length xs) ⊎ (passes test c ≡ false)
    → cursor (collect uncons test n) (xs ++ c ∷ rest) ≡ some ((xs, some c), rest)
unfolding collect
collect_run test zero [] c rest h k e = refl
collect_run test (suc n) [] c rest h k (inl e) = absurd (omega arith)
collect_run test (suc n) [] c rest h k (inr e) = rw e
collect_run test zero (x ∷ xs) c rest h k e = absurd (omega arith)
collect_run test (suc n) (x ∷ xs) c rest (h, hs) k (inl e) =
    rw (h, collect_run test n xs c rest hs (omega arith) (inl (omega arith)))
collect_run test (suc n) (x ∷ xs) c rest (h, hs) k (inr e) =
    rw (h, collect_run test n xs c rest hs (omega arith) (inr e))

pub skip_run :
    (test : ℕ → Bool) (n : ℕ) (xs : Bytes) (c : ℕ) (rest : Bytes)
    → AllPass test xs
    → length xs ≤ n
    → passes test c ≡ false
    → cursor (skip uncons test n) (xs ++ c ∷ rest) ≡ some (some c, rest)
unfolding skip
skip_run test zero [] c rest h k e = rw e
skip_run test (suc n) [] c rest h k e = rw e
skip_run test zero (x ∷ xs) c rest h k e = absurd (omega arith)
skip_run test (suc n) (x ∷ xs) c rest (h, hs) k e =
    rw (h, skip_run test n xs c rest hs (omega arith) e)
