-- ===== src/Handler/AppName/Suffixes.antt =====
-- What the name looks like.
use sope_appserver.Prelude.{
  ℕ, ◌≡◌, refl, Bool, true, false, ◌||◌, none, some, [], ◌∷◌, arith, Bytes, codes, if◌then◌else◌,
}
use sope_appserver.Handler.AppName.{starts_with, cut_at, woa, sky, first_segment, extract_app_name}

-- Whether a text holds a pattern somewhere.
unfoldable pub contains : Bytes → Bytes → Bool
contains pattern [] = starts_with [] pattern
contains pattern (x ∷ xs) = starts_with (x ∷ xs) pattern || contains pattern xs

IsPrefix-refl : (xs : Bytes) → starts_with xs xs ≡ true
unfolding starts_with
IsPrefix-refl [] = refl
IsPrefix-refl (x ∷ xs) = ground (arith, IsPrefix-refl xs)

-- A pattern at the head of a first part of a text is at the head of the text.
starts_with_mono :
    (ys xs p : Bytes) → starts_with ys xs ≡ true → starts_with xs p ≡ true → starts_with ys p ≡ true
unfolding starts_with
starts_with_mono ys xs [] h k = refl
starts_with_mono ys [] (p ∷ ps) h k = cc
starts_with_mono [] (x ∷ xs) (p ∷ ps) h k = cc
starts_with_mono (y ∷ ys) (x ∷ xs) (p ∷ ps) h k = ground (arith, starts_with_mono ys xs ps)

contains_mono :
    (ys xs p : Bytes) → starts_with ys xs ≡ true → contains p ys ≡ false → contains p xs ≡ false
unfolding contains starts_with
contains_mono [] [] p h k = k
contains_mono (y ∷ ys) [] [] h k = cc
contains_mono (y ∷ ys) [] (q ∷ qs) h k = refl
contains_mono [] (x ∷ xs) p h k = cc
contains_mono (y ∷ ys) (x ∷ xs) p h k =
    ground (arith, starts_with_mono (y ∷ ys) (x ∷ xs) p, contains_mono ys xs p)

-- A text that a cut leaves is a first part of the text.
starts_with-cut_at : (pattern xs : Bytes) → starts_with xs (cut_at pattern xs) ≡ true
unfolding cut_at
starts_with-cut_at pattern [] = refl
starts_with-cut_at pattern (x ∷ xs) = ground (arith, starts_with-cut_at pattern xs)

contains-cut_at : (p : ℕ) (ps xs : Bytes) → contains (p ∷ ps) (cut_at (p ∷ ps) xs) ≡ false
unfolding contains cut_at
contains-cut_at p ps [] = refl
contains-cut_at p ps (x ∷ xs) = ground (
  arith,
  contains-cut_at p ps xs,
  starts_with-cut_at (p ∷ ps) xs,
  starts_with_mono (x ∷ xs) (x ∷ cut_at (p ∷ ps) xs) (p ∷ ps),
)

stripped :
    (xs : Bytes)
    → (contains woa (cut_at sky (cut_at woa xs)) ≡ false)
      × (contains sky (cut_at sky (cut_at woa xs)) ≡ false)
stripped xs = (
  contains_mono (cut_at woa xs) (cut_at sky (cut_at woa xs)) woa
      (starts_with-cut_at sky (cut_at woa xs)) (contains-cut_at b'.' (codes "woa") xs),
  contains-cut_at b'.' (codes "sky") (cut_at woa xs),
)

some-of_if : (b : Bool) (x y : Bytes) → (if b then some x else none) ≡ some y → x ≡ y
some-of_if true x y e = cc
some-of_if false x y e = cc

extract_app_name-some :
    (c : ℕ) (path : Bytes) (max_len : ℕ) {name : Bytes}
    → extract_app_name (c ∷ path) max_len ≡ some name
    → cut_at sky (cut_at woa (first_segment path max_len)) ≡ name
unfolding extract_app_name
extract_app_name-some c path max_len e = some-of_if _ _ _ e

-- The name that is extracted holds neither ".woa" nor ".sky".
pub extract_app_name-suffixes :
    (uri : Bytes) (max_len : ℕ) {name : Bytes}
    → extract_app_name uri max_len ≡ some name
    → (contains woa name ≡ false) × (contains sky name ≡ false)
extract_app_name-suffixes [] max_len e = absurd (no_name max_len e)
  where
    no_name : (n : ℕ) {name : Bytes} → extract_app_name [] n ≡ some name → ⊥
    no_name n h = unfold extract_app_name in cc
extract_app_name-suffixes (c ∷ path) max_len e =
    rw (extract_app_name-some c path max_len e) at (stripped (first_segment path max_len))
