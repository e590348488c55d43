-- ===== src/Scan/Source.antt =====
-- Reading characters with one of look-ahead. The parsers keep the last result of
-- `NGBufferedDescriptor_readChar` in `c`; `none` is its -1. `S` is whatever is read from.
use sope_appserver.Prelude.{
  ℕ, zero, suc, Bool, false, ◌&&◌, Option, none, some, [], ◌∷◌, ltb, if◌then◌else◌, Bytes,
}

abbrev pub Read : Type 0 → Type 0 → Type 0
Read S A = S → Option (A × S)

module _ {S : Type 0} where
  abbrev pub pure : {A : Type 0} → A → Read S A
  pure a s = some (a, s)

  abbrev pub bind : {A B : Type 0} → (A → Read S B) → Option (A × S) → Option (B × S)
  bind k none = none
  bind k (some (a, s)) = k a s

  infixl 5 ◌>>=◌
  abbrev pub ◌>>=◌ : {A B : Type 0} → Read S A → (A → Read S B) → Read S B
  ◌>>=◌ m k s = bind k (m s)

-- `c > 0`; the code's `c < 1` is its negation.
abbrev pub is_char : Option ℕ → Bool
is_char none = false
is_char (some c) = ltb 0 c

abbrev pub passes : (ℕ → Bool) → ℕ → Bool
passes test c = ltb 0 c && test c

abbrev pub kept : ℕ → Bytes × Option ℕ → Bytes × Option ℕ
kept x (xs, c) = (x ∷ xs, c)

-- The parsers are handed the reader; here it is a parameter.
module _ {S : Type 0} (read_char : S → Option ℕ × S) where
  abbrev pub next : Read S (Option ℕ)
  next s = some (read_char s)

  -- `while ((c > 0) && test(c) && (i < n)) { buf[i++] = c; c = readChar(); }`: what was stored, and
  -- the character behind it.
  unfoldable pub collect : (ℕ → Bool) → ℕ → Option ℕ → Read S (Bytes × Option ℕ)
  collect test zero c = pure ([], c)
  collect test (suc n) none = pure ([], none)
  collect test (suc n) (some x) =
      let more = next >>= (λ c. collect test n c >>= λ r. pure (kept x r)) in
      if passes test x then more else pure ([], some x)

  -- `while ((c > 0) && test(c)) c = readChar();` for at most so many rounds.
  unfoldable pub skip : (ℕ → Bool) → ℕ → Option ℕ → Read S (Option ℕ)
  skip test rounds none = pure none
  skip test zero (some x) = if passes test x then (λ s. none) else pure (some x)
  skip test (suc rounds) (some x) =
      let more = next >>= λ c. skip test rounds c in if passes test x then more else pure (some x)
