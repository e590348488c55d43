-- ===== src/Base64/Coding.antt =====
-- The tables, and a round of the decoding loop on a group of characters.
use sope_appserver.Base64.{
  after_line, is_base64, tab_char, index_of, Scan, next_char, complete, three_chunk, two_chunk,
  chunk_of, byte_1, byte_2, byte_3, after_chunk, with_error, decode_loop,
}
use sope_appserver.Prelude.{
  ℕ, zero, suc, ◌+◌, ◌*◌, ◌/◌, ◌%◌, ◌<◌, ◌≡◌, refl, ap, ◌∙◌, inl, inr, Bool, true, false, ◌&&◌,
  ◌||◌, ◌∷◌, arith, ◌==◌, Bytes, Bool-cases,
}

abbrev pub IsByte : ℕ → Type 0
IsByte c = c < 256

-- The test on all numbers below one.
all_below : ℕ → (ℕ → Bool) → Bool
all_below zero f = true
all_below (suc n) f = f n && all_below n f

all_below-true : (n : ℕ) (f : ℕ → Bool) (k : ℕ) → all_below n f ≡ true → k < n → f k ≡ true
unfolding all_below
all_below-true zero f k h l = absurd (omega arith)
all_below-true (suc n) f k h l = elim (Bool-cases (k == n)) [
  | inl same ↦ let e : k ≡ n = ground arith in rw e (and_left (f n) (all_below n f) h)
  | inr other ↦ all_below-true n f k (and_right (f n) (all_below n f) h) (ground arith)
]
  where
    and_left : (a b : Bool) → (a && b) ≡ true → a ≡ true
    and_left true b h = refl
    and_left false b h = h

    and_right : (a b : Bool) → (a && b) ≡ true → b ≡ true
    and_right true b h = h
    and_right false b h = cc

tab_found : (k : ℕ) → k < 64 → is_base64 (tab_char k) ≡ true
unfolding is_base64 tab_char
tab_found k h = all_below-true 64 (λ n. is_base64 (tab_char n)) k (unfold all_below in refl) h

index_found : (k : ℕ) → k < 64 → (index_of (tab_char k) == k) ≡ true
unfolding index_of tab_char
index_found k h = all_below-true 64 (λ n. index_of (tab_char n) == n) k (unfold all_below in refl) h

index_of-tab_char : (k : ℕ) → k < 64 → index_of (tab_char k) ≡ k
index_of-tab_char k h = let e = index_found k h in ground arith

abbrev pub token : ℕ → Bool
token c = is_base64 c || c == b'='

abbrev ends : ℕ → Bytes → Scan
ends c cs = record { char = c; wrong = false; rest = cs }

next_char-token : (a c : ℕ) (cs : Bytes) → token c ≡ true → next_char a (c ∷ cs) ≡ ends c cs
unfolding next_char
next_char-token a c cs h = rw (next_char, h) refl

next_char-line :
    (nl : Bool) (c : ℕ) (cs : Bytes)
    → token c ≡ true
    → next_char 0 (after_line nl (c ∷ cs)) ≡ ends c cs
unfolding next_char is_base64
next_char-line true c cs h = rw (next_char-token b'\n' c cs h) refl
next_char-line false c cs h = next_char-token 0 c cs h

-- A round on four tokens, behind a line feed or not.
pub round-lem :
    (rounds : ℕ) (nl : Bool) (c1 c2 c3 c4 : ℕ) (cs : Bytes)
    → token c1 ≡ true
    → token c2 ≡ true
    → token c3 ≡ true
    → token c4 ≡ true
    → decode_loop (suc rounds) (after_line nl (c1 ∷ c2 ∷ c3 ∷ c4 ∷ cs))
      ≡ with_error false (after_chunk (decode_loop rounds cs) (chunk_of c1 c2 c3 c4))
unfolding decode_loop
round-lem rounds true c1 c2 c3 c4 cs h1 h2 h3 h4 =
    rw
      (
        next_char-line true c1 (c2 ∷ c3 ∷ c4 ∷ cs) h1,
        next_char-token 0 c2 (c3 ∷ c4 ∷ cs) h2,
        next_char-token 0 c3 (c4 ∷ cs) h3,
        next_char-token 0 c4 cs h4,
      )
      refl
round-lem rounds false c1 c2 c3 c4 cs h1 h2 h3 h4 =
    rw
      (
        next_char-line false c1 (c2 ∷ c3 ∷ c4 ∷ cs) h1,
        next_char-token 0 c2 (c3 ∷ c4 ∷ cs) h2,
        next_char-token 0 c3 (c4 ∷ cs) h3,
        next_char-token 0 c4 cs h4,
      )
      refl

abbrev IsDigit : ℕ → Type 0
IsDigit c = is_base64 c ≡ true

digit-token : (c : ℕ) → IsDigit c → token c ≡ true
digit-token c h = rw h refl

pad_no_digit : is_base64 b'=' ≡ false
pad_no_digit = unfold is_base64 in refl

pub pad_token : token b'=' ≡ true
pad_token = unfold is_base64 in refl

chunk_of-complete :
    (a b c d : ℕ)
    → IsDigit a
    → IsDigit b
    → IsDigit c
    → IsDigit d
    → chunk_of a b c d ≡ complete (byte_1 a b) (byte_2 b c) (byte_3 c d)
unfolding chunk_of
chunk_of-complete a b c d h1 h2 h3 h4 = rw (h1, h2, h3, h4) refl

chunk_of-three :
    (a b c : ℕ)
    → IsDigit a
    → IsDigit b
    → IsDigit c
    → chunk_of a b c b'=' ≡ three_chunk (byte_1 a b) (byte_2 b c)
unfolding chunk_of
chunk_of-three a b c h1 h2 h3 = rw (h1, h2, h3, pad_no_digit) refl

chunk_of-two : (a b : ℕ) → IsDigit a → IsDigit b → chunk_of a b b'=' b'=' ≡ two_chunk (byte_1 a b)
unfolding chunk_of
chunk_of-two a b h1 h2 = rw (h1, h2, pad_no_digit) refl

-- The bytes that a group of characters gives back.
module _ (x y z u : ℕ) (hx : x < 64) (hy : y < 64) (hz : z < 64) (hu : u < 64) where
  byte_1-tab : byte_1 (tab_char x) (tab_char y) ≡ x % 64 * 4 + y / 16 % 4
  byte_1-tab = rw (index_of-tab_char x hx, index_of-tab_char y hy) refl

  byte_2-tab : byte_2 (tab_char y) (tab_char z) ≡ y % 16 * 16 + z / 4 % 16
  byte_2-tab = rw (index_of-tab_char y hy, index_of-tab_char z hz) refl

  byte_3-tab : byte_3 (tab_char z) (tab_char u) ≡ z % 4 * 64 + u % 64
  byte_3-tab = rw (index_of-tab_char z hz, index_of-tab_char u hu) refl

  pub complete-tab :
      chunk_of (tab_char x) (tab_char y) (tab_char z) (tab_char u)
      ≡ complete (x % 64 * 4 + y / 16 % 4) (y % 16 * 16 + z / 4 % 16) (z % 4 * 64 + u % 64)
  complete-tab =
      chunk_of-complete (tab_char x) (tab_char y) (tab_char z) (tab_char u) (tab_found x hx)
        (tab_found y hy) (tab_found z hz) (tab_found u hu)
      ∙ (λ i. complete (byte_1-tab i) (byte_2-tab i) (byte_3-tab i))

  pub three-tab :
      chunk_of (tab_char x) (tab_char y) (tab_char z) b'='
      ≡ three_chunk (x % 64 * 4 + y / 16 % 4) (y % 16 * 16 + z / 4 % 16)
  three-tab =
      chunk_of-three (tab_char x) (tab_char y) (tab_char z) (tab_found x hx) (tab_found y hy)
        (tab_found z hz)
      ∙ (λ i. three_chunk (byte_1-tab i) (byte_2-tab i))

  pub two-tab : chunk_of (tab_char x) (tab_char y) b'=' b'=' ≡ two_chunk (x % 64 * 4 + y / 16 % 4)
  two-tab =
      chunk_of-two (tab_char x) (tab_char y) (tab_found x hx) (tab_found y hy)
      ∙ ap two_chunk byte_1-tab

pub tab_token : (k : ℕ) → k < 64 → token (tab_char k) ≡ true
tab_token k h = digit-token (tab_char k) (tab_found k h)
