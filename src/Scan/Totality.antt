-- ===== src/Scan/Totality.antt =====
-- With more rounds than there are characters the parsers come to an end.
use sope_appserver.Prelude.{
  ℕ, zero, suc, ◌+◌, ◌≤◌, ◌<◌, inl, inr, Bool-cases, Bool, true, false, Option, none, some, [], ◌∷◌,
  arith, if◌then◌else◌, Bytes, length, ◌==◌, is_space, atoi,
}
use sope_appserver.Scan.Headers.{
  Header, in_name, in_value, scan_header_end, scan_value, scan_header, scan_line, loop_on,
  header_loop, scan_headers,
}
use sope_appserver.Scan.ResponseLine.{
  ResponseLine, blank_line, is_char_at, in_word, in_version, before_line_end, scan_reason,
  scan_after_code, scan_code, scan_response_line,
}
use sope_appserver.Scan.Source.{Read, pure, bind, ◌>>=◌, is_char, passes, kept, next, collect, skip}
use sope_appserver.Scan.View.Rules.{uncons}

-- The read ends, and leaves at most `bound` characters.
abbrev pub Ends : {A : Type 0} → ℕ → Option (A × Bytes) → Type 0
Ends bound none = ⊥
Ends bound (some (a, l)) = length l ≤ bound

-- From any list of at most `bound` characters.
pub record Total {A : Type 0} (bound : ℕ) (m : Read Bytes A) : Type 0 where
  pub total : (l : Bytes) → length l ≤ bound → Ends bound (m l)

Total-pure : {A : Type 0} (bound : ℕ) (a : A) → Total bound (pure a)
Total-pure bound a = record { total = λ l h. h }

bind-Ends :
    {A B : Type 0} (bound : ℕ) (f : A → Read Bytes B) (x : Option (A × Bytes))
    → ((a : A) → Total bound (f a))
    → Ends bound x
    → Ends bound (bind f x)
bind-Ends bound f none h e = e
bind-Ends bound f (some (a, l)) h e = (h a).total l e

Total-bind :
    {A B : Type 0} {bound : ℕ} {m : Read Bytes A} {f : A → Read Bytes B}
    → Total bound m
    → ((a : A) → Total bound (f a))
    → Total bound (m >>= f)
Total-bind {bound} {m} {f} p h = record { total = λ l k. bind-Ends bound f (m l) h (p.total l k) }

Total-if :
    {A : Type 0} {bound : ℕ} (b : Bool) {m n : Read Bytes A}
    → Total bound m
    → Total bound n
    → Total bound (if b then m else n)
Total-if true p q = p
Total-if false p q = q

Total-next : (bound : ℕ) → Total bound (next uncons)
Total-next bound = record { total = go }
  where
    go : (l : Bytes) → length l ≤ bound → Ends bound (next uncons l)
    go [] h = h
    go (c ∷ cs) h = omega arith

Total-collect :
    (bound : ℕ) (test : ℕ → Bool) (n : ℕ) (c : Option ℕ) → Total bound (collect uncons test n c)
unfolding collect
Total-collect bound test zero c = Total-pure bound ([], c)
Total-collect bound test (suc n) none = Total-pure bound ([], none)
Total-collect bound test (suc n) (some x) =
    Total-if (passes test x)
      (Total-bind (Total-next bound)
        λ c. Total-bind (Total-collect bound test n c) λ r. Total-pure bound (kept x r))
      (Total-pure bound ([], some x))

Ends-le : {A : Type 0} (n m : ℕ) (x : Option (A × Bytes)) → n ≤ m → Ends n x → Ends m x
Ends-le n m none h e = e
Ends-le n m (some (a, l)) h e = omega arith

skip-Ends :
    (test : ℕ → Bool) (rounds : ℕ) (c : Option ℕ) (l : Bytes)
    → length l < rounds
    → Ends (length l) (skip uncons test rounds c l)
unfolding skip
skip-Ends test zero c l h = elim h [ ]
skip-Ends test (suc rounds) none l h = omega arith
skip-Ends test (suc rounds) (some x) [] h = elim (Bool-cases (passes test x)) [
  | inl more ↦ rw more (omega arith)
  | inr over ↦ rw over (omega arith)
]
skip-Ends test (suc rounds) (some x) (y ∷ ys) h = elim (Bool-cases (passes test x)) [
  | inl more ↦
      rw more
        (Ends-le (length ys) _ _ (omega arith) (skip-Ends test rounds (some y) ys (omega arith)))
  | inr over ↦ rw over (omega arith)
]

module _ (bound rounds : ℕ) (enough : bound < rounds) where
  Total-skip : (test : ℕ → Bool) (c : Option ℕ) → Total bound (skip uncons test rounds c)
  Total-skip test c = record {
    total = λ l h. Ends-le (length l) bound _ h (skip-Ends test rounds c l (omega arith));
  }

  Total-reason :
      (line : ResponseLine) (c : Option ℕ) → Total bound (scan_reason uncons rounds line c)
  unfolding scan_reason
  Total-reason line c = Total-bind (Total-collect bound in_word 6 c) λ (text, c₁).
      Total-if (is_char c₁)
        (Total-bind (Total-skip before_line_end c₁)
          λ c₂. Total-pure bound (record line { text = text; accepted = is_char c₂ }))
        (Total-pure bound (record line { text = text }))

  Total-after_code :
      (line : ResponseLine) (c : Option ℕ) → Total bound (scan_after_code uncons rounds line c)
  unfolding scan_after_code
  Total-after_code line c =
      let taken = record line { accepted = true } in
      Total-if (is_char c)
        (Total-if (is_char_at b'\n' c) (Total-pure bound taken) (
          Total-if (is_char_at b'\r' c) (Total-bind (Total-next bound) λ c₁. Total-pure bound taken)
            (Total-reason line c)))
        (Total-pure bound line)

  Total-code : (line : ResponseLine) (c : Option ℕ) → Total bound (scan_code uncons rounds line c)
  unfolding scan_code
  Total-code line c =
      Total-if (is_char c)
        (Total-bind (Total-collect bound in_word 6 c) λ (code, c₁).
          Total-bind (Total-skip is_space c₁)
            λ c₂. Total-after_code (record line { status = atoi code }) c₂)
        (Total-pure bound line)

  Total-response_line : Total bound (scan_response_line uncons rounds)
  unfolding scan_response_line
  Total-response_line = Total-bind (Total-next bound) λ c.
      Total-bind (Total-collect bound in_version 16 c) λ (version, c₁).
        Total-if (is_char c₁)
          (Total-bind (Total-skip is_space c₁)
            λ c₂. Total-code (record blank_line { version = version }) c₂)
          (Total-pure bound (record blank_line { version = version }))

  Total-header_end :
      (name value : Bytes) (c : Option ℕ) → Total bound (scan_header_end uncons name value c)
  unfolding scan_header_end
  Total-header_end name value c =
      Total-if (is_char_at b'\n' c) (Total-pure bound (some (name, value))) (
        Total-if (is_char_at b'\r' c)
          (Total-bind (Total-next bound)
            λ c₁. Total-pure bound (if is_char_at b'\n' c₁ then some (name, value) else none))
          (Total-pure bound none))

  Total-value : (name : Bytes) (c : Option ℕ) → Total bound (scan_value uncons name c)
  unfolding scan_value
  Total-value name c = Total-bind (Total-collect bound in_value 7999 c) λ (value, c₁).
      Total-if (length value == 0) (Total-pure bound none) (Total-header_end name value c₁)

  Total-header : (c : Option ℕ) → Total bound (scan_header uncons rounds c)
  unfolding scan_header
  Total-header c = Total-bind (Total-collect bound in_name 255 c) λ (name, c₁).
      Total-if (length name == 0) (Total-pure bound none) (
        Total-if (is_char_at b':' c₁)
          (Total-bind (Total-next bound)
            λ c₂. Total-bind (Total-skip is_space c₂) λ c₃. Total-value name c₃)
          (Total-pure bound none))

-- A header is not free: it takes a character at least.
abbrev Consumes : ℕ → Option (Header × Bytes) → Type 0
Consumes n none = ⊥
Consumes n (some (none, l)) = length l ≤ n
Consumes n (some (some h, l)) = length l < n

Consumes-of_Ends : (n : ℕ) (x : Option (Header × Bytes)) → Ends n x → Consumes (suc n) x
Consumes-of_Ends n none e = e
Consumes-of_Ends n (some (none, l)) e = omega arith
Consumes-of_Ends n (some (some h, l)) e = omega arith

scan_line-Consumes :
    (rounds : ℕ) (l : Bytes)
    → length l ≤ rounds
    → 0 < rounds
    → Consumes (length l) (scan_line uncons rounds l)
unfolding scan_line
scan_line-Consumes rounds [] h k = omega arith
scan_line-Consumes rounds (c ∷ cs) h k =
    Consumes-of_Ends (length cs) _ (line.total cs (omega arith))
  where
    line : Total (length cs) (
        if is_char (some c)
        then (if is_char_at b'\n' (some c)
            then pure none
            else if is_char_at b'\r' (some c)
            then (next uncons >>= λ c₁. pure none)
            else scan_header uncons rounds (some c))
        else pure none)
    line =
        Total-if (is_char (some c))
          (Total-if (is_char_at b'\n' (some c)) (Total-pure _ none) (
            Total-if (is_char_at b'\r' (some c)) (Total-bind (Total-next _) λ c₁. Total-pure _ none)
              (Total-header (length cs) rounds (omega arith) (some c))))
          (Total-pure _ none)

module _ {T : Type 0} (table_set : T → Bytes → Bytes → T) where
  loop-Ends :
      (again : T → Read Bytes T) (n : ℕ) (t : T) (x : Option (Header × Bytes))
      → ((u : T) (l : Bytes) → length l < n → Ends (length l) (again u l))
      → Consumes n x
      → Ends n (bind (loop_on uncons table_set again t) x)
  loop-Ends again n t none ih e = e
  loop-Ends again n t (some (none, l)) ih e = e
  loop-Ends again n t (some (some (name, value), l)) ih e =
      Ends-le (length l) n _ (omega arith) (ih (table_set t name value) l e)

  header_loop-Ends :
      (rounds : ℕ) (t : T) (l : Bytes)
      → length l + 1 < rounds
      → Ends (length l) (header_loop uncons table_set rounds t l)
  unfolding header_loop
  header_loop-Ends zero t l h = elim h [ ]
  header_loop-Ends (suc rounds) t l h =
      loop-Ends (header_loop uncons table_set rounds) (length l) t _
        (λ u k j. header_loop-Ends rounds u k (omega arith))
        (scan_line-Consumes rounds l (omega arith) (omega arith))

  -- With two rounds more than there are characters `NGScanHeaders` comes to its end.
  pub scan_headers-Ends :
      (rounds : ℕ) (t : Option T) (l : Bytes)
      → length l + 1 < rounds
      → Ends (length l) (scan_headers uncons table_set rounds t l)
  unfolding scan_headers
  scan_headers-Ends rounds none l h = omega arith
  scan_headers-Ends rounds (some t) l h =
      bind-Ends (length l) (λ filled. pure (some filled)) _ (λ a. Total-pure (length l) (some a))
        (header_loop-Ends rounds t l h)

-- With one round more than there are characters `NGScanResponseLine` comes to its end.
pub scan_response_line-Ends :
    (rounds : ℕ) (l : Bytes)
    → length l < rounds
    → Ends (length l) (scan_response_line uncons rounds l)
scan_response_line-Ends rounds l h = (Total-response_line (length l) rounds h).total l (omega arith)
