-- ===== src/Scan/RoundTrip.antt =====
-- `NGScanHeaders` reads back a printed header section.
use sope_appserver.Prelude.{
  ℕ, zero, suc, ◌+◌, ◌≤◌, ◌<◌, ◌≡◌, refl, inr, Bool, true, false, not, some, List, [], ◌∷◌, ◌++◌,
  arith, ◌==◌, if◌then◌else◌, Bytes, length, All, is_space,
}
use sope_appserver.Scan.Headers.{
  in_name, in_value, scan_value, scan_header, scan_line, header_loop, scan_headers,
}
use sope_appserver.Scan.Runs.{AllPass, collect_run, skip_run}
use sope_appserver.Scan.View.Rules.{uncons}

-- What can stand at the head of a header line, and of a value behind the blanks.
abbrev pub Starts : (ℕ → Bool) → Bytes → Type 0
Starts ok [] = ⊥
Starts ok (c ∷ cs) = ok c ≡ true

abbrev pub starts_line : ℕ → Bool
starts_line c = if c == b'\n' then false else not (c == b'\r')

abbrev pub starts_value : ℕ → Bool
starts_value c = not (is_space c)

-- A header that the parser can take in: its name holds no colon, neither part holds a NUL, the
-- value holds no carriage return, and both fit the buffers.
pub record IsHeader (h : Bytes × Bytes) : Type 0 where
  pub name_chars : AllPass in_name h.0
  pub name_fits : length h.0 ≤ 255
  pub name_start : Starts starts_line h.0
  pub value_chars : AllPass in_value h.1
  pub value_fits : length h.1 ≤ 7999
  pub value_start : Starts starts_value h.1

abbrev pub print_header : Bytes × Bytes → Bytes → Bytes
print_header (name, value) rest = name ++ (b':' ∷ b' ' ∷ (value ++ (b'\r' ∷ b'\n' ∷ rest)))

-- The header lines, then the empty line.
abbrev pub print_headers : List (Bytes × Bytes) → Bytes → Bytes
print_headers [] rest = b'\r' ∷ b'\n' ∷ rest
print_headers (h ∷ hs) rest = print_header h (print_headers hs rest)

scan_value-run :
    (name value rest : Bytes)
    → AllPass in_value value
    → length value ≤ 7999
    → Starts starts_value value
    → scan_value uncons name
        (uncons (value ++ (b'\r' ∷ b'\n' ∷ rest))).0
        (uncons (value ++ (b'\r' ∷ b'\n' ∷ rest))).1
      ≡ some (some (name, value), rest)
unfolding scan_value
scan_value-run name [] rest h k s = absurd s
scan_value-run name (v ∷ vs) rest h k s =
    rw (collect_run in_value 7999 (v ∷ vs) b'\r' (b'\n' ∷ rest) h k (inr refl)) (ground arith)

scan_header-run :
    (rounds : ℕ) (n : ℕ) (ns : Bytes) (v : ℕ) (vs : Bytes) (rest : Bytes)
    → IsHeader (n ∷ ns, v ∷ vs)
    → scan_header uncons
        (suc rounds)
        (some n)
        (ns ++ (b':' ∷ b' ' ∷ v ∷ (vs ++ (b'\r' ∷ b'\n' ∷ rest))))
      ≡ some (some (n ∷ ns, v ∷ vs), rest)
unfolding scan_header
scan_header-run rounds n ns v vs rest p =
    let behind = v ∷ (vs ++ (b'\r' ∷ b'\n' ∷ rest)) in
    rw (collect_run in_name 255 (n ∷ ns) b':' (b' ' ∷ behind) p.name_chars p.name_fits (inr refl)) (
      ground (
        arith,
        skip_run is_space (suc rounds) (b' ' ∷ []) v (vs ++ (b'\r' ∷ b'\n' ∷ rest)) (refl, tt)
            (omega arith) (ground arith),
        scan_value-run (n ∷ ns) (v ∷ vs) rest p.value_chars p.value_fits p.value_start,
      ))

-- One line of a header section.
pub scan_line-run :
    (rounds : ℕ) (h : Bytes × Bytes) (rest : Bytes)
    → IsHeader h
    → scan_line uncons (suc rounds) (print_header h rest) ≡ some (some h, rest)
unfolding scan_line
scan_line-run rounds ([], value) rest p = absurd p.name_start
scan_line-run rounds (n ∷ ns, []) rest p = absurd p.value_start
scan_line-run rounds (n ∷ ns, v ∷ vs) rest p =
    ground (arith, scan_header-run rounds n ns v vs rest p, p.name_chars.0, p.name_start)

module _ {T : Type 0} (table_set : T → Bytes → Bytes → T) where
  abbrev pub set_all : T → List (Bytes × Bytes) → T
  set_all t [] = t
  set_all t ((name, value) ∷ hs) = set_all (table_set t name value) hs

  header_loop-run :
      (rounds : ℕ) (hs : List (Bytes × Bytes)) (t : T) (rest : Bytes)
      → All IsHeader hs
      → length hs + 1 < rounds
      → header_loop uncons table_set rounds t (print_headers hs rest) ≡ some (set_all t hs, rest)
  unfolding header_loop
  header_loop-run zero hs t rest p h = absurd (omega arith)
  header_loop-run (suc zero) hs t rest p h = absurd (omega arith)
  header_loop-run (suc (suc rounds)) [] t rest p h = refl
  header_loop-run (suc (suc rounds)) ((name, value) ∷ hs) t rest (p, ps) h =
      rw (scan_line-run rounds (name, value) (print_headers hs rest) p)
        (header_loop-run (suc rounds) hs (table_set t name value) rest ps (omega arith))

  -- A printed section of proper headers is read back: the table gets exactly these headers, in
  -- order, and the parser stops behind the empty line.
  pub scan_headers-print :
      (rounds : ℕ) (hs : List (Bytes × Bytes)) (t : T) (rest : Bytes)
      → All IsHeader hs
      → length hs + 1 < rounds
      → scan_headers uncons table_set rounds (some t) (print_headers hs rest)
        ≡ some (some (set_all t hs), rest)
  unfolding scan_headers
  scan_headers-print rounds hs t rest p h = rw (header_loop-run rounds hs t rest p h)
