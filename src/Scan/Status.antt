-- ===== src/Scan/Status.antt =====
-- What `NGScanResponseLine` reads from a response line.
use sope_appserver.Prelude.{
  ℕ, ◌≤◌, ◌≡◌, refl, inr, Bool, true, some, [], ◌∷◌, ◌++◌, arith, Bytes, length, is_space, atoi,
}
use sope_appserver.Scan.ResponseLine.{
  ResponseLine, blank_line, in_word, in_version, before_line_end, scan_reason, scan_after_code,
  scan_code, scan_response_line,
}
use sope_appserver.Scan.RoundTrip.{Starts}
use sope_appserver.Scan.Runs.{AllPass, collect_run, skip_run}
use sope_appserver.Scan.Source.{passes}
use sope_appserver.Scan.View.Rules.{uncons}

-- A run of blanks, which for the code includes the line ends.
pub record IsGap (rounds : ℕ) (gap : Bytes) : Type 0 where
  pub blanks : AllPass is_space gap
  pub gap_fits : length gap ≤ rounds
  pub gap_start : Starts is_space gap

-- A piece of at most `n` characters that pass the test, not empty.
pub record IsPiece (test : ℕ → Bool) (n : ℕ) (piece : Bytes) : Type 0 where
  pub piece_chars : AllPass test piece
  pub piece_fits : length piece ≤ n
  pub piece_start : Starts (passes test) piece

-- What may follow the scanned part of the reason: it starts with a blank and holds no line feed.
pub record IsTail (rounds : ℕ) (tail : Bytes) : Type 0 where
  pub tail_chars : AllPass before_line_end tail
  pub tail_fits : length tail ≤ rounds
  pub tail_start : Starts is_space tail

module _ (rounds : ℕ) (rest : Bytes) where
  scan_reason-run :
      (line : ResponseLine) (x : ℕ) (xs : Bytes) (j : ℕ) (js : Bytes)
      → IsPiece in_word 6 (x ∷ xs)
      → IsTail rounds (j ∷ js)
      → scan_reason uncons rounds line (some x) (xs ++ (j ∷ (js ++ b'\n' ∷ rest)))
        ≡ some (record line { accepted = true; text = x ∷ xs }, rest)
  unfolding scan_reason
  scan_reason-run line x xs j js p t =
      rw
        (collect_run in_word 6 (x ∷ xs) j (js ++ b'\n' ∷ rest) p.piece_chars p.piece_fits
          (inr (ground (arith, t.tail_start))))
        (ground (
          arith,
          t.tail_start,
          skip_run before_line_end rounds (j ∷ js) b'\n' rest t.tail_chars t.tail_fits refl,
        ))

  scan_after_code-run :
      (line : ResponseLine) (x : ℕ) (xs : Bytes) (j : ℕ) (js : Bytes)
      → IsPiece in_word 6 (x ∷ xs)
      → IsTail rounds (j ∷ js)
      → scan_after_code uncons rounds line (some x) (xs ++ (j ∷ (js ++ b'\n' ∷ rest)))
        ≡ some (record line { accepted = true; text = x ∷ xs }, rest)
  unfolding scan_after_code
  scan_after_code-run line x xs j js p t =
      ground (arith, scan_reason-run line x xs j js p t, p.piece_start)

  scan_code-run :
      (line : ResponseLine) (y : ℕ) (ys : Bytes) (g : ℕ) (gs : Bytes) (x : ℕ) (xs : Bytes) (j : ℕ)
      (js : Bytes)
      → IsPiece in_word 6 (y ∷ ys)
      → IsGap rounds (g ∷ gs)
      → IsPiece in_word 6 (x ∷ xs)
      → IsTail rounds (j ∷ js)
      → scan_code uncons rounds line
          (some y)
          (ys ++ (g ∷ (gs ++ (x ∷ (xs ++ (j ∷ (js ++ b'\n' ∷ rest)))))))
        ≡ some (record line { accepted = true; status = atoi (y ∷ ys); text = x ∷ xs }, rest)
  unfolding scan_code
  scan_code-run line y ys g gs x xs j js c a p t =
      let behind = x ∷ (xs ++ (j ∷ (js ++ b'\n' ∷ rest))) in
      ground (
        arith,
        c.piece_start,
        collect_run in_word 6 (y ∷ ys) g (gs ++ behind) c.piece_chars c.piece_fits
            (inr (ground (arith, a.gap_start))),
        skip_run is_space rounds (g ∷ gs) x (xs ++ (j ∷ (js ++ b'\n' ∷ rest))) a.blanks a.gap_fits
            (ground (arith, p.piece_start)),
        scan_after_code-run (record line { status = atoi (y ∷ ys) }) x xs j js p t,
      )

-- A response line: the version, the status code, the reason's first word, and what is behind it.
pub record Parts : Type 0 where
  pub version : Bytes
  pub gap : Bytes
  pub code : Bytes
  pub gap' : Bytes
  pub word : Bytes
  pub tail : Bytes

pub record IsResponse (rounds : ℕ) (r : Parts) : Type 0 where
  pub version_ok : IsPiece in_version 16 r.version
  pub gap_ok : IsGap rounds r.gap
  pub code_ok : IsPiece in_word 6 r.code
  pub gap'_ok : IsGap rounds r.gap'
  pub word_ok : IsPiece in_word 6 r.word
  pub tail_ok : IsTail rounds r.tail

abbrev pub print_response : Parts → Bytes → Bytes
print_response r rest =
    r.version ++ (r.gap ++ (r.code ++ (r.gap' ++ (r.word ++ (r.tail ++ b'\n' ∷ rest)))))

abbrev pub response_of : Parts → ResponseLine
response_of r = record { accepted = true; version = r.version; status = atoi r.code; text = r.word }

scan_response_line-run :
    (rounds : ℕ) (rest version gap code gap' word tail : Bytes)
    → IsPiece in_version 16 version
    → IsGap rounds gap
    → IsPiece in_word 6 code
    → IsGap rounds gap'
    → IsPiece in_word 6 word
    → IsTail rounds tail
    → scan_response_line uncons rounds
        (version ++ (gap ++ (code ++ (gap' ++ (word ++ (tail ++ b'\n' ∷ rest))))))
      ≡ some (record { accepted = true; version = version; status = atoi code; text = word }, rest)
unfolding scan_response_line
scan_response_line-run n rest [] gap code gap' word tail v g c h w t = absurd v.piece_start
scan_response_line-run n rest (a ∷ as') [] code gap' word tail v g c h w t = absurd g.gap_start
scan_response_line-run n rest (a ∷ as') (b ∷ bs) [] gap' word tail v g c h w t =
    absurd c.piece_start
scan_response_line-run n rest (a ∷ as') (b ∷ bs) (d ∷ ds) [] word tail v g c h w t =
    absurd h.gap_start
scan_response_line-run n rest (a ∷ as') (b ∷ bs) (d ∷ ds) (e ∷ es) [] tail v g c h w t =
    absurd w.piece_start
scan_response_line-run n rest (a ∷ as') (b ∷ bs) (d ∷ ds) (e ∷ es) (f ∷ fs) [] v g c h w t =
    absurd t.tail_start
scan_response_line-run n rest (a ∷ as') (b ∷ bs) (d ∷ ds) (e ∷ es) (f ∷ fs) (j ∷ js) v g c h w t =
    let ends = f ∷ (fs ++ (j ∷ (js ++ b'\n' ∷ rest))) in
    let behind = ds ++ (e ∷ (es ++ ends)) in
    let line = record blank_line { version = a ∷ as' } in
    ground (
      arith,
      collect_run in_version 16 (a ∷ as') b (bs ++ (d ∷ behind)) v.piece_chars v.piece_fits
          (inr (ground (arith, g.gap_start))),
      g.gap_start,
      skip_run is_space n (b ∷ bs) d behind g.blanks g.gap_fits (ground (arith, c.piece_start)),
      scan_code-run n rest line d ds e es f fs j js c h w t,
    )

-- A response line in which a version of at most 16 characters, a code of at most 6 and a reason
-- whose first word has at most 6 are set apart by blanks is accepted: the version, the number that
-- `atoi` makes of the code and the word are stored, and all up to the line feed is consumed.
pub scan_response_line-print :
    (rounds : ℕ) (r : Parts) (rest : Bytes)
    → IsResponse rounds r
    → scan_response_line uncons rounds (print_response r rest) ≡ some (response_of r, rest)
scan_response_line-print rounds r rest p =
    scan_response_line-run rounds rest r.version r.gap r.code r.gap' r.word r.tail p.version_ok
      p.gap_ok p.code_ok p.gap'_ok p.word_ok p.tail_ok
