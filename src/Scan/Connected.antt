-- ===== src/Scan/Connected.antt =====
-- The parsers on a buffered descriptor: the descriptor fills their interface.
use sope_appserver.Prelude.{
  ℕ, ◌+◌, ◌≤◌, ◌<◌, ◌≡◌, false, Option, none, some, List, ◌∙◌, Bytes, length, All,
}
use sope_appserver.Descriptor.Input.Safe.{read_char-uncons}
use sope_appserver.Descriptor.Input.Stream.{IsReadable, stream}
use sope_appserver.Descriptor.Input.{read_char}
use sope_appserver.Descriptor.State.{Descriptor}
use sope_appserver.Scan.Headers.{scan_headers}
use sope_appserver.Scan.ResponseLine.{scan_response_line}
use sope_appserver.Scan.RoundTrip.{IsHeader, print_headers, set_all, scan_headers-print}
use sope_appserver.Scan.Status.{
  Parts, IsResponse, print_response, response_of, scan_response_line-print,
}
use sope_appserver.Scan.Totality.{Ends, scan_headers-Ends, scan_response_line-Ends}
use sope_appserver.Scan.View.Parsers.{Follows-response_line, Follows-headers}
use sope_appserver.Scan.View.Rules.{IsStream, Agree}
use sope_appserver.Socket.{Socket, IsReader}

-- A descriptor with its socket, as one state.
abbrev pub Connection : Type 0 → Type 0
Connection W = Descriptor × W

module _ {W : Type 0} where
  abbrev pub chars : Socket W → Connection W → Option ℕ × Connection W
  chars sock (d, w) = let (c, d', w') = read_char sock d w in (c, (d', w'))

  abbrev pub IsSound : Connection W → Type 0
  IsSound (d, w) = IsReadable d × (d.faulted ≡ false)

  abbrev pub unseen : (W → Bytes) → Connection W → Bytes
  unseen pending (d, w) = stream pending d w

-- A parser ended with this result, on a sound connection that has just `rest` left.
abbrev pub Yields : {W A : Type 0} → (W → Bytes) → A → Bytes → Option (A × Connection W) → Type 0
Yields pending a rest none = ⊥
Yields pending a rest (some (b, s)) = (b ≡ a) × IsSound s × (unseen pending s ≡ rest)

-- A parser ended, on a sound connection that has at most `n` characters left.
abbrev pub Stops : {W A : Type 0} → (W → Bytes) → ℕ → Option (A × Connection W) → Type 0
Stops pending n none = ⊥
Stops pending n (some (a, s)) = IsSound s × (length (unseen pending s) ≤ n)

module _ {W A : Type 0} (pending : W → Bytes) where
  Yields-of_Agree :
      (a : A) (rest : Bytes) (x : Option (A × Connection W)) (y : Option (A × Bytes))
      → y ≡ some (a, rest)
      → Agree IsSound (unseen pending) x y
      → Yields pending a rest x
  Yields-of_Agree a rest none none e p = cc
  Yields-of_Agree a rest none (some z) e p = p
  Yields-of_Agree a rest (some (b, s)) none e p = absurd p
  Yields-of_Agree a rest (some (b, s)) (some (c, l)) e (p, v, q) = (cc, v, cc)

  Stops-of_Agree :
      (n : ℕ) (x : Option (A × Connection W)) (y : Option (A × Bytes))
      → Ends n y
      → Agree IsSound (unseen pending) x y
      → Stops pending n x
  Stops-of_Agree n none none e p = e
  Stops-of_Agree n none (some z) e p = p
  Stops-of_Agree n (some (b, s)) none e p = absurd p
  Stops-of_Agree n (some (b, s)) (some (c, l)) e (p, v, q) = (v, rw q e)

module _ {W : Type 0} (sock : Socket W) (pending : W → Bytes) (reader : IsReader sock pending) where
  chars-IsStream : IsStream (chars sock) IsSound (unseen pending)
  chars-IsStream = record {
    reads = λ (d, w) (v, f). (read_char-uncons sock pending reader d w v).0;
    stays =
        λ (d, w) (v, f). let (e, u, g) = read_char-uncons sock pending reader d w v in (u, g ∙ f);
  }

  -- When the stream behind a sound connection does not break and begins with a response line that
  -- is proper for the number of rounds, `NGScanResponseLine` accepts it, stores its parts, and
  -- leaves the rest of the stream, in whatever pieces the system delivers the stream.
  pub scan_response_line-Yields :
      (rounds : ℕ) (r : Parts) (rest : Bytes) (s : Connection W)
      → IsSound s
      → unseen pending s ≡ print_response r rest
      → IsResponse rounds r
      → Yields pending (response_of r) rest (scan_response_line (chars sock) rounds s)
  scan_response_line-Yields rounds r rest s v e p =
      Yields-of_Agree pending (response_of r) rest _ _
        (rw e (scan_response_line-print rounds r rest p))
        ((Follows-response_line chars-IsStream rounds).follows s v)

  -- On a sound connection over a stream that does not break `NGScanResponseLine` ends, with more
  -- rounds than there are characters; the connection stays sound and has no more characters left.
  pub scan_response_line-Stops :
      (rounds : ℕ) (s : Connection W)
      → IsSound s
      → length (unseen pending s) < rounds
      → Stops pending (length (unseen pending s)) (scan_response_line (chars sock) rounds s)
  scan_response_line-Stops rounds s v h =
      Stops-of_Agree pending _ _ _ (scan_response_line-Ends rounds (unseen pending s) h)
        ((Follows-response_line chars-IsStream rounds).follows s v)

  module _ {T : Type 0} (table_set : T → Bytes → Bytes → T) where
    -- When the stream behind a sound connection does not break and begins with a printed section of
    -- proper headers, and there are two rounds more than headers, `NGScanHeaders` sets exactly
    -- these in the table, in order, and leaves the rest of the stream, in whatever pieces the
    -- system delivers the stream.
    pub scan_headers-Yields :
        (rounds : ℕ) (hs : List (Bytes × Bytes)) (t : T) (rest : Bytes) (s : Connection W)
        → IsSound s
        → unseen pending s ≡ print_headers hs rest
        → All IsHeader hs
        → length hs + 1 < rounds
        → Yields pending
            (some (set_all table_set t hs))
            rest
            (scan_headers (chars sock) table_set rounds (some t) s)
    scan_headers-Yields rounds hs t rest s v e p h =
        Yields-of_Agree pending (some (set_all table_set t hs)) rest _ _
          (rw e (scan_headers-print table_set rounds hs t rest p h))
          ((Follows-headers chars-IsStream table_set rounds (some t)).follows s v)

    -- On a sound connection over a stream that does not break `NGScanHeaders` ends, with at least
    -- two rounds more than there are characters; the connection stays sound and has no more
    -- characters left.
    pub scan_headers-Stops :
        (rounds : ℕ) (t : Option T) (s : Connection W)
        → IsSound s
        → length (unseen pending s) + 1 < rounds
        → Stops pending (length (unseen pending s)) (scan_headers (chars sock) table_set rounds t s)
    scan_headers-Stops rounds t s v h =
        Stops-of_Agree pending _ _ _ (scan_headers-Ends table_set rounds t (unseen pending s) h)
          ((Follows-headers chars-IsStream table_set rounds t).follows s v)
