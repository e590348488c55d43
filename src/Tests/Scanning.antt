-- ===== src/Tests/Scanning.antt =====
-- Parsing a response from a connection.
use sope_appserver.Prelude.{◌≡◌, refl, some, List, [], ◌∷◌, arith, Bytes, All, codes, pos, atoi}
use sope_appserver.Descriptor.Input.Stream.{IsReadable}
use sope_appserver.Descriptor.State.{Descriptor, new_with_size}
use sope_appserver.Scan.Connected.{
  Connection, chars, Yields, scan_response_line-Yields, scan_headers-Yields,
}
use sope_appserver.Scan.Headers.{scan_headers}
use sope_appserver.Scan.ResponseLine.{scan_response_line}
use sope_appserver.Scan.RoundTrip.{IsHeader, print_headers, set_all}
use sope_appserver.Scan.Status.{Parts, IsResponse, print_response, response_of}
use sope_appserver.Tests.Tables.{enter}
use sope_appserver.Tests.Peers.{Peer, pair_socket, pair_socket-IsReader, inbox_of, peer}

abbrev pub small : Descriptor
small = new_with_size 8

pub small-IsReadable : IsReadable small
small-IsReadable = record { in_buffer = omega arith; rewound = λ _. refl; fits = omega arith }

abbrev pub connected : Bytes → Connection Peer
connected bs = (small, peer bs)

abbrev pub ok_line : Parts
ok_line = record {
  version = codes "HTTP/1.0";
  gap = codes " ";
  code = codes "200";
  gap' = codes " ";
  word = codes "OK";
  tail = b'\r' ∷ [];
}

pub ok_line-IsResponse : IsResponse 30 ok_line
ok_line-IsResponse = record {
  version_ok = record {
    piece_chars = (refl, (refl, (refl, (refl, (refl, (refl, (refl, (refl, tt))))))));
    piece_fits = omega arith;
    piece_start = refl;
  };
  gap_ok = record { blanks = (refl, tt); gap_fits = omega arith; gap_start = refl };
  code_ok = record {
    piece_chars = (refl, (refl, (refl, tt)));
    piece_fits = omega arith;
    piece_start = refl;
  };
  gap'_ok = record { blanks = (refl, tt); gap_fits = omega arith; gap_start = refl };
  word_ok = record {
    piece_chars = (refl, (refl, tt));
    piece_fits = omega arith;
    piece_start = refl;
  };
  tail_ok = record { tail_chars = (refl, tt); tail_fits = omega arith; tail_start = refl };
}

status_run : (response_of ok_line).status ≡ pos 200
status_run = unfold atoi in refl

scan_response_line-Yields_example :
    Yields inbox_of
      (response_of ok_line)
      (codes "X")
      (scan_response_line (chars pair_socket) 30 (connected (print_response ok_line (codes "X"))))
scan_response_line-Yields_example =
    scan_response_line-Yields pair_socket inbox_of pair_socket-IsReader 30 ok_line (codes "X")
      (connected (print_response ok_line (codes "X"))) (small-IsReadable, refl) refl
      ok_line-IsResponse

-- Where the reason is missing the blanks behind the code reach into the next line, whose first word
-- is taken for the reason.
abbrev no_reason : Parts
no_reason = record {
  version = codes "HTTP/1.0";
  gap = codes " ";
  code = codes "204";
  gap' = b'\r' ∷ b'\n' ∷ [];
  word = codes "Via:";
  tail = b' ' ∷ b'x' ∷ b'\r' ∷ [];
}

no_reason-IsResponse : IsResponse 30 no_reason
no_reason-IsResponse = record {
  version_ok = ok_line-IsResponse.version_ok;
  gap_ok = ok_line-IsResponse.gap_ok;
  code_ok = record {
    piece_chars = (refl, (refl, (refl, tt)));
    piece_fits = omega arith;
    piece_start = refl;
  };
  gap'_ok = record { blanks = (refl, (refl, tt)); gap_fits = omega arith; gap_start = refl };
  word_ok = record {
    piece_chars = (refl, (refl, (refl, (refl, tt))));
    piece_fits = omega arith;
    piece_start = refl;
  };
  tail_ok = record {
    tail_chars = (refl, (refl, (refl, tt)));
    tail_fits = omega arith;
    tail_start = refl;
  };
}

missing_reason : Yields inbox_of (response_of no_reason) (b'\r' ∷ b'\n' ∷ []) (
    scan_response_line
      (chars pair_socket)
      30
      (connected (print_response no_reason (b'\r' ∷ b'\n' ∷ []))))
missing_reason =
    scan_response_line-Yields pair_socket inbox_of pair_socket-IsReader 30 no_reason
      (b'\r' ∷ b'\n' ∷ []) (connected (print_response no_reason (b'\r' ∷ b'\n' ∷ [])))
      (small-IsReadable, refl) refl no_reason-IsResponse

abbrev pub two_headers : List (Bytes × Bytes)
two_headers = (codes "Age", codes "1") ∷ (codes "Via", codes "a b") ∷ []

pub two_headers-IsHeader : All IsHeader two_headers
two_headers-IsHeader = (
  record {
    name_chars = (refl, (refl, (refl, tt)));
    name_fits = omega arith;
    name_start = refl;
    value_chars = (refl, tt);
    value_fits = omega arith;
    value_start = refl;
  },
  (
    record {
      name_chars = (refl, (refl, (refl, tt)));
      name_fits = omega arith;
      name_start = refl;
      value_chars = (refl, (refl, (refl, tt)));
      value_fits = omega arith;
      value_start = refl;
    },
    tt,
  ),
)

scan_headers-Yields_example : Yields inbox_of (some (set_all enter [] two_headers)) (codes "body") (
    scan_headers
      (chars pair_socket)
      enter
      5
      (some [])
      (connected (print_headers two_headers (codes "body"))))
scan_headers-Yields_example =
    scan_headers-Yields pair_socket inbox_of pair_socket-IsReader enter 5 two_headers []
      (codes "body") (connected (print_headers two_headers (codes "body"))) (small-IsReadable, refl)
      refl two_headers-IsHeader (omega arith)
