-- ===== src/Tests/Answering.antt =====
-- Reading the body of a request, and passing a response on.
use sope_appserver.Handler.Body.Complete.{Takes, read_request_body-Takes}
use sope_appserver.Handler.Body.{read_request_body}
use sope_appserver.Handler.Copy.{Outgoing, copy_headers}
use sope_appserver.Handler.Response.Relay.{Answers, Announces, transfer_response-short}
use sope_appserver.Handler.Response.Totality.{Ended, transfer_response-Ended}
use sope_appserver.Handler.Response.{freed_twice, transfer_response}
use sope_appserver.Prelude.{
  ◌≡◌, refl, false, none, some, List, [], ◌∷◌, arith, Bytes, All, codes, pos, atoi,
}
use sope_appserver.Scan.RoundTrip.{IsHeader, print_headers, set_all}
use sope_appserver.Scan.Status.{print_response}
use sope_appserver.Tests.Peers.{pair_socket, pair_socket-IsReader, inbox_of, peer}
use sope_appserver.Tests.Scanning.{connected, ok_line, ok_line-IsResponse, small-IsReadable}
use sope_appserver.Tests.Tables.{Entries, enter, entry_of}

abbrev pub blank : Outgoing Entries
blank = record { content_type = none; content_encoding = none; headers_out = [] }

abbrev pub copied_of : List (Bytes × Bytes) → Outgoing Entries
copied_of hs = copy_headers entry_of (λ t. t) enter (some (set_all enter [] hs)) blank

abbrev pub sized : List (Bytes × Bytes)
sized = (codes "content-length", codes "3") ∷ []

pub sized-IsHeader : All IsHeader sized
sized-IsHeader = (
  record {
    name_chars = (
      refl,
      (
        refl,
        (
          refl,
          (
            refl,
            (refl, (refl, (refl, (refl, (refl, (refl, (refl, (refl, (refl, (refl, tt)))))))))),
          ),
        ),
      ),
    );
    name_fits = omega arith;
    name_start = refl;
    value_chars = (refl, tt);
    value_fits = omega arith;
    value_start = refl;
  },
  tt,
)

pub three : Announces (codes "3") 3
unfolding atoi
three = (refl, omega arith)

transfer_response-short_example :
    Answers
      (atoi (codes "200"))
      (copied_of sized)
      (λ content. content ≡ freed_twice)
      (transfer_response pair_socket enter entry_of
        (λ t. t)
        30
        false
        (pos 0)
        blank
        (some [])
        (connected (print_response ok_line (print_headers sized (codes "al")))))
transfer_response-short_example =
    transfer_response-short pair_socket inbox_of pair_socket-IsReader enter entry_of (λ t. t) 30
      (pos 0) blank ok_line sized [] (codes "3") 2 (codes "al")
      (connected (print_response ok_line (print_headers sized (codes "al"))))
      (small-IsReadable, refl) refl ok_line-IsResponse sized-IsHeader (omega arith) refl three
      (omega arith)

read_request_body-Takes_example :
    Takes inbox_of
      (codes "abc")
      (codes "d")
      (read_request_body pair_socket.read 5 (some (codes "3")) (peer (codes "abcd"))).1
read_request_body-Takes_example =
    read_request_body-Takes pair_socket.read inbox_of pair_socket-IsReader.delivers 5 (codes "3")
      b'a' (codes "bc") (codes "d") (peer (codes "abcd")) three.0 (omega arith) (omega arith) refl

transfer_response-Ended_example : Ended (
    transfer_response pair_socket enter entry_of
      (λ t. t)
      9
      false
      (pos 0)
      blank
      none
      (connected (codes "junk\r\n")))
transfer_response-Ended_example =
    transfer_response-Ended pair_socket inbox_of pair_socket-IsReader enter entry_of (λ t. t) 9
      false (pos 0) blank none (connected (codes "junk\r\n")) (small-IsReadable, refl) (omega arith)
