-- ===== src/Tests/Writing.antt =====
-- Writing to a descriptor.
use sope_appserver.Prelude.{
  ◌≡◌, refl, true, false, [], ◌∷◌, ◌++◌, arith, Bytes, length, take, take_all, min, codes,
}
use sope_appserver.Descriptor.Header.Emission.{
  header_line, write_http_header-Outcome, WritesLine, write_http_header-WritesLine,
}
use sope_appserver.Descriptor.Header.Encoding.{encode}
use sope_appserver.Descriptor.Header.{write_http_header}
use sope_appserver.Descriptor.Output.Delivery.{IsWritable, Writes, write-Writes}
use sope_appserver.Descriptor.Output.Steps.{Outcome}
use sope_appserver.Descriptor.Output.{write, write_loop, drain_loop, flush}
use sope_appserver.Descriptor.State.{Descriptor, new_with_size}
use sope_appserver.Socket.{Sent, ended, accepted, Socket, Accepts, IsWriter}
use sope_appserver.Tests.Peers.{pair_socket, pair_socket-IsWriter, outbox_of, peer, Accepts-part}

abbrev small : Descriptor
small = new_with_size 4

small-IsWritable : IsWritable small
small-IsWritable = record { has_room = omega arith }

-- Four bytes go out, the fifth waits.
write_run : (write pair_socket (codes "hello") small (peer [])).2.outbox ≡ codes "hell"
unfolding write write_loop drain_loop
write_run = refl

write-Writes_example :
    Writes ⊥ outbox_of
      (codes "hello")
      5
      small
      (peer [])
      (write pair_socket (codes "hello") small (peer []))
write-Writes_example =
    write-Writes pair_socket outbox_of pair_socket-IsWriter (codes "hello") small (peer [])
      small-IsWritable

abbrev two_lines : Bytes
two_lines = b'a' ∷ b'\n' ∷ b'%' ∷ []

write_http_header-Outcome_example :
    Outcome ⊥ outbox_of
      (header_line (codes "X") two_lines)
      small
      (peer [])
      (write_http_header pair_socket (codes "X") two_lines small (peer []))
write_http_header-Outcome_example =
    write_http_header-Outcome pair_socket outbox_of pair_socket-IsWriter (codes "X") two_lines small
      (peer []) small-IsWritable

write_http_header-WritesLine_example :
    WritesLine pair_socket outbox_of pair_socket-IsWriter
      (codes "X")
      small
      (peer [])
      (write_http_header pair_socket (codes "X") two_lines small (peer []))
write_http_header-WritesLine_example =
    write_http_header-WritesLine pair_socket outbox_of pair_socket-IsWriter (codes "X") two_lines
      small (peer []) small-IsWritable

encode_run : encode two_lines ≡ codes "a%10%37"
unfolding encode
encode_run = refl

-- A socket that takes at most so many bytes in its first calls, and all afterwards.
record Flaky : Type 0 where
  limits : Bytes
  taken : Bytes

abbrev flaky_write : Bytes → Bytes → Bytes → Sent × Flaky
flaky_write [] out bs = (accepted (length bs), record { limits = []; taken = out ++ bs })
flaky_write (n ∷ ns) out bs = (
  accepted (min n (length bs)),
  record { limits = ns; taken = out ++ take (min n (length bs)) bs },
)

abbrev flaky_socket : Socket Flaky
flaky_socket = record {
  read = λ n f. (ended, f);
  write = λ bs f. flaky_write f.limits f.taken bs;
  close = λ f. f;
}

abbrev taken_of : Flaky → Bytes
taken_of f = f.taken

flaky_write-Accepts :
    (limits out bs : Bytes) (f : Flaky)
    → f.taken ≡ out
    → Accepts (Unit {0}) taken_of bs f (flaky_write limits out bs)
flaky_write-Accepts [] out bs f e =
    Accepts-part (Unit {0}) taken_of (length bs) bs f _ (omega arith) (λ _. tt)
      (rw (e, take_all (length bs) bs (omega arith)))
flaky_write-Accepts (n ∷ ns) out bs f e =
    Accepts-part (Unit {0}) taken_of (min n (length bs)) bs f _ (omega arith) (λ _. tt) (rw e)

flaky_socket-IsWriter : IsWriter flaky_socket taken_of (Unit {0})
flaky_socket-IsWriter = record {
  accepts = λ bs f _. flaky_write-Accepts f.limits f.taken bs f refl;
}

abbrev three_waiting : Descriptor
three_waiting = record small { write_buffer = codes "abc" }

abbrev at_first : Flaky
at_first = record { limits = 2 ∷ 0 ∷ []; taken = [] }

abbrev then_on : Flaky
then_on = record { limits = []; taken = codes "ab" }

abbrev at_last : Flaky
at_last = record { limits = []; taken = codes "ababc" }

first_flush : flush flaky_socket three_waiting at_first ≡ (false, three_waiting, then_on)
unfolding flush drain_loop
first_flush = refl

second_flush : flush flaky_socket three_waiting then_on ≡ (true, small, at_last)
unfolding flush drain_loop
second_flush = refl
