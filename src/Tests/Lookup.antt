-- ===== src/Tests/Lookup.antt =====
-- A query to the session name server, and its answer.
use sope_appserver.Prelude.{false, refl, ◌++◌, arith, Bytes, codes}
use sope_appserver.Descriptor.State.{Descriptor, new_with_size}
use sope_appserver.Sns.Reply.{expected, Gets, read_answer-Gets}
use sope_appserver.Sns.{int_bytes, read_answer}
use sope_appserver.Tests.Peers.{pair_socket, pair_socket-IsReader, inbox_of, peer}

abbrev small : Descriptor
small = new_with_size 8

abbrev reply : Bytes
reply = int_bytes 1 ++ (int_bytes 4 ++ (codes "/tmp" ++ codes "!"))

read_answer-Gets_example :
    Gets inbox_of false
      (expected 1 (codes "/tmp"))
      (codes "!")
      (read_answer pair_socket small (peer reply))
read_answer-Gets_example =
    read_answer-Gets pair_socket inbox_of pair_socket-IsReader 1 (codes "/tmp") (codes "!") small
      (peer reply) (omega arith) (omega arith) refl
      (record { in_buffer = omega arith; rewound = λ _. refl; fits = omega arith })
