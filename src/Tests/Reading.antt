-- ===== src/Tests/Reading.antt =====
-- Reading from a descriptor.
use sope_appserver.Prelude.{◌≡◌, refl, arith, codes}
use sope_appserver.Descriptor.Input.Safe.{safe_read-SafelyReads}
use sope_appserver.Descriptor.Input.Stream.{IsReadable, Reads, read-Reads, SafelyReads}
use sope_appserver.Descriptor.Input.{read, safe_read, safe_read_loop}
use sope_appserver.Descriptor.State.{Descriptor, new_with_size}
use sope_appserver.Socket.{failed, accepted, Socket}
use sope_appserver.Tests.Peers.{Peer, pair_read, pair_socket, pair_socket-IsReader, inbox_of, peer}

abbrev small : Descriptor
small = new_with_size 4

small-IsReadable : IsReadable small
small-IsReadable = record { in_buffer = omega arith; rewound = λ _. refl; fits = omega arith }

-- Three bytes arrive in two pieces; the fourth stays in the buffer.
safe_read_run : (safe_read pair_socket 3 small (peer (codes "hello"))).1 ≡ codes "hel"
unfolding safe_read safe_read_loop read pair_read
safe_read_run = refl

read-Reads_example :
    Reads inbox_of 3 small (peer (codes "hello")) (read pair_socket 3 small (peer (codes "hello")))
read-Reads_example =
    read-Reads pair_socket inbox_of pair_socket-IsReader 3 small (peer (codes "hello"))
      (omega arith) small-IsReadable

safe_read-SafelyReads_example :
    SafelyReads inbox_of 3 small
      (peer (codes "hello"))
      (safe_read pair_socket 3 small (peer (codes "hello")))
safe_read-SafelyReads_example =
    safe_read-SafelyReads pair_socket inbox_of pair_socket-IsReader 3 small (peer (codes "hello"))
      small-IsReadable

-- A socket on which every call fails or takes nothing.
abbrev dead_socket : Socket Peer
dead_socket = record { read = λ n p. (failed, p); write = λ bs p. (accepted 0, p); close = λ p. p }
