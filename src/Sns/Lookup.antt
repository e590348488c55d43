-- ===== src/Sns/Lookup.antt =====
-- `_sendSNSQuery` as a whole: the connection to the session name server, the query, the answer, and
-- the life of the descriptor.
pub mod Balance
pub mod Finding
use sope_appserver.Config.{Config, af_unix, af_inet}
use sope_appserver.Descriptor.Output.{free}
use sope_appserver.Descriptor.State.{Descriptor, new_owned}
use sope_appserver.Prelude.{ℕ, Bool, true, false, Option, none, some, [], Bytes}
use sope_appserver.Sns.Address.{Address, unix, inet, raw, sns_address}
use sope_appserver.Sns.{Answer, address, refused, overflow, send_query, read_answer}
use sope_appserver.Socket.{Socket}

-- What is returned: a domain, a length and the address, or the null pointer. The last case is
-- undefined behaviour: a write behind the end of the buffer, or a call on the descriptor that has
-- met with it.
pub data Found : Type 0 where
  found : ℕ → ℕ → Bytes → Found
  not_found : Found
  corrupted : Found

-- socket(2) and connect(2), with whether their results tell of success.
pub record Plug (W : Type 0) : Type 0 where
  pub open_socket : ℕ → W → Bool × W
  pub connect : Address → W → Bool × W
  pub sock : Socket W

abbrev pub family : Address → ℕ
family (unix path) = af_unix
family (inet host port) = af_inet
family (raw bytes) = af_unix

abbrev pub or_empty : Option Bytes → Bytes
or_empty none = []
or_empty (some s) = s

module _ {W : Type 0} (plug : Plug W) (memory : Bool) where
  abbrev pub unless_faulted : Bool → W → Found × W → Found × W
  unless_faulted true w x = (corrupted, w)
  unless_faulted false w x = x

  abbrev pub after_answer : Answer × Descriptor × W → Found × W
  after_answer (address domain size bs, d, w) =
      unless_faulted d.faulted w (found domain size bs, free plug.sock d w)
  after_answer (refused code, d, w) = unless_faulted d.faulted w (not_found, free plug.sock d w)
  after_answer (overflow, d, w) = (corrupted, w)

  abbrev pub after_query : Bool × Descriptor × W → Found × W
  after_query (true, d, w) = after_answer (read_answer plug.sock d w)
  after_query (false, d, w) = unless_faulted d.faulted w (not_found, free plug.sock d w)

  module _ (line app cookie : Bytes) where
    -- Without memory for the descriptor its constructor closes the socket, and so does the caller.
    abbrev pub after_connect : Bool → Bool × W → Found × W
    after_connect m (false, w) = (not_found, plug.sock.close w)
    after_connect false (true, w) = (not_found, plug.sock.close (plug.sock.close w))
    after_connect true (true, w) =
        after_query (send_query plug.sock line app cookie (new_owned 1024) w)

    abbrev pub after_socket : Address → Bool × W → Found × W
    after_socket a (false, w) = (not_found, w)
    after_socket a (true, w) = after_connect memory (plug.connect a w)

    abbrev pub ask : Option Address → W → Found × W
    ask none w = (not_found, w)
    ask (some a) w = after_socket a (plug.open_socket (family a) w)

  unfoldable pub send_sns_query :
      (Bytes → ℕ) → Option Bytes → Option Bytes → Bytes → Config → W → Found × W
  send_sns_query inet_addr line cookie app cfg =
      ask (or_empty line) app (or_empty cookie) (sns_address inet_addr cfg)
