-- ===== src/Handler/Converse.antt =====
-- The middle of `ngobjweb_handler`: the connection to the instance, the request's head and body, the
-- response.
pub mod Exchange
use sope_appserver.Config.{Config, af_unix}
use sope_appserver.Descriptor.Output.{free, flush, safe_write}
use sope_appserver.Descriptor.State.{Descriptor, new_owned}
use sope_appserver.Handler.Connect.{Network, connect_instance}
use sope_appserver.Handler.Copy.{Outgoing}
use sope_appserver.Handler.Request.{Apache, Request, write_request}
use sope_appserver.Handler.Response.{
  Response, declined, error_500, undefined, no_answer, transfer_response,
}
use sope_appserver.Prelude.{
  ℕ, zero, suc, Bool, true, false, Option, none, some, ltb, ◌==◌, if◌then◌else◌, Bytes, take, codes,
  ℤ, pos, negsuc, atoi,
}
use sope_appserver.Sns.Address.{Address, unix, inet, raw, max_path_size, low_16}
use sope_appserver.Sns.Lookup.{Plug, Found, found, not_found, corrupted, send_sns_query}
use sope_appserver.Socket.{Recv}

-- What the handler uses of Apache and of the system: the tables (with the result of
-- `apr_table_make`), apr_inet_addr, whether there is memory for a descriptor, the request's body,
-- apr_sleep, and the sockets to the session name server and to the instance.
pub record Host (T W : Type 0) : Type 0 where
  pub apache : Apache T
  pub table_set : T → Bytes → Bytes → T
  pub table_made : Option T
  pub inet_addr : Bytes → ℕ
  pub memory : Bool
  pub get_block : ℕ → W → Recv × W
  pub sleep : W → W
  pub to_sns : Plug W
  pub to_app : Plug W

-- The request as the handler gets it.
pub record Call (T : Type 0) : Type 0 where
  pub handler : Option Bytes
  pub uri : Option Bytes
  pub header_only : Bool
  pub has_dir_config : Bool
  pub module_config : Option Config
  pub request : Request T
  pub out : Outgoing T

-- Of the length as `unsigned`.
abbrev pub is_positive : ℤ → Bool
is_positive (pos zero) = false
is_positive (pos (suc n)) = true
is_positive (negsuc n) = true

-- The address for a configuration with a port of an instance.
abbrev pub app_address : (Bytes → ℕ) → ℕ → Bytes → Address
app_address inet_addr domain port =
    if domain == af_unix
    then unix (take max_path_size port)
    else inet (inet_addr (codes "127.0.0.1")) (low_16 (atoi port))

module _ {T W : Type 0} (host : Host T W) (rounds : ℕ) (call : Call T) (cfg : Config)
    (content_length : ℤ) (body : Bytes) where
  abbrev pub respond : Descriptor → W → Response T W
  respond d w =
      transfer_response host.to_app.sock host.table_set host.apache.table_get host.apache.table_elts
        rounds call.header_only content_length call.out host.table_made (d, w)

  -- The result of the flush is not looked at.
  abbrev pub after_body_flush : Bool × Descriptor × W → Response T W
  after_body_flush (done, d, w) = respond d w

  abbrev pub after_body : Bool × Descriptor × W → Response T W
  after_body (true, d, w) = after_body_flush (flush host.to_app.sock d w)
  after_body (false, d, w) = error_500 (free host.to_app.sock d w)

  abbrev pub transfer_body : Descriptor → W → Response T W
  transfer_body d w =
      if is_positive content_length
      then after_body (safe_write host.to_app.sock body d w)
      else respond d w

  abbrev pub after_head : Bool × Descriptor × W → Response T W
  after_head (true, d, w) = transfer_body d w
  after_head (false, d, w) = error_500 (free host.to_app.sock d w)

  unfoldable pub converse : W → Response T W
  converse w =
      after_head (write_request host.apache host.to_app.sock cfg call.request (new_owned 512) w)

  -- Without memory for the descriptor its constructor closes the socket, and so does the handler.
  abbrev pub after_app_connect : Bool → Bool × W → Response T W
  after_app_connect memory (false, w) = error_500 w
  after_app_connect false (true, w) = error_500 (host.to_app.sock.close (host.to_app.sock.close w))
  after_app_connect true (true, w) = converse w

  abbrev pub network : Address → Network W
  network a = record {
    connect = host.to_app.connect a;
    sleep = host.sleep;
    close = host.to_app.sock.close;
  }

  abbrev pub after_app_socket : Address → Bool × W → Response T W
  after_app_socket a (false, w) = declined w
  after_app_socket a (true, w) = after_app_connect host.memory (connect_instance (network a) w)

  unfoldable pub reach : ℕ → Address → W → Response T W
  unfolding converse
  reach domain a w = after_app_socket a (host.to_app.open_socket domain w)

  abbrev pub after_lookup : Found × W → Response T W
  after_lookup (found domain len bs, w) =
      if ltb 10000 len then error_500 w else reach domain (raw bs) w
  after_lookup (not_found, w) = declined w
  after_lookup (corrupted, w) = undefined

  -- With the ports of the configuration, the name of the application and the cookie.
  unfoldable pub route : Option Bytes → Option Bytes → Bytes → Option Bytes → W → Response T W
  unfolding reach
  route (some sns_port) app_port app cookie w = after_lookup (
      send_sns_query host.to_sns host.memory host.inet_addr call.request.the_request cookie app cfg
        w)
  route none (some port) app cookie w =
      reach cfg.app_port_domain (app_address host.inet_addr cfg.app_port_domain port) w
  route none none app cookie w = error_500 w
