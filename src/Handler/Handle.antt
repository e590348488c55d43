-- ===== src/Handler/Handle.antt =====
-- `ngobjweb_handler`.
pub mod Admission
pub mod Refusals
pub mod Service
pub mod Lookup
use sope_appserver.Config.{Config}
use sope_appserver.Handler.Body.{
  Body, no_content, not_read, whole, incomplete, before_start, endless, too_large,
  read_request_body,
}
use sope_appserver.Handler.Converse.{Host, Call, route}
use sope_appserver.Handler.Guards.{is_ours, takes_uri, get_config, app_name}
use sope_appserver.Handler.Response.{Response, declined, error_500, undefined, no_answer}
use sope_appserver.Prelude.{
  ℕ, Bool, true, false, Option, none, some, [], if◌then◌else◌, Bytes, codes, ℤ,
}

module _ {T W : Type 0} (host : Host T W) (rounds : ℕ) (call : Call T) where
  module _ (cfg : Config) where
    abbrev pub go_to : Bytes → Option Bytes → ℤ → Bytes → W → Response T W
    go_to app cookie content_length body =
        route host rounds call cfg content_length body cfg.sns_port cfg.app_port app cookie

    abbrev pub after_request_body : Bytes → Option Bytes → ℤ × (Body × W) → Response T W
    after_request_body app cookie (n, (no_content, w)) = go_to app cookie n [] w
    after_request_body app cookie (n, (not_read, w)) = go_to app cookie n [] w
    after_request_body app cookie (n, (whole bs, w)) = go_to app cookie n bs w
    after_request_body app cookie (n, (incomplete, w)) = error_500 w
    after_request_body app cookie (n, (before_start, w)) = undefined
    after_request_body app cookie (n, (endless, w)) = no_answer
    after_request_body app cookie (n, (too_large, w)) = undefined

    -- A missing table of headers is read through a null pointer.
    abbrev pub with_headers : Bytes → Option T → W → Response T W
    with_headers app none w = undefined
    with_headers app (some t) w =
        after_request_body app (host.apache.table_get t (codes "cookie")) (
          read_request_body host.get_block rounds (host.apache.table_get t (codes "content-length"))
            w)

    abbrev pub with_name : Option Bytes → W → Response T W
    with_name none w = undefined
    with_name (some app) w = with_headers app call.request.headers_in w

  abbrev pub with_config : Option Config → Bytes → W → Response T W
  with_config none uri w = error_500 w
  with_config (some cfg) uri w = with_name cfg (app_name cfg uri) w

  abbrev pub with_uri : Option Bytes → W → Response T W
  with_uri none w = declined w
  with_uri (some uri) w = with_config (get_config call.has_dir_config call.module_config) uri w

  unfoldable pub handle : W → Response T W
  handle w =
      if is_ours call.handler
      then (if takes_uri call.uri then with_uri call.uri w else declined w)
      else declined w
