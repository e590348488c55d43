-- ===== src/Tests/Serving.antt =====
-- A request that goes through the whole handler.
use sope_appserver.Config.{Config, create_dir_config, set_app_port}
use sope_appserver.Handler.AppName.{extract_app_name}
use sope_appserver.Handler.Body.{whole, read_request_body}
use sope_appserver.Handler.Connect.{connect_instance}
use sope_appserver.Handler.Converse.Exchange.{sent_body}
use sope_appserver.Handler.Converse.{Host, Call}
use sope_appserver.Handler.Guards.{is_ours, takes_uri, app_name}
use sope_appserver.Handler.Handle.Service.{Reaches, handle-content}
use sope_appserver.Handler.Handle.{handle}
use sope_appserver.Handler.Request.Emission.{request_text}
use sope_appserver.Handler.Request.{Request}
use sope_appserver.Handler.Response.Relay.{SendsClosed, Answers}
use sope_appserver.Prelude.{
  refl, ◌⊎◌, true, false, some, [], ◌∷◌, ◌++◌, arith, Bytes, codes, pos, atoi,
}
use sope_appserver.Scan.RoundTrip.{print_headers}
use sope_appserver.Scan.Status.{print_response}
use sope_appserver.Socket.{got}
use sope_appserver.Tests.Answering.{blank, copied_of, sized, sized-IsHeader, three}
use sope_appserver.Tests.Instances.{
  Instance, asked_of, Untold, pending_of, instance_plug, instance_socket-IsReader,
  instance_socket-IsWriter, Untold-kept, instance_answers,
}
use sope_appserver.Tests.Scanning.{ok_line, ok_line-IsResponse}
use sope_appserver.Tests.Tables.{Entries, enter}
use sope_appserver.Tests.Transfer.{apache, request}

abbrev cfg : Config
cfg = set_app_port create_dir_config (codes "20000")

abbrev pub posted : Request Entries
posted = record request { headers_in = some ((codes "content-length", codes "3") ∷ []) }

abbrev pub call : Call Entries
call = record {
  handler = some (codes "ngobjweb-adaptor");
  uri = some (codes "/app/x");
  header_only = false;
  has_dir_config = true;
  module_config = some cfg;
  request = posted;
  out = blank;
}

abbrev expected : Bytes
expected = request_text apache cfg posted ++ sent_body (pos 3) (codes "x=1")

abbrev pub answer : Bytes
answer = print_response ok_line (print_headers sized (codes "all more"))

-- The client sends its three bytes at once.
abbrev host : Host Entries Instance
host = record {
  apache = apache;
  table_set = enter;
  table_made = some [];
  inet_addr = λ s. 0;
  memory = true;
  get_block = λ n v. (got b'x' (codes "=1"), v);
  sleep = λ v. v;
  to_sns = instance_plug expected answer;
  to_app = instance_plug expected answer;
}

abbrev pub idle : Instance
idle = record { asked = []; told = 0 }

reached : Reaches host 30 call cfg (pos 3) (codes "x=1") idle idle
unfolding is_ours takes_uri app_name extract_app_name read_request_body connect_instance atoi
    set_app_port create_dir_config
reached = record {
  app = codes "app";
  headers = (codes "content-length", codes "3") ∷ [];
  read = idle;
  port = codes "20000";
  takes = record {
    uri = codes "/app/x";
    content = whole (codes "x=1");
    ours = refl;
    located = refl;
    taken = refl;
    configured = refl;
    named = refl;
    has_headers = refl;
    carried = refl;
    carries = refl;
  };
  no_sns_port = refl;
  has_port = refl;
  connects = record { opened = idle; opens = refl; connects = refl; has_memory = refl };
}

handle-content_example :
    ⊥
    ⊎ Answers
        (atoi (codes "200"))
        (copied_of sized)
        (SendsClosed (codes "all"))
        (handle host 30 call idle)
handle-content_example =
    handle-content host asked_of (pending_of expected answer) Untold 30 call cfg (pos 3)
      (codes "x=1") idle idle ok_line sized [] (codes "3") b'a' (codes "ll") (codes " more")
      (instance_socket-IsWriter expected answer) (instance_socket-IsReader expected answer)
      (Untold-kept expected answer) reached refl refl (instance_answers expected answer) refl refl
      ok_line-IsResponse sized-IsHeader (omega arith) refl three
