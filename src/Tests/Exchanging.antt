-- ===== src/Tests/Exchanging.antt =====
-- Whole exchanges, and the guards of the handler.
use sope_appserver.Handler.Converse.Exchange.{sent_body, converse-to_end}
use sope_appserver.Handler.Converse.{Host, Call, converse}
use sope_appserver.Handler.Handle.Refusals.{resource, handle-Foreign}
use sope_appserver.Handler.Handle.{handle}
use sope_appserver.Handler.Request.Emission.{request_text}
use sope_appserver.Handler.Response.Relay.{SendsOpen, Answers}
use sope_appserver.Handler.Response.{declined}
use sope_appserver.Prelude.{
  ◌≡◌, refl, ◌⊎◌, true, false, some, [], ◌++◌, arith, Bytes, codes, pos, atoi,
}
use sope_appserver.Scan.RoundTrip.{print_headers}
use sope_appserver.Scan.Status.{print_response}
use sope_appserver.Socket.{ended}
use sope_appserver.Tests.Answering.{blank, copied_of, sized}
use sope_appserver.Tests.Instances.{
  Instance, asked_of, Untold, pending_of, instance_plug, instance_socket-IsReader,
  instance_socket-IsWriter, Untold-kept, instance_answers,
}
use sope_appserver.Tests.Scanning.{ok_line, ok_line-IsResponse, two_headers, two_headers-IsHeader}
use sope_appserver.Tests.Tables.{Entries, enter}
use sope_appserver.Tests.Transfer.{apache, cfg, request}

-- A request with the body "x=1", and an instance that waits for it.
abbrev body : Bytes
body = codes "x=1"

abbrev expected : Bytes
expected = request_text apache cfg request ++ sent_body (pos 3) body

abbrev host_for : Bytes → Host Entries Instance
host_for response = record {
  apache = apache;
  table_set = enter;
  table_made = some [];
  inet_addr = λ s. 0;
  memory = true;
  get_block = λ n v. (ended, v);
  sleep = λ v. v;
  to_sns = instance_plug expected response;
  to_app = instance_plug expected response;
}

abbrev call : Call Entries
call = record {
  handler = some (codes "ngobjweb-adaptor");
  uri = some (codes "/a/WebServerResources/b.gif");
  header_only = false;
  has_dir_config = true;
  module_config = some cfg;
  request = request;
  out = blank;
}

abbrev idle : Instance
idle = record { asked = []; told = 0 }

abbrev sized_answer : Bytes
sized_answer = print_response ok_line (print_headers sized (codes "all more"))

abbrev open_answer : Bytes
open_answer = print_response ok_line (print_headers two_headers (codes "all"))

converse-to_end_example :
    ⊥
    ⊎ Answers
        (atoi (codes "200"))
        (copied_of two_headers)
        (SendsOpen (codes "all"))
        (converse (host_for open_answer) 30 call cfg (pos 3) body idle)
converse-to_end_example =
    converse-to_end (host_for open_answer) asked_of (pending_of expected open_answer)
      (instance_socket-IsWriter expected open_answer) Untold (Untold-kept expected open_answer) 30
      call cfg (instance_socket-IsReader expected open_answer) (pos 3) body ok_line two_headers []
      (codes "all") idle refl refl refl refl (instance_answers expected open_answer)
      ok_line-IsResponse two_headers-IsHeader (omega arith) (omega arith) refl

handle-Foreign_example : handle (host_for []) 30 call idle ≡ declined idle
handle-Foreign_example =
    handle-Foreign (host_for []) 30 call idle (resource (codes "/a/") (codes "/b.gif") refl)
