-- ===== src/Tests/Asking.antt =====
-- A request for an instance that the session name server knows, through the whole handler.
use sope_appserver.Config.{Config, create_dir_config, set_sns_port}
use sope_appserver.Handler.AppName.{extract_app_name}
use sope_appserver.Handler.Body.{whole, read_request_body}
use sope_appserver.Handler.Connect.{connect_instance}
use sope_appserver.Handler.Converse.Exchange.{sent_body}
use sope_appserver.Handler.Converse.{Host, Call}
use sope_appserver.Handler.Guards.{is_ours, takes_uri, app_name}
use sope_appserver.Handler.Handle.Lookup.{Asks, Server, handle-found}
use sope_appserver.Handler.Handle.{handle}
use sope_appserver.Handler.Request.Emission.{request_text}
use sope_appserver.Handler.Response.Relay.{SendsClosed, Answers}
use sope_appserver.Prelude.{
  ℕ, zero, suc, refl, ◌⊎◌, true, false, none, some, [], ◌∷◌, ◌++◌, arith, Bytes, codes, pos, atoi,
}
use sope_appserver.Scan.RoundTrip.{print_headers}
use sope_appserver.Scan.Status.{print_response}
use sope_appserver.Sns.Address.{unix, sns_address}
use sope_appserver.Sns.Lookup.Finding.{answer_text}
use sope_appserver.Sns.Lookup.{Plug, or_empty, send_sns_query}
use sope_appserver.Sns.Query.{query}
use sope_appserver.Socket.{
  Recv, got, ended, failed, Sent, accepted, refused, Delivers, Accepts, IsReader, IsWriter,
}
use sope_appserver.Tests.Answering.{blank, copied_of, sized, sized-IsHeader, three}
use sope_appserver.Tests.Instances.{
  Instance, asked_of, Untold, pending_of, instance_socket, instance_socket-IsReader,
  instance_socket-IsWriter, Untold-kept, instance_answers,
}
use sope_appserver.Tests.Scanning.{ok_line, ok_line-IsResponse}
use sope_appserver.Tests.Serving.{posted, idle}
use sope_appserver.Tests.Tables.{Entries, enter}
use sope_appserver.Tests.Transfer.{apache}

-- The server and the instance.
abbrev Peers : Type 0
Peers = Instance × Instance

abbrev with_instance : {A : Type 0} → Instance → A × Instance → A × Peers
with_instance i (a, s) = (a, (s, i))

abbrev with_server : {A : Type 0} → Instance → A × Instance → A × Peers
with_server s (a, i) = (a, (s, i))

abbrev server_of : Peers → Instance
server_of (s, i) = s

abbrev instance_of : Peers → Instance
instance_of (s, i) = i

Delivers-server :
    (pending : Instance → Bytes) (n : ℕ) (s i : Instance) (x : Recv × Instance)
    → Delivers pending n s x
    → Delivers (λ p. pending (server_of p)) n (s, i) (with_instance i x)
Delivers-server pending n s i (got b bs, t) h = h
Delivers-server pending n s i (ended, t) h = h
Delivers-server pending n s i (failed, t) h = h

Delivers-instance :
    (pending : Instance → Bytes) (n : ℕ) (i s : Instance) (x : Recv × Instance)
    → Delivers pending n i x
    → Delivers (λ p. pending (instance_of p)) n (s, i) (with_server s x)
Delivers-instance pending n i s (got b bs, t) h = h
Delivers-instance pending n i s (ended, t) h = h
Delivers-instance pending n i s (failed, t) h = h

Accepts-server :
    (bs : Bytes) (s i : Instance) (x : Sent × Instance)
    → Accepts ⊥ asked_of bs s x
    → Accepts ⊥ (λ p. asked_of (server_of p)) bs (s, i) (with_instance i x)
Accepts-server bs s i (accepted zero, t) h = h
Accepts-server bs s i (accepted (suc n), t) h = h
Accepts-server bs s i (refused, t) h = h

Accepts-instance :
    (bs : Bytes) (i s : Instance) (x : Sent × Instance)
    → Accepts ⊥ asked_of bs i x
    → Accepts ⊥ (λ p. asked_of (instance_of p)) bs (s, i) (with_server s x)
Accepts-instance bs i s (accepted zero, t) h = h
Accepts-instance bs i s (accepted (suc n), t) h = h
Accepts-instance bs i s (refused, t) h = h

module _ (expected response : Bytes) where
  abbrev server_plug : Plug Peers
  server_plug = record {
    open_socket = λ domain p. (true, p);
    connect = λ a p. (true, p);
    sock = record {
      read = λ n p. with_instance p.1 ((instance_socket expected response).read n p.0);
      write = λ bs p. with_instance p.1 ((instance_socket expected response).write bs p.0);
      close = λ p. p;
    };
  }

  -- A new connection to the instance.
  abbrev app_plug : Plug Peers
  app_plug = record {
    open_socket = λ domain p. (true, (p.0, idle));
    connect = λ a p. (true, p);
    sock = record {
      read = λ n p. with_server p.0 ((instance_socket expected response).read n p.1);
      write = λ bs p. with_server p.0 ((instance_socket expected response).write bs p.1);
      close = λ p. p;
    };
  }

  server_plug-IsReader : IsReader server_plug.sock (λ p. pending_of expected response (server_of p))
  server_plug-IsReader = record {
    delivers = λ n p h.
        Delivers-server (pending_of expected response) n p.0 p.1
          ((instance_socket expected response).read n p.0)
          ((instance_socket-IsReader expected response).delivers n p.0 h);
  }

  server_plug-IsWriter : IsWriter server_plug.sock (λ p. asked_of (server_of p)) ⊥
  server_plug-IsWriter = record {
    accepts = λ bs p h.
        Accepts-server bs p.0 p.1 ((instance_socket expected response).write bs p.0)
          ((instance_socket-IsWriter expected response).accepts bs p.0 h);
  }

  app_plug-IsReader : IsReader app_plug.sock (λ p. pending_of expected response (instance_of p))
  app_plug-IsReader = record {
    delivers = λ n p h.
        Delivers-instance (pending_of expected response) n p.1 p.0
          ((instance_socket expected response).read n p.1)
          ((instance_socket-IsReader expected response).delivers n p.1 h);
  }

  app_plug-IsWriter : IsWriter app_plug.sock (λ p. asked_of (instance_of p)) ⊥
  app_plug-IsWriter = record {
    accepts = λ bs p h.
        Accepts-instance bs p.1 p.0 ((instance_socket expected response).write bs p.1)
          ((instance_socket-IsWriter expected response).accepts bs p.1 h);
  }

abbrev cfg : Config
cfg = set_sns_port create_dir_config (codes "/tmp/snsd")

abbrev asking : Call Entries
asking = record {
  handler = some (codes "ngobjweb-adaptor");
  uri = some (codes "/app/x");
  header_only = false;
  has_dir_config = true;
  module_config = some cfg;
  request = posted;
  out = blank;
}

abbrev question : Bytes
question = query (or_empty posted.the_request) (codes "app") []

abbrev told : Bytes
told = answer_text 1 (codes "/tmp/a")

abbrev expected : Bytes
expected = request_text apache cfg posted ++ sent_body (pos 3) (codes "x=1")

abbrev answer : Bytes
answer = print_response ok_line (print_headers sized (codes "all more"))

-- The client sends its three bytes at once.
abbrev host : Host Entries Peers
host = record {
  apache = apache;
  table_set = enter;
  table_made = some [];
  inet_addr = λ s. 0;
  memory = true;
  get_block = λ n p. (got b'x' (codes "=1"), p);
  sleep = λ p. p;
  to_sns = server_plug question told;
  to_app = app_plug expected answer;
}

abbrev start : Peers
start = (idle, idle)

abbrev behind : Peers
behind = (
  (send_sns_query host.to_sns true host.inet_addr posted.the_request none (codes "app") cfg
      start).1.0,
  idle,
)

asks :
    Asks host 30 asking cfg
      (pos 3)
      (codes "x=1")
      (codes "app")
      []
      1
      (codes "/tmp/a")
      start
      start
      behind
unfolding is_ours takes_uri app_name extract_app_name read_request_body connect_instance atoi
    set_sns_port create_dir_config sns_address
asks = record {
  headers = (codes "content-length", codes "3") ∷ [];
  read = start;
  opened = start;
  port = codes "/tmp/snsd";
  server = unix (codes "/tmp/snsd");
  takes = record {
    uri = codes "/app/x";
    content = whole (codes "x=1");
    ours = refl;
    located = refl;
    taken = refl;
    configured = refl;
    named = refl;
    has_headers = refl;
    carried = refl;
    carries = refl;
  };
  has_cookie = refl;
  has_port = refl;
  has_server = refl;
  opens = refl;
  asks = refl;
  connects = record { opened = behind; opens = refl; connects = refl; has_memory = refl };
}

abbrev server : Server host posted.the_request ⊥ (codes "app") [] 1 (codes "/tmp/a")
server = record {
  sent = λ p. asked_of (server_of p);
  pending = λ p. pending_of question told (server_of p);
  Quiet = λ p. Untold (server_of p);
  writer = server_plug-IsWriter question told;
  reader = server_plug-IsReader question told;
  quiet = λ bs p h. Untold-kept question told bs p.0 h;
  answers = λ p e h. instance_answers question told p.0 e h;
}

handle-found_example :
    ⊥
    ⊎ Answers
        (atoi (codes "200"))
        (copied_of sized)
        (SendsClosed (codes "all"))
        (handle host 30 asking start)
handle-found_example =
    handle-found host 30 asking (λ p. asked_of (instance_of p))
      (λ p. pending_of expected answer (instance_of p)) (λ p. Untold (instance_of p)) cfg (pos 3)
      (codes "x=1") (codes "app") [] 1 (codes "/tmp/a") start start behind ok_line sized []
      (codes "3") b'a' (codes "ll") (codes " more") server asks (omega arith) (omega arith) refl
      refl (app_plug-IsWriter expected answer) (app_plug-IsReader expected answer)
      (λ bs p h. Untold-kept expected answer bs p.1 h) refl refl
      (λ p e h. instance_answers expected answer p.1 e h) refl refl ok_line-IsResponse
      sized-IsHeader (omega arith) refl three
