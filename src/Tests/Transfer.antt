-- ===== src/Tests/Transfer.antt =====
-- Connecting to an instance and sending it the head of a request.
use sope_appserver.Config.{Config, create_dir_config, set_app_prefix}
use sope_appserver.Descriptor.Output.Steps.{Outcome}
use sope_appserver.Descriptor.State.{Descriptor, new_owned}
use sope_appserver.Handler.Connect.{
  Network, connect_instance, retry_loop, Connects, connect_instance-Connects,
}
use sope_appserver.Handler.Request.Emission.{request_text, write_request-Outcome}
use sope_appserver.Handler.Request.{Apache, Request, write_request}
use sope_appserver.Prelude.{
  ℕ, zero, suc, ◌+◌, ◌/◌, ◌%◌, ◌≡◌, refl, Bool, true, false, none, some, [], ◌∷◌, arith, Bytes,
  codes,
}
use sope_appserver.Tests.Peers.{pair_socket, pair_socket-IsWriter, outbox_of, peer}
use sope_appserver.Tests.Tables.{Entries, entry_of}

-- A network on which so many tries fail before one succeeds.
abbrev fails_first : ℕ → Bool × ℕ
fails_first zero = (true, 0)
fails_first (suc n) = (false, n)

abbrev busy_network : Network ℕ
busy_network = record { connect = fails_first; sleep = λ n. n; close = λ n. 100 }

connect_run : connect_instance busy_network 3 ≡ (true, 0)
unfolding connect_instance retry_loop
connect_run = refl

give_up_run : connect_instance busy_network 4 ≡ (false, 100)
unfolding connect_instance retry_loop
give_up_run = refl

abbrev pub two_digits : ℕ → Bytes
two_digits n = (b'0' + n / 10 % 10) ∷ (b'0' + n % 10) ∷ []

abbrev pub apache : Apache Entries
apache = record { table_get = entry_of; table_elts = λ t. t; decimal = two_digits }

abbrev pub cfg : Config
cfg = set_app_prefix create_dir_config (codes "/pre")

abbrev pub request : Request Entries
request = record {
  the_request = some (codes "GET /a HTTP/1.0");
  protocol = none;
  remote_ip = some (codes "::1");
  remote_host = none;
  auth_type = none;
  user = none;
  server_hostname = codes "h";
  port = 80;
  http_method = codes "http";
  subprocess_env = some ((codes "HTTPS", codes "on") ∷ []);
  headers_in = some ((codes "Accept", codes "x") ∷ []);
}

abbrev fresh : Descriptor
fresh = new_owned 512

write_request-Outcome_example :
    Outcome ⊥ outbox_of
      (request_text apache cfg request)
      fresh
      (peer [])
      (write_request apache pair_socket cfg request fresh (peer []))
write_request-Outcome_example =
    write_request-Outcome pair_socket outbox_of pair_socket-IsWriter apache cfg request fresh
      (peer []) (record { has_room = omega arith })

connect_instance-Connects_example : Connects busy_network 2 (connect_instance busy_network 2)
connect_instance-Connects_example = connect_instance-Connects busy_network 2
