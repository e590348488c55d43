-- ===== src/Handler/Handle/Service.antt =====
-- A request that the handler passes on to an instance whose port is configured.
use sope_appserver.Config.{Config}
use sope_appserver.Handler.Connect.{connect_instance}
use sope_appserver.Handler.Converse.Exchange.{sent_body, converse-content}
use sope_appserver.Handler.Converse.{Host, Call, app_address, converse, network, reach, route}
use sope_appserver.Handler.Handle.Admission.{Takes, handle-Takes}
use sope_appserver.Sns.Address.{Address}
use sope_appserver.Handler.Handle.{handle}
use sope_appserver.Handler.Response.Relay.{SendsClosed, Answers, Announces}
use sope_appserver.Descriptor.Keep.{WritesKeep}
use sope_appserver.Handler.Copy.{copy_headers}
use sope_appserver.Handler.Request.Emission.{request_text}
use sope_appserver.Scan.RoundTrip.{IsHeader, print_headers, set_all}
use sope_appserver.Scan.Status.{Parts, IsResponse, print_response}
use sope_appserver.Socket.{IsReader, IsWriter}
use sope_appserver.Prelude.{
  ℕ, ◌+◌, ◌<◌, ◌≡◌, refl, sym, subst, ap, ◌∙◌, ◌⊎◌, true, false, Option, none, some, List, [], ◌∷◌,
  ◌++◌, Bytes, length, All, codes, ℤ, atoi,
}

module _ {T W : Type 0} (host : Host T W) (rounds : ℕ) (call : Call T) where
  -- The instance at this address, in this domain, is reached from the state `w`, and `v` is the
  -- state behind the connection.
  pub record Connects (cfg : Config) (n : ℤ) (body : Bytes) (domain : ℕ) (a : Address) (w v : W)
      : Type 0 where
    pub opened : W
    pub opens : host.to_app.open_socket domain w ≡ (true, opened)
    pub connects : connect_instance (network host rounds call cfg n body a) opened ≡ (true, v)
    pub has_memory : host.memory ≡ true

  pub reach-Connects :
      (cfg : Config) (n : ℤ) (body : Bytes) (domain : ℕ) (a : Address) (w v : W)
      → Connects cfg n body domain a w v
      → reach host rounds call cfg n body domain a w ≡ converse host rounds call cfg n body v
  unfolding reach
  reach-Connects cfg n body domain a w v r = rw (r.opens, r.connects, r.has_memory) refl

  -- The request is taken, and the instance at the configured port, where no session name server is
  -- set, can be connected to; the state behind that is `v`.
  pub record Reaches (cfg : Config) (n : ℤ) (body : Bytes) (w v : W) : Type 0 where
    pub app : Bytes
    pub headers : T
    pub read : W
    pub port : Bytes
    pub takes : Takes host rounds call cfg n body app headers w read
    pub no_sns_port : cfg.sns_port ≡ none
    pub has_port : cfg.app_port ≡ some port
    pub connects :
        Connects cfg n body cfg.app_port_domain
          (app_address host.inet_addr cfg.app_port_domain port)
          read
          v

  module _ (cfg : Config) (n : ℤ) (body : Bytes) (w v : W) (r : Reaches cfg n body w v) where
    route-Reaches :
        (cookie : Option Bytes)
        → route host rounds call cfg n body cfg.sns_port cfg.app_port r.app cookie r.read
          ≡ converse host rounds call cfg n body v
    route-Reaches cookie =
        let to = λ (sns app_port : Option Bytes).
          route host rounds call cfg n body sns app_port r.app cookie r.read in
        ap (λ sns. to sns cfg.app_port) r.no_sns_port
        ∙ ap (to none) r.has_port
        ∙ (unfold route in reach-Connects cfg n body cfg.app_port_domain _ r.read v r.connects)

    handle-Reaches : handle host rounds call w ≡ converse host rounds call cfg n body v
    handle-Reaches =
        handle-Takes host rounds call cfg n body r.app r.headers w r.read r.takes
        ∙ route-Reaches (host.apache.table_get r.headers (codes "cookie"))

module _ {T W Fail : Type 0} (host : Host T W) (sent pending : W → Bytes) (Quiet : W → Type 0)
    (rounds : ℕ) (call : Call T) where
  -- A request for an instance at a configured port: the request is for the module, its content can
  -- be read, and the instance can be connected to, with nothing sent and nothing read so far. Once
  -- the instance has been sent the whole of the request with its content and nothing else, it
  -- answers with a proper response line, proper headers with a positive content length below 2^31 - 1, and at
  -- least as much content; the client wants the content, the system delivers the response in
  -- whatever pieces, and there are enough rounds. Then, unless a write failed, the handler returns
  -- OK with the status of the response line, the headers copied, and just the content, and frees
  -- the descriptor once.
  pub handle-content :
      (cfg : Config) (n : ℤ) (body : Bytes) (w v : W) (r : Parts) (hs : List (Bytes × Bytes))
      (t : T) (text : Bytes) (c : ℕ) (content rest : Bytes)
      → IsWriter host.to_app.sock sent Fail
      → IsReader host.to_app.sock pending
      → WritesKeep Quiet host.to_app.sock
      → Reaches host rounds call cfg n body w v
      → sent v ≡ []
      → Quiet v
      → ((u : W)
          → sent u ≡ request_text host.apache cfg call.request ++ sent_body n body
          → Quiet u
          → pending u ≡ print_response r (print_headers hs ((c ∷ content) ++ rest)))
      → call.header_only ≡ false
      → host.table_made ≡ some t
      → IsResponse rounds r
      → All IsHeader hs
      → length hs + 1 < rounds
      → host.apache.table_get (set_all host.table_set t hs) (codes "content-length") ≡ some text
      → Announces text (length (c ∷ content))
      → Fail
        ⊎ Answers
            (atoi r.code)
            (copy_headers host.apache.table_get host.apache.table_elts host.table_set
              (some (set_all host.table_set t hs))
              call.out)
            (SendsClosed (c ∷ content))
            (handle host rounds call w)
  handle-content cfg n body w v r hs t text c content rest writer reader quiet reaches e q a o m ps
        h g l k =
      subst
        (λ x.
          Fail
          ⊎ Answers (atoi r.code)
              (copy_headers host.apache.table_get host.apache.table_elts host.table_set
                (some (set_all host.table_set t hs)) call.out)
              (SendsClosed (c ∷ content)) x)
        (sym (handle-Reaches host rounds call cfg n body w v reaches))
        (converse-content host sent pending writer Quiet quiet rounds call cfg reader n body r hs t
          text c content rest v o m e q a ps h g l k)
