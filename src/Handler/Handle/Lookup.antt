-- ===== src/Handler/Handle/Lookup.antt =====
-- A request that the handler passes on to an instance that the session name server knows.
use sope_appserver.Config.{Config}
use sope_appserver.Descriptor.Keep.{WritesKeep}
use sope_appserver.Handler.Converse.Exchange.{sent_body, converse-content}
use sope_appserver.Handler.Converse.{Host, Call, after_lookup, converse, route}
use sope_appserver.Handler.Copy.{copy_headers}
use sope_appserver.Handler.Handle.Admission.{Takes, handle-Takes}
use sope_appserver.Handler.Handle.Service.{Connects, reach-Connects}
use sope_appserver.Handler.Handle.{handle}
use sope_appserver.Handler.Request.Emission.{request_text}
use sope_appserver.Handler.Response.Relay.{SendsClosed, Answers, Announces}
use sope_appserver.Prelude.{
  ℕ, ◌+◌, ◌<◌, ◌≤◌, ◌^◌, ◌≡◌, Bool, sym, subst, ap, ◌∙◌, ◌⊎◌, inl, inr, true, false, Option, some,
  List, [], ◌∷◌, ◌++◌, Bytes, length, All, arith, codes, ltb, ℤ, atoi,
}
use sope_appserver.Scan.RoundTrip.{IsHeader, print_headers, set_all}
use sope_appserver.Scan.Status.{Parts, IsResponse, print_response}
use sope_appserver.Sns.Address.{Address, raw, sns_address}
use sope_appserver.Sns.Lookup.Finding.{Finds, answer_text, send_sns_query-Finds}
use sope_appserver.Sns.Lookup.{Found, found, family, or_empty, send_sns_query}
use sope_appserver.Sns.Query.{query}
use sope_appserver.Socket.{IsReader, IsWriter}

module _ {T W : Type 0} (host : Host T W) (rounds : ℕ) (call : Call T) where
  -- The request is taken, the configured session name server is connected to with `asked` as the
  -- state behind that, and the instance at the address that the server tells can be connected to
  -- from the state behind the lookup; the state behind that is `v`.
  pub record Asks (cfg : Config) (n : ℤ) (body app cookie : Bytes) (domain : ℕ) (addr : Bytes)
      (w asked v : W) : Type 0 where
    pub headers : T
    pub read : W
    pub opened : W
    pub port : Bytes
    pub server : Address
    pub takes : Takes host rounds call cfg n body app headers w read
    pub has_cookie : or_empty (host.apache.table_get headers (codes "cookie")) ≡ cookie
    pub has_port : cfg.sns_port ≡ some port
    pub has_server : sns_address host.inet_addr cfg ≡ some server
    pub opens : host.to_sns.open_socket (family server) read ≡ (true, opened)
    pub asks : host.to_sns.connect server opened ≡ (true, asked)
    pub connects :
        Connects host rounds call cfg n body domain
          (raw addr)
          (send_sns_query host.to_sns true host.inet_addr call.request.the_request
            (host.apache.table_get headers (codes "cookie"))
            app
            cfg
            read).1
          v

  module _ (cfg : Config) (n : ℤ) (body app cookie : Bytes) (domain : ℕ) (addr : Bytes)
      (w asked v : W) (r : Asks cfg n body app cookie domain addr w asked v) where
    -- What the table of headers has for the cookie.
    abbrev sent_cookie : Option Bytes
    sent_cookie = host.apache.table_get r.headers (codes "cookie")

    abbrev looked_up : Found × W
    looked_up =
        send_sns_query host.to_sns true host.inet_addr call.request.the_request sent_cookie app cfg
          r.read

    after_lookup-Finds :
        (x : Found × W)
        → Connects host rounds call cfg n body domain (raw addr) x.1 v
        → length addr ≤ 1000
        → Finds (found domain (length addr) addr) x
        → after_lookup host rounds call cfg n body x ≡ converse host rounds call cfg n body v
    after_lookup-Finds (g, u) c fits e =
        let small : ltb 10000 (length addr) ≡ false = ground (arith, fits) in
        ap (λ f. after_lookup host rounds call cfg n body (f, u)) e
        ∙ rw small (reach-Connects host rounds call cfg n body domain (raw addr) u v c)

    route-Asks :
        length addr ≤ 1000
        → Finds (found domain (length addr) addr) looked_up
        → route host rounds call cfg n body cfg.sns_port cfg.app_port app sent_cookie r.read
          ≡ converse host rounds call cfg n body v
    route-Asks fits e =
        let asking = λ (m : Bool). after_lookup host rounds call cfg n body (
          send_sns_query host.to_sns m host.inet_addr call.request.the_request sent_cookie app cfg
            r.read) in
        let of_memory : asking host.memory ≡ converse host rounds call cfg n body v =
          ap asking r.connects.has_memory ∙ after_lookup-Finds looked_up r.connects fits e in
        ap (λ o. route host rounds call cfg n body o cfg.app_port app sent_cookie r.read) r.has_port
        ∙ (unfold route in of_memory)

    -- Where the lookup finds the address.
    pub handle-Finds :
        length addr ≤ 1000
        → Finds (found domain (length addr) addr) looked_up
        → handle host rounds call w ≡ converse host rounds call cfg n body v
    handle-Finds fits e =
        handle-Takes host rounds call cfg n body app r.headers w r.read r.takes ∙ route-Asks fits e

-- What the session name server is parametrised with: what it has been sent, what it will still
-- deliver, and whether it has delivered anything.
pub record Server {T W : Type 0} (host : Host T W) (line : Option Bytes) (Fail : Type 0)
    (app cookie : Bytes) (domain : ℕ) (addr : Bytes) : Type 1 where
  pub sent : W → Bytes
  pub pending : W → Bytes
  pub Quiet : W → Type 0
  pub writer : IsWriter host.to_sns.sock sent Fail
  pub reader : IsReader host.to_sns.sock pending
  pub quiet : WritesKeep Quiet host.to_sns.sock
  pub answers :
      (u : W)
      → sent u ≡ query (or_empty line) app cookie
      → Quiet u
      → pending u ≡ answer_text domain addr

module _ {T W Fail : Type 0} (host : Host T W) (rounds : ℕ) (call : Call T) where
  Finds-Asks :
      (cfg : Config) (n : ℤ) (body app cookie : Bytes) (domain : ℕ) (addr : Bytes) (w asked v : W)
      (server : Server host call.request.the_request Fail app cookie domain addr)
      (r : Asks host rounds call cfg n body app cookie domain addr w asked v)
      → domain < 2 ^ 32
      → length addr ≤ 1000
      → server.sent asked ≡ []
      → server.Quiet asked
      → Fail
        ⊎ Finds
            (found domain (length addr) addr)
            (looked_up host rounds call cfg n body app cookie domain addr w asked v r)
  Finds-Asks cfg n body app cookie domain addr w asked v server r d fits e q =
      send_sns_query-Finds host.to_sns server.sent server.pending server.Quiet host.inet_addr cfg
        call.request.the_request (host.apache.table_get r.headers (codes "cookie")) app domain addr
        r.server r.read r.opened asked server.writer server.reader server.quiet
        (rw r.has_cookie server.answers) d fits r.has_server r.opens r.asks e q

  module _ (sent pending : W → Bytes) (Quiet : W → Type 0) where
    -- A request for an instance that the session name server knows: the request is for the module,
    -- its content can be read, and the server and the instance can be connected to, with nothing
    -- sent to either and nothing read of either so far. Once the server has been sent the query and
    -- nothing else, it answers with a domain and an address of at most 1000 bytes. Once the
    -- instance at that address has been sent the whole of the request with its content and nothing
    -- else, it answers with a proper response line, proper headers with a positive content length below
    -- 2^31 - 1, and at least as much content; the client wants the content, the system delivers answer and
    -- response in whatever pieces, and there are enough rounds. Then, unless a write failed, the
    -- handler returns OK with the status of the response line, the headers copied, and just the
    -- content, and frees the descriptor once.
    pub handle-found :
        (cfg : Config) (n : ℤ) (body app cookie : Bytes) (domain : ℕ) (addr : Bytes) (w asked v : W)
        (r : Parts) (hs : List (Bytes × Bytes)) (t : T) (text : Bytes) (c : ℕ)
        (content rest : Bytes)
        (server : Server host call.request.the_request Fail app cookie domain addr)
        → Asks host rounds call cfg n body app cookie domain addr w asked v
        → domain < 2 ^ 32
        → length addr ≤ 1000
        → server.sent asked ≡ []
        → server.Quiet asked
        → IsWriter host.to_app.sock sent Fail
        → IsReader host.to_app.sock pending
        → WritesKeep Quiet host.to_app.sock
        → sent v ≡ []
        → Quiet v
        → ((u : W)
            → sent u ≡ request_text host.apache cfg call.request ++ sent_body n body
            → Quiet u
            → pending u ≡ print_response r (print_headers hs ((c ∷ content) ++ rest)))
        → call.header_only ≡ false
        → host.table_made ≡ some t
        → IsResponse rounds r
        → All IsHeader hs
        → length hs + 1 < rounds
        → host.apache.table_get (set_all host.table_set t hs) (codes "content-length") ≡ some text
        → Announces text (length (c ∷ content))
        → Fail
          ⊎ Answers
              (atoi r.code)
              (copy_headers host.apache.table_get host.apache.table_elts host.table_set
                (some (set_all host.table_set t hs))
                call.out)
              (SendsClosed (c ∷ content))
              (handle host rounds call w)
    handle-found cfg n body app cookie domain addr w asked v r hs t text c content rest server asks
          d fits e q writer reader quiet e₂ q₂ a o m ps h g l k =
        elim (Finds-Asks cfg n body app cookie domain addr w asked v server asks d fits e q) [
          | inl f ↦ inl f
          | inr finds ↦
              subst
                (λ x.
                  Fail
                  ⊎ Answers (atoi r.code)
                      (copy_headers host.apache.table_get host.apache.table_elts host.table_set
                        (some (set_all host.table_set t hs)) call.out)
                      (SendsClosed (c ∷ content)) x)
                (sym (
                  handle-Finds host rounds call cfg n body app cookie domain addr w asked v asks
                    fits finds))
                (converse-content host sent pending writer Quiet quiet rounds call cfg reader n body
                  r hs t text c content rest v o m e₂ q₂ a ps h g l k)
        ]
