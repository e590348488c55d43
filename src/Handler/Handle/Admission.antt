-- ===== src/Handler/Handle/Admission.antt =====
-- A request that `ngobjweb_handler` takes: it is for the module, and its content can be read.
use sope_appserver.Config.{Config}
use sope_appserver.Handler.Body.{
  Body, no_content, not_read, whole, incomplete, before_start, endless, too_large,
  read_request_body,
}
use sope_appserver.Handler.Converse.{Host, Call, route}
use sope_appserver.Handler.Guards.{is_ours, takes_uri, get_config, app_name}
use sope_appserver.Handler.Handle.{
  after_request_body, with_headers, with_name, with_config, with_uri, handle,
}
use sope_appserver.Handler.Response.{declined}
use sope_appserver.Prelude.{
  if◌then◌else◌, ℕ, ◌≡◌, refl, sym, ap, ◌∙◌, Bool, true, Option, some, [], Bytes, codes, ℤ,
}

-- The content that has been read of the request.
abbrev pub Carries : Bytes → Body → Type 0
Carries body no_content = body ≡ []
Carries body not_read = ⊥
Carries body (whole bs) = body ≡ bs
Carries body incomplete = ⊥
Carries body before_start = ⊥
Carries body endless = ⊥
Carries body too_large = ⊥

module _ {T W : Type 0} (host : Host T W) (rounds : ℕ) (call : Call T) where
  -- The request is for the module, with the application's name, the headers and the content that
  -- are found for it, and `read` is the state behind that.
  pub record Takes (cfg : Config) (n : ℤ) (body app : Bytes) (headers : T) (w read : W)
      : Type 0 where
    pub uri : Bytes
    pub content : Body
    pub ours : is_ours call.handler ≡ true
    pub located : call.uri ≡ some uri
    pub taken : takes_uri (some uri) ≡ true
    pub configured : get_config call.has_dir_config call.module_config ≡ some cfg
    pub named : app_name cfg uri ≡ some app
    pub has_headers : call.request.headers_in ≡ some headers
    pub carried :
        read_request_body host.get_block rounds
          (host.apache.table_get headers (codes "content-length"))
          w
        ≡ (n, (content, read))
    pub carries : Carries body content

  module _ (cfg : Config) (n : ℤ) (body app : Bytes) (headers : T) (w read : W)
      (r : Takes cfg n body app headers w read) where
    abbrev cookie : Option Bytes
    cookie = host.apache.table_get headers (codes "cookie")

    after_request_body-Takes :
        (content : Body)
        → Carries body content
        → after_request_body host rounds call cfg app cookie (n, (content, read))
          ≡ route host rounds call cfg n body cfg.sns_port cfg.app_port app cookie read
    after_request_body-Takes no_content e = rw (sym e) refl
    after_request_body-Takes (whole bs) e = rw (sym e) refl
    after_request_body-Takes not_read e = absurd e
    after_request_body-Takes incomplete e = absurd e
    after_request_body-Takes before_start e = absurd e
    after_request_body-Takes endless e = absurd e
    after_request_body-Takes too_large e = absurd e

    with_headers-Takes :
        with_headers host rounds call cfg app (some headers) w
        ≡ route host rounds call cfg n body cfg.sns_port cfg.app_port app cookie read
    with_headers-Takes =
        ap (after_request_body host rounds call cfg app cookie) r.carried
        ∙ after_request_body-Takes r.content r.carries

    with_uri-Takes :
        with_uri host rounds call (some r.uri) w
        ≡ route host rounds call cfg n body cfg.sns_port cfg.app_port app cookie read
    with_uri-Takes =
        ap (λ o. with_config host rounds call o r.uri w) r.configured
        ∙ ap (λ o. with_name host rounds call cfg o w) r.named
        ∙ ap (λ o. with_headers host rounds call cfg app o w) r.has_headers
        ∙ with_headers-Takes

    pub handle-Takes :
        handle host rounds call w
        ≡ route host rounds call cfg n body cfg.sns_port cfg.app_port app cookie read
    unfolding handle
    handle-Takes =
        let accept = λ (ours taken : Bool) (uri : Option Bytes).
          if ours
          then (if taken then with_uri host rounds call uri w else declined w)
          else declined w in
        ap (λ b. accept b (takes_uri call.uri) call.uri) r.ours
        ∙ ap (λ u. accept true (takes_uri u) u) r.located
        ∙ ap (λ b. accept true b (some r.uri)) r.taken
        ∙ with_uri-Takes
