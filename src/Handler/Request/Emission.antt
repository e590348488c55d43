-- ===== src/Handler/Request/Emission.antt =====
-- What the instance is sent as the head of a request.
use sope_appserver.Config.{Config}
use sope_appserver.Descriptor.Header.Emission.{header_line, write_http_header-Emits}
use sope_appserver.Descriptor.Header.{line_end, write_http_header}
use sope_appserver.Descriptor.Output.Delivery.{IsWritable}
use sope_appserver.Descriptor.Output.Steps.{
  Step, ◌>>◌, done, when, Outcome, Emits, done-Emits, >>-Emits, safe_write-Emits, flush-Emits,
  Clears, >>-Clears, flush-Clears,
}
use sope_appserver.Descriptor.Output.{safe_write}
use sope_appserver.Descriptor.State.{Descriptor}
use sope_appserver.Handler.Request.{
  Apache, Request, or_default, first_of, is_on, is_client_entry, snprintf_tmp, server_url,
  write_if_set, write_entries, write_in_headers, write_client_entries, write_https,
  write_certificate, write_environment, write_adaptor_headers, write_request,
}
use sope_appserver.Prelude.{
  ◌≡◌, refl, sym, ap, subst, ◌∙◌, Bool, true, false, not, Option, none, some, List, [], ◌∷◌, ◌++◌,
  append-nil, append_assoc, ◌==◌, Bytes, codes,
}
use sope_appserver.Socket.{Socket, IsWriter}

abbrev pub Fields : Type 0
Fields = List (Bytes × Bytes)

-- The header lines of a list of fields.
abbrev pub lines : Fields → Bytes
lines [] = []
lines ((key, v) ∷ hs) = header_line key v ++ lines hs

lines-append : (xs ys : Fields) → lines (xs ++ ys) ≡ lines xs ++ lines ys
lines-append [] ys = refl
lines-append ((key, v) ∷ hs) ys =
    ap (λ t. header_line key v ++ t) (lines-append hs ys)
    ∙ sym (append_assoc (header_line key v) (lines hs) (lines ys))

abbrev pub field : Bytes → Bytes → Fields
field key v = (key, v) ∷ []

abbrev pub field_if_set : Bytes → Option Bytes → Fields
field_if_set key none = []
field_if_set key (some v) = field key v

abbrev pub fields_if : Bool → Fields → Fields
fields_if true hs = hs
fields_if false hs = []

-- The environment's entries about the client, without its certificate.
abbrev pub client_fields : Fields → Fields
client_fields [] = []
client_fields ((key, v) ∷ hs) = fields_if (is_client_entry key) (field key v) ++ client_fields hs

abbrev pub https_fields : Option Bytes → Fields
https_fields none = []
https_fields (some s) = fields_if (is_on s) (field (codes "x-webobjects-https-enabled") (codes "1"))

abbrev pub certificate_fields : Fields → Option Bytes → Fields
certificate_fields entries none = []
certificate_fields entries (some s) =
    field (codes "x-webobjects-clients-cert") s ++ client_fields entries

module _ {T : Type 0} (apache : Apache T) where
  abbrev pub environment_fields : Option T → Fields
  environment_fields none = []
  environment_fields (some env) =
      https_fields (apache.table_get env (codes "HTTPS"))
      ++ (certificate_fields (apache.table_elts env)
            (apache.table_get env (codes "SSL_CLIENT_CERT"))
          ++ (field_if_set (codes "x-webobjects-https-secret-keysize")
                (apache.table_get env (codes "SSL_CIPHER_ALGKEYSIZE"))
              ++ field_if_set (codes "x-webobjects-https-keysize")
                  (apache.table_get env (codes "SSL_CIPHER_USEKEYSIZE"))))

  abbrev pub adaptor_fields : Config → Request T → Fields
  adaptor_fields cfg r =
      field (codes "x-webobjects-server-protocol") (or_default r.protocol (codes "http"))
      ++ (field_if_set (codes "x-webobjects-remote-addr") r.remote_ip
          ++ (field_if_set (codes "x-webobjects-remote-host") (first_of r.remote_host r.remote_ip)
              ++ (field_if_set (codes "x-webobjects-auth-type") r.auth_type
                  ++ (field_if_set (codes "x-webobjects-remote-user") r.user
                      ++ (field_if_set (codes "x-webobjects-adaptor-prefix") cfg.app_prefix
                          ++ (field (codes "x-webobjects-server-name") r.server_hostname
                              ++ (fields_if (not (r.port == 0)) (
                                    field (codes "x-webobjects-server-port")
                                      (snprintf_tmp (apache.decimal r.port)))
                                  ++ (field (codes "x-webobjects-server-url") (server_url apache r)
                                      ++ environment_fields r.subprocess_env))))))))

  abbrev pub in_fields : Option T → Fields
  in_fields none = []
  in_fields (some t) = apache.table_elts t

  -- The request line, the adaptor's headers, the client's headers and the empty line.
  abbrev pub request_text : Config → Request T → Bytes
  request_text cfg r =
      or_default r.the_request []
      ++ (line_end
          ++ (lines (adaptor_fields cfg r) ++ (lines (in_fields r.headers_in) ++ (line_end ++ []))))

-- A step that emits the header lines of these fields.
record Sends {W : Type 0} (Fail : Type 0) (sent : W → Bytes) (hs : Fields) (m : Step W)
    : Type 0 where
  gives : Emits Fail sent (lines hs) m

module _ {W Fail : Type 0} (sock : Socket W) (sent : W → Bytes)
    (writer : IsWriter sock sent Fail) where
  lines-Sends :
      {xs ys : Fields} {m k : Step W}
      → Sends Fail sent xs m
      → Sends Fail sent ys k
      → Sends Fail sent (xs ++ ys) (m >> k)
  lines-Sends {xs} {ys} {m} {k} h g = record {
    gives =
        subst (λ t. Emits Fail sent t (m >> k)) (sym (lines-append xs ys))
          (>>-Emits Fail sent h.gives g.gives);
  }

  field-Sends : (key v : Bytes) → Sends Fail sent (field key v) (write_http_header sock key v)
  field-Sends key v = record {
    gives =
        subst (λ t. Emits Fail sent t (write_http_header sock key v)) (sym (append-nil _))
          (write_http_header-Emits sock sent writer key v);
  }

  none-Sends : Sends Fail sent [] done
  none-Sends = record { gives = done-Emits Fail sent }

  when-Sends :
      (b : Bool) {hs : Fields} {m : Step W}
      → Sends Fail sent hs m
      → Sends Fail sent (fields_if b hs) (when b m)
  when-Sends true h = h
  when-Sends false h = none-Sends

  module _ {T : Type 0} (apache : Apache T) where
    write_if_set-Sends :
        (key : Bytes) (o : Option Bytes)
        → Sends Fail sent (field_if_set key o) (write_if_set apache sock key o)
    unfolding write_if_set
    write_if_set-Sends key none = none-Sends
    write_if_set-Sends key (some v) = field-Sends key v

    write_entries-Sends : (hs : Fields) → Sends Fail sent hs (write_entries apache sock hs)
    unfolding write_entries
    write_entries-Sends [] = none-Sends
    write_entries-Sends ((key, v) ∷ hs) = lines-Sends (field-Sends key v) (write_entries-Sends hs)

    write_in_headers-Sends :
        (o : Option T) → Sends Fail sent (in_fields apache o) (write_in_headers apache sock o)
    unfolding write_in_headers
    write_in_headers-Sends none = none-Sends
    write_in_headers-Sends (some t) = write_entries-Sends (apache.table_elts t)

    write_client_entries-Sends :
        (hs : Fields) → Sends Fail sent (client_fields hs) (write_client_entries apache sock hs)
    unfolding write_client_entries
    write_client_entries-Sends [] = none-Sends
    write_client_entries-Sends ((key, v) ∷ hs) =
        lines-Sends (when-Sends (is_client_entry key) (field-Sends key v))
          (write_client_entries-Sends hs)

    write_https-Sends :
        (o : Option Bytes) → Sends Fail sent (https_fields o) (write_https apache sock o)
    unfolding write_https
    write_https-Sends none = none-Sends
    write_https-Sends (some s) =
        when-Sends (is_on s) (field-Sends (codes "x-webobjects-https-enabled") (codes "1"))

    write_certificate-Sends :
        (hs : Fields) (o : Option Bytes)
        → Sends Fail sent (certificate_fields hs o) (write_certificate apache sock hs o)
    unfolding write_certificate
    write_certificate-Sends hs none = none-Sends
    write_certificate-Sends hs (some s) =
        lines-Sends (field-Sends (codes "x-webobjects-clients-cert") s)
          (write_client_entries-Sends hs)

    write_environment-Sends :
        (o : Option T)
        → Sends Fail sent (environment_fields apache o) (write_environment apache sock o)
    unfolding write_environment
    write_environment-Sends none = none-Sends
    write_environment-Sends (some env) =
        let get = apache.table_get env in
        lines-Sends (write_https-Sends (get (codes "HTTPS"))) (
          lines-Sends
            (write_certificate-Sends (apache.table_elts env) (get (codes "SSL_CLIENT_CERT")))
            (lines-Sends
              (write_if_set-Sends (codes "x-webobjects-https-secret-keysize")
                (get (codes "SSL_CIPHER_ALGKEYSIZE")))
              (write_if_set-Sends (codes "x-webobjects-https-keysize")
                (get (codes "SSL_CIPHER_USEKEYSIZE")))))

    write_adaptor_headers-Sends :
        (cfg : Config) (r : Request T)
        → Sends Fail sent (adaptor_fields apache cfg r) (write_adaptor_headers apache sock cfg r)
    unfolding write_adaptor_headers
    write_adaptor_headers-Sends cfg r =
        lines-Sends
          (field-Sends (codes "x-webobjects-server-protocol")
            (or_default r.protocol (codes "http")))
          (lines-Sends (write_if_set-Sends (codes "x-webobjects-remote-addr") r.remote_ip) (
            lines-Sends
              (write_if_set-Sends (codes "x-webobjects-remote-host")
                (first_of r.remote_host r.remote_ip))
              (lines-Sends (write_if_set-Sends (codes "x-webobjects-auth-type") r.auth_type) (
                lines-Sends (write_if_set-Sends (codes "x-webobjects-remote-user") r.user) (
                  lines-Sends
                    (write_if_set-Sends (codes "x-webobjects-adaptor-prefix") cfg.app_prefix)
                    (lines-Sends (field-Sends (codes "x-webobjects-server-name") r.server_hostname)
                      (lines-Sends
                        (when-Sends (not (r.port == 0)) (
                          field-Sends (codes "x-webobjects-server-port")
                            (snprintf_tmp (apache.decimal r.port))))
                        (lines-Sends
                          (field-Sends (codes "x-webobjects-server-url") (server_url apache r))
                          (write_environment-Sends r.subprocess_env)))))))))

    write_request-Emits :
        (cfg : Config) (r : Request T)
        → Emits Fail sent (request_text apache cfg r) (write_request apache sock cfg r)
    unfolding write_request
    write_request-Emits cfg r =
        let plain = safe_write-Emits sock sent writer in
        >>-Emits Fail sent (plain (or_default r.the_request [])) (
          >>-Emits Fail sent (plain line_end) (
            >>-Emits Fail sent ((write_adaptor_headers-Sends cfg r).gives) (
              >>-Emits Fail sent ((write_in_headers-Sends r.headers_in).gives)
                (>>-Emits Fail sent (plain line_end) (flush-Emits sock sent writer)))))

    -- The transfer of a request's head over a descriptor with room: it succeeds and the request
    -- line, the adaptor's header lines, those of the client and an empty line stand behind all that
    -- was given before; or it fails and a first part of all that has gone out. Either way there is
    -- room again, and the reading side and the fault flag are as they were.
    pub write_request-Outcome :
        (cfg : Config) (r : Request T) (d : Descriptor) (w : W)
        → IsWritable d
        → Outcome Fail sent (request_text apache cfg r) d w (write_request apache sock cfg r d w)
    write_request-Outcome cfg r d w v = (write_request-Emits cfg r).emits d w v

-- A transfer of a request's head that succeeds leaves the write buffer empty.
pub write_request-Clears :
    {T W : Type 0} (apache : Apache T) (sock : Socket W) (cfg : Config) (r : Request T)
    → Clears (write_request apache sock cfg r)
unfolding write_request
write_request-Clears apache sock cfg r = >>-Clears (safe_write sock (or_default r.the_request [])) (
    >>-Clears (safe_write sock line_end) (
      >>-Clears (write_adaptor_headers apache sock cfg r) (
        >>-Clears (write_in_headers apache sock r.headers_in)
          (>>-Clears (safe_write sock line_end) (flush-Clears sock)))))
