-- ===== src/Handler/Request/Keep.antt =====
-- A property of the system's state that each write(2) keeps is kept by the transfer of a request's
-- head.
use sope_appserver.Config.{Config}
use sope_appserver.Descriptor.Header.{line_end, write_http_header}
use sope_appserver.Descriptor.Keep.{
  WritesKeep, Keeps, done-Keeps, >>-Keeps, when-Keeps, safe_write-Keeps, flush-Keeps,
  write_http_header-Keeps,
}
use sope_appserver.Handler.Request.{
  Apache, Request, or_default, first_of, is_on, is_client_entry, snprintf_tmp, server_url,
  write_if_set, write_entries, write_in_headers, write_client_entries, write_https,
  write_certificate, write_environment, write_adaptor_headers, write_request,
}
use sope_appserver.Prelude.{Bool, not, Option, none, some, List, [], ◌∷◌, ◌==◌, Bytes, codes}
use sope_appserver.Socket.{Socket}

module _ {T W : Type 0} (P : Bool → W → Type 0) (apache : Apache T) (sock : Socket W)
    (kept : (o : Bool) → WritesKeep (P o) sock) where
  header-Keeps : (key v : Bytes) → Keeps P (write_http_header sock key v)
  header-Keeps = write_http_header-Keeps P sock kept

  write_if_set-Keeps : (key : Bytes) (o : Option Bytes) → Keeps P (write_if_set apache sock key o)
  unfolding write_if_set
  write_if_set-Keeps key none = done-Keeps P
  write_if_set-Keeps key (some v) = header-Keeps key v

  write_entries-Keeps : (hs : List (Bytes × Bytes)) → Keeps P (write_entries apache sock hs)
  unfolding write_entries
  write_entries-Keeps [] = done-Keeps P
  write_entries-Keeps ((key, v) ∷ hs) = >>-Keeps P (header-Keeps key v) (write_entries-Keeps hs)

  write_in_headers-Keeps : (o : Option T) → Keeps P (write_in_headers apache sock o)
  unfolding write_in_headers
  write_in_headers-Keeps none = done-Keeps P
  write_in_headers-Keeps (some t) = write_entries-Keeps (apache.table_elts t)

  write_client_entries-Keeps :
      (hs : List (Bytes × Bytes)) → Keeps P (write_client_entries apache sock hs)
  unfolding write_client_entries
  write_client_entries-Keeps [] = done-Keeps P
  write_client_entries-Keeps ((key, v) ∷ hs) =
      >>-Keeps P (when-Keeps P (is_client_entry key) (header-Keeps key v))
        (write_client_entries-Keeps hs)

  write_https-Keeps : (o : Option Bytes) → Keeps P (write_https apache sock o)
  unfolding write_https
  write_https-Keeps none = done-Keeps P
  write_https-Keeps (some s) =
      when-Keeps P (is_on s) (header-Keeps (codes "x-webobjects-https-enabled") (codes "1"))

  write_certificate-Keeps :
      (hs : List (Bytes × Bytes)) (o : Option Bytes) → Keeps P (write_certificate apache sock hs o)
  unfolding write_certificate
  write_certificate-Keeps hs none = done-Keeps P
  write_certificate-Keeps hs (some s) =
      >>-Keeps P (header-Keeps (codes "x-webobjects-clients-cert") s)
        (write_client_entries-Keeps hs)

  write_environment-Keeps : (o : Option T) → Keeps P (write_environment apache sock o)
  unfolding write_environment
  write_environment-Keeps none = done-Keeps P
  write_environment-Keeps (some env) =
      let get = apache.table_get env in
      >>-Keeps P (write_https-Keeps (get (codes "HTTPS"))) (
        >>-Keeps P (write_certificate-Keeps (apache.table_elts env) (get (codes "SSL_CLIENT_CERT")))
          (>>-Keeps P
            (write_if_set-Keeps (codes "x-webobjects-https-secret-keysize")
              (get (codes "SSL_CIPHER_ALGKEYSIZE")))
            (write_if_set-Keeps (codes "x-webobjects-https-keysize")
              (get (codes "SSL_CIPHER_USEKEYSIZE")))))

  write_adaptor_headers-Keeps :
      (cfg : Config) (r : Request T) → Keeps P (write_adaptor_headers apache sock cfg r)
  unfolding write_adaptor_headers
  write_adaptor_headers-Keeps cfg r =
      >>-Keeps P
        (header-Keeps (codes "x-webobjects-server-protocol") (or_default r.protocol (codes "http")))
        (>>-Keeps P (write_if_set-Keeps (codes "x-webobjects-remote-addr") r.remote_ip) (
          >>-Keeps P
            (write_if_set-Keeps (codes "x-webobjects-remote-host")
              (first_of r.remote_host r.remote_ip))
            (>>-Keeps P (write_if_set-Keeps (codes "x-webobjects-auth-type") r.auth_type) (
              >>-Keeps P (write_if_set-Keeps (codes "x-webobjects-remote-user") r.user) (
                >>-Keeps P (write_if_set-Keeps (codes "x-webobjects-adaptor-prefix") cfg.app_prefix)
                  (>>-Keeps P (header-Keeps (codes "x-webobjects-server-name") r.server_hostname) (
                    >>-Keeps P
                      (when-Keeps P (not (r.port == 0)) (
                        header-Keeps (codes "x-webobjects-server-port")
                          (snprintf_tmp (apache.decimal r.port))))
                      (>>-Keeps P
                        (header-Keeps (codes "x-webobjects-server-url") (server_url apache r))
                        (write_environment-Keeps r.subprocess_env)))))))))

  pub write_request-Keeps :
      (cfg : Config) (r : Request T) → Keeps P (write_request apache sock cfg r)
  unfolding write_request
  write_request-Keeps cfg r =
      let plain = safe_write-Keeps P sock kept in
      >>-Keeps P (plain (or_default r.the_request [])) (
        >>-Keeps P (plain line_end) (
          >>-Keeps P (write_adaptor_headers-Keeps cfg r) (
            >>-Keeps P (write_in_headers-Keeps r.headers_in)
              (>>-Keeps P (plain line_end) (flush-Keeps P sock kept)))))
