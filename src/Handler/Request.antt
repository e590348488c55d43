-- ===== src/Handler/Request.antt =====
-- The part of `ngobjweb_handler` that transfers the request line and the headers, with
-- `_writeInHeaders`.
pub mod Emission
pub mod Keep
use sope_appserver.Config.{Config}
use sope_appserver.Descriptor.Header.{line_end, write_http_header}
use sope_appserver.Descriptor.Output.{flush, safe_write}
use sope_appserver.Descriptor.Output.Steps.{Step, ◌>>◌, done, when}
use sope_appserver.Handler.AppName.{starts_with}
use sope_appserver.Prelude.{
  ℕ, Bool, true, false, not, ◌&&◌, ◌||◌, Option, none, some, List, [], ◌∷◌, ◌++◌, ◌==◌,
  if◌then◌else◌, Bytes, take, codes,
}
use sope_appserver.Socket.{Socket}

-- What the code uses of Apache: `apr_table_get` and `apr_table_elts` on its tables, and the decimal
-- text that `apr_snprintf` makes of a number.
pub record Apache (T : Type 0) : Type 0 where
  pub table_get : T → Bytes → Option Bytes
  pub table_elts : T → List (Bytes × Bytes)
  pub decimal : ℕ → Bytes

-- The fields of `request_rec`, of its connection and of its server that are sent, with the result
-- of `ap_http_method`. A null pointer is `none`.
pub record Request (T : Type 0) : Type 0 where
  pub the_request : Option Bytes
  pub protocol : Option Bytes
  pub remote_ip : Option Bytes
  pub remote_host : Option Bytes
  pub auth_type : Option Bytes
  pub user : Option Bytes
  pub server_hostname : Bytes
  pub port : ℕ
  pub http_method : Bytes
  pub subprocess_env : Option T
  pub headers_in : Option T

abbrev pub or_default : Option Bytes → Bytes → Bytes
or_default none s = s
or_default (some t) s = t

abbrev pub first_of : Option Bytes → Option Bytes → Option Bytes
first_of none other = other
first_of (some s) other = some s

-- `strncasecmp(s, "on", 2) == 0`.
abbrev pub is_on : Bytes → Bool
is_on (a ∷ b ∷ s) = (a == b'o' || a == b'O') && (b == b'n' || b == b'N')
is_on _ = false

-- The entries of the environment that are delivered as they are.
abbrev pub is_client_entry : Bytes → Bool
is_client_entry key =
    starts_with key (codes "SSL_CLIENT_") && not (starts_with key (codes "SSL_CLIENT_CERT"))

-- `tmp` has 256 bytes, the last for the NUL.
abbrev pub snprintf_tmp : Bytes → Bytes
snprintf_tmp s = take 255 s

module _ {T : Type 0} (apache : Apache T) where
  unfoldable pub server_url : Request T → Bytes
  server_url r =
      let url = r.http_method ++ (codes "://" ++ r.server_hostname) in
      if r.port == 0 then snprintf_tmp url else snprintf_tmp (url ++ (b':' ∷ apache.decimal r.port))

  module _ {W : Type 0} (sock : Socket W) where
    unfoldable pub write_if_set : Bytes → Option Bytes → Step W
    write_if_set key none = done
    write_if_set key (some v) = write_http_header sock key v

    unfoldable pub write_entries : List (Bytes × Bytes) → Step W
    write_entries [] = done
    write_entries ((key, v) ∷ entries) = write_http_header sock key v >> write_entries entries

    unfoldable pub write_in_headers : Option T → Step W
    unfolding write_entries
    write_in_headers none = done
    write_in_headers (some t) = write_entries (apache.table_elts t)

    -- The loop over the environment.
    unfoldable pub write_client_entries : List (Bytes × Bytes) → Step W
    write_client_entries [] = done
    write_client_entries ((key, v) ∷ entries) =
        when (is_client_entry key) (write_http_header sock key v) >> write_client_entries entries

    unfoldable pub write_https : Option Bytes → Step W
    write_https none = done
    write_https (some s) =
        when (is_on s) (write_http_header sock (codes "x-webobjects-https-enabled") (codes "1"))

    unfoldable pub write_certificate : List (Bytes × Bytes) → Option Bytes → Step W
    unfolding write_client_entries
    write_certificate entries none = done
    write_certificate entries (some s) =
        write_http_header sock (codes "x-webobjects-clients-cert") s >> write_client_entries entries

    unfoldable pub write_environment : Option T → Step W
    unfolding write_https write_certificate write_if_set
    write_environment none = done
    write_environment (some env) =
        write_https (apache.table_get env (codes "HTTPS"))
        >> write_certificate (apache.table_elts env)
            (apache.table_get env (codes "SSL_CLIENT_CERT"))
        >> write_if_set (codes "x-webobjects-https-secret-keysize")
            (apache.table_get env (codes "SSL_CIPHER_ALGKEYSIZE"))
        >> write_if_set (codes "x-webobjects-https-keysize")
            (apache.table_get env (codes "SSL_CIPHER_USEKEYSIZE"))

    unfoldable pub write_adaptor_headers : Config → Request T → Step W
    unfolding write_if_set write_environment server_url
    write_adaptor_headers cfg r =
        write_http_header sock (codes "x-webobjects-server-protocol")
          (or_default r.protocol (codes "http"))
        >> write_if_set (codes "x-webobjects-remote-addr") r.remote_ip
        >> write_if_set (codes "x-webobjects-remote-host") (first_of r.remote_host r.remote_ip)
        >> write_if_set (codes "x-webobjects-auth-type") r.auth_type
        >> write_if_set (codes "x-webobjects-remote-user") r.user
        >> write_if_set (codes "x-webobjects-adaptor-prefix") cfg.app_prefix
        >> write_http_header sock (codes "x-webobjects-server-name") r.server_hostname
        >> when (not (r.port == 0)) (
            write_http_header sock (codes "x-webobjects-server-port")
              (snprintf_tmp (apache.decimal r.port)))
        >> write_http_header sock (codes "x-webobjects-server-url") (server_url r)
        >> write_environment r.subprocess_env

    -- `false` is the jump to `writeErrorHandler`.
    unfoldable pub write_request : Config → Request T → Step W
    unfolding write_adaptor_headers write_in_headers
    write_request cfg r =
        safe_write sock (or_default r.the_request [])
        >> safe_write sock line_end
        >> write_adaptor_headers cfg r
        >> write_in_headers r.headers_in
        >> safe_write sock line_end
        >> flush sock
