-- ===== src/Sns/Address.antt =====
-- `_getSNSAddressForRequest`: the address of the session name server in the configuration.
pub mod Ports
use sope_appserver.Config.{Config, af_unix, af_inet}
use sope_appserver.Handler.AppName.{index}
use sope_appserver.Prelude.{
  ℕ, suc, ◌+◌, ◌-◌, ◌%◌, ◌^◌, Option, none, some, ◌==◌, if◌then◌else◌, Bytes, take, drop, codes, ℤ,
  pos, negsuc, strtol,
}

-- A socket address: sockaddr_un with its path, sockaddr_in with the address and the port in the
-- machine's byte order, or the bytes of an address of another origin.
pub data Address : Type 0 where
  unix : Bytes → Address
  inet : ℕ → ℕ → Address
  raw : Bytes → Address

-- `sizeof(sun_path) - 1`.
abbrev pub max_path_size : ℕ
max_path_size = 107

-- `(short)(port & 0xFFFF)`, as the 16 bits that htons gets.
abbrev pub low_16 : ℤ → ℕ
low_16 (pos n) = n % 65536
low_16 (negsuc n) = 65535 - n % 65536

-- `inet_addr` is apr_inet_addr.
module _ (inet_addr : Bytes → ℕ) where
  -- With the place of the first colon.
  abbrev pub split_address : Bytes → Option ℕ → Address
  split_address socket (some n) =
      inet (inet_addr (take n socket)) (low_16 (strtol (drop (suc n) socket)))
  split_address socket none = inet (inet_addr (codes "127.0.0.1")) (low_16 (strtol socket))

  unfoldable pub inet_address : Bytes → Address
  unfolding index
  inet_address socket = split_address socket (index socket b':')

  abbrev pub address_in_domain : ℕ → Bytes → Option Address
  address_in_domain domain socket =
      if domain == af_unix
      then some (unix (take max_path_size socket))
      else if domain == af_inet
      then some (inet_address socket)
      else none

  abbrev pub address_of : ℕ → Option Bytes → Option Address
  address_of domain none = none
  address_of domain (some socket) = address_in_domain domain socket

  unfoldable pub sns_address : Config → Option Address
  sns_address cfg = address_of cfg.sns_port_domain cfg.sns_port
