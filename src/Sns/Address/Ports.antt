-- ===== src/Sns/Address/Ports.antt =====
-- The address that a `SetSNSPort` command selects.
use sope_appserver.Config.{Config, set_sns_port}
use sope_appserver.Handler.AppName.{index}
use sope_appserver.Prelude.{
  ℕ, ◌+◌, ◌≤◌, ◌<◌, ◌≡◌, refl, ap, false, some, [], ◌∷◌, ◌++◌, arith, ◌==◌, Bytes, length, take_all,
  strtol, take-append, drop_past, All, length-append,
}
use sope_appserver.Sns.Address.{unix, inet, max_path_size, low_16, inet_address, sns_address}

abbrev pub NotColon : ℕ → Type 0
NotColon c = (c == b':') ≡ false

index-colon :
    (host rest : Bytes) → All NotColon host → index (host ++ b':' ∷ rest) b':' ≡ some (length host)
unfolding index
index-colon [] rest h = refl
index-colon (c ∷ cs) rest (h, hs) = rw (h, index-colon cs rest hs)

module _ (inet_addr : Bytes → ℕ) (cfg : Config) where
  -- A command with a path of at most 107 characters selects the UNIX address with this path.
  path_address :
      (path : Bytes)
      → length path < max_path_size
      → sns_address inet_addr (set_sns_port cfg (b'/' ∷ path)) ≡ some (unix (b'/' ∷ path))
  unfolding sns_address set_sns_port
  path_address path h = rw (take_all 139 path (omega arith), take_all 106 path (omega arith))

  inet_address_host :
      (host port : Bytes)
      → All NotColon host
      → inet_address inet_addr (host ++ b':' ∷ port) ≡ inet (inet_addr host) (low_16 (strtol port))
  unfolding inet_address
  inet_address_host host port k =
      rw (index-colon host port k) (rw (take-append host (b':' ∷ port), drop_past host b':' port))

  -- A command with a host, a colon and a port selects the internet address of these.
  host_address :
      (c : ℕ) (host port : Bytes)
      → (c == b'/') ≡ false
      → All NotColon (c ∷ host)
      → length host + length port ≤ 138
      → sns_address inet_addr (set_sns_port cfg ((c ∷ host) ++ b':' ∷ port))
        ≡ some (inet (inet_addr (c ∷ host)) (low_16 (strtol port)))
  unfolding sns_address set_sns_port
  host_address c host port s k h =
      let kept =
        take_all 139 (host ++ b':' ∷ port) (omega (arith, length-append {0} host (b':' ∷ port))) in
      rw (kept, s) (ap some (inet_address_host (c ∷ host) port k))

  -- The address of the session name server that a `SetSNSPort` command selects: a path shorter than
  -- 107 characters behind its slash gives that UNIX address, and a host without a colon that does
  -- not start with a slash, a colon and a port, of at most 140 characters in all, give the internet
  -- address of that host with the low 16 bits of the number that the port text stands for.
  pub sns_address-set_sns_port :
      (path : Bytes) (c : ℕ) (host port : Bytes)
      → length path < max_path_size
      → (c == b'/') ≡ false
      → All NotColon (c ∷ host)
      → length host + length port ≤ 138
      → (sns_address inet_addr (set_sns_port cfg (b'/' ∷ path)) ≡ some (unix (b'/' ∷ path)))
        × (sns_address inet_addr (set_sns_port cfg ((c ∷ host) ++ b':' ∷ port))
            ≡ some (inet (inet_addr (c ∷ host)) (low_16 (strtol port))))
  sns_address-set_sns_port path c host port l s k h =
      (path_address path l, host_address c host port s k h)
