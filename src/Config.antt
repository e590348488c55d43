-- ===== src/Config.antt =====
-- sope-appserver/mod_ngobjweb/config.c: the directory configuration, the commands that set it, and
-- the merge by which Apache combines that of a directory with that of its parent.
pub mod Merge
use sope_appserver.Prelude.{
  ℕ, Bool, true, false, ◌||◌, Option, none, some, [], ◌∷◌, ◌==◌, if◌then◌else◌, Bytes, take,
}

-- AF_UNSPEC, AF_UNIX and AF_INET.
abbrev pub af_unspec : ℕ
af_unspec = 0

abbrev pub af_unix : ℕ
af_unix = 1

abbrev pub af_inet : ℕ
af_inet = 2

-- `ngobjweb_dir_config`; a null pointer is `none`.
pub record Config : Type 0 where
  pub sns_port : Option Bytes
  pub sns_port_domain : ℕ
  pub app_port : Option Bytes
  pub app_port_domain : ℕ
  pub app_prefix : Option Bytes
  pub use_http : Bool

abbrev pub max_portname_size : ℕ
max_portname_size = 140

abbrev pub max_app_prefix_size : ℕ
max_app_prefix_size = 256

-- What `_makeString` leaves in the buffer, which is new or big enough already: the first `max`
-- characters.
unfoldable pub make_string : Bytes → ℕ → Bytes
make_string str max = take max str

unfoldable pub make_port : Bytes → Bytes
unfolding make_string
make_port str = make_string str max_portname_size

unfoldable pub domain_from_port : Option Bytes → ℕ
domain_from_port none = af_inet
domain_from_port (some []) = af_inet
domain_from_port (some (c ∷ cs)) = if c == b'/' then af_unix else af_inet

unfoldable pub set_sns_port : Config → Bytes → Config
unfolding make_port domain_from_port
set_sns_port cfg arg =
    let port = make_port arg in
    record cfg { sns_port = some port; sns_port_domain = domain_from_port (some port) }

unfoldable pub set_app_port : Config → Bytes → Config
unfolding make_port domain_from_port
set_app_port cfg arg =
    let port = make_port arg in
    record cfg { app_port = some port; app_port_domain = domain_from_port (some port) }

unfoldable pub set_app_prefix : Config → Bytes → Config
unfolding make_string
set_app_prefix cfg arg = record cfg { app_prefix = some (make_string arg max_app_prefix_size) }

unfoldable pub set_use_http : Config → Config
set_use_http cfg = record cfg { use_http = true }

unfoldable pub create_dir_config : Config
create_dir_config = record {
  sns_port = none;
  sns_port_domain = af_unix;
  app_port = none;
  app_port_domain = af_inet;
  app_prefix = none;
  use_http = false;
}

-- How a merge ends: with a configuration, with a null pointer for want of memory, or in the read
-- of a prefix through a null pointer.
pub data Merged : Type 0 where
  merged : Config → Merged
  no_memory : Merged
  crash : Merged

abbrev pub zeroed : Config
zeroed = record {
  sns_port = none;
  sns_port_domain = af_unspec;
  app_port = none;
  app_port_domain = af_unspec;
  app_prefix = none;
  use_http = false;
}

abbrev pub or_else : Option Bytes → Option Bytes → Option Bytes
or_else (some s) other = some s
or_else none other = other

abbrev pub copy : ℕ → Option Bytes → Option Bytes
copy max none = none
copy max (some s) = some (take max s)

-- A port that has been copied determines its domain anew.
abbrev pub domain_after : Option Bytes → ℕ → ℕ
domain_after none d = d
domain_after (some p) d = domain_from_port (some p)

abbrev pub non_zero_or : ℕ → ℕ → ℕ
non_zero_or a b = if a == 0 then b else a

-- Both configurations are there.
unfoldable pub merge : Config → Config → Config
unfolding make_string domain_from_port
merge base add =
    let sns = copy max_portname_size (or_else add.sns_port base.sns_port) in
    let app = copy max_portname_size (or_else add.app_port base.app_port) in
    record {
      sns_port = sns;
      sns_port_domain = domain_after sns (non_zero_or add.sns_port_domain base.sns_port_domain);
      app_port = app;
      app_port_domain = domain_after app (non_zero_or add.app_port_domain base.app_port_domain);
      app_prefix = copy max_app_prefix_size (or_else add.app_prefix base.app_prefix);
      use_http = add.use_http || base.use_http;
    }

-- `c->appPrefix`, where `none` is a read through the null pointer.
abbrev pub read_prefix : Option Config → Option (Option Bytes)
read_prefix none = none
read_prefix (some c) = some c.app_prefix

-- `if (add->appPrefix) ... else if (base->appPrefix)`, on what these reads come to.
abbrev pub first_prefix : Option (Option Bytes) → Option (Option Bytes) → Option (Option Bytes)
first_prefix none base = none
first_prefix (some (some s)) base = some (some s)
first_prefix (some none) base = base

abbrev pub or_zeroed : Option Config → Config
or_zeroed none = zeroed
or_zeroed (some c) = c

abbrev pub with_prefix : Config → Option (Option Bytes) → Merged
with_prefix new none = crash
with_prefix new (some p) = merged (record new { app_prefix = copy max_app_prefix_size p })

-- `new` with the fields of both, of which `base` may be null; the prefixes are read without a test.
abbrev pub merge_into : Option Config → Config → Merged
merge_into base add =
    with_prefix (merge (or_zeroed base) add)
      (first_prefix (read_prefix (some add)) (read_prefix base))

-- The flag says whether the pool has memory for the result. A null `add` stands for `base`.
unfoldable pub merge_dir_configs : Bool → Option Config → Option Config → Merged
unfolding merge
merge_dir_configs false base add = no_memory
merge_dir_configs true none none = merged zeroed
merge_dir_configs true (some base) none = merge_into (some base) base
merge_dir_configs true base (some add) = merge_into base add
