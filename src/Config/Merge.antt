-- ===== src/Config/Merge.antt =====
-- Laws of the merge, and the invariant of configurations.
use sope_appserver.Prelude.{
  ℕ, ◌≤◌, ◌≡◌, refl, sym, ap, ◌∙◌, Bool, ◌||◌, Option, none, some, arith, Bytes, length,
  length-take, take_all,
}
use sope_appserver.Config.{
  Config, max_portname_size, max_app_prefix_size, domain_from_port, set_sns_port, set_app_port,
  set_app_prefix, set_use_http, create_dir_config, or_else, copy, domain_after, non_zero_or, merge,
}

abbrev Fits : ℕ → Option Bytes → Type 0
Fits max none = Unit {0}
Fits max (some s) = length s ≤ max

abbrev Agrees : Option Bytes → ℕ → Type 0
Agrees none d = Unit {0}
Agrees (some p) d = d ≡ domain_from_port (some p)

-- A port that is set fits its buffer and goes with the domain that its text shows.
pub record IsValid (c : Config) : Type 0 where
  pub sns_fits : Fits max_portname_size c.sns_port
  pub sns_agrees : Agrees c.sns_port c.sns_port_domain
  pub app_fits : Fits max_portname_size c.app_port
  pub app_agrees : Agrees c.app_port c.app_port_domain
  pub prefix_fits : Fits max_app_prefix_size c.app_prefix

copy-Fits : (max : ℕ) (o : Option Bytes) → Fits max (copy max o)
copy-Fits max none = tt
copy-Fits max (some s) = omega (arith, length-take max s)

domain_after-Agrees : (o : Option Bytes) (d : ℕ) → Agrees o (domain_after o d)
domain_after-Agrees none d = tt
domain_after-Agrees (some p) d = refl

-- The merge of any two configurations is valid.
pub merge-IsValid : (base add : Config) → IsValid (merge base add)
unfolding merge
merge-IsValid base add = record {
  sns_fits = copy-Fits max_portname_size (or_else add.sns_port base.sns_port);
  sns_agrees = domain_after-Agrees (copy max_portname_size (or_else add.sns_port base.sns_port)) _;
  app_fits = copy-Fits max_portname_size (or_else add.app_port base.app_port);
  app_agrees = domain_after-Agrees (copy max_portname_size (or_else add.app_port base.app_port)) _;
  prefix_fits = copy-Fits max_app_prefix_size (or_else add.app_prefix base.app_prefix);
}

pub create_dir_config-IsValid : IsValid create_dir_config
unfolding create_dir_config
create_dir_config-IsValid = ground arith

-- The commands of the configuration file, with their arguments.
pub data Command : Type 0 where
  sns_port : Bytes → Command
  app_port : Bytes → Command
  app_prefix : Bytes → Command
  use_http : Command

pub run_command : Config → Command → Config
run_command cfg (sns_port arg) = set_sns_port cfg arg
run_command cfg (app_port arg) = set_app_port cfg arg
run_command cfg (app_prefix arg) = set_app_prefix cfg arg
run_command cfg use_http = set_use_http cfg

-- Every command keeps a configuration valid.
pub run_command-IsValid : (cfg : Config) (c : Command) → IsValid cfg → IsValid (run_command cfg c)
unfolding run_command set_sns_port set_app_port set_app_prefix set_use_http
run_command-IsValid cfg (sns_port arg) v = ground (arith, length-take max_portname_size arg)
run_command-IsValid cfg (app_port arg) v = ground (arith, length-take max_portname_size arg)
run_command-IsValid cfg (app_prefix arg) v = ground (arith, length-take max_app_prefix_size arg)
run_command-IsValid cfg use_http v = ground arith

copy_self : (max : ℕ) (o : Option Bytes) → Fits max o → copy max (or_else o o) ≡ o
copy_self max none h = refl
copy_self max (some s) h = ap some (take_all max s h)

domain_after_self :
    (max : ℕ) (o : Option Bytes) (d : ℕ)
    → Fits max o
    → Agrees o d
    → domain_after (copy max (or_else o o)) (non_zero_or d d) ≡ d
domain_after_self max none d h e = ground arith
domain_after_self max (some s) d h e =
    ap (λ t. domain_from_port (some t)) (take_all max s h) ∙ sym e

-- A valid configuration merged with itself, as happens where a level sets nothing, stays as it is.
pub merge_self : (c : Config) → IsValid c → merge c c ≡ c
unfolding merge
merge_self c v = λ i. record {
  sns_port = copy_self max_portname_size c.sns_port v.sns_fits i;
  sns_port_domain =
      domain_after_self max_portname_size c.sns_port c.sns_port_domain v.sns_fits v.sns_agrees i;
  app_port = copy_self max_portname_size c.app_port v.app_fits i;
  app_port_domain =
      domain_after_self max_portname_size c.app_port c.app_port_domain v.app_fits v.app_agrees i;
  app_prefix = copy_self max_app_prefix_size c.app_prefix v.prefix_fits i;
  use_http = http c.use_http i;
}
  where
    http : (x : Bool) → (x || x) ≡ x
    http x = ground arith
