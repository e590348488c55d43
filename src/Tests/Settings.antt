-- ===== src/Tests/Settings.antt =====
-- Directory configurations, and the name of the application in a URI.
use sope_appserver.Prelude.{◌≡◌, refl, some, codes}
use sope_appserver.Config.Merge.{
  IsValid, create_dir_config-IsValid, app_port, run_command, run_command-IsValid, merge-IsValid,
}
use sope_appserver.Config.{
  Config, af_unix, af_inet, create_dir_config, set_app_port, set_use_http, merge, crash,
  merge_dir_configs,
}
use sope_appserver.Handler.AppName.{
  index, starts_with, cut_at, bytes_written, first_segment, extract_app_name,
}

abbrev at_port : Config
at_port = set_app_port create_dir_config (codes "/tmp/app")

abbrev with_http : Config
with_http = set_use_http create_dir_config

port_run : at_port.app_port_domain ≡ af_unix
port_run = unfold set_app_port in unfold sope_appserver.Config.domain_from_port in refl

run_command-IsValid_example : IsValid (run_command create_dir_config (app_port (codes "/tmp/app")))
run_command-IsValid_example =
    run_command-IsValid create_dir_config (app_port (codes "/tmp/app")) create_dir_config-IsValid

app_name_run : extract_app_name (codes "/app.woa/x") 8 ≡ some (codes "app")
unfolding extract_app_name bytes_written first_segment cut_at starts_with index
app_name_run = refl

merge-IsValid_example : IsValid (merge at_port with_http)
merge-IsValid_example = merge-IsValid at_port with_http
