-- ===== src/Handler/Guards.antt =====
-- The head of `ngobjweb_handler`: which requests it takes, and the name of their application.
use sope_appserver.Config.{Config}
use sope_appserver.Handler.AppName.Suffixes.{contains}
use sope_appserver.Handler.AppName.{extract_app_name}
use sope_appserver.Prelude.{
  ℕ, Bool, true, false, not, ◌&&◌, Option, none, some, [], ◌∷◌, leb, ◌==◌, if◌then◌else◌, Bytes,
  length, drop, codes,
}

-- `strcmp(s, t) == 0`.
unfoldable pub same_text : Bytes → Bytes → Bool
same_text [] [] = true
same_text [] (c ∷ t) = false
same_text (c ∷ s) [] = false
same_text (c ∷ s) (d ∷ t) = c == d && same_text s t

abbrev pub starts_slash : Bytes → Bool
starts_slash [] = false
starts_slash (c ∷ s) = c == b'/'

-- The handler's name, for Apache 2.
unfoldable pub is_ours : Option Bytes → Bool
unfolding same_text
is_ours none = false
is_ours (some name) = same_text name (codes "ngobjweb-adaptor")

unfoldable pub takes_uri : Option Bytes → Bool
unfolding contains
takes_uri none = false
takes_uri (some uri) = starts_slash uri && not (contains (codes "WebServerResources") uri)

-- `_getConfig`: whether there is a directory configuration, and the module's part of it.
abbrev pub get_config : Bool → Option Config → Option Config
get_config false cfg = none
get_config true cfg = cfg

-- `sizeof(appName)`.
abbrev pub app_name_size : ℕ
app_name_size = 256

-- `uri += strlen(cfg->appPrefix)`; `none` is a pointer behind the end of the text.
abbrev pub skip_prefix : Option Bytes → Bytes → Option Bytes
skip_prefix none uri = some uri
skip_prefix (some p) uri = if leb (length p) (length uri) then some (drop (length p) uri) else none

abbrev pub name_in : Option Bytes → Option Bytes
name_in none = none
name_in (some uri) = extract_app_name uri app_name_size

unfoldable pub app_name : Config → Bytes → Option Bytes
app_name cfg uri = name_in (skip_prefix cfg.app_prefix uri)
