-- ===== src/Handler/AppName.antt =====
-- `_extractAppName`, with the memory that it writes.
pub mod Suffixes
use mathlib.Core.Option
use sope_appserver.Prelude.{
  ℕ, suc, leb, ◌+◌, ◌-◌, Bool, true, false, ◌&&◌, Option, none, some, [], ◌∷◌, ◌==◌, if◌then◌else◌,
  Bytes, length, take, codes,
}

-- `index(s, c)`, as the distance from `s`.
unfoldable pub index : Bytes → ℕ → Option ℕ
index [] c = none
index (x ∷ xs) c =
    let rest = Option.map (λ n. suc n) (index xs c) in if x == c then some 0 else rest

-- Whether the first text begins with the second.
unfoldable pub starts_with : Bytes → Bytes → Bool
starts_with xs [] = true
starts_with [] (p ∷ ps) = false
starts_with (x ∷ xs) (p ∷ ps) = x == p && starts_with xs ps

-- `if ((tmp = strstr(s, pattern))) *tmp = '\0';` on a pattern that is not empty.
unfoldable pub cut_at : Bytes → Bytes → Bytes
unfolding starts_with
cut_at pattern [] = []
cut_at pattern (x ∷ xs) =
    let kept = x ∷ cut_at pattern xs in if starts_with (x ∷ xs) pattern then [] else kept

abbrev pub woa : Bytes
woa = codes ".woa"

abbrev pub sky : Bytes
sky = codes ".sky"

-- How many bytes of `appName` the copy of the first segment writes, the terminating NUL included;
-- `path` is the text behind the first character of the URI. With a slash all before it is copied,
-- whatever `maxLen` is; with none strncpy fills the buffer to its end.
unfoldable pub bytes_written : Bytes → ℕ → ℕ
unfolding index
bytes_written path max_len = elim (index path b'/') [ some len ↦ len + 1 | none ↦ max_len ]

-- What `appName` holds then.
unfoldable pub first_segment : Bytes → ℕ → Bytes
unfolding index
first_segment path max_len = elim (index path b'/') [
  | some len ↦ take len path
  | none ↦ take (max_len - 1) path
]

-- The name of the application. `none` stands for undefined behaviour: on an empty URI the code
-- reads behind its end, and a segment that is too long is written behind the end of the buffer.
unfoldable pub extract_app_name : Bytes → ℕ → Option Bytes
unfolding bytes_written first_segment cut_at
extract_app_name [] max_len = none
extract_app_name (c ∷ path) max_len =
    if leb (bytes_written path max_len) max_len
    then some (cut_at sky (cut_at woa (first_segment path max_len)))
    else none
