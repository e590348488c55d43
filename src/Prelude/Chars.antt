-- ===== src/Prelude/Chars.antt =====
-- C strings as the list of their bytes before the terminating NUL, and the character tests of
-- <ctype.h> that the code uses.
use Prim.Native.Char.{code}
use Prim.Native.Nat.{ℕ}
use Prim.Native.String.{String}
use mathlib.Core.Bool.{Bool, ◌&&◌, ◌||◌}
use mathlib.Core.List.{[], ◌∷◌}
use sope_appserver.Prelude.Lists.{Bytes}
use sope_appserver.Prelude.Tests.{leb, ◌==◌}

-- The bytes of an ASCII literal.
abbrev pub codes : String → Bytes
codes String.[] = []
codes (String.◌∷◌ c s) = code c ∷ codes s

-- isspace in the C locale: blank, and \t \n \v \f \r.
abbrev pub is_space : ℕ → Bool
is_space c = c == 32 || leb 9 c && leb c 13

abbrev pub is_digit : ℕ → Bool
is_digit c = leb b'0' c && leb c b'9'
