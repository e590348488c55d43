-- ===== src/CharClass.antt =====
-- The classes of characters of sope-mime/NGMime/NGMimeUtilities.h (RFC 822 and MIME) and of
-- sope-core/NGStreams/NGStreams/NGUrlChars.h.
pub mod Rfc822
pub mod Mime
pub mod Url
pub mod Relations
use sope_appserver.Prelude.{
  ℕ, Bool, true, false, not, ◌&&◌, ◌||◌, [], ◌∷◌, ltb, leb, ◌==◌, Bytes, codes,
}

-- The cases of a `switch` that return YES.
abbrev pub one_of : Bytes → ℕ → Bool
one_of [] c = false
one_of (b ∷ bs) c = c == b || one_of bs c

abbrev pub between : ℕ → ℕ → ℕ → Bool
between low high c = leb low c && leb c high
