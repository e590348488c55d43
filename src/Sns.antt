-- ===== src/Sns.antt =====
-- sope-appserver/mod_ngobjweb/sns.c, `_sendSNSQuery`: the question to the session name server for
-- the address of an instance, and the reading of its answer.
pub mod Query
pub mod Reply
pub mod Address
pub mod Lookup
use sope_appserver.Prelude.{
  ℕ, ◌+◌, ◌-◌, ◌*◌, ◌/◌, ◌%◌, ◌^◌, Bool, true, false, Option, none, some, [], ◌∷◌, ltb, leb, ◌==◌,
  if◌then◌else◌, Bytes, length,
}
use sope_appserver.Descriptor.Input.{safe_read}
use sope_appserver.Descriptor.Output.Steps.{Step, ◌>>◌, when}
use sope_appserver.Descriptor.Output.{flush, safe_write}
use sope_appserver.Descriptor.State.{Descriptor}
use sope_appserver.Socket.{Socket}

-- The four bytes of an `int`, as a little-endian machine stores them.
abbrev pub int_bytes : ℕ → Bytes
int_bytes n = n % 256 ∷ (n / 256 % 256) ∷ (n / 65536 % 256) ∷ (n / 16777216 % 256) ∷ []

-- The bit pattern that four bytes make.
abbrev pub int_of : Bytes → ℕ
int_of (a ∷ b ∷ c ∷ d ∷ []) = a + 256 * b + 65536 * c + 16777216 * d
int_of _ = 0

-- SNSLookupSession.
abbrev pub lookup_session : ℕ
lookup_session = 50

abbrev pub sns_buffer_size : ℕ
sns_buffer_size = 1000

abbrev pub max_address_size : ℕ
max_address_size = 1024

module _ {W : Type 0} (sock : Socket W) where
  -- `if ((len = strlen(s)) > 0)` before the write.
  abbrev pub write_some : Bytes → Step W
  write_some s = when (ltb 0 (length s)) (safe_write sock s)

  -- A null cookie or request line has been replaced by the empty text.
  unfoldable pub send_query : Bytes → Bytes → Bytes → Step W
  send_query line app cookie =
      safe_write sock (lookup_session ∷ [])
      >> safe_write sock (int_bytes (length line + 1 + length app))
      >> write_some line
      >> safe_write sock (b' ' ∷ [])
      >> write_some app
      >> safe_write sock (int_bytes (length cookie))
      >> write_some cookie
      >> flush sock

-- How the reading of the answer ends: with a domain, a length and an address; with the number in
-- `failed`, which is 0 for an address that is too long; or in a write behind the end of the buffer.
pub data Answer : Type 0 where
  address : ℕ → ℕ → Bytes → Answer
  refused : ℕ → Answer
  overflow : Answer

-- `*_len = size` for a negative `int`, as a `size_t` of 64 bits.
abbrev pub size_of_negative : ℕ → ℕ
size_of_negative size = 2 ^ 64 - (2 ^ 32 - size)

module _ {W : Type 0} where
  -- On what the third read stored in the buffer of 1000 bytes.
  abbrev pub take_address : ℕ → ℕ → Bool × Bytes × Descriptor × W → Answer × Descriptor × W
  take_address domain size (done, bs, d, w) =
      if ltb sns_buffer_size (length bs)
      then (overflow, d, w)
      else ((if done then address domain size bs else refused 11), d, w)

  module _ (sock : Socket W) where
    -- A negative size passes both tests and reads nothing.
    abbrev pub take_size : ℕ → Bool × Bytes × Descriptor × W → Answer × Descriptor × W
    take_size domain (false, bs, d, w) = (refused 10, d, w)
    take_size domain (true, bs, d, w) =
        let size = int_of bs in
        if leb (2 ^ 31) size
        then (address domain (size_of_negative size) [], d, w)
        else if ltb max_address_size size
        then (refused 0, d, w)
        else take_address domain size (safe_read sock size d w)

    abbrev pub take_domain : Bool × Bytes × Descriptor × W → Answer × Descriptor × W
    take_domain (false, bs, d, w) = (refused 9, d, w)
    take_domain (true, bs, d, w) = take_size (int_of bs) (safe_read sock 4 d w)

    unfoldable pub read_answer : Descriptor → W → Answer × Descriptor × W
    read_answer d w = take_domain (safe_read sock 4 d w)
