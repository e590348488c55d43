-- ===== src/Sns/Query.antt =====
-- What the session name server receives.
pub mod Keep
use sope_appserver.Prelude.{
  ℕ, suc, ◌+◌, ◌<◌, ◌^◌, ◌≡◌, Bool, true, false, Option, none, some, [], ◌∷◌, ◌++◌, arith, Bytes,
  length, take, drop, ◌==◌, if◌then◌else◌, lt→ltb,
}
use sope_appserver.Descriptor.Output.Delivery.{IsWritable}
use sope_appserver.Descriptor.State.{Descriptor}
use sope_appserver.Descriptor.Output.Steps.{
  Outcome, Emits, done-Emits, >>-Emits, safe_write-Emits, flush-Emits,
}
use sope_appserver.Sns.{int_bytes, int_of, lookup_session, write_some, send_query}
use sope_appserver.Socket.{Socket, IsWriter}

-- The text of a query.
abbrev pub query : Bytes → Bytes → Bytes → Bytes
query line app cookie =
    (lookup_session ∷ [])
    ++ (int_bytes (length line + 1 + length app)
        ++ (line ++ (b' ' ∷ (app ++ (int_bytes (length cookie) ++ (cookie ++ []))))))

module _ {W Fail : Type 0} (sock : Socket W) (sent : W → Bytes)
    (writer : IsWriter sock sent Fail) where
  write_some-Emits : (s : Bytes) → Emits Fail sent s (write_some sock s)
  write_some-Emits [] = done-Emits Fail sent
  write_some-Emits (c ∷ cs) =
      rw (lt→ltb 0 (suc (length cs)) (omega arith)) (safe_write-Emits sock sent writer (c ∷ cs))

  pub send_query-Emits :
      (line app cookie : Bytes)
      → Emits Fail sent (query line app cookie) (send_query sock line app cookie)
  unfolding send_query
  send_query-Emits line app cookie =
      let plain = safe_write-Emits sock sent writer in
      >>-Emits Fail sent (plain (lookup_session ∷ [])) (
        >>-Emits Fail sent (plain (int_bytes (length line + 1 + length app))) (
          >>-Emits Fail sent (write_some-Emits line) (
            >>-Emits Fail sent (plain (b' ' ∷ [])) (
              >>-Emits Fail sent (write_some-Emits app) (
                >>-Emits Fail sent (plain (int_bytes (length cookie)))
                  (>>-Emits Fail sent (write_some-Emits cookie) (flush-Emits sock sent writer)))))))

  -- The sending of a query, on a descriptor with room: it succeeds and the text of the query stands
  -- behind all that was given before; or it fails and a first part of all that has gone out. Either
  -- way there is room again, and the reading side and the fault flag are as they were.
  pub send_query-Outcome :
      (line app cookie : Bytes) (d : Descriptor) (w : W)
      → IsWritable d
      → Outcome Fail sent (query line app cookie) d w (send_query sock line app cookie d w)
  send_query-Outcome line app cookie d w v = (send_query-Emits line app cookie).emits d w v

-- A reader of length-prefixed fields: the field and what follows it.
pub field_of : Bytes → Bytes × Bytes
field_of (a ∷ b ∷ c ∷ d ∷ rest) =
    (take (int_of (a ∷ b ∷ c ∷ d ∷ [])) rest, drop (int_of (a ∷ b ∷ c ∷ d ∷ [])) rest)
field_of _ = ([], [])

-- A reader of queries, in the server's place: the request line with the name of the application,
-- and the cookie.
unfoldable pub read_query : Bytes → Option (Bytes × Bytes)
unfolding field_of
read_query [] = none
read_query (c ∷ rest) =
    if c == lookup_session then some ((field_of rest).0, (field_of (field_of rest).1).0) else none

pub int_of-int_bytes : (n : ℕ) → n < 2 ^ 32 → int_of (int_bytes n) ≡ n
int_of-int_bytes n h = omega arith

-- The whole of a query has arrived and is read as these texts, or a write has failed.
abbrev pub Asked :
    {W : Type 0} → Type 0 → (W → Bytes) → Bytes → Bytes → Bool × Descriptor × W → Type 0
Asked Fail sent text cookie (true, d, w) = read_query (sent w) ≡ some (text, cookie)
Asked Fail sent text cookie (false, d, w) = Fail
