-- ===== src/Sns/Query/Keep.antt =====
-- A property of the system's state that every write(2) keeps is kept by the sending of a query, and
-- a query that has been sent leaves the write buffer empty.
use sope_appserver.Descriptor.Keep.{
  WritesKeep, Keeps, >>-Keeps, when-Keeps, safe_write-Keeps, flush-Keeps,
}
use sope_appserver.Descriptor.Output.Steps.{Clears, >>-Clears, flush-Clears}
use sope_appserver.Descriptor.Output.{safe_write}
use sope_appserver.Prelude.{Bool, ◌+◌, [], ◌∷◌, ltb, Bytes, length}
use sope_appserver.Sns.{int_bytes, lookup_session, write_some, send_query}
use sope_appserver.Socket.{Socket}

module _ {W : Type 0} (P : Bool → W → Type 0) (sock : Socket W)
    (writes : (o : Bool) → WritesKeep (P o) sock) where
  write_some-Keeps : (s : Bytes) → Keeps P (write_some sock s)
  write_some-Keeps s = when-Keeps P (ltb 0 (length s)) (safe_write-Keeps P sock writes s)

  pub send_query-Keeps : (line app cookie : Bytes) → Keeps P (send_query sock line app cookie)
  unfolding send_query
  send_query-Keeps line app cookie =
      let plain : (bs : Bytes) → Keeps P (safe_write sock bs) = safe_write-Keeps P sock writes in
      >>-Keeps P (plain (lookup_session ∷ [])) (
        >>-Keeps P (plain (int_bytes (length line + 1 + length app))) (
          >>-Keeps P (write_some-Keeps line) (
            >>-Keeps P (plain (b' ' ∷ [])) (
              >>-Keeps P (write_some-Keeps app) (
                >>-Keeps P (plain (int_bytes (length cookie)))
                  (>>-Keeps P (write_some-Keeps cookie) (flush-Keeps P sock writes)))))))

pub send_query-Clears :
    {W : Type 0} (sock : Socket W) (line app cookie : Bytes)
    → Clears (send_query sock line app cookie)
unfolding send_query
send_query-Clears sock line app cookie = >>-Clears (safe_write sock (lookup_session ∷ [])) (
    >>-Clears (safe_write sock (int_bytes (length line + 1 + length app))) (
      >>-Clears (write_some sock line) (
        >>-Clears (safe_write sock (b' ' ∷ [])) (
          >>-Clears (write_some sock app) (
            >>-Clears (safe_write sock (int_bytes (length cookie)))
              (>>-Clears (write_some sock cookie) (flush-Clears sock)))))))
