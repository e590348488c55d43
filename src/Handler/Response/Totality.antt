-- ===== src/Handler/Response/Totality.antt =====
-- The handling of a response comes to an end, whatever the instance sends.
use sope_appserver.Descriptor.Input.Stream.{IsReadable, stream}
use sope_appserver.Descriptor.Input.{safe_read}
use sope_appserver.Descriptor.State.{Descriptor}
use sope_appserver.Handler.Copy.{Outgoing}
use sope_appserver.Handler.Response.Relay.{SendsOpen, relay_loop-SendsOpen, unfaulted}
use sope_appserver.Handler.Response.{
  Content, closed, left_open, freed_twice, no_buffer, unfinished, Response, declined, error_500,
  answered, undefined, no_answer, after_content, relay_content, after_headers, after_line,
  transfer_response,
}
use sope_appserver.Prelude.{
  ℕ, zero, suc, ltb, ◌^◌, if-holds, ◌+◌, ◌<◌, inl, inr, Bool, true, false, Option, none, some, List,
  arith, Bytes, length, Bool-cases, ℤ, pos, negsuc,
}
use sope_appserver.Scan.Connected.{
  Connection, chars, IsSound, unseen, Stops, scan_response_line-Stops, scan_headers-Stops,
}
use sope_appserver.Scan.Headers.{scan_headers}
use sope_appserver.Scan.ResponseLine.{ResponseLine}
use sope_appserver.Socket.{Socket, IsReader}

abbrev pub IsSent : {W : Type 0} → Content W → Type 0
IsSent (closed bs w) = Unit {0}
IsSent (left_open bs d w) = Unit {0}
IsSent freed_twice = Unit {0}
IsSent no_buffer = Unit {0}
IsSent unfinished = ⊥

-- The handler has answered with some content, or with an error.
abbrev pub Ended : {T W : Type 0} → Response T W → Type 0
Ended (declined w) = ⊥
Ended (error_500 w) = Unit {0}
Ended (answered n out content) = IsSent content
Ended undefined = ⊥
Ended no_answer = ⊥

IsSent-of_SendsOpen : {W : Type 0} (bs : Bytes) (x : Content W) → SendsOpen bs x → IsSent x
IsSent-of_SendsOpen bs (closed cs w) h = tt
IsSent-of_SendsOpen bs (left_open cs d w) h = tt
IsSent-of_SendsOpen bs freed_twice h = tt
IsSent-of_SendsOpen bs no_buffer h = absurd h
IsSent-of_SendsOpen bs unfinished h = absurd h

module _ {W : Type 0} (sock : Socket W) (pending : W → Bytes) (reader : IsReader sock pending) where
  after_content-IsSent : (x : Bool × Bytes × Descriptor × W) → IsSent (after_content sock x)
  after_content-IsSent (true, bs, d, w) = tt
  after_content-IsSent (false, bs, d, w) = tt

  relay_content-IsSent :
      (rounds : ℕ) (header_only : Bool) (n : ℤ) (d : Descriptor) (w : W)
      → IsReadable d
      → length (stream pending d w) < rounds
      → IsSent (relay_content sock rounds header_only n d w)
  unfolding relay_content
  relay_content-IsSent rounds true n d w v h = tt
  relay_content-IsSent rounds false (pos zero) d w v h =
      IsSent-of_SendsOpen (stream pending d w) _
        (relay_loop-SendsOpen sock pending reader rounds d w v h)
  relay_content-IsSent rounds false (pos (suc n)) d w v h =
      if-holds IsSent (ltb (suc n + 1) (2 ^ 31)) (after_content-IsSent (safe_read sock (suc n) d w))
        tt
  relay_content-IsSent rounds false (negsuc n) d w v h = tt

  module _ {T : Type 0} (table_set : T → Bytes → Bytes → T) (table_get : T → Bytes → Option Bytes)
      (table_elts : T → List (Bytes × Bytes)) (rounds : ℕ) (header_only : Bool) (request_length : ℤ)
      (out : Outgoing T) where
    after_headers-Ended :
        (status : ℤ) (n : ℕ) (x : Option (Option T × Connection W))
        → n < rounds
        → Stops pending n x
        → Ended (
            after_headers sock table_set table_get table_elts rounds header_only request_length out
              status x)
    after_headers-Ended status n none h p = absurd p
    after_headers-Ended status n (some (t, (d, w))) h ((v, f), q) =
        unfaulted Ended d.faulted _ f
          (relay_content-IsSent rounds header_only _ d w v (omega (arith, h, q)))

    after_line-Ended :
        (table : Option T) (n : ℕ) (x : Option (ResponseLine × Connection W))
        → n + 1 < rounds
        → Stops pending n x
        → Ended (
            after_line sock table_set table_get table_elts rounds header_only request_length out
              table x)
    after_line-Ended table n none h p = absurd p
    after_line-Ended table n (some (line, (d, w))) h (v, q) =
        unfaulted Ended d.faulted _ v.1 (elim (Bool-cases line.accepted) [
          | inl taken ↦ rw taken (
              after_headers-Ended line.status (length (unseen pending (d, w)))
                (scan_headers (chars sock) table_set rounds table (d, w)) (omega (arith, h, q))
                (scan_headers-Stops sock pending reader table_set rounds table (d, w) v
                  (omega (arith, h, q))))
          | inr refused ↦ rw refused tt
        ])

    -- The handling of the response on a sound connection over a stream that does not break ends, in
    -- two rounds more than there are characters, with an answer or with an error: it does not run
    -- into undefined behaviour before the content, and no loop goes on.
    pub transfer_response-Ended :
        (table : Option T) (s : Connection W)
        → IsSound s
        → length (unseen pending s) + 1 < rounds
        → Ended (
            transfer_response sock table_set table_get table_elts rounds header_only request_length
              out table s)
    unfolding transfer_response
    transfer_response-Ended table s v h =
        after_line-Ended table (length (unseen pending s)) _ h
          (scan_response_line-Stops sock pending reader rounds s v (omega (arith, h)))
