-- ===== src/Handler/Response.antt =====
-- The part of `ngobjweb_handler` that reads the instance's response and sends its content to the
-- client.
pub mod Relay
pub mod Totality
use sope_appserver.Descriptor.Input.{read, safe_read}
use sope_appserver.Descriptor.Output.{free}
use sope_appserver.Descriptor.State.{Descriptor}
use sope_appserver.Handler.Copy.{Outgoing, content_length, copy_headers}
use sope_appserver.Prelude.{
  List, ℕ, zero, suc, Bool, true, false, Option, none, some, [], ◌∷◌, ◌++◌, if◌then◌else◌, Bytes,
  codes, ℤ, pos, negsuc, ltb, ◌+◌, ◌^◌,
}
use sope_appserver.Scan.Connected.{Connection, chars}
use sope_appserver.Scan.Headers.{scan_headers}
use sope_appserver.Scan.ResponseLine.{ResponseLine, scan_response_line}
use sope_appserver.Socket.{Recv, got, ended, failed, Socket}

-- What is sent to the client as the content, and what becomes of the descriptor: it is freed and
-- its socket closed, it is left as it is, or it is freed twice, which is undefined behaviour, as is a
-- size of the buffer that no `int` holds. The last case stands for a loop that has used up its
-- rounds.
pub data Content (W : Type 0) : Type 0 where
  closed : Bytes → W → Content W
  left_open : Bytes → Descriptor → W → Content W
  freed_twice : Content W
  no_buffer : Content W
  unfinished : Content W

-- The handler's end: the return of DECLINED or of 500; that of OK, with the status, the headers and
-- the content for the client; or undefined behaviour before that, where a call on the descriptor has
-- met with it. The last case stands for a loop
-- that has used up its rounds.
pub data Response (T W : Type 0) : Type 0 where
  declined : W → Response T W
  error_500 : W → Response T W
  answered : ℤ → Outgoing T → Content W → Response T W
  undefined : Response T W
  no_answer : Response T W

-- On the fault flag of the descriptor.
abbrev pub unless_faulted : {T W : Type 0} → Bool → Response T W → Response T W
unless_faulted true r = undefined
unless_faulted false r = r

-- `sizeof(buffer)` of the loop that reads to the end of the stream.
abbrev pub block_size : ℕ
block_size = 4096

module _ {W : Type 0} where
  abbrev pub preceded : Bytes → Content W → Content W
  preceded bs (closed cs w) = closed (bs ++ cs) w
  preceded bs (left_open cs d w) = left_open (bs ++ cs) d w
  preceded bs freed_twice = freed_twice
  preceded bs no_buffer = no_buffer
  preceded bs unfinished = unfinished

  abbrev pub after_block : (Descriptor → W → Content W) → Recv × Descriptor × W → Content W
  after_block again (got b bs, d, w) = preceded (b ∷ bs) (again d w)
  after_block again (ended, d, w) = left_open [] d w
  after_block again (failed, d, w) = left_open [] d w

  module _ (sock : Socket W) where
    -- With no content length the stream is read to its end.
    unfoldable pub relay_loop : ℕ → Descriptor → W → Content W
    relay_loop zero d w = unfinished
    relay_loop (suc rounds) d w = after_block (relay_loop rounds) (read sock block_size d w)

    -- A read that fails frees the descriptor, and so does what follows it.
    abbrev pub after_content : Bool × Bytes × Descriptor × W → Content W
    after_content (true, bs, d, w) = closed bs (free sock d w)
    after_content (false, bs, d, w) = freed_twice

    -- A negative length sends nothing.
    unfoldable pub relay_content : ℕ → Bool → ℤ → Descriptor → W → Content W
    unfolding relay_loop
    relay_content rounds true n d w = left_open [] d w
    relay_content rounds false (pos zero) d w = relay_loop rounds d w
    relay_content rounds false (pos (suc n)) d w =
        if ltb (suc n + 1) (2 ^ 31) then after_content (safe_read sock (suc n) d w) else no_buffer
    relay_content rounds false (negsuc n) d w = left_open [] d w

    module _ {T : Type 0} (table_set : T → Bytes → Bytes → T) (table_get : T → Bytes → Option Bytes)
        (table_elts : T → List (Bytes × Bytes)) (rounds : ℕ) (header_only : Bool)
        (request_length : ℤ) (out : Outgoing T) where
      abbrev pub after_headers : ℤ → Option (Option T × Connection W) → Response T W
      after_headers status none = no_answer
      after_headers status (some (t, (d, w))) = unless_faulted d.faulted (
          answered status (copy_headers table_get table_elts table_set t out)
            (relay_content rounds header_only (content_length table_get request_length t) d w))

      abbrev pub after_line : Option T → Option (ResponseLine × Connection W) → Response T W
      after_line table none = no_answer
      after_line table (some (line, (d, w))) = unless_faulted d.faulted (
          if line.accepted
          then after_headers line.status (scan_headers (chars sock) table_set rounds table (d, w))
          else error_500 (free sock d w))

      -- `table` is what `apr_table_make` answers.
      unfoldable pub transfer_response : Option T → Connection W → Response T W
      transfer_response table s = after_line table (scan_response_line (chars sock) rounds s)
