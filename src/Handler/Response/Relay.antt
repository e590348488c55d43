-- ===== src/Handler/Response/Relay.antt =====
-- The client gets the content that the instance has sent.
use sope_appserver.Descriptor.Input.Safe.{safe_read-SafelyReads}
use sope_appserver.Descriptor.Input.Stream.{
  IsReadable, stream, Reads, read-Reads, SafelyReads, complete, short,
}
use sope_appserver.Descriptor.State.{Descriptor}
use sope_appserver.Handler.Copy.{Outgoing, content_length, length_of_text, copy_headers}
use sope_appserver.Handler.Response.{
  declined, undefined, unless_faulted, Content, closed, left_open, freed_twice, no_buffer,
  unfinished, Response, error_500, answered, no_answer, block_size, preceded, after_block,
  relay_loop, after_content, relay_content, after_headers, after_line, transfer_response,
}
use sope_appserver.Prelude.{
  ℕ, zero, suc, ltb, ◌^◌, ◌+◌, ◌<◌, ◌≡◌, refl, sym, subst, ap, ◌∙◌, Bool, true, false, Option, none,
  some, List, ◌∷◌, ◌++◌, arith, Bytes, length, length-append, All, codes, ℤ, pos, atoi,
  append-injective,
}
use sope_appserver.Scan.Connected.{
  Connection, chars, IsSound, unseen, Yields, scan_response_line-Yields, scan_headers-Yields,
}
use sope_appserver.Scan.Headers.{scan_headers}
use sope_appserver.Scan.ResponseLine.{ResponseLine}
use sope_appserver.Scan.RoundTrip.{IsHeader, print_headers, set_all}
use sope_appserver.Scan.Status.{Parts, IsResponse, print_response, response_of}
use sope_appserver.Socket.{Recv, got, ended, failed, Socket, IsReader}

-- The text tells of a content of so many bytes, for which there is a buffer.
abbrev pub Announces : Bytes → ℕ → Type 0
Announces text n = (atoi text ≡ pos n) × (n + 1 < 2 ^ 31)

-- This content has been sent, and the descriptor is left as it is.
abbrev pub SendsOpen : {W : Type 0} → Bytes → Content W → Type 0
SendsOpen body (closed bs w) = ⊥
SendsOpen body (left_open bs d w) = bs ≡ body
SendsOpen body freed_twice = ⊥
SendsOpen body no_buffer = ⊥
SendsOpen body unfinished = ⊥

-- This content has been sent, and the descriptor is freed once.
abbrev pub SendsClosed : {W : Type 0} → Bytes → Content W → Type 0
SendsClosed body (closed bs w) = bs ≡ body
SendsClosed body (left_open bs d w) = ⊥
SendsClosed body freed_twice = ⊥
SendsClosed body no_buffer = ⊥
SendsClosed body unfinished = ⊥

-- The handler returned OK with this status and these headers for the client, and such a content.
abbrev pub Answers : {T W : Type 0} → ℤ → Outgoing T → (Content W → Type 0) → Response T W → Type 0
Answers status sent_out Sent (declined w) = ⊥
Answers status sent_out Sent (error_500 w) = ⊥
Answers status sent_out Sent (answered n o content) = (n ≡ status) × (o ≡ sent_out) × Sent content
Answers status sent_out Sent undefined = ⊥
Answers status sent_out Sent no_answer = ⊥

pub unfaulted :
    {T W : Type 0} (P : Response T W → Type 0) (b : Bool) (r : Response T W)
    → b ≡ false
    → P r
    → P (unless_faulted b r)
unfaulted P b r e p = subst (λ c. P (unless_faulted c r)) (sym e) p

preceded-SendsOpen :
    {W : Type 0} (bs cs body : Bytes) (x : Content W)
    → body ≡ bs ++ cs
    → SendsOpen cs x
    → SendsOpen body (preceded bs x)
preceded-SendsOpen bs cs body (closed es w) e p = absurd p
preceded-SendsOpen bs cs body (left_open es d w) e p = ap (λ t. bs ++ t) p ∙ sym e
preceded-SendsOpen bs cs body freed_twice e p = absurd p
preceded-SendsOpen bs cs body no_buffer e p = absurd p
preceded-SendsOpen bs cs body unfinished e p = absurd p

module _ {W : Type 0} (pending : W → Bytes) where
  after_block-SendsOpen :
      (again : Descriptor → W → Content W) (d : Descriptor) (w : W) (r : Recv) (d' : Descriptor)
      (w' : W)
      → (IsReadable d'
          → length (stream pending d' w') < length (stream pending d w)
          → SendsOpen (stream pending d' w') (again d' w'))
      → Reads pending block_size d w (r, d', w')
      → SendsOpen (stream pending d w) (after_block again (r, d', w'))
  after_block-SendsOpen again d w (got b bs) d' w' ih (e, k, v, f) =
      let shorter : length (stream pending d' w') < length (stream pending d w) =
        omega (arith, ap length e, length-append {0} bs (stream pending d' w')) in
      preceded-SendsOpen (b ∷ bs) (stream pending d' w') _ _ e (ih v shorter)
  after_block-SendsOpen again d w ended d' w' ih (e, z, v, f) = sym e
  after_block-SendsOpen again d w failed d' w' ih p = absurd p

  after_content-SendsClosed :
      (sock : Socket W) (n : ℕ) (content rest : Bytes) (d : Descriptor) (w : W)
      {x : Bool × Bytes × Descriptor × W}
      → n ≡ length content
      → stream pending d w ≡ content ++ rest
      → SafelyReads pending n d w x
      → SendsClosed content (after_content sock x)
  after_content-SendsClosed sock n content rest d w l e (complete {bs = us} h k v f) =
      (append-injective us content _ rest (h ∙ l) (sym k ∙ e)).0
  after_content-SendsClosed sock n content rest d w l e (short {bs = us} h k z v f) =
      absurd (omega (arith, ap length (sym k ∙ e), length-append {0} content rest))

  after_content_short :
      (sock : Socket W) (n : ℕ) (d : Descriptor) (w : W) {x : Bool × Bytes × Descriptor × W}
      → length (stream pending d w) < n
      → SafelyReads pending n d w x
      → after_content sock x ≡ freed_twice
  after_content_short sock n d w l (complete {bs = us} h k v f) =
      absurd (omega (arith, ap length k, length-append {0} us _))
  after_content_short sock n d w l (short h k z v f) = refl

module _ {W : Type 0} (sock : Socket W) (pending : W → Bytes) (reader : IsReader sock pending) where
  pub relay_loop-SendsOpen :
      (rounds : ℕ) (d : Descriptor) (w : W)
      → IsReadable d
      → length (stream pending d w) < rounds
      → SendsOpen (stream pending d w) (relay_loop sock rounds d w)
  unfolding relay_loop
  relay_loop-SendsOpen zero d w v h = absurd (omega arith)
  relay_loop-SendsOpen (suc rounds) d w v h =
      after_block-SendsOpen pending (relay_loop sock rounds) d w _ _ _
        (λ u k. relay_loop-SendsOpen rounds _ _ u (omega arith))
        (read-Reads sock pending reader block_size d w (omega arith) v)

  module _ {T : Type 0} (table_set : T → Bytes → Bytes → T) (table_get : T → Bytes → Option Bytes)
      (table_elts : T → List (Bytes × Bytes)) (rounds : ℕ) (request_length : ℤ)
      (out : Outgoing T) where
    abbrev pub copied : T → List (Bytes × Bytes) → Outgoing T
    copied t hs = copy_headers table_get table_elts table_set (some (set_all table_set t hs)) out

    after_line-Answers :
        (Sent : Content W → Type 0) (o : Outgoing T) (status : ℤ) (rest : Bytes) (table : Option T)
        (r : ResponseLine) (x : Option (ResponseLine × Connection W))
        → r.accepted ≡ true
        → r.status ≡ status
        → Yields pending r rest x
        → ((s : Connection W)
            → IsSound s
            → unseen pending s ≡ rest
            → Answers status o Sent (
                after_headers sock table_set table_get table_elts rounds false request_length out
                  status
                  (scan_headers (chars sock) table_set rounds table s)))
        → Answers status o Sent
            (after_line sock table_set table_get table_elts rounds false request_length out table x)
    after_line-Answers Sent o status rest table r none a b e k = absurd e
    after_line-Answers Sent o status rest table r (some (line, (d, w))) a b (e, v, u) k =
        unfaulted (Answers status o Sent) d.faulted _ v.1 (rw (e, a, b) (k (d, w) v u))

    after_headers-Answers :
        (Sent : Content W → Type 0) (status : ℤ) (rest : Bytes) (t : Option T)
        (x : Option (Option T × Connection W))
        → Yields pending t rest x
        → ((d : Descriptor) (w : W)
            → IsReadable d
            → stream pending d w ≡ rest
            → Sent
                (relay_content sock rounds false (content_length table_get request_length t) d w))
        → Answers status (copy_headers table_get table_elts table_set t out) Sent (
            after_headers sock table_set table_get table_elts rounds false request_length out status
              x)
    after_headers-Answers Sent status rest t none e k = absurd e
    after_headers-Answers Sent status rest t (some (u, (d, w))) (e, (v, f), p) k =
        unfaulted (Answers status (copy_headers table_get table_elts table_set t out) Sent)
          d.faulted _ f
          (refl, ap (λ x. copy_headers table_get table_elts table_set x out) e, rw e (k d w v p))

    -- A response line, headers and what is behind them.
    transfer_response-Answers :
        (Sent : Content W → Type 0) (r : Parts) (hs : List (Bytes × Bytes)) (t : T) (rest : Bytes)
        (s : Connection W)
        → IsSound s
        → unseen pending s ≡ print_response r (print_headers hs rest)
        → IsResponse rounds r
        → All IsHeader hs
        → length hs + 1 < rounds
        → ((d : Descriptor) (w : W)
            → IsReadable d
            → stream pending d w ≡ rest
            → Sent (
                relay_content sock rounds false
                  (length_of_text (table_get (set_all table_set t hs) (codes "content-length")))
                  d
                  w))
        → Answers (atoi r.code) (copied t hs) Sent (
            transfer_response sock table_set table_get table_elts rounds false request_length out
              (some t)
              s)
    unfolding transfer_response
    transfer_response-Answers Sent r hs t rest s v e p ps h k =
        after_line-Answers Sent (copied t hs) (atoi r.code) (print_headers hs rest) (some t)
          (response_of r) _ refl refl
          (scan_response_line-Yields sock pending reader rounds r (print_headers hs rest) s v e p)
          (λ c u q.
            after_headers-Answers Sent (atoi r.code) rest (some (set_all table_set t hs)) _
              (scan_headers-Yields sock pending reader table_set rounds hs t rest c u q ps h) k)

    -- A proper response line, proper headers without a content length, and some content, on a sound
    -- connection over a stream that does not break, given enough rounds: the status is that of
    -- the response line and the client gets all that is behind the headers. The descriptor is not
    -- freed.
    pub transfer_response-to_end :
        (r : Parts) (hs : List (Bytes × Bytes)) (t : T) (body : Bytes) (s : Connection W)
        → IsSound s
        → unseen pending s ≡ print_response r (print_headers hs body)
        → IsResponse rounds r
        → All IsHeader hs
        → length hs + 1 < rounds
        → length body < rounds
        → table_get (set_all table_set t hs) (codes "content-length") ≡ none
        → Answers (atoi r.code) (copied t hs) (SendsOpen body) (
            transfer_response sock table_set table_get table_elts rounds false request_length out
              (some t)
              s)
    transfer_response-to_end r hs t body s v e p ps h l g =
        transfer_response-Answers (SendsOpen body) r hs t body s v e p ps h (λ d w u q.
          rw (g, ← q) (unfold relay_content in relay_loop-SendsOpen rounds d w u (rw q l)))

    -- A proper response line, proper headers with a positive content length below 2^31 - 1, and at
    -- least as much content, on a sound connection over a stream that does not break, given enough rounds: the
    -- status is that of the response line, the client gets just this content, and the descriptor is
    -- freed once.
    pub transfer_response-content :
        (r : Parts) (hs : List (Bytes × Bytes)) (t : T) (text : Bytes) (c : ℕ)
        (content rest : Bytes) (s : Connection W)
        → IsSound s
        → unseen pending s ≡ print_response r (print_headers hs ((c ∷ content) ++ rest))
        → IsResponse rounds r
        → All IsHeader hs
        → length hs + 1 < rounds
        → table_get (set_all table_set t hs) (codes "content-length") ≡ some text
        → Announces text (length (c ∷ content))
        → Answers (atoi r.code) (copied t hs) (SendsClosed (c ∷ content)) (
            transfer_response sock table_set table_get table_elts rounds false request_length out
              (some t)
              s)
    unfolding relay_content
    transfer_response-content r hs t text c content rest s v e p ps h g (n, k) =
        let small : ltb (length (c ∷ content) + 1) (2 ^ 31) ≡ true = ground (arith, k) in
        transfer_response-Answers (SendsClosed (c ∷ content)) r hs t ((c ∷ content) ++ rest) s v e p
          ps h
          (λ d w u q.
            rw (g, n, small)
              (after_content-SendsClosed pending sock (length (c ∷ content)) (c ∷ content) rest d w
                refl q (safe_read-SafelyReads sock pending reader (length (c ∷ content)) d w u)))

    -- A proper response line, proper headers with a positive content length below 2^31 - 1, and less
    -- content than that, on a sound connection over a stream that does not break, given enough rounds: the
    -- status is that of the response line, the headers are copied, and the descriptor is freed twice.
    pub transfer_response-short :
        (r : Parts) (hs : List (Bytes × Bytes)) (t : T) (text : Bytes) (n : ℕ) (body : Bytes)
        (s : Connection W)
        → IsSound s
        → unseen pending s ≡ print_response r (print_headers hs body)
        → IsResponse rounds r
        → All IsHeader hs
        → length hs + 1 < rounds
        → table_get (set_all table_set t hs) (codes "content-length") ≡ some text
        → Announces text (suc n)
        → length body < suc n
        → Answers
            (atoi r.code)
            (copied t hs)
            (λ content. content ≡ freed_twice)
            (transfer_response sock table_set table_get table_elts rounds false request_length out
              (some t)
              s)
    unfolding relay_content
    transfer_response-short r hs t text n body s v e p ps h g (m, k) l =
        let small : ltb (suc n + 1) (2 ^ 31) ≡ true = ground (arith, k) in
        transfer_response-Answers (λ content. content ≡ freed_twice) r hs t body s v e p ps h
          (λ d w u q.
            rw (g, m, small)
              (after_content_short pending sock (suc n) d w (rw q l)
                (safe_read-SafelyReads sock pending reader (suc n) d w u)))
