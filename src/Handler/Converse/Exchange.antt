-- ===== src/Handler/Converse/Exchange.antt =====
-- A whole exchange with an instance: it is sent the request, and the client gets its response.
use sope_appserver.Config.{Config}
use sope_appserver.Descriptor.Keep.{WritesKeep, flush-Keeps, safe_write-Keeps}
use sope_appserver.Handler.Request.Keep.{write_request-Keeps}
use sope_appserver.Descriptor.Output.Delivery.{IsWritable, SameInput, SameInput-trans, output}
use sope_appserver.Descriptor.Output.Steps.{
  Outcome, Empties, safe_write-Outcome, flush-Emits, flush-Empties,
}
use sope_appserver.Descriptor.State.{Descriptor, new_owned}
use sope_appserver.Handler.Converse.{
  Host, Call, is_positive, respond, after_body_flush, after_body, transfer_body, after_head,
  converse,
}
use sope_appserver.Handler.Copy.{Outgoing, copy_headers}
use sope_appserver.Handler.Request.Emission.{
  request_text, write_request-Outcome, write_request-Clears,
}
use sope_appserver.Handler.Response.Relay.{
  SendsOpen, SendsClosed, Answers, Announces, transfer_response-content, transfer_response-to_end,
}
use sope_appserver.Handler.Response.{Response}
use sope_appserver.Prelude.{
  ℕ, ◌+◌, ◌<◌, ◌≡◌, sym, ap, ◌∙◌, ◌⊎◌, inl, inr, Bool, true, false, none, some, List, [], ◌∷◌, ◌++◌,
  append-nil, arith, if◌then◌else◌, Bytes, length, All, codes, Bool-cases, ℤ, atoi,
}
use sope_appserver.Scan.Connected.{IsSound, unseen}
use sope_appserver.Scan.RoundTrip.{IsHeader, print_headers, set_all}
use sope_appserver.Scan.Status.{Parts, IsResponse, print_response}
use sope_appserver.Socket.{IsReader, IsWriter}

abbrev fresh : Descriptor
fresh = new_owned 512

-- The body is sent where the content length is not 0.
abbrev pub sent_body : ℤ → Bytes → Bytes
sent_body n body = if is_positive n then body else []

-- These bytes, and no others, were given to the descriptor of the connection, which has not read.
abbrev Given : {W : Type 0} → (W → Bytes) → Bytes → Descriptor → W → Type 0
Given sent bs d w = (output sent d w ≡ bs) × IsWritable d × SameInput fresh d

module _ {W : Type 0} (Fail : Type 0) (sent : W → Bytes) where
  Given-append :
      (ps bs : Bytes) (d e : Descriptor) (w v : W)
      → Given sent ps d w
      → Outcome Fail sent bs d w (true, e, v)
      → Given sent (ps ++ bs) e v
  Given-append ps bs d e w v (p, k, s) (q, r, t) = (q ∙ ap (λ u. u ++ bs) p, r, SameInput-trans s t)

  sent-of_Given :
      (bs : Bytes) (d : Descriptor) (w : W) → Given sent bs d w → d.write_buffer ≡ [] → sent w ≡ bs
  sent-of_Given bs d w (p, k, s) e = sym (append-nil (sent w)) ∙ ap (λ u. sent w ++ u) (sym e) ∙ p

module _ {T W Fail : Type 0} (host : Host T W) (sent pending : W → Bytes)
    (writer : IsWriter host.to_app.sock sent Fail) (Quiet : W → Type 0)
    (quiet : WritesKeep Quiet host.to_app.sock) (rounds : ℕ) (call : Call T) (cfg : Config) where
  IsSound-of_Given :
      (bs : Bytes) (d : Descriptor) (w : W)
      → Given sent bs d w
      → IsSound (d, w) × (unseen pending (d, w) ≡ pending w)
  IsSound-of_Given bs d w (p, k, s) =
      let e : d.read_pos ≡ 0 = s.same_read_pos in
      let f : d.read_buffer ≡ [] = s.same_read_buffer in
      (
        (
          record { in_buffer = ground arith; rewound = λ _. e; fits = ground arith },
          s.same_faulted,
        ),
        rw (e, f),
      )

  module _ (n : ℤ) (body response : Bytes) (Good : Response T W → Type 0)
      (answers : (v : W)
        → sent v ≡ request_text host.apache cfg call.request ++ sent_body n body
        → Quiet v
        → pending v ≡ response)
      (good : (d : Descriptor) (v : W)
        → IsSound (d, v)
        → unseen pending (d, v) ≡ response
        → Good (respond host rounds call cfg n body d v)) where
    respond-Good :
        (d : Descriptor) (v : W)
        → Given sent (request_text host.apache cfg call.request ++ sent_body n body) d v
        → d.write_buffer ≡ []
        → Quiet v
        → Good (respond host rounds call cfg n body d v)
    respond-Good d v g e c =
        let (s, u) = IsSound-of_Given _ d v g in
        good d v s (u ∙ answers v (sent-of_Given Fail sent _ d v g e) c)

    after_body_flush-Good :
        (d : Descriptor) (v : W) (x : Bool × Descriptor × W)
        → Given sent (request_text host.apache cfg call.request ++ sent_body n body) d v
        → Outcome Fail sent [] d v x
        → Empties x
        → Quiet x.2
        → Fail ⊎ Good (after_body_flush host rounds call cfg n body x)
    after_body_flush-Good d v (true, e, u) g o z c =
        let given = Given-append Fail sent _ [] d e v u g o in
        inr (respond-Good e u (rw append-nil at given) z c)
    after_body_flush-Good d v (false, e, u) g ((rest, q, f), r, t) z c = inl f

    after_body-Good :
        (d : Descriptor) (v : W) (x : Bool × Descriptor × W)
        → is_positive n ≡ true
        → Given sent (request_text host.apache cfg call.request) d v
        → Outcome Fail sent body d v x
        → Quiet x.2
        → Fail ⊎ Good (after_body host rounds call cfg n body x)
    after_body-Good d v (true, e, u) p g o c =
        let given = Given-append Fail sent _ body d e v u g o in
        after_body_flush-Good e u _ (rw p given)
          ((flush-Emits host.to_app.sock sent writer).emits e u o.1)
          (flush-Empties host.to_app.sock e u)
          ((flush-Keeps (λ o. Quiet) host.to_app.sock (λ o. quiet)).keeps e u c)
    after_body-Good d v (false, e, u) p g ((rest, q, f), r, t) c = inl f

    transfer_body-Good :
        (d : Descriptor) (v : W)
        → Given sent (request_text host.apache cfg call.request) d v
        → d.write_buffer ≡ []
        → Quiet v
        → Fail ⊎ Good (transfer_body host rounds call cfg n body d v)
    transfer_body-Good d v g e c = elim (Bool-cases (is_positive n)) [
      | inl p ↦ rw p (
          after_body-Good d v _ p g (safe_write-Outcome host.to_app.sock sent writer body d v g.1)
            ((safe_write-Keeps (λ o. Quiet) host.to_app.sock (λ o. quiet) body).keeps d v c))
      | inr p ↦ rw p (inr (respond-Good d v (rw (p, append-nil) g) e c))
    ]

    after_head-Good :
        (w : W) (x : Bool × Descriptor × W)
        → sent w ≡ []
        → Outcome Fail sent (request_text host.apache cfg call.request) fresh w x
        → Empties x
        → Quiet x.2
        → Fail ⊎ Good (after_head host rounds call cfg n body x)
    after_head-Good w (true, e, u) h (q, r, t) z c = transfer_body-Good e u (q ∙ rw h, r, t) z c
    after_head-Good w (false, e, u) h ((rest, q, f), r, t) z c = inl f

    converse-Good :
        (w : W) → sent w ≡ [] → Quiet w → Fail ⊎ Good (converse host rounds call cfg n body w)
    unfolding converse
    converse-Good w h c =
        after_head-Good w _ h
          (write_request-Outcome host.to_app.sock sent writer host.apache cfg call.request fresh w
            (record { has_room = omega arith }))
          ((write_request-Clears host.apache host.to_app.sock cfg call.request).clears fresh w)
          ((write_request-Keeps (λ o. Quiet) host.apache host.to_app.sock (λ o. quiet) cfg
              call.request).keeps
            fresh w c)

  module _ (reader : IsReader host.to_app.sock pending) (n : ℤ) (body : Bytes) (r : Parts)
      (hs : List (Bytes × Bytes)) (t : T) where
    -- Once it has been sent the whole of the request and nothing else, the instance has these bytes
    -- for the client, as long as none of them has been read.
    abbrev AnswersWith : Bytes → Type 0
    AnswersWith response =
        (v : W)
        → sent v ≡ request_text host.apache cfg call.request ++ sent_body n body
        → Quiet v
        → pending v ≡ response

    -- The response's headers, as the client gets them.
    abbrev copied : Outgoing T
    copied =
        copy_headers host.apache.table_get host.apache.table_elts host.table_set
          (some (set_all host.table_set t hs)) call.out

    -- An exchange over a fresh connection to an instance that, once it has been sent the whole of
    -- the request with its body and nothing else, answers with a proper response line, proper
    -- headers with a positive content length below 2^31 - 1, and at least as much content, where the client wants
    -- the content, the system delivers the response in whatever pieces and there are enough rounds:
    -- unless a write failed, the handler returns OK with the status of the response line, the
    -- headers copied, and just the content, and frees the descriptor once.
    pub converse-content :
        (text : Bytes) (c : ℕ) (content rest : Bytes) (w : W)
        → call.header_only ≡ false
        → host.table_made ≡ some t
        → sent w ≡ []
        → Quiet w
        → AnswersWith (print_response r (print_headers hs ((c ∷ content) ++ rest)))
        → IsResponse rounds r
        → All IsHeader hs
        → length hs + 1 < rounds
        → host.apache.table_get (set_all host.table_set t hs) (codes "content-length") ≡ some text
        → Announces text (length (c ∷ content))
        → Fail
          ⊎ Answers
              (atoi r.code)
              copied
              (SendsClosed (c ∷ content))
              (converse host rounds call cfg n body w)
    converse-content text c content rest w o m e q a p ps h g l =
        converse-Good n body (print_response r (print_headers hs ((c ∷ content) ++ rest)))
          (Answers (atoi r.code) copied (SendsClosed (c ∷ content))) a
          (λ d v s u.
            rw (o, m)
              (transfer_response-content host.to_app.sock pending reader host.table_set
                host.apache.table_get host.apache.table_elts rounds n call.out r hs t text c content
                rest (d, v) s u p ps h g l))
          w e q

    -- An exchange over a fresh connection to an instance that, once it has been sent the whole of
    -- the request with its body and nothing else, answers with a proper response line, proper
    -- headers without a content length, and some content, where the client wants the content, the
    -- system delivers the response in whatever pieces and there are enough rounds: unless a write
    -- failed, the handler returns OK with the status of the response line, the headers copied, and
    -- all that is behind the headers, and does not free the descriptor.
    pub converse-to_end :
        (content : Bytes) (w : W)
        → call.header_only ≡ false
        → host.table_made ≡ some t
        → sent w ≡ []
        → Quiet w
        → AnswersWith (print_response r (print_headers hs content))
        → IsResponse rounds r
        → All IsHeader hs
        → length hs + 1 < rounds
        → length content < rounds
        → host.apache.table_get (set_all host.table_set t hs) (codes "content-length") ≡ none
        → Fail
          ⊎ Answers
              (atoi r.code)
              copied
              (SendsOpen content)
              (converse host rounds call cfg n body w)
    converse-to_end content w o m e q a p ps h l g =
        converse-Good n body (print_response r (print_headers hs content))
          (Answers (atoi r.code) copied (SendsOpen content)) a
          (λ d v s u.
            rw (o, m)
              (transfer_response-to_end host.to_app.sock pending reader host.table_set
                host.apache.table_get host.apache.table_elts rounds n call.out r hs t content (d, v)
                s u p ps h l g))
          w e q
