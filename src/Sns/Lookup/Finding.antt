-- ===== src/Sns/Lookup/Finding.antt =====
-- What a lookup finds when the session name server answers.
use sope_appserver.Config.{Config}
use sope_appserver.Descriptor.Input.Stream.{IsReadable, stream}
use sope_appserver.Descriptor.Keep.{WritesKeep}
use sope_appserver.Descriptor.Output.Delivery.{SameInput}
use sope_appserver.Descriptor.Output.Steps.{Outcome, Empties}
use sope_appserver.Descriptor.State.{Descriptor, new_owned}
use sope_appserver.Prelude.{
  ℕ, ◌≤◌, ◌<◌, ◌^◌, ◌≡◌, refl, sym, subst, ap, ◌∙◌, ◌⊎◌, inl, inr, Bool, true, false, Option, some,
  [], ◌++◌, append-nil, arith, ltb, Bytes, length,
}
use sope_appserver.Sns.Address.{Address, sns_address}
use sope_appserver.Sns.Lookup.{
  Found, found, Plug, family, or_empty, unless_faulted, after_answer, after_query, after_connect,
  send_sns_query,
}
use sope_appserver.Sns.Query.Keep.{send_query-Keeps, send_query-Clears}
use sope_appserver.Sns.Query.{query, send_query-Outcome}
use sope_appserver.Sns.Reply.{Gets, expected, read_answer-Gets}
use sope_appserver.Sns.{Answer, int_bytes, read_answer}
use sope_appserver.Descriptor.Output.{free}
use sope_appserver.Socket.{IsReader, IsWriter}

abbrev pub Finds : {W : Type 0} → Found → Found × W → Type 0
Finds f (g, w) = g ≡ f

-- The answer of the server with this domain and address.
abbrev pub answer_text : ℕ → Bytes → Bytes
answer_text domain addr = int_bytes domain ++ (int_bytes (length addr) ++ addr)

abbrev fresh : Descriptor
fresh = new_owned 1024

stream-fresh :
    {W : Type 0} (pending : W → Bytes) (d : Descriptor) (w : W)
    → SameInput fresh d
    → IsReadable d × (stream pending d w ≡ pending w)
stream-fresh pending d w s =
    let e : d.read_pos ≡ 0 = s.same_read_pos in
    let f : d.read_buffer ≡ [] = s.same_read_buffer in
    (record { in_buffer = ground arith; rewound = λ _. e; fits = ground arith }, rw (e, f) refl)

module _ {W Fail : Type 0} (plug : Plug W) (sent pending : W → Bytes) (Quiet : W → Type 0)
    (writer : IsWriter plug.sock sent Fail) (reader : IsReader plug.sock pending)
    (quiet : WritesKeep Quiet plug.sock) (line app cookie : Bytes) (domain : ℕ) (addr : Bytes)
    (answers : (v : W)
      → sent v ≡ query line app cookie
      → Quiet v
      → pending v ≡ answer_text domain addr)
    (is_domain : domain < 2 ^ 32) (fits : length addr ≤ 1000) where
  after_answer-Finds :
      (x : Answer × Descriptor × W)
      → Gets pending false (expected domain addr) [] x
      → Finds (found domain (length addr) addr) (after_answer plug true x)
  after_answer-Finds (a, d, w) (e, s, f, v) =
      let small : ltb 1000 (length addr) ≡ false = ground (arith, fits) in
      rw (e, small)
        (ap
          (λ b.
            (unless_faulted plug true b w (found domain (length addr) addr, free plug.sock d w)).0)
          f)

  after_query-Finds :
      (w : W) (x : Bool × Descriptor × W)
      → sent w ≡ []
      → Outcome Fail sent (query line app cookie) fresh w x
      → Empties x
      → Quiet x.2
      → Fail ⊎ Finds (found domain (length addr) addr) (after_query plug true x)
  after_query-Finds w (true, d, u) e (p, r, t) z c =
      let (v, same) = stream-fresh pending d u t in
      let given : sent u ≡ query line app cookie =
        sym (append-nil (sent u)) ∙ ap (λ bs. sent u ++ bs) (sym z) ∙ p ∙ rw e refl in
      inr (
        after_answer-Finds _ (
          subst (λ b. Gets pending b (expected domain addr) [] (read_answer plug.sock d u))
            t.same_faulted
            (read_answer-Gets plug.sock pending reader domain addr [] d u is_domain (omega arith)
              (same ∙ answers u given c ∙ rw append-nil refl) v)))
  after_query-Finds w (false, d, u) e ((rest, q, f), r, t) z c = inl f

  after_connect-Finds :
      (w : W)
      → sent w ≡ []
      → Quiet w
      → Fail
        ⊎ Finds
            (found domain (length addr) addr)
            (after_connect plug true line app cookie true (true, w))
  after_connect-Finds w e q =
      after_query-Finds w _ e
        (send_query-Outcome plug.sock sent writer line app cookie fresh w
          (record { has_room = omega arith }))
        ((send_query-Clears plug.sock line app cookie).clears fresh w)
        ((send_query-Keeps (λ o. Quiet) plug.sock (λ o. quiet) line app cookie).keeps fresh w q)

-- A lookup over a fresh connection to the configured server that, once it has been sent the query
-- and nothing else, answers with a domain and an address of at most 1000 bytes finds just these,
-- unless a write failed, in whatever pieces the system delivers the answer.
pub send_sns_query-Finds :
    {W Fail : Type 0} (plug : Plug W) (sent pending : W → Bytes) (Quiet : W → Type 0)
    (inet_addr : Bytes → ℕ) (cfg : Config) (line cookie : Option Bytes) (app : Bytes) (domain : ℕ)
    (addr : Bytes) (a : Address) (w o v : W)
    → IsWriter plug.sock sent Fail
    → IsReader plug.sock pending
    → WritesKeep Quiet plug.sock
    → ((u : W)
        → sent u ≡ query (or_empty line) app (or_empty cookie)
        → Quiet u
        → pending u ≡ answer_text domain addr)
    → domain < 2 ^ 32
    → length addr ≤ 1000
    → sns_address inet_addr cfg ≡ some a
    → plug.open_socket (family a) w ≡ (true, o)
    → plug.connect a o ≡ (true, v)
    → sent v ≡ []
    → Quiet v
    → Fail
      ⊎ Finds
          (found domain (length addr) addr)
          (send_sns_query plug true inet_addr line cookie app cfg w)
unfolding send_sns_query
send_sns_query-Finds plug sent pending Quiet inet_addr cfg line cookie app domain addr a w o v
      writer reader quiet answers is_domain fits has_address opens connects e q =
    rw (has_address, opens, connects)
      (after_connect-Finds plug sent pending Quiet writer reader quiet (or_empty line) app
        (or_empty cookie) domain addr answers is_domain fits v e q)
