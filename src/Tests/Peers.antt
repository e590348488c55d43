-- ===== src/Tests/Peers.antt =====
-- A socket whose peer delivers two bytes at a time and whose system takes three: it keeps what is
-- asked of read(2) and write(2).
use sope_appserver.Prelude.{
  ℕ, zero, suc, ◌<◌, ◌≡◌, refl, ◌∙◌, append-nil, ◌≤◌, [], ◌∷◌, ◌++◌, arith, Bytes, length, take,
  min,
}
use sope_appserver.Socket.{
  Recv, got, ended, failed, accepted, Socket, Accepts, Delivers, IsReader, IsWriter,
}

pub record Peer : Type 0 where
  pub inbox : Bytes
  pub outbox : Bytes

unfoldable pub pair_read : ℕ → Peer → Bytes → Recv × Peer
pair_read n p [] = (ended, p)
pair_read zero p (b ∷ bs) = (failed, p)
pair_read (suc n) p (b ∷ []) = (got b [], record p { inbox = [] })
pair_read (suc zero) p (b ∷ c ∷ bs) = (got b [], record p { inbox = c ∷ bs })
pair_read (suc (suc n)) p (b ∷ c ∷ bs) = (got b (c ∷ []), record p { inbox = bs })

abbrev pub pair_socket : Socket Peer
pair_socket = record {
  read = λ n p. pair_read n p p.inbox;
  write = λ bs p.
      (accepted (min 3 (length bs)), record p { outbox = p.outbox ++ take (min 3 (length bs)) bs });
  close = λ p. p;
}

abbrev pub inbox_of : Peer → Bytes
inbox_of p = p.inbox

abbrev pub outbox_of : Peer → Bytes
outbox_of p = p.outbox

pair_read-Delivers :
    (n : ℕ) (p : Peer) (bs : Bytes)
    → p.inbox ≡ bs
    → 0 < n
    → Delivers inbox_of n p (pair_read n p bs)
unfolding pair_read
pair_read-Delivers n p [] e h = (e, e)
pair_read-Delivers zero p (b ∷ bs) e h = absurd (omega arith)
pair_read-Delivers (suc n) p (b ∷ []) e h = (e, omega arith)
pair_read-Delivers (suc zero) p (b ∷ c ∷ bs) e h = (e, omega arith)
pair_read-Delivers (suc (suc n)) p (b ∷ c ∷ bs) e h = (e, omega arith)

pub pair_socket-IsReader : IsReader pair_socket inbox_of
pair_socket-IsReader = record { delivers = λ n p h. pair_read-Delivers n p p.inbox refl h }

-- A write that takes `n` bytes.
pub Accepts-part :
    {W : Type 0} (Fail : Type 0) (sent : W → Bytes) (n : ℕ) (bs : Bytes) (w w' : W)
    → n ≤ length bs
    → (n ≡ 0 → Fail)
    → sent w' ≡ sent w ++ take n bs
    → Accepts Fail sent bs w (accepted n, w')
Accepts-part Fail sent zero bs w w' h f e = (e ∙ append-nil _, f refl)
Accepts-part Fail sent (suc n) bs w w' h f e = (h, e)

pub pair_socket-IsWriter : IsWriter pair_socket outbox_of ⊥
pair_socket-IsWriter = record {
  accepts = λ bs p h.
      Accepts-part ⊥ outbox_of (min 3 (length bs)) bs p _ (omega arith) (λ e. absurd (omega arith))
        refl;
}

abbrev pub peer : Bytes → Peer
peer bs = record { inbox = bs; outbox = [] }
