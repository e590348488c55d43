-- ===== src/Socket.antt =====
-- The operating system's side of a connected stream socket, which the code reaches through
-- read(2), write(2) and close(2). `W` is whatever state lies behind the socket; the operations are
-- parameters, and what the code relies on is stated as `IsReader` and `IsWriter`.
use sope_appserver.Prelude.{ℕ, zero, suc, ◌≤◌, ◌<◌, ◌≡◌, [], ◌∷◌, ◌++◌, Bytes, length, take}

-- What a read hands back: at least one byte, the 0 of the end of the stream, or a negative result.
pub data Recv : Type 0 where
  got : ℕ → Bytes → Recv
  ended : Recv
  failed : Recv

-- The result of a write: a count that is at least 0, or a negative number.
pub data Sent : Type 0 where
  accepted : ℕ → Sent
  refused : Sent

pub record Socket (W : Type 0) : Type 0 where
  pub read : ℕ → W → Recv × W
  pub write : Bytes → W → Sent × W
  pub close : W → W

-- `pending` is what the peer will still deliver before it closes its side.
abbrev pub Delivers : {W : Type 0} → (W → Bytes) → ℕ → W → Recv × W → Type 0
Delivers pending n w (got b bs, w') = (pending w ≡ (b ∷ bs) ++ pending w') × (length (b ∷ bs) ≤ n)
Delivers pending n w (ended, w') = (pending w ≡ []) × (pending w' ≡ [])
Delivers pending n w (failed, w') = ⊥

-- read(2) of a positive count on a stream that does not break: it delivers a part of what is
-- pending, no more than was asked for, in order, and reports the end of the stream only when
-- nothing is left.
pub record IsReader {W : Type 0} (sock : Socket W) (pending : W → Bytes) : Type 0 where
  pub delivers : (n : ℕ) (w : W) → 0 < n → Delivers pending n w (sock.read n w)

-- `sent` is what has been handed to the system so far, `Fail` what a failure tells of the system:
-- `Unit` if it may fail at any time, `⊥` if it never does.
abbrev pub Accepts : {W : Type 0} → Type 0 → (W → Bytes) → Bytes → W → Sent × W → Type 0
Accepts Fail sent bs w (accepted zero, w') = (sent w' ≡ sent w) × Fail
Accepts Fail sent bs w (accepted (suc n), w') =
    (suc n ≤ length bs) × (sent w' ≡ sent w ++ take (suc n) bs)
Accepts Fail sent bs w (refused, w') = (sent w' ≡ sent w) × Fail

-- write(2) of a positive count: it takes over a prefix of the bytes, and none when it fails.
pub record IsWriter {W : Type 0} (sock : Socket W) (sent : W → Bytes) (Fail : Type 0) : Type 0 where
  pub accepts : (bs : Bytes) (w : W) → 0 < length bs → Accepts Fail sent bs w (sock.write bs w)
