-- ===== src/ByteBuffer.antt =====
-- The buffer that looks ahead in a stream: sope-core/NGStreams/NGByteBuffer.m.
pub mod Slots
pub mod Ahead
pub mod Moves
pub mod Looks
pub mod Stream
pub mod Runs
pub mod Blocks
use sope_appserver.Prelude.{
  ℕ, zero, suc, ◌+◌, ◌-◌, ◌*◌, ◌%◌, ◌^◌, Bool, true, false, not, ◌||◌, Option, none, some, [], ◌∷◌,
  ltb, ◌==◌, if◌then◌else◌, Bytes, length,
}

-- `LA_NGByteBuffer`.
pub record Cell : Type 0 where
  pub byte : ℕ
  pub is_eof : Bool
  pub is_fetched : Bool

-- The cells by their index, which is below the length of the buffer wherever it is used.
pub record ByteBuffer : Type 0 where
  pub la : ℕ → Cell
  pub buf_len : ℕ
  pub was_eof : Bool
  pub head_idx : ℕ

-- What `readBytes:count:` of the source answers: some bytes, or NGStreamError, with the end of the
-- stream as the last exception or with another one.
pub data Chunk : Type 0 where
  received : Bytes → Chunk
  end_of_stream : Chunk
  stream_error : Chunk

-- The stream that is read, over any state; `none` is the -1 of `readByte`.
pub record Source (W : Type 0) : Type 0 where
  pub read_byte : W → Option ℕ × W
  pub read_bytes : ℕ → W → Chunk × W

-- `for (size = 2; size < _la; size *= 2)`, in so many rounds; `none` where they do not suffice.
unfoldable pub size_for : ℕ → ℕ → ℕ → Option ℕ
size_for zero size depth = none
size_for (suc rounds) size depth =
    let larger = size_for rounds (size * 2 % 2 ^ 32) depth in
    if ltb size depth then larger else some size

abbrev pub empty_cell : Cell
empty_cell = record { byte = 0; is_eof = false; is_fetched = false }

abbrev pub with_size : Option ℕ → Option ByteBuffer
with_size none = none
with_size (some size) =
    some (record { la = λ i. empty_cell; buf_len = size; was_eof = false; head_idx = 0 })

-- `initWithSource:la:` of a source that is there; `none` is the exception for a depth of 0, and the
-- loop that does not end for one above 2^31.
unfoldable pub init_with_source : ℕ → Option ByteBuffer
unfolding size_for
init_with_source depth = if ltb depth 1 then none else with_size (size_for 31 2 depth)

-- `(i + headIdx) & sizeLessOne`: as the length is a power of two, the mask takes the remainder.
unfoldable pub slot : ByteBuffer → ℕ → ℕ
slot b i = (i + b.head_idx) % 2 ^ 32 % b.buf_len

abbrev pub cell : ByteBuffer → ℕ → Cell
cell b i = b.la (slot b i)

-- The buffer with a change of one cell.
abbrev pub with_cell : ℕ → (Cell → Cell) → ByteBuffer → ByteBuffer
with_cell i f b = record b { la = λ j. if j == slot b i then f (b.la j) else b.la j }

abbrev pub store : ℕ → ℕ → ByteBuffer → ByteBuffer
store i c = with_cell i (λ old. record old { byte = c; is_fetched = true })

abbrev pub mark_eof : ℕ → ByteBuffer → ByteBuffer
mark_eof i = with_cell i (λ old. record old { is_eof = true })

-- From one index on, so many.
unfoldable pub mark_all : ℕ → ℕ → ByteBuffer → ByteBuffer
unfolding slot
mark_all i zero b = b
mark_all i (suc n) b = mark_all (suc i) n (mark_eof i b)

unfoldable pub store_all : ℕ → Bytes → ByteBuffer → ByteBuffer
unfolding slot
store_all i [] b = b
store_all i (c ∷ cs) b = store_all (suc i) cs (store i c b)

-- `for (i = 0; i < _la && la[...].isFetched; i++)`, from one index on.
unfoldable pub first_unfetched : ByteBuffer → ℕ → ℕ → ℕ
unfolding slot
first_unfetched b i zero = i
first_unfetched b i (suc n) =
    let later = first_unfetched b (suc i) n in if (cell b i).is_fetched then later else i

-- What fetching comes to: the buffer with the index behind the last byte, or an error of the stream.
-- Where the rounds do not suffice there is no end.
pub data Fetch (W : Type 0) : Type 0 where
  fetched : ByteBuffer → ℕ → W → Fetch W
  broken : ByteBuffer → W → Fetch W
  endless : Fetch W

-- What `la:` and `readByte` answer: a byte, the -1 of the end, the exception for a position too far
-- ahead, or NGStreamError.
pub data Look : Type 0 where
  value : ℕ → Look
  at_end : Look
  too_far : Look
  failed : Look

-- An answer with the state behind it, or no end.
pub data Looked (W : Type 0) : Type 0 where
  looked : Look → ByteBuffer → W → Looked W
  unending : Looked W

abbrev pub cell_value : Cell → Look
cell_value c = if c.is_eof then at_end else value c.byte

abbrev pub consumed : ByteBuffer → ByteBuffer
consumed b =
    let cleared = with_cell 0 (λ old. record old { is_fetched = false }) b in
    record cleared { head_idx = (b.head_idx + 1) % 2 ^ 32 }

module _ {W : Type 0} (source : Source W) where
  -- `while (i <= _la)` with single bytes; so many are still to be read.
  abbrev pub after_byte : (ByteBuffer → W → Fetch W) → ℕ → ByteBuffer → Option ℕ × W → Fetch W
  after_byte again i b (none, w) = fetched (record b { was_eof = true }) i w
  after_byte again i b (some c, w) = again (store i c b) w

  unfoldable pub fetch_bytes : ℕ → ℕ → ByteBuffer → W → Fetch W
  unfolding slot
  fetch_bytes i zero b w = fetched b i w
  fetch_bytes i (suc n) b w = after_byte (fetch_bytes (suc i) n) i b (source.read_byte w)

  -- `while (readStream)` with blocks.
  abbrev pub after_block :
      (ℕ → ℕ → ByteBuffer → W → Fetch W) → ℕ → ℕ → ByteBuffer → Chunk × W → Fetch W
  after_block again i n b (received cs, w) =
      if length cs == n
      then fetched (store_all i cs b) (i + length cs) w
      else again (i + length cs) (n - length cs) (store_all i cs b) w
  after_block again i n b (end_of_stream, w) = fetched (record b { was_eof = true }) i w
  after_block again i n b (stream_error, w) = broken b w

  unfoldable pub fetch_blocks : ℕ → ℕ → ℕ → ByteBuffer → W → Fetch W
  unfolding slot store_all
  fetch_blocks zero i n b w = endless
  fetch_blocks (suc rounds) i n b w =
      after_block (fetch_blocks rounds) i n b (source.read_bytes n w)

  -- Up to five bytes singly, more in blocks, of which each brings a byte at least.
  unfoldable pub fetch : ℕ → ByteBuffer → W → Fetch W
  unfolding first_unfetched fetch_bytes fetch_blocks
  fetch k b w =
      let i = first_unfetched b 0 k in
      if ltb 5 (k - i + 1)
      then fetch_blocks (k - i + 1) i (k - i + 1) b w
      else fetch_bytes i (suc k - i) b w

  abbrev pub with_marks : ℕ → ℕ → ByteBuffer → ByteBuffer
  with_marks k i b = if b.was_eof then mark_all i (suc k - i) b else b

  abbrev pub after_fetch : ℕ → Fetch W → Looked W
  after_fetch k (fetched b i w) =
      looked (cell_value (cell (with_marks k i b) k)) (with_marks k i b) w
  after_fetch k (broken b w) = looked failed b w
  after_fetch k endless = unending

  -- `la:`.
  unfoldable pub look_ahead : ℕ → ByteBuffer → W → Looked W
  unfolding fetch mark_all
  look_ahead k b w =
      if ltb (b.buf_len - 1) k
      then looked too_far b w
      else if b.was_eof
      then looked
          (if not (cell b k).is_fetched || (cell b k).is_eof then at_end else value (cell b k).byte)
          b w
      else if (cell b k).is_fetched
      then looked (cell_value (cell b k)) b w
      else after_fetch k (fetch k b w)

  -- What remains of `consume` behind the test; the answer of `la:` is not looked at.
  abbrev pub after_look : Looked W → Option (ByteBuffer × W)
  after_look (looked r b w) = some (consumed b, w)
  after_look unending = none

  -- `consume`.
  unfoldable pub consume : ByteBuffer → W → Option (ByteBuffer × W)
  unfolding look_ahead
  consume b w =
      if (cell b 0).is_fetched then some (consumed b, w) else after_look (look_ahead 0 b w)

  -- `consume:`.
  abbrev pub consume_then :
      (ByteBuffer → W → Option (ByteBuffer × W)) → Option (ByteBuffer × W) → Option (ByteBuffer × W)
  consume_then again none = none
  consume_then again (some (b, w)) = again b w

  unfoldable pub consume_count : ℕ → ByteBuffer → W → Option (ByteBuffer × W)
  unfolding consume
  consume_count zero b w = some (b, w)
  consume_count (suc n) b w = consume_then (consume_count n) (consume b w)

  abbrev pub answer : Look → Option (ByteBuffer × W) → Looked W
  answer r none = unending
  answer r (some (b, w)) = looked r b w

  abbrev pub consume_after : Looked W → Looked W
  consume_after (looked r b w) = answer r (consume b w)
  consume_after unending = unending

  -- `readByte`.
  unfoldable pub next_byte : ByteBuffer → W → Looked W
  unfolding look_ahead consume
  next_byte b w = consume_after (look_ahead 0 b w)

-- What `readBytes:count:` comes to: some bytes, the exception for the end of the stream, or one that
-- `la:` raised.
pub data BytesRead (W : Type 0) : Type 0 where
  got : Bytes → ByteBuffer → W → BytesRead W
  raised : ByteBuffer → W → BytesRead W
  not_read : ByteBuffer → W → BytesRead W
  never : BytesRead W

-- `while (la[idxCnt].isFetched && cnt < _len && cnt < bufLen)`, so many at most.
unfoldable pub fetched_run : ByteBuffer → ℕ → ℕ → Bytes
unfolding slot
fetched_run b i zero = []
fetched_run b i (suc n) =
    let later = fetched_run b (suc i) n in
    if (cell b i).is_fetched then (cell b i).byte ∷ later else []

module _ {W : Type 0} (source : Source W) where
  abbrev pub one_byte : Looked W → BytesRead W
  one_byte (looked (value c) b w) = got (c ∷ []) b w
  one_byte (looked at_end b w) = raised b w
  one_byte (looked too_far b w) = not_read b w
  -- `NGStreamError`, cut to a byte.
  one_byte (looked failed b w) = got (255 ∷ []) b w
  one_byte unending = never

  abbrev pub copied : Bytes → Option (ByteBuffer × W) → BytesRead W
  copied cs none = never
  copied cs (some (b, w)) = got cs b w

  -- `readBytes:count:`.
  unfoldable pub read_into : ℕ → ByteBuffer → W → BytesRead W
  unfolding fetched_run consume_count next_byte
  read_into n b w =
      let cs = fetched_run b 0 (if ltb n b.buf_len then n else b.buf_len) in
      if n == 0
      then got [] b w
      else if not (cell b 0).is_fetched
      then one_byte (next_byte source b w)
      else copied cs (consume_count source (length cs) b w)
