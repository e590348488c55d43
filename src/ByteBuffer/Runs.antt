-- ===== src/ByteBuffer/Runs.antt =====
-- Runs of a buffer: what a client of it sees is the list of the bytes of the stream.
use sope_appserver.ByteBuffer.Ahead.{at, Holds, at-lt}
use sope_appserver.ByteBuffer.Looks.{IsStream, Ahead}
use sope_appserver.ByteBuffer.Moves.{consumed-Holds, consumed_end}
use sope_appserver.ByteBuffer.Stream.{answer_at, IsSettled, Sees, look_ahead-Sees}
use sope_appserver.ByteBuffer.{
  ByteBuffer, cell, empty_cell, size_for, init_with_source, Source, Look, Looked, looked, unending,
  look_ahead, after_look, consumed, consume, answer, consume_after, next_byte,
}
use sope_appserver.Prelude.{
  ℕ, zero, suc, ◌*◌, ◌%◌, ◌^◌, ◌≤◌, ◌<◌, ◌≡◌, ap, ◌∙◌, sym, refl, subst, inl, inr, Bool, true,
  false, if◌then◌else◌, Bool-cases, Option, none, some, List, [], ◌∷◌, ◌++◌, ltb, arith, Bytes,
  length, drop, All,
}

abbrev pub Consumes : {W : Type 0} → (W → Bytes) → ℕ → Bytes → Option (ByteBuffer × W) → Type 0
Consumes pending n zs none = ⊥
Consumes pending n zs (some (b, w)) = Ahead pending n (drop 1 zs) b w

-- A byte, or the end, in front, and what is behind it.
abbrev pub Takes : {W : Type 0} → (W → Bytes) → ℕ → Bytes → Looked W → Type 0
Takes pending n zs (looked r b w) = (r ≡ answer_at (at zs 0)) × Ahead pending n (drop 1 zs) b w
Takes pending n zs unending = ⊥

module _ {W : Type 0} (pending : W → Bytes) where
  consumed_bytes :
      (n : ℕ) (zs xs : Bytes) (b : ByteBuffer) (w : W)
      → Holds xs b
      → xs ++ pending w ≡ zs
      → b.buf_len ≡ n
      → (b.was_eof ≡ true → pending w ≡ [])
      → IsSettled 0 xs b
      → Ahead pending n (drop 1 zs) (consumed b) w
  consumed_bytes n zs (x ∷ xs) b w h j size over s = record {
    bytes = xs;
    holds = consumed-Holds x xs b h;
    joined = ap (drop 1) j;
    size = size;
    over = over;
  }
  consumed_bytes n zs [] b w h j size over (inl l) = absurd (omega (arith, l))
  consumed_bytes n zs [] b w h j size over (inr (e, l)) = record {
    bytes = [];
    holds = consumed_end b h e;
    joined = over e ∙ ap (drop 1) (sym (over e) ∙ j);
    size = size;
    over = over;
  }

  consumed-Ahead :
      (n : ℕ) (zs : Bytes) (b : ByteBuffer) (w : W) (a : Ahead pending n zs b w)
      → IsSettled 0 a.bytes b
      → Ahead pending n (drop 1 zs) (consumed b) w
  consumed-Ahead n zs b w a s = consumed_bytes n zs a.bytes b w a.holds a.joined a.size a.over s

  after_look-Consumes :
      (source : Source W) (n : ℕ) (zs : Bytes) (x : Looked W)
      → Sees pending n zs 0 x
      → Consumes pending n zs (after_look source x)
  after_look-Consumes source n zs (looked r b w) (a, e, s) = consumed-Ahead n zs b w a s
  after_look-Consumes source n zs unending f = f

  module _ (source : Source W) (stream : IsStream source pending) (n : ℕ) (positive : 0 < n) where
    pub consume-Consumes :
        (zs : Bytes) (b : ByteBuffer) (w : W)
        → Ahead pending n zs b w
        → Consumes pending n zs (consume source b w)
    unfolding consume
    consume-Consumes zs b w a =
        let tested = λ (there : Bool).
          Consumes pending n zs
            (if there then some (consumed b, w) else after_look source (look_ahead source 0 b w)) in
        elim (Bool-cases (cell b 0).is_fetched) [
          | inl there ↦ subst tested (sym there) (consumed-Ahead n zs b w a (settled there))
          | inr absent ↦ subst tested (sym absent) (
              after_look-Consumes source n zs (look_ahead source 0 b w)
                (look_ahead-Sees pending source stream n zs 0 b w positive a))
        ]
      where
        settled : (cell b 0).is_fetched ≡ true → IsSettled 0 a.bytes b
        settled there = elim (Bool-cases (ltb 0 (length a.bytes))) [
          | inl inside ↦ inl (ground (arith, inside))
          | inr outside ↦
              let size = a.size in
              let f =
                a.holds.unfetched 0 (ground (arith, outside)) (omega (arith, size, positive)) in
              absurd (cc)
        ]

    answer-Takes :
        (zs : Bytes) (r : Look) (x : Option (ByteBuffer × W))
        → r ≡ answer_at (at zs 0)
        → Consumes pending n zs x
        → Takes pending n zs (answer source r x)
    answer-Takes zs r none e f = f
    answer-Takes zs r (some (b, w)) e a = (e, a)

    consume_after-Takes :
        (zs : Bytes) (x : Looked W)
        → Sees pending n zs 0 x
        → Takes pending n zs (consume_after source x)
    consume_after-Takes zs (looked r b w) (a, e, s) =
        answer-Takes zs r (consume source b w) e (consume-Consumes zs b w a)
    consume_after-Takes zs unending f = f

    pub next_byte-Takes :
        (zs : Bytes) (b : ByteBuffer) (w : W)
        → Ahead pending n zs b w
        → Takes pending n zs (next_byte source b w)
    unfolding next_byte
    next_byte-Takes zs b w a =
        consume_after-Takes zs (look_ahead source 0 b w)
          (look_ahead-Sees pending source stream n zs 0 b w positive a)

-- The messages of a client.
pub data Message : Type 0 where
  look : ℕ → Message
  skip : Message
  take_byte : Message

abbrev pub before : {A : Type 0} → A → Option (List A) → Option (List A)
before x none = none
before x (some xs) = some (x ∷ xs)

module _ {W : Type 0} (source : Source W) where
  abbrev pub on_look : (ByteBuffer → W → Option (List Look)) → Looked W → Option (List Look)
  on_look again unending = none
  on_look again (looked r b w) = before r (again b w)

  abbrev pub on_skip :
      (ByteBuffer → W → Option (List Look)) → Option (ByteBuffer × W) → Option (List Look)
  on_skip again none = none
  on_skip again (some (b, w)) = again b w

  -- The answers to the messages, unless one has no end.
  unfoldable pub run : List Message → ByteBuffer → W → Option (List Look)
  run [] b w = some []
  run (look k ∷ ms) b w = on_look (run ms) (look_ahead source k b w)
  run (skip ∷ ms) b w = on_skip (run ms) (consume source b w)
  run (take_byte ∷ ms) b w = on_look (run ms) (next_byte source b w)

  abbrev pub run_with : List Message → W → Option ByteBuffer → Option (List Look)
  run_with ms w none = none
  run_with ms w (some b) = run ms b w

-- The answers that a list of bytes gives.
unfoldable pub answers : List Message → Bytes → List Look
answers [] zs = []
answers (look k ∷ ms) zs = answer_at (at zs k) ∷ answers ms zs
answers (skip ∷ ms) zs = answers ms (drop 1 zs)
answers (take_byte ∷ ms) zs = answer_at (at zs 0) ∷ answers ms (drop 1 zs)

-- Looks no further ahead than this.
abbrev pub IsNear : ℕ → Message → Type 0
IsNear depth (look k) = k < depth
IsNear depth skip = Unit {0}
IsNear depth take_byte = Unit {0}

module _ {W : Type 0} (source : Source W) (pending : W → Bytes) (stream : IsStream source pending)
    (n : ℕ) (positive : 0 < n) where
  -- From any state the messages are answered as by the list.
  abbrev Answers : List Message → Type 0
  Answers ms =
      (zs : Bytes) (b : ByteBuffer) (w : W)
      → Ahead pending n zs b w
      → run source ms b w ≡ some (answers ms zs)

  on_look-Sees :
      (ms : List Message) (zs : Bytes) (k : ℕ) (x : Looked W)
      → Answers ms
      → Sees pending n zs k x
      → on_look source (run source ms) x ≡ some (answer_at (at zs k) ∷ answers ms zs)
  on_look-Sees ms zs k unending go f = absurd f
  on_look-Sees ms zs k (looked r b w) go (a, e, s) =
      ap (before r) (go zs b w a) ∙ ap (λ l. some (l ∷ answers ms zs)) e

  on_look-Takes :
      (ms : List Message) (zs : Bytes) (x : Looked W)
      → Answers ms
      → Takes pending n zs x
      → on_look source (run source ms) x ≡ some (answer_at (at zs 0) ∷ answers ms (drop 1 zs))
  on_look-Takes ms zs unending go f = absurd f
  on_look-Takes ms zs (looked r b w) go (e, a) =
      ap (before r) (go (drop 1 zs) b w a) ∙ ap (λ l. some (l ∷ answers ms (drop 1 zs))) e

  on_skip-Consumes :
      (ms : List Message) (zs : Bytes) (x : Option (ByteBuffer × W))
      → Answers ms
      → Consumes pending n zs x
      → on_skip source (run source ms) x ≡ some (answers ms (drop 1 zs))
  on_skip-Consumes ms zs none go f = absurd f
  on_skip-Consumes ms zs (some (b, w)) go a = go (drop 1 zs) b w a

  run-Answers : (ms : List Message) → All (IsNear n) ms → Answers ms
  unfolding run answers
  run-Answers [] h zs b w a = refl
  run-Answers (look k ∷ ms) (h, hs) zs b w a =
      on_look-Sees ms zs k (look_ahead source k b w) (run-Answers ms hs)
        (look_ahead-Sees pending source stream n zs k b w h a)
  run-Answers (skip ∷ ms) (h, hs) zs b w a =
      on_skip-Consumes ms zs (consume source b w) (run-Answers ms hs)
        (consume-Consumes pending source stream n positive zs b w a)
  run-Answers (take_byte ∷ ms) (h, hs) zs b w a =
      on_look-Takes ms zs (next_byte source b w) (run-Answers ms hs)
        (next_byte-Takes pending source stream n positive zs b w a)

-- A power of two that is at least the depth.
pub record IsSize (depth n : ℕ) : Type 0 where
  pub times : ℕ
  pub divides : times * n ≡ 2 ^ 32
  pub positive : 0 < n
  pub enough : depth ≤ n

doubled : (s p q : ℕ) → q ≡ 2 * p → s * 2 * p ≡ s * q
doubled s p q h = grind arith

turned : (s q m : ℕ) → s * q ≡ m → q * s ≡ m
turned s q m h = grind arith

size_for-IsSize :
    (rounds size depth : ℕ)
    → size * 2 ^ rounds ≡ 2 ^ 32
    → size < 2 ^ 32
    → 0 < size
    → depth ≤ 2 ^ 31
    → (n : ℕ) × (size_for rounds size depth ≡ some n) × IsSize depth n
unfolding size_for
size_for-IsSize zero size depth e small p h = absurd (omega arith)
size_for-IsSize (suc rounds) size depth e small p h = elim (Bool-cases (ltb size depth)) [
  | inl larger ↦
      let no_wrap : size * 2 % 2 ^ 32 ≡ size * 2 = ground (arith, larger, h) in
      let next = doubled size (2 ^ rounds) (2 ^ suc rounds) (omega arith) ∙ e in
      let (n, r, is_size) =
        size_for-IsSize rounds (size * 2) depth next (ground (arith, larger, h)) (omega arith) h in
      let step : size_for (suc rounds) size depth ≡ size_for rounds (size * 2) depth =
        rw (size_for, larger, no_wrap) refl in
      (n, step ∙ r, is_size)
  | inr fits ↦ (
    size,
    rw (size_for, fits) refl,
    record {
      times = 2 ^ suc rounds;
      divides = turned size (2 ^ suc rounds) (2 ^ 32) e;
      positive = p;
      enough = ground (arith, fits);
    },
  )
]

-- A new buffer in front of a stream.
pub new-Ahead :
    {W : Type 0} (pending : W → Bytes) (depth n : ℕ) (w : W)
    → IsSize depth n
    → Ahead pending n
        (pending w)
        (record { la = λ i. empty_cell; buf_len = n; was_eof = false; head_idx = 0 })
        w
new-Ahead pending depth n w s = record {
  bytes = [];
  holds = record {
    ring = record { times = s.times; divides = s.divides; positive = s.positive };
    fits = omega arith;
    ready = λ i c e. absurd (omega (arith, at-lt [] i c e));
    unfetched = λ i l k. refl;
    unmarked = λ e i l k. refl;
  };
  joined = refl;
  size = refl;
  over = λ e. absurd (cc);
}

within_size :
    (depth n : ℕ) (ms : List Message) → depth ≤ n → All (IsNear depth) ms → All (IsNear n) ms
within_size depth n [] h k = tt
within_size depth n (look j ∷ ms) h (k, ks) = (omega (arith, k, h), within_size depth n ms h ks)
within_size depth n (skip ∷ ms) h (k, ks) = (tt, within_size depth n ms h ks)
within_size depth n (take_byte ∷ ms) h (k, ks) = (tt, within_size depth n ms h ks)

-- A buffer that is made with a depth of 1 to 2^31 in front of a stream without errors answers any
-- sequence of looks less far ahead than the depth, of bytes that are consumed and of bytes that are
-- taken just as the list of the bytes of the stream does, with the end behind them, in whatever
-- blocks the stream delivers them; each message has an end.
pub run-answers :
    {W : Type 0} (source : Source W) (pending : W → Bytes) (depth : ℕ) (ms : List Message) (w : W)
    → IsStream source pending
    → 0 < depth
    → depth ≤ 2 ^ 31
    → All (IsNear depth) ms
    → run_with source ms w (init_with_source depth) ≡ some (answers ms (pending w))
unfolding init_with_source
run-answers source pending depth ms w stream p h near =
    let (n, made, is_size) =
      size_for-IsSize 31 2 depth (omega arith) (omega arith) (omega arith) h in
    let some_depth : ltb depth 1 ≡ false = ground (arith, p) in
    rw (some_depth, made)
      (run-Answers source pending stream n is_size.positive ms
        (within_size depth n ms is_size.enough near) (pending w) _ w
        (new-Ahead pending depth n w is_size))
