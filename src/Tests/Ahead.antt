-- ===== src/Tests/Ahead.antt =====
-- A buffer that looks ahead in a stream on a list of bytes.
use sope_appserver.ByteBuffer.Ahead.{at}
use sope_appserver.ByteBuffer.Blocks.{ReadsInto, read_into-ReadsInto}
use sope_appserver.ByteBuffer.Looks.{IsStream, Gives, Brings}
use sope_appserver.ByteBuffer.Runs.{
  look, skip, take_byte, run_with, answers, run-answers, new-Ahead,
}
use sope_appserver.ByteBuffer.{
  Chunk, received, end_of_stream, Source, value, at_end, init_with_source, ByteBuffer, empty_cell,
  read_into,
}
use sope_appserver.Prelude.{
  false, ℕ, zero, suc, ◌<◌, ◌≡◌, refl, Option, none, some, [], ◌∷◌, arith, Bytes,
}

abbrev byte_of : Bytes → Option ℕ × Bytes
byte_of [] = (none, [])
byte_of (c ∷ cs) = (some c, cs)

-- Blocks of at most two bytes.
abbrev block_of : ℕ → Bytes → Chunk × Bytes
block_of n [] = (end_of_stream, [])
block_of n (c ∷ []) = (received (c ∷ []), [])
block_of zero (c ∷ d ∷ cs) = (received (c ∷ []), d ∷ cs)
block_of (suc zero) (c ∷ d ∷ cs) = (received (c ∷ []), d ∷ cs)
block_of (suc (suc n)) (c ∷ d ∷ cs) = (received (c ∷ d ∷ []), cs)

abbrev byte_source : Source Bytes
byte_source = record { read_byte = byte_of; read_bytes = block_of }

byte_source-IsStream : IsStream byte_source (λ w. w)
byte_source-IsStream = record { gives = gives; brings = brings }
  where
    gives : (w : Bytes) → Gives (λ v. v) w (byte_of w)
    gives [] = (refl, refl)
    gives (c ∷ cs) = refl

    brings : (n : ℕ) (w : Bytes) → 0 < n → Brings (λ v. v) n w (block_of n w)
    brings n [] h = (refl, refl)
    brings n (c ∷ []) h = (refl, omega arith, omega arith)
    brings zero (c ∷ d ∷ cs) h = absurd (omega arith)
    brings (suc zero) (c ∷ d ∷ cs) h = (refl, omega arith, omega arith)
    brings (suc (suc n)) (c ∷ d ∷ cs) h = (refl, omega arith, omega arith)

-- The seventh byte is fetched in blocks.
run-answers_example :
    run_with byte_source
      (look 6 ∷ take_byte ∷ skip ∷ look 5 ∷ [])
      (1 ∷ 2 ∷ 3 ∷ 4 ∷ 5 ∷ 6 ∷ 7 ∷ [])
      (init_with_source 7)
    ≡ some (answers (look 6 ∷ take_byte ∷ skip ∷ look 5 ∷ []) (1 ∷ 2 ∷ 3 ∷ 4 ∷ 5 ∷ 6 ∷ 7 ∷ []))
run-answers_example =
    run-answers byte_source (λ w. w) 7 (look 6 ∷ take_byte ∷ skip ∷ look 5 ∷ [])
      (1 ∷ 2 ∷ 3 ∷ 4 ∷ 5 ∷ 6 ∷ 7 ∷ []) byte_source-IsStream (omega arith) (omega arith)
      (omega arith, (tt, (tt, (omega arith, tt))))

-- The end is behind five bytes that are left.
answers_run :
    answers (look 6 ∷ take_byte ∷ skip ∷ look 5 ∷ []) (1 ∷ 2 ∷ 3 ∷ 4 ∷ 5 ∷ 6 ∷ 7 ∷ [])
    ≡ value 7 ∷ value 1 ∷ at_end ∷ []
unfolding answers at
answers_run = refl

abbrev new_buffer : ByteBuffer
new_buffer = record { la = λ i. empty_cell; buf_len = 8; was_eof = false; head_idx = 0 }

read_into-ReadsInto_example :
    ReadsInto (λ w. w) 8 5 (1 ∷ 2 ∷ 3 ∷ []) (read_into byte_source 5 new_buffer (1 ∷ 2 ∷ 3 ∷ []))
read_into-ReadsInto_example =
    read_into-ReadsInto byte_source (λ w. w) byte_source-IsStream 8 (omega arith) 5 (1 ∷ 2 ∷ 3 ∷ [])
      new_buffer (1 ∷ 2 ∷ 3 ∷ []) (omega arith)
      (new-Ahead (λ w. w) 7 8 (1 ∷ 2 ∷ 3 ∷ [])
        (record {
          times = 536870912;
          divides = omega arith;
          positive = omega arith;
          enough = omega arith;
        }))
