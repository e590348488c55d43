-- ===== src/Handler/Body.antt =====
-- `_readRequestBody`.
pub mod Complete
use sope_appserver.Prelude.{
  ℕ, zero, suc, ◌-◌, Bool, Option, none, some, [], ◌∷◌, ◌++◌, Bytes, length, take, ℤ, pos, negsuc,
  atoi, ltb, if◌then◌else◌, ◌+◌, ◌^◌,
}
use sope_appserver.Socket.{Recv, got, ended, failed}

-- What becomes of the buffer for the body: there is none for a length of 0, nothing is read into it
-- for a negative length, it is filled, the client has sent too little, or its pointer has been
-- moved before its start, which is undefined behaviour. Then there are used-up rounds, and a size of
-- the buffer that no `int` holds, which is undefined as well.
pub data Body : Type 0 where
  no_content : Body
  not_read : Body
  whole : Bytes → Body
  incomplete : Body
  before_start : Body
  endless : Body
  too_large : Body

module _ {W : Type 0} where
  -- On a result of -1 one byte more is to be read, and the pointer moves back.
  abbrev pub after_client_block : (Bytes → ℕ → W → Body × W) → Bytes → ℕ → Recv × W → Body × W
  after_client_block again filled n (got b bs, w) =
      again (filled ++ (b ∷ bs)) (n - length (b ∷ bs)) w
  after_client_block again filled n (ended, w) = (incomplete, w)
  after_client_block again [] n (failed, w) = (before_start, w)
  after_client_block again (c ∷ cs) n (failed, w) = again (take (length cs) (c ∷ cs)) (suc n) w

  -- `get_block` is ap_setup_client_block followed by ap_get_client_block.
  module _ (get_block : ℕ → W → Recv × W) (rounds : ℕ) where
    -- The loop, with the bytes before `ptr` and `toBeRead`.
    unfoldable pub body_loop : ℕ → Bytes → ℕ → W → Body × W
    body_loop r filled zero w = (whole filled, w)
    body_loop zero filled (suc n) w = (endless, w)
    body_loop (suc r) filled (suc n) w =
        after_client_block (body_loop r) filled (suc n) (get_block (suc n) w)

    abbrev pub body_of_length : ℤ → W → Body × W
    body_of_length (pos zero) w = (no_content, w)
    body_of_length (pos (suc n)) w =
        if ltb (suc n + 2) (2 ^ 31) then body_loop rounds [] (suc n) w else (too_large, w)
    body_of_length (negsuc n) w = (not_read, w)

    -- The content length and the body, from the value of the header `content-length`.
    unfoldable pub read_request_body : Option Bytes → W → ℤ × (Body × W)
    unfolding body_loop
    read_request_body none w = (pos 0, body_of_length (pos 0) w)
    read_request_body (some v) w = (atoi v, body_of_length (atoi v) w)
