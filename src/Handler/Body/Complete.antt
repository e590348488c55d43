-- ===== src/Handler/Body/Complete.antt =====
-- The body is read whole, in whatever blocks it arrives.
use sope_appserver.Handler.Body.{Body, whole, after_client_block, body_loop, read_request_body}
use sope_appserver.Prelude.{
  ℕ, zero, suc, true, ltb, ◌+◌, ◌^◌, ◌-◌, ◌≤◌, ◌<◌, ◌≡◌, refl, sym, ap, subst, ◌∙◌, some, [], ◌∷◌,
  ◌++◌, append_assoc, arith, Bytes, length, length-append, length-drop, drop, pos, atoi, append-nil,
}
use sope_appserver.Socket.{Recv, got, ended, failed, Delivers}

append-split :
    (xs ys us vs : Bytes)
    → length xs ≤ length ys
    → ys ++ vs ≡ xs ++ us
    → (xs ++ drop (length xs) ys ≡ ys) × (us ≡ drop (length xs) ys ++ vs)
append-split [] ys us vs h e = (refl, sym e)
append-split (x ∷ xs) [] us vs h e = absurd (omega arith)
append-split (x ∷ xs) (y ∷ ys) us vs h e =
    let heads : x ≡ y = cc in
    let tails : ys ++ vs ≡ xs ++ us = cc in
    let (p, q) = append-split xs ys us vs (omega arith) tails in (cc, q)

-- This body was read, and this is left to read.
abbrev pub Takes : {W : Type 0} → (W → Bytes) → Bytes → Bytes → Body × W → Type 0
Takes pending body rest (b, w) = (b ≡ whole body) × (pending w ≡ rest)

module _ {W : Type 0} (pending : W → Bytes) where
  after_client_block-Takes :
      (again : Bytes → ℕ → W → Body × W) (filled todo rest : Bytes) (n : ℕ) (w : W) (r : Recv)
      (w' : W)
      → length todo ≡ suc n
      → pending w ≡ todo ++ rest
      → ((more left : Bytes)
          → length left ≤ n
          → pending w' ≡ left ++ rest
          → Takes pending (more ++ left) rest (again more (length left) w'))
      → Delivers pending (suc n) w (r, w')
      → Takes pending (filled ++ todo) rest (after_client_block again filled (suc n) (r, w'))
  after_client_block-Takes again filled todo rest n w (got b bs) w' l e ih (p, q) =
      let (s, t) = append-split (b ∷ bs) todo (pending w') rest (omega arith) (sym e ∙ p) in
      let left = drop (length (b ∷ bs)) todo in
      let size : suc n - length (b ∷ bs) ≡ length left =
        omega (arith, length-drop (length (b ∷ bs)) todo) in
      let joined : (filled ++ (b ∷ bs)) ++ left ≡ filled ++ todo =
        append_assoc filled (b ∷ bs) left ∙ ap (λ u. filled ++ u) s in
      subst (λ k. Takes pending (filled ++ todo) rest (again (filled ++ (b ∷ bs)) k w')) (sym size)
        (subst (λ u. Takes pending u rest (again (filled ++ (b ∷ bs)) (length left) w')) joined
          (ih (filled ++ (b ∷ bs)) left (omega arith) t))
  after_client_block-Takes again filled todo rest n w ended w' l e ih (p, q) =
      absurd (omega (arith, ap length (sym e ∙ p), length-append {0} todo rest))
  after_client_block-Takes again filled todo rest n w failed w' l e ih p = absurd p

module _ {W : Type 0} (get_block : ℕ → W → Recv × W) (pending : W → Bytes)
    (delivers : (n : ℕ) (w : W) → 0 < n → Delivers pending n w (get_block n w)) (rounds : ℕ) where
  body_loop-Takes :
      (r : ℕ) (filled todo rest : Bytes) (n : ℕ) (w : W)
      → length todo ≡ n
      → n ≤ r
      → pending w ≡ todo ++ rest
      → Takes pending (filled ++ todo) rest (body_loop get_block rounds r filled n w)
  unfolding body_loop
  body_loop-Takes r filled [] rest zero w l h e = (ap whole (sym (append-nil filled)), e)
  body_loop-Takes r filled (t ∷ ts) rest zero w l h e = absurd (omega arith)
  body_loop-Takes zero filled todo rest (suc n) w l h e = absurd (omega arith)
  body_loop-Takes (suc r) filled todo rest (suc n) w l h e =
      after_client_block-Takes pending (body_loop get_block rounds r) filled todo rest n w _ _ l e
        (λ more left k g. body_loop-Takes r more left rest (length left) _ refl (omega arith) g)
        (delivers (suc n) w (omega arith))

  -- Where the blocks from the client deliver its data and the client has sent a body at least as
  -- long as its content length, of fewer than 2^31 - 2 bytes, `_readRequestBody` reads just the content, with as many rounds as
  -- it has bytes, and leaves the rest.
  pub read_request_body-Takes :
      (text : Bytes) (c : ℕ) (content rest : Bytes) (w : W)
      → atoi text ≡ pos (length (c ∷ content))
      → length (c ∷ content) + 2 < 2 ^ 31
      → length (c ∷ content) ≤ rounds
      → pending w ≡ (c ∷ content) ++ rest
      → Takes pending (c ∷ content) rest (read_request_body get_block rounds (some text) w).1
  unfolding read_request_body
  read_request_body-Takes text c content rest w a k h e =
      let small : ltb (length (c ∷ content) + 2) (2 ^ 31) ≡ true = ground (arith, k) in
      rw (a, small) (body_loop-Takes rounds [] (c ∷ content) rest (length (c ∷ content)) w refl h e)
