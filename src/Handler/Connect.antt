-- ===== src/Handler/Connect.antt =====
-- `_connectInstance`: a first connect(2), and three more with a pause before each.
use native.Mathlib.Decide.{ℕ_discrete}
use sope_appserver.Prelude.{
  ℕ, zero, suc, ◌+◌, ◌<◌, ◌≡◌, refl, sym, subst, inl, inr, Bool, true, false, arith, Bool-cases,
}

-- connect(2) on the new socket, with whether its result is at least 0; the pause; and close(2).
pub record Network (W : Type 0) : Type 0 where
  pub connect : W → Bool × W
  pub sleep : W → W
  pub close : W → W

module _ {W : Type 0} (net : Network W) where
  abbrev pub or_retry : (W → Bool × W) → Bool × W → Bool × W
  or_retry again (true, w) = (true, w)
  or_retry again (false, w) = again w

  -- `while (tryCount < 3)`; behind it the socket is closed if no try has succeeded.
  unfoldable pub retry_loop : ℕ → W → Bool × W
  retry_loop zero w = (false, net.close w)
  retry_loop (suc tries) w = or_retry (retry_loop tries) (net.connect (net.sleep w))

  unfoldable pub connect_instance : W → Bool × W
  unfolding retry_loop
  connect_instance w = or_retry (retry_loop 3) (net.connect w)

  -- The state before a try, if all tries before it have failed, and the try, counted from 0.
  abbrev pub before_try : ℕ → W → W
  before_try zero w = w
  before_try (suc n) w = net.sleep (net.connect (before_try n w)).1

  abbrev pub try : ℕ → W → Bool × W
  try n w = net.connect (before_try n w)

  abbrev pub FailBelow : ℕ → W → Type 0
  FailBelow n w = (k : ℕ) → k < n → (try k w).0 ≡ false

  -- The first of four tries that succeeds decides; if all fail the socket is closed.
  pub data Connects (w : W) : Bool × W → Type 0 where
    success : (n : ℕ) {v : W} → n < 4 → FailBelow n w → try n w ≡ (true, v) → Connects w (true, v)
    failure : {v : W} → FailBelow 4 w → (try 3 w).1 ≡ v → Connects w (false, net.close v)

  FailBelow-suc : (n : ℕ) (w : W) → FailBelow n w → (try n w).0 ≡ false → FailBelow (suc n) w
  FailBelow-suc n w h e k l = elim (ℕ_discrete k n) [
    | yes same ↦ subst (λ j. (try j w).0 ≡ false) (sym same) e
    | no other ↦ h k (omega arith)
  ]

  or_retry-Connects :
      (again : W → Bool × W) (n : ℕ) (w : W)
      → n < 4
      → FailBelow n w
      → (FailBelow (suc n) w → Connects w (again (try n w).1))
      → Connects w (or_retry again (try n w))
  or_retry-Connects again n w l h k = elim (Bool-cases (try n w).0) [
    | inl won ↦
        let p : try n w ≡ (true, (try n w).1) = λ i. (won i, (try n w).1) in rw p (success n l h p)
    | inr lost ↦
        let p : try n w ≡ (false, (try n w).1) = λ i. (lost i, (try n w).1) in
        rw p (k (FailBelow-suc n w h lost))
  ]

  give_up :
      (n : ℕ) (w : W) → 3 ≡ n → FailBelow (suc n) w → Connects w (false, net.close (try n w).1)
  give_up n w e =
      subst (λ j. FailBelow (suc j) w → Connects w (false, net.close (try j w).1)) e
        (λ h. failure h refl)

  retry-Connects :
      (tries n : ℕ) (w : W)
      → n + tries ≡ 3
      → FailBelow n w
      → Connects w (or_retry (retry_loop tries) (try n w))
  unfolding retry_loop
  retry-Connects zero n w e h =
      or_retry-Connects (retry_loop zero) n w (omega arith) h (give_up n w (omega arith))
  retry-Connects (suc tries) n w e h =
      or_retry-Connects (retry_loop (suc tries)) n w (omega arith) h
        (retry-Connects tries (suc n) w (omega arith))

  -- `_connectInstance` tries up to four times, with a pause before each try but the first, and
  -- stops at the first that succeeds; if none does it closes the socket and fails.
  pub connect_instance-Connects : (w : W) → Connects w (connect_instance w)
  unfolding connect_instance
  connect_instance-Connects w = retry-Connects 3 0 w refl (λ k l. absurd (omega arith))
