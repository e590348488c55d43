-- ===== src/Tests/Instances.antt =====
-- An instance that answers once it has been sent a whole request, and then delivers its answer byte
-- by byte.
use sope_appserver.Descriptor.Keep.{WritesKeep}
use sope_appserver.Handler.Guards.{same_text}
use sope_appserver.Prelude.{
  ℕ, zero, suc, ◌<◌, ◌≡◌, refl, ap, ◌∙◌, sym, Bool, true, false, [], ◌∷◌, ◌++◌, arith, Bytes,
  length, take, drop, min,
}
use sope_appserver.Sns.Lookup.{Plug}
use sope_appserver.Socket.{Recv, got, ended, accepted, Socket, Delivers, IsReader, IsWriter}
use sope_appserver.Tests.Peers.{Accepts-part}

pub record Instance : Type 0 where
  pub asked : Bytes
  pub told : ℕ

abbrev pub asked_of : Instance → Bytes
asked_of v = v.asked

abbrev pub Untold : Instance → Type 0
Untold v = v.told ≡ 0

same_text_refl : (s : Bytes) → same_text s s ≡ true
unfolding same_text
same_text_refl [] = refl
same_text_refl (c ∷ s) = ground (arith, same_text_refl s)

module _ (expected response : Bytes) where
  abbrev answer_part : Bool → ℕ → Bytes
  answer_part true k = drop k response
  answer_part false k = []

  abbrev pub pending_of : Instance → Bytes
  pending_of v = answer_part (same_text v.asked expected) v.told

  abbrev deliver : Instance → Bytes → Recv × Instance
  deliver v [] = (ended, v)
  deliver v (b ∷ bs) = (got b [], record v { told = suc v.told })

  abbrev pub instance_socket : Socket Instance
  instance_socket = record {
    read = λ n v. deliver v (pending_of v);
    write = λ bs v.
        (accepted (min 3 (length bs)), record v { asked = v.asked ++ take (min 3 (length bs)) bs });
    close = λ v. v;
  }

  abbrev pub instance_plug : Plug Instance
  instance_plug = record {
    open_socket = λ domain v. (true, v);
    connect = λ a v. (true, v);
    sock = instance_socket;
  }

  after_first :
      (k : ℕ) (xs : Bytes) (b : ℕ) (bs : Bytes) → drop k xs ≡ b ∷ bs → drop (suc k) xs ≡ bs
  after_first zero [] b bs e = cc
  after_first zero (x ∷ xs) b bs e = cc
  after_first (suc k) [] b bs e = cc
  after_first (suc k) (x ∷ xs) b bs e = after_first k xs b bs e

  part-after :
      (c : Bool) (k b : ℕ) (bs : Bytes) → answer_part c k ≡ b ∷ bs → answer_part c (suc k) ≡ bs
  part-after true k b bs e = after_first k response b bs e
  part-after false k b bs e = cc

  deliver-Delivers :
      (n : ℕ) (v : Instance) (bs : Bytes)
      → pending_of v ≡ bs
      → 0 < n
      → Delivers pending_of n v (deliver v bs)
  deliver-Delivers n v [] e h = (e, e)
  deliver-Delivers n v (b ∷ bs) e h = (
    e ∙ ap (λ u. b ∷ u) (sym (part-after (same_text v.asked expected) v.told b bs e)),
    omega arith,
  )

  pub instance_socket-IsReader : IsReader instance_socket pending_of
  instance_socket-IsReader = record {
    delivers = λ n v h. deliver-Delivers n v (pending_of v) refl h;
  }

  pub instance_socket-IsWriter : IsWriter instance_socket asked_of ⊥
  instance_socket-IsWriter = record {
    accepts = λ bs v h.
        Accepts-part ⊥ asked_of (min 3 (length bs)) bs v _ (omega arith) (λ e. absurd (omega arith))
          refl;
  }

  pub Untold-kept : WritesKeep Untold instance_socket
  Untold-kept bs v h = h

  pub instance_answers : (v : Instance) → v.asked ≡ expected → Untold v → pending_of v ≡ response
  instance_answers v e h = rw (e, same_text_refl expected, h) refl
