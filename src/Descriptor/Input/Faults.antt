-- ===== src/Descriptor/Input/Faults.antt =====
-- When reading runs into undefined behaviour.
use sope_appserver.Prelude.{ℕ, ◌≤◌, ◌<◌, ◌≡◌, ◌↔◌, ◌≢◌, refl, true, false, arith}
use sope_appserver.Descriptor.Input.{read, after_refill}
use sope_appserver.Descriptor.State.{Descriptor, available}
use sope_appserver.Socket.{Recv, got, ended, failed, Socket}

faulted-after_refill :
    {W : Type 0} (len : ℕ) (d : Descriptor) (x : Recv × W)
    → d.faulted ≡ false
    → (after_refill len d x).1.faulted ≡ true
    → x.0 ≡ failed
faulted-after_refill len d (got b bs, w) f e = ground arith
faulted-after_refill len d (ended, w) f e = cc
faulted-after_refill len d (failed, w) f e = refl

after_refill-failed :
    {W : Type 0} (len : ℕ) (d : Descriptor) (x : Recv × W)
    → x.0 ≡ failed
    → (after_refill len d x).1.faulted ≡ true
after_refill-failed len d (got b bs, w) e = cc
after_refill-failed len d (ended, w) e = cc
after_refill-failed len d (failed, w) e = refl

-- `NGBufferedDescriptor_read` of a positive length, on a descriptor without a fault, faults exactly
-- when it has to refill its empty buffer and the read(2) for that fails: it then hands the negative
-- result to memcpy as a length.
pub faulted-read :
    {W : Type 0} (sock : Socket W) (len : ℕ) (d : Descriptor) (w : W)
    → 0 < len
    → d.faulted ≡ false
    → ((read sock len d w).1.faulted ≡ true) ↔ (
        (available d ≡ 0)
        × (d.read_size ≢ 0)
        × (len ≤ d.read_size)
        × ((sock.read d.read_size w).0 ≡ failed))
unfolding read
faulted-read sock len d w h f = (
  λ e. (
    ground arith,
    ground arith,
    ground arith,
    ground (arith, faulted-after_refill len d (sock.read d.read_size w) f),
  ),
  λ (a, b, c, e). ground (arith, after_refill-failed len d (sock.read d.read_size w) e),
)
