-- ===== src/Sns/Lookup/Balance.antt =====
-- How many file descriptors a lookup leaves open.
use sope_appserver.Config.{Config}
use sope_appserver.Descriptor.Input.{safe_read}
use sope_appserver.Descriptor.Keep.Reads.{ReadsKeep, Stored, safe_read-Keeps}
use sope_appserver.Descriptor.Keep.{WritesKeep, Behind, if-Behind, flush-Keeps}
use sope_appserver.Descriptor.Output.{free}
use sope_appserver.Descriptor.State.{Descriptor, new_owned}
use sope_appserver.Prelude.{
  ℕ, suc, ◌+◌, ◌-◌, ◌≡◌, refl, ◌∙◌, Bool, true, false, Option, none, some, [], arith, ltb, leb, ◌^◌,
  if◌then◌else◌, Bytes, length,
}
use sope_appserver.Sns.Address.{Address, sns_address}
use sope_appserver.Sns.Lookup.{
  Found, found, not_found, corrupted, Plug, family, or_empty, unless_faulted, after_answer,
  after_query, after_connect, after_socket, ask, send_sns_query,
}
use sope_appserver.Sns.Query.Keep.{send_query-Keeps}
use sope_appserver.Sns.{
  Answer, address, refused, overflow, int_of, send_query, size_of_negative, max_address_size,
  take_address, take_size, take_domain, read_answer,
}

-- socket(2), with whether it made a descriptor.
abbrev pub Opened : {W : Type 0} → (W → ℕ) → W → Bool × W → Type 0
Opened opened w (true, v) = opened v ≡ opened w + 1
Opened opened w (false, v) = opened v ≡ opened w

-- `opened` is the number of the open file descriptors: socket(2) adds one unless it fails, close(2)
-- takes one away, and connect(2), read(2) and write(2) leave the number as it is.
pub record IsCounted {W : Type 0} (plug : Plug W) (opened : W → ℕ) : Type 0 where
  pub opens : (domain : ℕ) (w : W) → Opened opened w (plug.open_socket domain w)
  pub closes : (w : W) → opened (plug.sock.close w) ≡ opened w - 1
  pub connects : (a : Address) (w : W) → opened (plug.connect a w).1 ≡ opened w
  pub reads : (n : ℕ) (w : W) → opened (plug.sock.read n w).1 ≡ opened w
  pub writes : (bs : Bytes) (w : W) → opened (plug.sock.write bs w).1 ≡ opened w

-- A lookup that does not run into undefined behaviour leaves so many open.
abbrev pub Leaves : {W : Type 0} → (W → ℕ) → ℕ → Found × W → Type 0
Leaves opened n (found domain len bs, v) = opened v ≡ n
Leaves opened n (not_found, v) = opened v ≡ n
Leaves opened n (corrupted, v) = Unit {0}

module _ {W : Type 0} (plug : Plug W) (opened : W → ℕ) (counted : IsCounted plug opened)
    (n : ℕ) where
  -- The descriptor is owned, and with it so many are open.
  abbrev Holds : Bool → W → Type 0
  Holds o w = (o ≡ true) × (opened w ≡ suc n)

  writes-Holds : (o : Bool) → WritesKeep (Holds o) plug.sock
  writes-Holds o bs w (p, q) = (p, counted.writes bs w ∙ q)

  reads-Holds : (o : Bool) → ReadsKeep (Holds o) plug.sock
  reads-Holds o m w (p, q) = (p, counted.reads m w ∙ q)

  fetch :
      (len : ℕ) (d : Descriptor) (w : W)
      → Holds d.owns_fd w
      → Stored Holds (safe_read plug.sock len d w)
  fetch = safe_read-Keeps Holds plug.sock reads-Holds

  take_address-Holds :
      (domain size : ℕ) (x : Bool × Bytes × Descriptor × W)
      → Stored Holds x
      → Behind Holds (take_address domain size x)
  take_address-Holds domain size (done, bs, d, w) p =
      if-Behind Holds (ltb 1000 (length bs)) (overflow, d, w)
        ((if done then address domain size bs else refused 11), d, w) p p

  take_size-Holds :
      (domain : ℕ) (x : Bool × Bytes × Descriptor × W)
      → Stored Holds x
      → Behind Holds (take_size plug.sock domain x)
  take_size-Holds domain (false, bs, d, w) p = p
  take_size-Holds domain (true, bs, d, w) p =
      let size = int_of bs in
      let negative : Answer × Descriptor × W = (address domain (size_of_negative size) [], d, w) in
      let large : Answer × Descriptor × W = (refused 0, d, w) in
      let stored = take_address domain size (safe_read plug.sock size d w) in
      if-Behind Holds (leb (2 ^ 31) size) negative
        (if ltb max_address_size size then large else stored) p
        (if-Behind Holds (ltb max_address_size size) large stored p
          (take_address-Holds domain size (safe_read plug.sock size d w) (fetch size d w p)))

  take_domain-Holds :
      (x : Bool × Bytes × Descriptor × W) → Stored Holds x → Behind Holds (take_domain plug.sock x)
  take_domain-Holds (false, bs, d, w) p = p
  take_domain-Holds (true, bs, d, w) p =
      take_size-Holds (int_of bs) (safe_read plug.sock 4 d w) (fetch 4 d w p)

  read_answer-Holds :
      (d : Descriptor) (w : W) → Holds d.owns_fd w → Behind Holds (read_answer plug.sock d w)
  unfolding read_answer
  read_answer-Holds d w p = take_domain-Holds (safe_read plug.sock 4 d w) (fetch 4 d w p)

  closed_if :
      (o : Bool) (v : W)
      → o ≡ true
      → opened v ≡ suc n
      → opened (if o then plug.sock.close v else v) ≡ n
  closed_if true v p q = omega (arith, counted.closes v, q)
  closed_if false v p q = absurd (ground arith)

  free-opened : (d : Descriptor) (w : W) → Holds d.owns_fd w → opened (free plug.sock d w) ≡ n
  unfolding free
  free-opened d w (p, q) =
      let (owned, count) = (flush-Keeps Holds plug.sock writes-Holds).keeps d w (p, q) in
      closed_if d.owns_fd _ p count

  unfaulted :
      (b : Bool) (v : W) (x : Found × W)
      → Leaves opened n x
      → Leaves opened n (unless_faulted plug true b v x)
  unfaulted true v x p = tt
  unfaulted false v x p = p

  after_answer-Leaves :
      (x : Answer × Descriptor × W) → Behind Holds x → Leaves opened n (after_answer plug true x)
  after_answer-Leaves (address domain size bs, d, w) p =
      unfaulted d.faulted w (found domain size bs, _) (free-opened d w p)
  after_answer-Leaves (refused code, d, w) p =
      unfaulted d.faulted w (not_found, _) (free-opened d w p)
  after_answer-Leaves (overflow, d, w) p = tt

  after_query-Leaves :
      (x : Bool × Descriptor × W) → Behind Holds x → Leaves opened n (after_query plug true x)
  after_query-Leaves (true, d, w) p =
      after_answer-Leaves (read_answer plug.sock d w) (read_answer-Holds d w p)
  after_query-Leaves (false, d, w) p = unfaulted d.faulted w (not_found, _) (free-opened d w p)

  module _ (line app cookie : Bytes) where
    after_connect-Leaves :
        (x : Bool × W)
        → opened x.1 ≡ suc n
        → Leaves opened n (after_connect plug true line app cookie true x)
    after_connect-Leaves (false, w) q = omega (arith, counted.closes w, q)
    after_connect-Leaves (true, w) q =
        after_query-Leaves (send_query plug.sock line app cookie (new_owned 1024) w) (
          (send_query-Keeps Holds plug.sock writes-Holds line app cookie).keeps (new_owned 1024) w
            (refl, q))

    after_socket-Leaves :
        (a : Address) (w : W) (x : Bool × W)
        → opened w ≡ n
        → Opened opened w x
        → Leaves opened n (after_socket plug true line app cookie a x)
    after_socket-Leaves a w (false, v) q e = e ∙ q
    after_socket-Leaves a w (true, v) q e =
        after_connect-Leaves (plug.connect a v) (counted.connects a v ∙ omega (arith, e, q))

    ask-Leaves :
        (o : Option Address) (w : W)
        → opened w ≡ n
        → Leaves opened n (ask plug true line app cookie o w)
    ask-Leaves none w q = q
    ask-Leaves (some a) w q =
        after_socket-Leaves a w (plug.open_socket (family a) w) q (counted.opens (family a) w)

-- Where there is memory for the descriptor, a lookup of an instance leaves as many file descriptors
-- open as before, however it ends, unless it writes behind the end of its buffer or a read(2) that
-- fails makes it copy a negative number of bytes.
pub send_sns_query-Leaves :
    {W : Type 0} (plug : Plug W) (opened : W → ℕ) (inet_addr : Bytes → ℕ) (cfg : Config)
    (line cookie : Option Bytes) (app : Bytes) (w : W)
    → IsCounted plug opened
    → Leaves opened (opened w) (send_sns_query plug true inet_addr line cookie app cfg w)
unfolding send_sns_query
send_sns_query-Leaves plug opened inet_addr cfg line cookie app w counted =
    ask-Leaves plug opened counted (opened w) (or_empty line) app (or_empty cookie)
      (sns_address inet_addr cfg) w refl
