-- ===== src/Scan/View/Rules.antt =====
-- The interface that a source of characters fills, and the rules by which a chain of reads over it
-- follows the same chain over a list.
use sope_appserver.Prelude.{
  ℕ, zero, suc, ◌≡◌, refl, ap, subst, Bool, true, false, Option, none, some, [], ◌∷◌, Bytes,
  if◌then◌else◌,
}
use sope_appserver.Scan.Source.{Read, pure, bind, ◌>>=◌, passes, kept, next, collect, skip}

-- The list of characters as a source.
abbrev pub uncons : Bytes → Option ℕ × Bytes
uncons [] = (none, [])
uncons (c ∷ cs) = (some c, cs)

-- `view` is what a source has not yielded yet.
pub record IsStream {S : Type 0} (read_char : S → Option ℕ × S) (Valid : S → Type 0)
    (view : S → Bytes) : Type 0 where
  pub reads : (s : S) → Valid s → ((read_char s).0, view (read_char s).1) ≡ uncons (view s)
  pub stays : (s : S) → Valid s → Valid (read_char s).1

module _ {S : Type 0} (Valid : S → Type 0) (view : S → Bytes) where
  -- The same result, and what is left is the view of what is left.
  abbrev pub Agree : {A : Type 0} → Option (A × S) → Option (A × Bytes) → Type 0
  Agree none none = Unit
  Agree none (some y) = ⊥
  Agree (some x) none = ⊥
  Agree (some (a, s)) (some (b, l)) = (a ≡ b) × Valid s × (view s ≡ l)

  pub record Follows {A : Type 0} (m : Read S A) (k : Read Bytes A) : Type 0 where
    pub follows : (s : S) → Valid s → Agree (m s) (k (view s))

module _ {S : Type 0} {Valid : S → Type 0} {view : S → Bytes} where
  pub Follows-pure : {A : Type 0} (a : A) → Follows Valid view (pure a) (pure a)
  Follows-pure a = record { follows = λ s v. (refl, v, refl) }

  pub Follows-fail : {A : Type 0} → Follows {S = S} Valid view {A = A} (λ s. none) (λ l. none)
  Follows-fail = record { follows = λ s v. tt }

  bind-Agree :
      {A B : Type 0} (f : A → Read S B) (g : A → Read Bytes B) (x : Option (A × S))
      (y : Option (A × Bytes))
      → ((a : A) → Follows Valid view (f a) (g a))
      → Agree Valid view x y
      → Agree Valid view (bind f x) (bind g y)
  bind-Agree f g none none h p = tt
  bind-Agree f g none (some y) h p = absurd p
  bind-Agree f g (some x) none h p = absurd p
  bind-Agree f g (some (a, s)) (some (b, l)) h (e, v, q) =
      subst (λ z. Agree Valid view (f a s) (g z l)) e
        (subst (λ z. Agree Valid view (f a s) (g a z)) q ((h a).follows s v))

  pub Follows-bind :
      {A B : Type 0} {m : Read S A} {n : Read Bytes A} {f : A → Read S B} {g : A → Read Bytes B}
      → Follows Valid view m n
      → ((a : A) → Follows Valid view (f a) (g a))
      → Follows Valid view (m >>= f) (n >>= g)
  Follows-bind {m} {n} {f} {g} p h = record {
    follows = λ s v. bind-Agree f g (m s) (n (view s)) h (p.follows s v);
  }

  pub Follows-if :
      {A : Type 0} (b : Bool) {m n : Read S A} {f g : Read Bytes A}
      → Follows Valid view m f
      → Follows Valid view n g
      → Follows Valid view (if b then m else n) (if b then f else g)
  Follows-if true p q = p
  Follows-if false p q = q

module _ {S : Type 0} {read_char : S → Option ℕ × S} {Valid : S → Type 0} {view : S → Bytes}
    (stream : IsStream read_char Valid view) where
  pub Follows-next : Follows Valid view (next read_char) (next uncons)
  Follows-next = record {
    follows = λ s v.
        (ap (λ p. p.0) (stream.reads s v), stream.stays s v, ap (λ p. p.1) (stream.reads s v));
  }

  pub Follows-collect :
      (test : ℕ → Bool) (n : ℕ) (c : Option ℕ)
      → Follows Valid view (collect read_char test n c) (collect uncons test n c)
  unfolding collect
  Follows-collect test zero c = Follows-pure ([], c)
  Follows-collect test (suc n) none = Follows-pure ([], none)
  Follows-collect test (suc n) (some x) =
      Follows-if (passes test x)
        (Follows-bind Follows-next
          λ c. Follows-bind (Follows-collect test n c) λ r. Follows-pure (kept x r))
        (Follows-pure ([], some x))

  pub Follows-skip :
      (test : ℕ → Bool) (rounds : ℕ) (c : Option ℕ)
      → Follows Valid view (skip read_char test rounds c) (skip uncons test rounds c)
  unfolding skip
  Follows-skip test zero none = Follows-pure none
  Follows-skip test (suc rounds) none = Follows-pure none
  Follows-skip test zero (some x) = Follows-if (passes test x) Follows-fail (Follows-pure (some x))
  Follows-skip test (suc rounds) (some x) =
      Follows-if (passes test x) (Follows-bind Follows-next λ c. Follows-skip test rounds c)
        (Follows-pure (some x))
