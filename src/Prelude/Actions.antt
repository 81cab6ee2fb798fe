-- ===== src/Prelude/Actions.antt =====
-- A call that reads and writes a state and may raise. What was written before a raise stays in the
-- state, as it stays in an open database session until the caller rolls it back.
use mathlib.Core.Path.{◌≡◌, refl, sym, subst}
use mathlib.Core.Bool.{Bool, true, false}

pub data Result (E A : Type 0) : Type 0 where
  ok : A → Result E A
  err : E → Result E A

abbrev pub Action : Type 0 → Type 0 → Type 0 → Type 0
Action S E A = S → Result E A × S

module _ {S E A : Type 0} where
  abbrev pub pure : A → Action S E A
  pure a s = (ok a, s)

  abbrev pub raise : E → Action S E A
  raise e s = (err e, s)

  abbrev pub gets : (S → A) → Action S E A
  gets f s = (ok (f s), s)

  abbrev pub lift : Result E A → Action S E A
  lift r s = (r, s)

infixl 5 ◌>>=◌ ◌>>◌
abbrev pub ◌>>=◌ : {S E A B : Type 0} → Action S E A → (A → Action S E B) → Action S E B
◌>>=◌ m f s = let (r, s') = m s in elim r [ ok a ↦ f a s' | err e ↦ (err e, s') ]

abbrev pub ◌>>◌ : {S E A B : Type 0} → Action S E A → Action S E B → Action S E B
m >> k = m >>= λ _. k

module _ {S E : Type 0} where
  abbrev pub modify : (S → S) → Action S E (Unit {0})
  modify f s = (ok tt, f s)

  abbrev pub raise_if : Bool → E → Action S E (Unit {0})
  raise_if true e s = (err e, s)
  raise_if false e s = (ok tt, s)

-- The rest of a block runs on what its first step leaves; where the step raises, the block ends.
module _ {S E A B : Type 0} (Q : Result E A × S → Type 0) (R : Result E B × S → Type 0) where
  bind_result :
      (r : Result E A × S) (f : A → Action S E B)
      → Q r
      → ((a : A) (s : S) → Q (ok a, s) → R (f a s))
      → ((e : E) (s : S) → Q (err e, s) → R (err e, s))
      → R (elim r.0 [ ok a ↦ f a r.1 | err e ↦ (err e, r.1) ])
  bind_result (ok a, s) f q good bad = good a s q
  bind_result (err e, s) f q good bad = bad e s q

  -- From what a first step ensures, what the whole block ensures.
  pub bind_ensures :
      (m : Action S E A) (f : A → Action S E B) (s : S)
      → Q (m s)
      → ((a : A) (s : S) → Q (ok a, s) → R (f a s))
      → ((e : E) (s : S) → Q (err e, s) → R (err e, s))
      → R ((m >>= f) s)
  bind_ensures m f s = bind_result (m s) f

-- Inversion of a block that returned.
module _ {S E A B : Type 0} where
  result_inv :
      (r : Result E A × S) (f : A → Action S E B) {b : B} {s' : S}
      → elim r.0 [ ok a ↦ f a r.1 | err e ↦ (err e, r.1) ] ≡ (ok b, s')
      → (a : A) × (t : S) × (r ≡ (ok a, t)) × (f a t ≡ (ok b, s'))
  result_inv (ok a, t) f h = (a, t, refl, h)
  result_inv (err e, t) f h = cc

  pub bind_inv :
      (m : Action S E A) (f : A → Action S E B) (s : S) {b : B} {s' : S}
      → (m >>= f) s ≡ (ok b, s')
      → (a : A) × (t : S) × (m s ≡ (ok a, t)) × (f a t ≡ (ok b, s'))
  bind_inv m f s h = result_inv (m s) f h

  -- A block whose first step returns is the rest of the block.
  pub bind_ok :
      (m : Action S E A) (f : A → Action S E B) (s : S) {a : A} {t : S} {r : Result E B × S}
      → m s ≡ (ok a, t)
      → f a t ≡ r
      → (m >>= f) s ≡ r
  bind_ok m f s {r = r} h k =
      subst (λ x. (elim x.0 as (λ _. Result E B × S) [ ok a ↦ f a x.1 | err e ↦ (err e, x.1) ]) ≡ r)
        (sym h) k
