-- ===== src/Prelude/Lists.antt =====
-- Searches and predicates on lists, which stand for the rows of a table.
use Prim.Native.Nat.{ℕ, suc}
use mathlib.Core.Path.{◌≡◌, subst}
use mathlib.Core.Logic.{inl, inr}
use mathlib.Core.Bool.{Bool, true, false, ◌||◌}
use mathlib.Core.Option.{Option, none, some}
use mathlib.Core.List.{List, [], ◌∷◌}
use native.Mathlib.Omega.{arith}
use procure_delta.Prelude.Tests.{if◌then◌else◌, Bool-cases, ◌==◌}

abbrev pub All {ℓ κ} : {A : Type ℓ} → (A → Type κ) → List A → Type κ
All P [] = Unit
All P (x ∷ xs) = P x × All P xs

pub All-imp {ℓ κ μ} :
    {A : Type ℓ} (P : A → Type κ) (Q : A → Type μ)
    → ((x : A) → P x → Q x)
    → (xs : List A) → All P xs
    → All Q xs
All-imp P Q f [] h = tt
All-imp P Q f (x ∷ xs) h = (f x h.0, All-imp P Q f xs h.1)

pub All-units : {A : Type 0} (xs : List A) → All (λ _. Unit {0}) xs
All-units [] = tt
All-units (x ∷ xs) = (tt, All-units xs)

module _ {ℓ} {A : Type ℓ} where
  abbrev pub length : List A → ℕ
  length [] = 0
  length (x ∷ xs) = suc (length xs)

  -- The first row that passes a test.
  abbrev pub find : (A → Bool) → List A → Option A
  find p [] = none
  find p (x ∷ xs) = if p x then some x else find p xs

  abbrev pub any : (A → Bool) → List A → Bool
  any p [] = false
  any p (x ∷ xs) = p x || any p xs

  -- The rows that pass a test, in their order.
  abbrev pub select : (A → Bool) → List A → List A
  select p [] = []
  select p (x ∷ xs) = if p x then x ∷ select p xs else select p xs

  pub find-test : (p : A → Bool) (xs : List A) (a : A) → find p xs ≡ some a → p a ≡ true
  find-test p [] a h = ground arith
  find-test p (x ∷ xs) a h = ground (arith, find-test p xs a)

  -- What holds of all rows holds of the row that a search returns.
  pub find-All {κ} :
      (P : A → Type κ) (p : A → Bool) (xs : List A) (a : A) → All P xs → find p xs ≡ some a → P a
  find-All P p [] a v h = cc
  find-All P p (x ∷ xs) a v h = elim (Bool-cases (p x)) [
    | inl e ↦ let h' : some x ≡ some a = rw e at h in subst P (cc) v.0
    | inr e ↦ find-All P p xs a v.1 (rw e at h)
  ]

  -- The update of the rows that have a row's key.
  abbrev pub put_row : (A → ℕ) → A → List A → List A
  put_row key a [] = []
  put_row key a (x ∷ xs) = (if key x == key a then a else x) ∷ put_row key a xs

  pub put_row-All {κ μ} :
      (P : A → Type κ) (Q : A → Type μ) (key : A → ℕ) (a : A)
      → Q a
      → ((x : A) → P x → (key x == key a) ≡ false → Q x)
      → (xs : List A) → All P xs
      → All Q (put_row key a xs)
  put_row-All P Q key a this other [] h = tt
  put_row-All P Q key a this other (x ∷ xs) h = elim (Bool-cases (key x == key a)) [
    | inl e ↦ rw e (this, put_row-All P Q key a this other xs h.1)
    | inr e ↦ rw e (other x h.0 e, put_row-All P Q key a this other xs h.1)
  ]
