-- ===== src/Ranking/Eligibility/Search.antt =====
-- Searches in the lists of apps/api/app/ranking/eligibility.py.
use mathlib.Core.List.{Memᴰ}
use procure_delta.Prelude.{
  arith, ◌≡◌, refl, sym, ap, ◌∙◌, Bool, true, false, ◌&&◌, List, [], ◌∷◌, ◌++◌, any, All,
  Bool-cases, inl, inr,
}
use procure_delta.Lifecycle.Candidate.{is_empty}

pub any-Mem :
    {A : Type 0} (p : A → Bool) (xs : List A) → any p xs ≡ true → (x : A) × Memᴰ x xs × (p x ≡ true)
any-Mem p [] h = cc
any-Mem p (x ∷ xs) h = elim (Bool-cases (p x)) [
  | inl e ↦ (x, Memᴰ.head refl, e)
  | inr e ↦ let (y, m, q) = any-Mem p xs (rw e at h) in (y, Memᴰ.tail m, q)
]

pub Mem-any :
    {A : Type 0} (p : A → Bool) (xs : List A) (x : A) → Memᴰ x xs → p x ≡ true → any p xs ≡ true
Mem-any p [] x m h = elim m [ ]
Mem-any p (y ∷ ys) x (Memᴰ.head e) h = let q : p y ≡ true = ap p (sym e) ∙ h in ground arith
Mem-any p (y ∷ ys) x (Memᴰ.tail m) h = ground (arith, Mem-any p ys x m h)

pub any-All :
    {A : Type 0} (p : A → Bool) (xs : List A) → any p xs ≡ false → All (λ x. p x ≡ false) xs
any-All p [] h = tt
any-All p (x ∷ xs) h = (ground arith, any-All p xs (ground arith))

pub All-any :
    {A : Type 0} (p : A → Bool) (xs : List A) → All (λ x. p x ≡ false) xs → any p xs ≡ false
All-any p [] h = refl
All-any p (x ∷ xs) h = let a = h.0 in ground (arith, All-any p xs h.1)

pub empty-append :
    {A : Type 0} (xs ys : List A) → is_empty (xs ++ ys) ≡ (is_empty xs && is_empty ys)
empty-append [] ys = refl
empty-append (x ∷ xs) ys = refl

pub Mem-nonempty : {A : Type 0} (xs : List A) (x : A) → Memᴰ x xs → is_empty xs ≡ false
Mem-nonempty [] x m = elim m [ ]
Mem-nonempty (y ∷ ys) x m = refl
