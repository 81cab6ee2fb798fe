-- ===== src/Credits/Service/Tables.antt =====
-- Sums over the rows of the credit tables, and what each write does to them.
use procure_delta.Prelude.{
  ℕ, ◌+◌, ◌<◌, ◌≤◌, ◌≡◌, ◌≢◌, refl, Bool, ◌&&◌, some, List, [], ◌∷◌, arith, ◌==◌, if◌then◌else◌,
  All, find, inl, inr, Bool-cases, ==→eq,
}
use mathlib.Core.Path.{subst}
use procure_delta.Credits.Schema.{
  CreditOperation, operation_eq, is_reserved, CreditAccount, CreditReservation, CreditLedgerEntry,
  put_account, put_reservation,
}

-- The amounts that the ledger lists for one account and one operation.
unfoldable pub total : CreditOperation → ℕ → List CreditLedgerEntry → ℕ
total op k [] = 0
total op k (e ∷ es) =
    (if e.account_id == k && operation_eq e.operation op then e.amount else 0) + total op k es

-- What one reservation holds for an account: its amount while it is open.
unfoldable pub held_by : ℕ → CreditReservation → ℕ
held_by k r = if r.account_id == k && is_reserved r.status then r.amount else 0

unfoldable pub held : ℕ → List CreditReservation → ℕ
held k [] = 0
held k (r ∷ rs) = held_by k r + held k rs

-- Primary keys fall from the newest row to the oldest, all below the counter.
abbrev pub Descending : ℕ → List CreditReservation → Type 0
Descending n [] = Unit
Descending n (r ∷ rs) = (r.id < n) × Descending r.id rs

pub Descending-mono :
    (n m : ℕ) (rs : List CreditReservation) → n ≤ m → Descending n rs → Descending m rs
Descending-mono n m [] h d = tt
Descending-mono n m (r ∷ rs) h d = (omega arith, d.1)

module _ (P Q : CreditAccount → Type 0) (a : CreditAccount) where
  -- An update by primary key: the row itself, and every other row.
  pub put_account-All :
      ((x : CreditAccount) → x.id ≢ a.id → P x → Q x)
      → Q a
      → (xs : List CreditAccount) → All P xs
      → All Q (put_account a xs)
  put_account-All other this [] h = tt
  put_account-All other this (x ∷ xs) h = elim (Bool-cases (x.id == a.id)) [
    | inl e ↦ rw e (this, put_account-All other this xs h.1)
    | inr e ↦ rw e (other x (ground arith) h.0, put_account-All other this xs h.1)
  ]

-- A total that no row contributes to.
pub total_fresh :
    (op : CreditOperation) (n k : ℕ) (es : List CreditLedgerEntry)
    → n ≤ k
    → All (λ e. e.account_id < n) es
    → total op k es ≡ 0
unfolding total
total_fresh op n k [] h v = refl
total_fresh op n k (e ∷ es) h v = ground (arith, total_fresh op n k es h v.1)

pub held_fresh :
    (n k : ℕ) (rs : List CreditReservation) → n ≤ k → All (λ r. r.account_id < n) rs → held k rs ≡ 0
unfolding held held_by
held_fresh n k [] h v = refl
held_fresh n k (r ∷ rs) h v = ground (arith, held_fresh n k rs h v.1)

-- An update of a row whose key is above all others changes nothing.
pub put_reservation_above :
    (r : CreditReservation) (n : ℕ) (rs : List CreditReservation)
    → n ≤ r.id
    → Descending n rs
    → put_reservation r rs ≡ rs
put_reservation_above r n [] h d = refl
put_reservation_above r n (x ∷ rs) h d = ground (arith, put_reservation_above r x.id rs)

pub find_below :
    (p : CreditReservation → Bool) (n : ℕ) (old : CreditReservation) (rs : List CreditReservation)
    → Descending n rs
    → find p rs ≡ some old
    → old.id < n
find_below p n old [] d h = cc
find_below p n old (x ∷ rs) d h = ground (arith, find_below p x.id old rs)

-- Replacing the row that a search found exchanges its contribution, and that of no other row.
pub held-put_reservation :
    (p : CreditReservation → Bool) (k n : ℕ) (old new : CreditReservation)
    (rs : List CreditReservation)
    → Descending n rs
    → find p rs ≡ some old
    → new.id ≡ old.id
    → held k (put_reservation new rs) + held_by k old ≡ held k rs + held_by k new
unfolding held
held-put_reservation p k n old new [] d h same = cc
held-put_reservation p k n old new (x ∷ rs) d h same = ground (
  arith,
  put_reservation_above new x.id rs,
  find_below p x.id old rs,
  held-put_reservation p k x.id old new rs,
)

pub put_reservation-Descending :
    (r : CreditReservation) (n : ℕ) (rs : List CreditReservation)
    → Descending n rs
    → Descending n (put_reservation r rs)
put_reservation-Descending r n [] d = tt
put_reservation-Descending r n (x ∷ rs) d = elim (Bool-cases (x.id == r.id)) [
  | inl e ↦ rw e (
    omega (arith, ==→eq x.id r.id e),
    subst (λ i. Descending i (put_reservation r rs)) (==→eq x.id r.id e)
        (put_reservation-Descending r x.id rs d.1),
  )
  | inr e ↦ rw e (d.0, put_reservation-Descending r x.id rs d.1)
]

pub put_reservation-All :
    (P : CreditReservation → Type 0) (r : CreditReservation)
    → P r
    → (rs : List CreditReservation) → All P rs
    → All P (put_reservation r rs)
put_reservation-All P r this [] h = tt
put_reservation-All P r this (x ∷ rs) h = elim (Bool-cases (x.id == r.id)) [
  | inl e ↦ rw e (this, put_reservation-All P r this rs h.1)
  | inr e ↦ rw e (h.0, put_reservation-All P r this rs h.1)
]
