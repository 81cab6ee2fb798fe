-- ===== src/Credits/History/Later.antt =====
-- What a call of apps/api/app/credits/service.py leaves as it is: who owns an account, the entry of
-- an idempotency key, and a settled reservation.
use procure_delta.Prelude.{
  arith, ℕ, ◌<◌, ◌≤◌, ◌≡◌, refl, inl, inr, String, Bool, true, false, Option, none, some, List, [],
  ◌∷◌, if◌then◌else◌, find, Bool-cases, eq_iff,
}
use procure_delta.Credits.Schema.{
  AccountKind, CreditAccount, CreditReservation, CreditLedgerEntry, put_account, put_reservation,
  is_reserved,
}
use procure_delta.Credits.Session.{owned_by, has_key}
use procure_delta.Credits.Service.{has_reservation_key}
use procure_delta.Credits.Service.Tables.{Descending, put_reservation_above, find_below}

-- The primary key and the kind of an owner's account.
unfoldable pub account_of : String → List CreditAccount → Option (ℕ × AccountKind)
account_of owner [] = none
account_of owner (a ∷ xs) =
    if owned_by owner a then some (a.id, a.account_kind) else account_of owner xs

pub account_of_missing :
    (owner : String) (xs : List CreditAccount)
    → find (owned_by owner) xs ≡ none
    → account_of owner xs ≡ none
unfolding account_of
account_of_missing owner [] h = refl
account_of_missing owner (a ∷ xs) h = ground (arith, account_of_missing owner xs)

-- An account is found by its owner.
pub account_of-find :
    (owner : String) (i : ℕ) (kind : AccountKind) (xs : List CreditAccount)
    → account_of owner xs ≡ some (i, kind)
    → (a : CreditAccount) × (find (owned_by owner) xs ≡ some a)
      × (a.id ≡ i)
      × (a.account_kind ≡ kind)
unfolding account_of
account_of-find owner i kind [] h = cc
account_of-find owner i kind (a ∷ xs) h = elim (Bool-cases (owned_by owner a)) [
  | inl e ↦ (a, rw e refl, (let p = rw e at h in cc), (let p = rw e at h in cc))
  | inr e ↦
      let (b, f, same_id, same_kind) = account_of-find owner i kind xs (rw e at h) in
      (b, rw e f, same_id, same_kind)
]

pub find-account_of :
    (owner : String) (a : CreditAccount) (xs : List CreditAccount)
    → find (owned_by owner) xs ≡ some a
    → account_of owner xs ≡ some (a.id, a.account_kind)
unfolding account_of
find-account_of owner a [] h = cc
find-account_of owner a (x ∷ xs) h = ground (arith, find-account_of owner a xs)

-- The primary keys of the accounts fall from the newest to the oldest, all below the counter.
abbrev pub Falling : ℕ → List CreditAccount → Type 0
Falling n [] = Unit
Falling n (a ∷ xs) = (a.id < n) × Falling a.id xs

pub Falling-mono : (n m : ℕ) (xs : List CreditAccount) → n ≤ m → Falling n xs → Falling m xs
Falling-mono n m [] h d = tt
Falling-mono n m (a ∷ xs) h d = (omega arith, d.1)

put_account_above :
    (a : CreditAccount) (n : ℕ) (xs : List CreditAccount)
    → n ≤ a.id
    → Falling n xs
    → put_account a xs ≡ xs
put_account_above a n [] h d = refl
put_account_above a n (x ∷ xs) h d = ground (arith, put_account_above a x.id xs)

account_below :
    (owner : String) (n : ℕ) (old : CreditAccount) (xs : List CreditAccount)
    → Falling n xs
    → find (owned_by owner) xs ≡ some old
    → old.id < n
account_below owner n old [] d h = cc
account_below owner n old (x ∷ xs) d h = ground (arith, account_below owner x.id old xs)

pub account_of-put_account :
    (o owner : String) (n : ℕ) (old new : CreditAccount) (xs : List CreditAccount)
    → Falling n xs
    → find (owned_by owner) xs ≡ some old
    → new.id ≡ old.id
    → new.owner_user_id ≡ old.owner_user_id
    → new.account_kind ≡ old.account_kind
    → account_of o (put_account new xs) ≡ account_of o xs
unfolding account_of
account_of-put_account o owner n old new [] d h same_id same_owner same_kind = cc
account_of-put_account o owner n old new (x ∷ xs) d h same_id same_owner same_kind = ground (
  arith,
  put_account_above new x.id xs,
  account_below owner x.id old xs,
  account_of-put_account o owner x.id old new xs,
)

pub put_account-Falling :
    (owner : String) (n : ℕ) (old new : CreditAccount) (xs : List CreditAccount)
    → Falling n xs
    → find (owned_by owner) xs ≡ some old
    → new.id ≡ old.id
    → Falling n (put_account new xs)
put_account-Falling owner n old new [] d h same = tt
put_account-Falling owner n old new (x ∷ xs) d h same = ground (
  arith,
  put_account_above new x.id xs,
  account_below owner x.id old xs,
  put_account-Falling owner x.id old new xs,
)

-- A new entry whose key had none does not hide an entry.
pub entry_stays :
    (k : ℕ) (key : String) (e old : CreditLedgerEntry) (es : List CreditLedgerEntry)
    → find (has_key e.account_id e.idempotency_key) es ≡ none
    → find (has_key k key) es ≡ some old
    → find (has_key k key) (e ∷ es) ≡ some old
entry_stays k key e old es fresh h = ground (arith, eq_iff e.idempotency_key key)

-- Neither does a new reservation.
pub reservation_stays :
    (k : ℕ) (key : String) (r old : CreditReservation) (rs : List CreditReservation)
    → find (has_reservation_key r.account_id r.reservation_key) rs ≡ none
    → find (has_reservation_key k key) rs ≡ some old
    → find (has_reservation_key k key) (r ∷ rs) ≡ some old
reservation_stays k key r old rs fresh h = ground (arith, eq_iff r.reservation_key key)

-- An update of an open reservation leaves a settled one.
pub settled_stays :
    (k : ℕ) (key : String) (row : CreditReservation) (p : CreditReservation → Bool) (n : ℕ)
    (old new : CreditReservation) (rs : List CreditReservation)
    → Descending n rs
    → find p rs ≡ some old
    → is_reserved old.status ≡ true
    → new.id ≡ old.id
    → new.account_id ≡ old.account_id
    → new.reservation_key ≡ old.reservation_key
    → find (has_reservation_key k key) rs ≡ some row
    → is_reserved row.status ≡ false
    → find (has_reservation_key k key) (put_reservation new rs) ≡ some row
settled_stays k key row p n old new [] d h opened same_id same_account same_key f settled = cc
settled_stays k key row p n old new (x ∷ rs) d h opened same_id same_account same_key f settled =
    ground (
      arith,
      put_reservation_above new x.id rs,
      find_below p x.id old rs,
      settled_stays k key row p x.id old new rs,
    )
