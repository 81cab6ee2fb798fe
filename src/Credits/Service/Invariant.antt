-- ===== src/Credits/Service/Invariant.antt =====
-- The ledger's invariant under apps/api/app/credits/service.py: balances that the entries and the
-- open reservations account for.
use procure_delta.Prelude.{
  ℕ, ◌+◌, ◌<◌, ◌≤◌, ◌≡◌, ◌≢◌, String, refl, some, List, [], ◌∷◌, arith, All, find, find-All, inl,
  inr, Option-cases, Bool-cases, is_some, Bool, ◌∙◌, sym,
}
use procure_delta.Prelude.Actions.{Result, ok, err}
use procure_delta.Credits.Schema.{
  AccountKind, CreditOperation, grant, reserve, commit, refund, CreditAccount, CreditReservation,
  CreditLedgerEntry, Db, put_account, max_integer, CreditError, kind_eq,
}
use procure_delta.Credits.Session.{owned_by, check_kind, insert_account, locked_account}
use procure_delta.Credits.Service.Tables.{
  total, held, Descending, Descending-mono, put_account-All, total_fresh, held_fresh,
}

-- The balances of one account: what the ledger lists, and what open reservations hold.
pub record IsBalanced (es : List CreditLedgerEntry) (rs : List CreditReservation)
    (a : CreditAccount) : Type 0 where
  pub available :
      a.available_credits + total reserve a.id es ≡ total grant a.id es + total refund a.id es
  pub reserved :
      a.reserved_credits + total commit a.id es + total refund a.id es ≡ total reserve a.id es
  pub holds : a.reserved_credits ≡ held a.id rs
  pub fits : (a.available_credits ≤ max_integer) × (a.reserved_credits ≤ max_integer)

pub record IsValid (db : Db) : Type 0 where
  pub balanced : All (IsBalanced db.entries db.reservations) db.accounts
  pub account_ids : All (λ a. a.id < db.next_id) db.accounts
  pub entry_accounts : All (λ e. e.account_id < db.next_id) db.entries
  pub reservation_accounts : All (λ r. r.account_id < db.next_id) db.reservations
  pub reservation_ids : Descending db.next_id db.reservations

-- A larger counter keeps what lies below it.
pub below_mono {ℓ} :
    {A : Type ℓ} (key : A → ℕ) (n m : ℕ) (xs : List A)
    → n ≤ m
    → All (λ x. key x < n) xs
    → All (λ x. key x < m) xs
below_mono key n m [] h v = tt
below_mono key n m (x ∷ xs) h v = (omega arith, below_mono key n m xs h v.1)

-- A new account has no entry and no reservation, and both its balances are zero.
IsBalanced-new :
    (es : List CreditLedgerEntry) (rs : List CreditReservation) (a : CreditAccount)
    → All (λ e. e.account_id < a.id) es
    → All (λ r. r.account_id < a.id) rs
    → a.available_credits ≡ 0
    → a.reserved_credits ≡ 0
    → IsBalanced es rs a
IsBalanced-new es rs a he hr none_available none_reserved =
    let g = λ (op : CreditOperation). total_fresh op a.id a.id es (omega arith) he in
    let h = held_fresh a.id a.id rs (omega arith) hr in
    record {
      available = omega (arith, g reserve, g grant, g refund);
      reserved = omega (arith, g reserve, g commit, g refund);
      holds = omega (arith, h);
      fits = omega arith;
    }

pub IsValid-insert_account :
    (now : ℕ) (owner : String) (kind : AccountKind) (db : Db)
    → IsValid db
    → IsValid (insert_account now owner kind db)
unfolding insert_account
IsValid-insert_account now owner kind db v =
    elim (Bool-cases (is_some (find (owned_by owner) db.accounts))) [
      | inl old ↦ rw old v
      | inr new ↦ rw new (record {
        balanced = (
          IsBalanced-new db.entries db.reservations _ v.entry_accounts v.reservation_accounts refl
              refl,
          v.balanced,
        );
        account_ids = (
          omega arith,
          below_mono (λ a. a.id) db.next_id _ db.accounts (omega arith) v.account_ids,
        );
        entry_accounts =
            below_mono (λ e. e.account_id) db.next_id _ db.entries (omega arith) v.entry_accounts;
        reservation_accounts =
            below_mono (λ r. r.account_id) db.next_id _ db.reservations (omega arith)
              v.reservation_accounts;
        reservation_ids =
            Descending-mono db.next_id _ db.reservations (omega arith) v.reservation_ids;
      })
    ]

module _ (db : Db) (v : IsValid db) (a : CreditAccount) (e : CreditLedgerEntry)
    (rs : List CreditReservation) (n : ℕ) where
  -- A balanced account stays balanced when another account gets an entry.
  IsBalanced-other :
      e.account_id ≡ a.id
      → ((k : ℕ) → k ≢ a.id → held k rs ≡ held k db.reservations)
      → (x : CreditAccount) → x.id ≢ a.id
      → IsBalanced db.entries db.reservations x
      → IsBalanced (e ∷ db.entries) rs x
  unfolding total
  IsBalanced-other owned others x ne b = record {
    available = ground (arith, b.available);
    reserved = ground (arith, b.reserved);
    holds = b.holds ∙ sym (others x.id ne);
    fits = b.fits;
  }

  -- The write that every operation ends with: one account, one entry, perhaps a reservation.
  pub IsValid-write :
      e.account_id ≡ a.id
      → a.id < db.next_id
      → db.next_id ≤ n
      → All (λ r. r.account_id < n) rs
      → Descending n rs
      → ((k : ℕ) → k ≢ a.id → held k rs ≡ held k db.reservations)
      → IsBalanced (e ∷ db.entries) rs a
      → IsValid (record {
        accounts = put_account a db.accounts;
        reservations = rs;
        entries = e ∷ db.entries;
        next_id = n;
      })
  IsValid-write owned known grows accounts ids others this = record {
    balanced =
        put_account-All (IsBalanced db.entries db.reservations) (IsBalanced (e ∷ db.entries) rs) a
          (IsBalanced-other owned others) this db.accounts v.balanced;
    account_ids =
        put_account-All (λ x. x.id < db.next_id) (λ x. x.id < n) a (λ x _ h. omega arith)
          (omega arith) db.accounts v.account_ids;
    entry_accounts = (
      omega arith,
      below_mono (λ e. e.account_id) db.next_id n db.entries grows v.entry_accounts,
    );
    reservation_accounts = accounts;
    reservation_ids = ids;
  }

-- What a call that returned or raised leaves, for the locked account that it returned.
abbrev pub IsLocked : Result CreditError CreditAccount × Db → Type 0
IsLocked (ok a, db) = IsValid db × IsBalanced db.entries db.reservations a × (a.id < db.next_id)
IsLocked (err _, db) = IsValid db

-- The row that the `SELECT … FOR UPDATE` finds.
IsLocked-row :
    (kind : AccountKind) (a : CreditAccount) (db : Db) (p : CreditAccount → Bool)
    → IsValid db
    → find p db.accounts ≡ some a
    → IsLocked (check_kind kind (some a) db)
IsLocked-row kind a db p v found =
    let b = find-All (IsBalanced db.entries db.reservations) p db.accounts a v.balanced found in
    let k = find-All (λ x. x.id < db.next_id) p db.accounts a v.account_ids found in
    elim (Bool-cases (kind_eq a.account_kind kind)) [ inl e ↦ rw e (v, b, k) | inr e ↦ rw e v ]

pub locked_account-IsLocked :
    (now : ℕ) (owner : String) (kind : AccountKind) (db : Db)
    → IsValid db
    → IsLocked (locked_account now owner kind db)
unfolding locked_account
locked_account-IsLocked now owner kind db v =
    let db' = insert_account now owner kind db in
    let v' = IsValid-insert_account now owner kind db v in
    elim (Option-cases (find (owned_by owner) db'.accounts)) [
      | inl missing ↦ rw missing v'
      | inr (a, found) ↦ rw found (IsLocked-row kind a db' (owned_by owner) v' found)
    ]
