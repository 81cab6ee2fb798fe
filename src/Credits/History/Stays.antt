-- ===== src/Credits/History/Stays.antt =====
-- The rows that a write of apps/api/app/credits/service.py keeps: the owners' accounts, the entries of
-- the idempotency keys and the settled reservations.
use procure_delta.Prelude.{
  arith, ℕ, ◌+◌, ◌≤◌, ◌≡◌, String, true, false, Option, none, some, List, ◌∷◌, find, eq_iff, ◌⊎◌,
  sym, ◌-◌,
}
use mathlib.Core.Path.{subst}
use procure_delta.Prelude.Actions.{ok}
use procure_delta.Credits.Schema.{
  AccountKind, CreditAccount, CreditReservation, CreditLedgerEntry, Db, Metadata, is_reserved,
  put_account, put_reservation, grant, reserve,
}
use procure_delta.Credits.Session.{
  entry_of, CreditMutation, owned_by, Reference, locked_account, insert_account, has_key,
}
use procure_delta.Credits.Service.{
  Settlement, grant_locked, reserve_locked, settle_found, has_reservation_key, settled_status,
  settled_account, settlement_reference, settlement_operation, reservation_row,
}
use procure_delta.Credits.Service.Tables.{Descending, Descending-mono}
use procure_delta.Credits.History.Later.{
  account_of, account_of_missing, Falling, Falling-mono, account_of-put_account,
  put_account-Falling, entry_stays,
}

-- Each row of the two tables that are updated has a primary key of its own.
pub record IsKeyed (db : Db) : Type 0 where
  pub accounts : Falling db.next_id db.accounts
  pub reservations : Descending db.next_id db.reservations

-- What is still there at a later time.
pub record Later (db db' : Db) : Type 0 where
  pub keyed : IsKeyed db'
  pub account :
      (owner : String) (p : ℕ × AccountKind)
      → account_of owner db.accounts ≡ some p
      → account_of owner db'.accounts ≡ some p
  pub entry :
      (k : ℕ) (key : String) (e : CreditLedgerEntry)
      → find (has_key k key) db.entries ≡ some e
      → find (has_key k key) db'.entries ≡ some e
  pub settled :
      (k : ℕ) (key : String) (r : CreditReservation)
      → find (has_reservation_key k key) db.reservations ≡ some r
      → is_reserved r.status ≡ false
      → find (has_reservation_key k key) db'.reservations ≡ some r

pub Later-refl : {db : Db} → IsKeyed db → Later db db
Later-refl v = record {
  keyed = v;
  account = λ _ _ h. h;
  entry = λ _ _ _ h. h;
  settled = λ _ _ _ h _. h;
}

pub Later-trans : {a b c : Db} → Later a b → Later b c → Later a c
Later-trans f g = record {
  keyed = g.keyed;
  account = λ o p h. g.account o p (f.account o p h);
  entry = λ k key e h. g.entry k key e (f.entry k key e h);
  settled = λ k key r h t. g.settled k key r (f.settled k key r h t) t;
}

module _ (now : ℕ) (owner : String) (kind : AccountKind) (db : Db) (v : IsKeyed db) where
  insert_account-IsKeyed : IsKeyed (insert_account now owner kind db)
  unfolding insert_account
  insert_account-IsKeyed = record {
    accounts = ground (arith, v.accounts);
    reservations =
        ground (arith, v.reservations, Descending-mono db.next_id (db.next_id + 1) db.reservations);
  }

  insert_account_accounts :
      (o : String) (p : ℕ × AccountKind)
      → account_of o db.accounts ≡ some p
      → account_of o (insert_account now owner kind db).accounts ≡ some p
  unfolding insert_account account_of
  insert_account_accounts o p h =
      ground (arith, eq_iff owner o, account_of_missing owner db.accounts)

  insert_account-Later : Later db (insert_account now owner kind db)
  insert_account-Later = record {
    keyed = insert_account-IsKeyed;
    account = insert_account_accounts;
    entry = λ k key e h. unfold insert_account in ground arith;
    settled = λ k key r h t. unfold insert_account in ground arith;
  }

  pub locked_account-Later :
      {a : CreditAccount} {s : Db} → locked_account now owner kind db ≡ (ok a, s) → Later db s
  unfolding locked_account
  locked_account-Later {s = s} h =
      let same : s ≡ insert_account now owner kind db = ground arith in
      subst (Later db) (sym same) insert_account-Later

-- The write that every operation ends with.
module _ (s : Db) (owner : String) (a a' : CreditAccount) (e : CreditLedgerEntry)
    (rs : List CreditReservation) (n : ℕ) (v : IsKeyed s)
    (f : find (owned_by owner) s.accounts ≡ some a) where
  pub write-Later :
      a'.id ≡ a.id
      → a'.owner_user_id ≡ a.owner_user_id
      → a'.account_kind ≡ a.account_kind
      → find (has_key e.account_id e.idempotency_key) s.entries ≡ none
      → s.next_id ≤ n
      → Descending n rs
      → ((k : ℕ) (key : String) (r : CreditReservation)
          → find (has_reservation_key k key) s.reservations ≡ some r
          → is_reserved r.status ≡ false
          → find (has_reservation_key k key) rs ≡ some r)
      → Later s (record {
        accounts = put_account a' s.accounts;
        reservations = rs;
        entries = e ∷ s.entries;
        next_id = n;
      })
  write-Later same_id same_owner same_kind fresh grows ids rows = record {
    keyed = record {
      accounts =
          Falling-mono s.next_id n _ grows
            (put_account-Falling owner s.next_id a a' s.accounts v.accounts f same_id);
      reservations = ids;
    };
    account = λ o p h.
        rw
          (account_of-put_account o owner s.next_id a a' s.accounts v.accounts f same_id same_owner
            same_kind)
          h;
    entry = λ k key old h. entry_stays k key e old s.entries fresh h;
    settled = rows;
  }

-- A grant that returns is a replay, which writes nothing, or that write.
pub grant_locked_inv :
    (now n : ℕ) (ref : Reference) (md : Option Metadata) (a : CreditAccount) (s : Db)
    {m : CreditMutation} {db' : Db}
    → grant_locked now n ref md a s ≡ (ok m, db')
    → let a' = record a { available_credits = a.available_credits + n; updated_at = now } in
      (db' ≡ s)
      ⊎ ((find (has_key a.id ref.idempotency_key) s.entries ≡ none)
          × (db' ≡ record s {
            accounts = put_account a' s.accounts;
            entries = entry_of s.next_id a' none grant n ref md ∷ s.entries;
            next_id = s.next_id + 1;
          }))
unfolding grant_locked
grant_locked_inv now n ref md a s h = ground arith

-- So is a reservation, with a new row under a key that had none.
pub reserve_locked_inv :
    (now n : ℕ) (key : String) (ref : Reference) (md : Option Metadata) (a : CreditAccount) (s : Db)
    {m : CreditMutation} {db' : Db}
    → reserve_locked now n key ref md a s ≡ (ok m, db')
    → let a' = record a {
      available_credits = a.available_credits - n;
      reserved_credits = a.reserved_credits + n;
      updated_at = now;
    } in
      (db' ≡ s)
      ⊎ ((find (has_key a.id ref.idempotency_key) s.entries ≡ none)
          × (find (has_reservation_key a.id key) s.reservations ≡ none)
          × (db' ≡ record {
            accounts = put_account a' s.accounts;
            reservations = reservation_row s.next_id now a.id key n ref md ∷ s.reservations;
            entries = entry_of (s.next_id + 1) a' (some s.next_id) reserve n ref md ∷ s.entries;
            next_id = s.next_id + 1 + 1;
          }))
unfolding reserve_locked
reserve_locked_inv now n key ref md a s h = ground arith

-- So is a settlement, with the open row of its key as a settled one.
pub settle_found_inv :
    (now : ℕ) (how : Settlement) (key : String) (md : Option Metadata) (a : CreditAccount)
    (r : CreditReservation) (s : Db) {m : CreditMutation} {db' : Db}
    → settle_found now how key md a (some r) s ≡ (ok m, db')
    → let a' = settled_account how now r.amount a in
      let ref = settlement_reference key r in
      (db' ≡ s)
      ⊎ ((find (has_key a.id key) s.entries ≡ none)
          × (is_reserved r.status ≡ true)
          × (db' ≡ record {
            accounts = put_account a' s.accounts;
            reservations =
                put_reservation
                  (record r { status = settled_status how; settled_at = some now })
                  s.reservations;
            entries =
                entry_of s.next_id a' (some r.id) (settlement_operation how) r.amount ref md
                ∷ s.entries;
            next_id = s.next_id + 1;
          }))
unfolding settle_found
settle_found_inv now how key md a r s h = ground arith
