-- ===== src/Credits/Service/Once.antt =====
-- What a settlement of apps/api/app/credits/service.py leaves, and its errors.
use procure_delta.Prelude.{
  ℕ, ◌+◌, ◌<◌, ◌≤◌, ◌≡◌, ◌≢◌, String, refl, Bool, true, false, Option, none, some, List, [], ◌∷◌,
  arith, find, find-test, Option-cases, inl, inr, eq_refl,
}
use procure_delta.Prelude.Actions.{ok, err, bind_inv, bind_ok, bind_ensures}
use procure_delta.Credits.Schema.{
  AccountKind, internal_budget, kind_eq, is_reserved, Metadata, CreditAccount, CreditReservation,
  Db, put_reservation, max_integer, inconsistent_balance, out_of_range, not_created, reserved,
}
use procure_delta.Credits.Session.{
  CreditMutation, owned_by, insert_account, locked_account, has_key,
}
use procure_delta.Credits.Service.{
  Settlement, has_reservation_key, settled_account, settled_status, settle_found, settle_locked,
  settle, refund_credits,
}
use procure_delta.Credits.Service.Tables.{held, held_by}
use procure_delta.Credits.Service.Invariant.{IsValid, IsLocked, locked_account-IsLocked}
use procure_delta.Credits.Service.Replay.{
  find-put_account, locked_account_found, locked_account_inv,
}

-- The row of a reservation key after an update of it.
find-put_reservation :
    (account : ℕ) (key : String) (r r' : CreditReservation) (xs : List CreditReservation)
    → find (has_reservation_key account key) xs ≡ some r
    → r'.id ≡ r.id
    → r'.account_id ≡ r.account_id
    → r'.reservation_key ≡ r.reservation_key
    → find (has_reservation_key account key) (put_reservation r' xs) ≡ some r'
find-put_reservation account key r r' [] h same_id same_account same_key = cc
find-put_reservation account key r r' (x ∷ xs) h same_id same_account same_key = ground (
  arith,
  find-test (has_reservation_key account key) (x ∷ xs) r h,
  find-put_reservation account key r r' xs,
)

-- What a settlement that was applied leaves: a terminal reservation.
pub record Settled (owner key : String) (m : CreditMutation) (db : Db) : Type 0 where
  pub found : find (owned_by owner) db.accounts ≡ some m.account
  pub kind_matches : kind_eq m.account.account_kind internal_budget ≡ true
  pub row : CreditReservation
  pub listed : find (has_reservation_key m.account.id key) db.reservations ≡ some row
  pub terminal : is_reserved row.status ≡ false

settle_found-Settled :
    (now : ℕ) (how : Settlement) (owner key idempotency : String) (md : Option Metadata)
    (a : CreditAccount) (r : CreditReservation) (s : Db) {m : CreditMutation} {db' : Db}
    → find (owned_by owner) s.accounts ≡ some a
    → kind_eq a.account_kind internal_budget ≡ true
    → find (has_reservation_key a.id key) s.reservations ≡ some r
    → settle_found now how idempotency md a (some r) s ≡ (ok m, db')
    → m.applied ≡ true
    → Settled owner key m db'
unfolding settle_found
settle_found-Settled now how owner key idempotency md a r s {m} {db'} f k g h applied =
    let r' = record r { status = settled_status how; settled_at = some now } in
    let a' = settled_account how now r.amount a in
    record {
      found = ground (arith, find-put_account owner a a' s.accounts f);
      kind_matches = ground arith;
      row = r';
      listed = ground (arith, find-put_reservation a.id key r r' s.reservations g refl refl refl);
      terminal = ground arith;
    }

module _ (now : ℕ) (how : Settlement) (owner key idempotency : String) (md : Option Metadata)
    (db : Db) {m : CreditMutation} {db' : Db}
    (done : settle now how owner key idempotency md db ≡ (ok m, db'))
    (applied : m.applied ≡ true) where
  pub settle-Settled : Settled owner key m db'
  unfolding settle settle_locked
  settle-Settled =
      let (a, s, locked, rest) =
        bind_inv (locked_account now owner internal_budget)
          (settle_locked now how key idempotency md) db done in
      let (f, k) = locked_account_inv now owner internal_budget db locked in
      elim (Option-cases (find (has_reservation_key a.id key) s.reservations)) [
        | inl missing ↦ let bad = rw missing at rest in cc
        | inr (r, found) ↦
            settle_found-Settled now how owner key idempotency md a r s f k found (rw found at rest)
              applied
      ]

-- What an open reservation holds is part of what all of them hold.
held_by-le-held :
    (p : CreditReservation → Bool) (k : ℕ) (r : CreditReservation) (rs : List CreditReservation)
    → find p rs ≡ some r
    → held_by k r ≤ held k rs
unfolding held
held_by-le-held p k r [] h = cc
held_by-le-held p k r (x ∷ rs) h = ground (arith, held_by-le-held p k r rs)

settle_locked_consistent :
    (now : ℕ) (how : Settlement) (key idempotency : String) (md : Option Metadata)
    (a : CreditAccount) (db : Db)
    → IsLocked (ok a, db)
    → (settle_locked now how key idempotency md a db).0 ≢ err inconsistent_balance
unfolding settle_locked settle_found held_by
settle_locked_consistent now how key idempotency md a db h =
    let p = has_reservation_key a.id key in
    elim (Option-cases (find p db.reservations)) [
      | inl missing ↦ ground arith
      | inr (r, found) ↦ ground (
        arith,
        held_by-le-held p a.id r db.reservations found,
        find-test p db.reservations r found,
        h.1.holds,
      )
    ]

locked_account_errors :
    (now : ℕ) (owner : String) (kind : AccountKind) (db : Db)
    → ((locked_account now owner kind db).0 ≢ err inconsistent_balance)
      × ((locked_account now owner kind db).0 ≢ err not_created)
unfolding locked_account insert_account
locked_account_errors now owner kind db = ground (arith, eq_refl owner)

-- On a database whose entries and open reservations account for its balances, a settlement never
-- raises that the reserved balance is smaller than the reservation.
pub settle_consistent :
    (now : ℕ) (how : Settlement) (owner key idempotency : String) (md : Option Metadata) (db : Db)
    → IsValid db
    → (settle now how owner key idempotency md db).0 ≢ err inconsistent_balance
unfolding settle
settle_consistent now how owner key idempotency md db v =
    bind_ensures (λ r. IsLocked r × (r.0 ≢ err inconsistent_balance))
      (λ r. r.0 ≢ err inconsistent_balance) (locked_account now owner internal_budget)
      (settle_locked now how key idempotency md) db
      (
        locked_account-IsLocked now owner internal_budget db v,
        (locked_account_errors now owner internal_budget db).0,
      )
      (λ a s h. settle_locked_consistent now how key idempotency md a s h.0)
      (λ e s h eq. h.1 (ground arith))

module _ (now : ℕ) (owner key idempotency : String) (md : Option Metadata) (db : Db)
    (a : CreditAccount) (r : CreditReservation) (found : find (owned_by owner) db.accounts ≡ some a)
    (internal : a.account_kind ≡ internal_budget)
    (listed : find (has_reservation_key a.id key) db.reservations ≡ some r)
    (opened : r.status ≡ reserved)
    (unused : find (has_key a.id idempotency) db.entries ≡ none) where
  refund_locked_out_of_range :
      r.amount ≤ a.reserved_credits
      → max_integer < a.available_credits + r.amount
      → settle_locked now Settlement.refund key idempotency md a db ≡ (err out_of_range, db)
  unfolding settle_locked settle_found
  refund_locked_out_of_range enough big = ground arith

  -- An open reservation cannot be refunded while the available credits and its amount together pass
  -- the column's range: the database refuses the update, with no check before it, and nothing changes.
  pub refund_out_of_range :
      r.amount ≤ a.reserved_credits
      → max_integer < a.available_credits + r.amount
      → refund_credits now owner key idempotency md db ≡ (err out_of_range, db)
  unfolding refund_credits settle
  refund_out_of_range enough big =
      bind_ok (locked_account now owner internal_budget)
        (settle_locked now Settlement.refund key idempotency md) db
        (locked_account_found now owner internal_budget a db found (rw internal refl))
        (refund_locked_out_of_range enough big)
