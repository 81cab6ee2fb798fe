-- ===== src/Credits/Service/Settling.antt =====
-- What `_settle` of apps/api/app/credits/service.py writes keeps the ledger's invariant.
use procure_delta.Prelude.{ℕ, ◌+◌, ◌<◌, ◌≤◌, ◌≡◌, refl, Bool, true, Option, some, ◌∷◌, arith, find}
use procure_delta.Credits.Schema.{
  is_reserved, Metadata, CreditAccount, CreditReservation, Db, put_account, put_reservation,
  max_integer,
}
use procure_delta.Credits.Session.{Reference, entry_of}
use procure_delta.Credits.Service.{
  Settlement, settled_account, settled_status, settlement_operation, apply_settle,
}
use procure_delta.Credits.Service.Tables.{
  total, held, held_by, Descending-mono, held-put_reservation, put_reservation-Descending,
  put_reservation-All,
}
use procure_delta.Credits.Service.Invariant.{IsBalanced, IsValid, below_mono, IsValid-write}

-- The state that a settlement writes.
settled_state :
    ℕ → Settlement → Reference → Option Metadata → CreditAccount → CreditReservation → Db → Db
settled_state now how ref md a r db =
    let a' = settled_account how now r.amount a in
    let r' = record r { status = settled_status how; settled_at = some now } in
    record {
      accounts = put_account a' db.accounts;
      reservations = put_reservation r' db.reservations;
      entries =
          entry_of db.next_id a' (some r.id) (settlement_operation how) r.amount ref md
          ∷ db.entries;
      next_id = db.next_id + 1;
    }

module _ (now : ℕ) (ref : Reference) (md : Option Metadata) (a : CreditAccount)
    (r : CreditReservation) (db : Db) (v : IsValid db) (b : IsBalanced db.entries db.reservations a)
    (known : a.id < db.next_id) (p : CreditReservation → Bool)
    (found : find p db.reservations ≡ some r) (owned : r.account_id ≡ a.id)
    (opened : is_reserved r.status ≡ true) where
  -- A settlement frees what its reservation held, and nothing else.
  held_settled :
      (how : Settlement) (k : ℕ)
      → held k (
            put_reservation
              (record r { status = settled_status how; settled_at = some now })
              db.reservations)
          + held_by k r
        ≡ held k db.reservations
  unfolding held_by
  held_settled how k =
      let r' = record r { status = settled_status how; settled_at = some now } in
      ground (
        arith,
        held-put_reservation p k db.next_id r r' db.reservations v.reservation_ids found refl,
      )

  IsBalanced-settled :
      (how : Settlement)
      → (settled_account how now r.amount a).available_credits ≤ max_integer
      → r.amount ≤ a.reserved_credits
      → let s = settled_state now how ref md a r db in
        IsBalanced s.entries s.reservations (settled_account how now r.amount a)
  unfolding settled_state total held_by
  IsBalanced-settled Settlement.commit fits enough = record {
    available = ground (arith, b.available);
    reserved = ground (arith, b.reserved);
    holds = ground (arith, b.holds, held_settled Settlement.commit a.id);
    fits = (fits, omega (arith, b.fits));
  }
  IsBalanced-settled Settlement.refund fits enough = record {
    available = ground (arith, b.available);
    reserved = ground (arith, b.reserved);
    holds = ground (arith, b.holds, held_settled Settlement.refund a.id);
    fits = (fits, omega (arith, b.fits));
  }

  same_id : (how : Settlement) → (settled_account how now r.amount a).id ≡ a.id
  same_id Settlement.commit = refl
  same_id Settlement.refund = refl

  settled_state-IsValid :
      (how : Settlement)
      → (settled_account how now r.amount a).available_credits ≤ max_integer
      → r.amount ≤ a.reserved_credits
      → IsValid (settled_state now how ref md a r db)
  unfolding settled_state held_by
  settled_state-IsValid how fits enough =
      IsValid-write db v _ _ _ _ refl (rw (same_id how) known) (omega arith)
        (put_reservation-All (λ x. x.account_id < db.next_id + 1) _ (omega arith) db.reservations
          (below_mono (λ x. x.account_id) db.next_id _ db.reservations (omega arith)
            v.reservation_accounts))
        (put_reservation-Descending _ _ db.reservations
          (Descending-mono db.next_id _ db.reservations (omega arith) v.reservation_ids))
        (λ k ne. ground (arith, held_settled how k, same_id how))
        (IsBalanced-settled how fits enough)

pub apply_settle-IsValid :
    (now : ℕ) (how : Settlement) (ref : Reference) (md : Option Metadata) (a : CreditAccount)
    (r : CreditReservation) (db : Db) (p : CreditReservation → Bool)
    → IsValid db
    → IsBalanced db.entries db.reservations a
    → a.id < db.next_id
    → find p db.reservations ≡ some r
    → r.account_id ≡ a.id
    → IsValid (apply_settle now how ref md a r db).1
unfolding apply_settle settled_state
apply_settle-IsValid now how ref md a r db p v b known found owned = ground (
  arith,
  λ (opened : is_reserved r.status ≡ true).
      settled_state-IsValid now ref md a r db v b known p found owned opened how,
)
