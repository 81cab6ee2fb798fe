-- ===== src/Credits/Service/Calls.antt =====
-- Every call of apps/api/app/credits/service.py keeps the ledger's invariant, whether it returns or
-- raises.
use procure_delta.Prelude.{
  ℕ, String, Option, arith, find, find-test, inl, inr, Option-cases, Bool-cases, leb, ◌&&◌,
}
use procure_delta.Prelude.Actions.{ok, ◌>>=◌, bind_ensures}
use procure_delta.Prelude.Int.{ℤ, pos, negsuc}
use procure_delta.Credits.Schema.{
  AccountKind, internal_budget, Metadata, CreditAccount, Db, max_integer, Tx,
}
use procure_delta.Credits.Session.{CreditMutation, Reference, locked_account}
use procure_delta.Credits.Service.{
  Settlement, grant_credits, reserve_credits, settle, grant_locked, reserve_locked, settle_locked,
  has_reservation_key, settlement_reference,
}
use procure_delta.Credits.Service.Writes.{apply_grant-IsValid, apply_reserve-IsValid}
use procure_delta.Credits.Service.Settling.{apply_settle-IsValid}
use procure_delta.Credits.Service.Invariant.{IsValid, IsLocked, locked_account-IsLocked}

-- What holds after the locked part of a call holds after the call.
IsValid-locked :
    (now : ℕ) (owner : String) (kind : AccountKind) (rest : CreditAccount → Tx CreditMutation)
    (db : Db)
    → IsValid db
    → ((a : CreditAccount) (s : Db) → IsLocked (ok a, s) → IsValid (rest a s).1)
    → IsValid ((locked_account now owner kind >>= rest) db).1
IsValid-locked now owner kind rest db v keeps =
    bind_ensures IsLocked (λ r. IsValid r.1) (locked_account now owner kind) rest db
      (locked_account-IsLocked now owner kind db v) keeps (λ e s h. h)

grant_locked-IsValid :
    (now n : ℕ) (ref : Reference) (md : Option Metadata) (a : CreditAccount) (db : Db)
    → IsLocked (ok a, db)
    → IsValid (grant_locked now n ref md a db).1
unfolding grant_locked
grant_locked-IsValid now n ref md a db h =
    ground (arith, apply_grant-IsValid now n ref md a db h.0 h.1 h.2)

reserve_locked-IsValid :
    (now n : ℕ) (key : String) (ref : Reference) (md : Option Metadata) (a : CreditAccount)
    (db : Db)
    → IsLocked (ok a, db)
    → IsValid (reserve_locked now n key ref md a db).1
unfolding reserve_locked
reserve_locked-IsValid now n key ref md a db h =
    ground (arith, apply_reserve-IsValid now n key ref md a db h.0 h.1 h.2)

settle_locked-IsValid :
    (now : ℕ) (how : Settlement) (reservation key : String) (md : Option Metadata)
    (a : CreditAccount) (db : Db)
    → IsLocked (ok a, db)
    → IsValid (settle_locked now how reservation key md a db).1
unfolding settle_locked
settle_locked-IsValid now how reservation key md a db h =
    let p = has_reservation_key a.id reservation in
    elim (Option-cases (find p db.reservations)) [
      | inl missing ↦ rw missing h.0
      | inr (r, found) ↦
          let owned = find-test p db.reservations r found in
          rw found (
            ground (
              arith,
              apply_settle-IsValid now how (settlement_reference key r) md a r db p h.0 h.1 h.2
                  found,
              owned,
            ))
    ]

-- A grant keeps the invariant, whatever it returns or raises.
pub grant_credits-IsValid :
    (now : ℕ) (owner : String) (amount : ℤ) (ref : Reference) (md : Option Metadata)
    (kind : AccountKind) (db : Db)
    → IsValid db
    → IsValid (grant_credits now owner amount ref md kind db).1
unfolding grant_credits
grant_credits-IsValid now owner (negsuc n) ref md kind db v = v
grant_credits-IsValid now owner (pos n) ref md kind db v =
    let rest =
      IsValid-locked now owner kind (grant_locked now n ref md) db v
        (grant_locked-IsValid now n ref md) in
    elim (Bool-cases (leb 1 n && leb n max_integer)) [ inl e ↦ rw e rest | inr e ↦ rw e v ]

-- A reservation keeps the invariant, whatever it returns or raises.
pub reserve_credits-IsValid :
    (now : ℕ) (owner : String) (amount : ℤ) (key : String) (ref : Reference) (md : Option Metadata)
    (db : Db)
    → IsValid db
    → IsValid (reserve_credits now owner amount key ref md db).1
unfolding reserve_credits
reserve_credits-IsValid now owner (negsuc n) key ref md db v = v
reserve_credits-IsValid now owner (pos n) key ref md db v =
    let rest =
      IsValid-locked now owner internal_budget (reserve_locked now n key ref md) db v
        (reserve_locked-IsValid now n key ref md) in
    elim (Bool-cases (leb 1 n && leb n max_integer)) [ inl e ↦ rw e rest | inr e ↦ rw e v ]

-- A settlement keeps the invariant, whatever it returns or raises.
pub settle-IsValid :
    (now : ℕ) (how : Settlement) (owner reservation key : String) (md : Option Metadata) (db : Db)
    → IsValid db
    → IsValid (settle now how owner reservation key md db).1
unfolding settle
settle-IsValid now how owner reservation key md db v =
    IsValid-locked now owner internal_budget (settle_locked now how reservation key md) db v
      (settle_locked-IsValid now how reservation key md)
