-- ===== src/Credits/Service/Writes.antt =====
-- What `grant_credits` and `reserve_credits` of apps/api/app/credits/service.py write keeps the
-- ledger's invariant.
use procure_delta.Prelude.{ℕ, ◌+◌, ◌-◌, ◌<◌, ◌≤◌, String, refl, Option, none, some, ◌∷◌, arith}
use procure_delta.Credits.Schema.{
  grant, reserve, Metadata, CreditAccount, Db, put_account, max_integer,
}
use procure_delta.Credits.Session.{Reference, entry_of}
use procure_delta.Credits.Service.{reservation_row, apply_grant, apply_reserve}
use procure_delta.Credits.Service.Tables.{total, held, held_by, Descending-mono}
use procure_delta.Credits.Service.Invariant.{IsBalanced, IsValid, below_mono, IsValid-write}

-- The state that a grant writes.
granted : ℕ → ℕ → Reference → Option Metadata → CreditAccount → Db → Db
granted now n ref md a db =
    let a' = record a { available_credits = a.available_credits + n; updated_at = now } in
    record db {
      accounts = put_account a' db.accounts;
      entries = entry_of db.next_id a' none grant n ref md ∷ db.entries;
      next_id = db.next_id + 1;
    }

granted-IsValid :
    (now n : ℕ) (ref : Reference) (md : Option Metadata) (a : CreditAccount) (db : Db)
    → IsValid db
    → IsBalanced db.entries db.reservations a
    → a.id < db.next_id
    → a.available_credits + n ≤ max_integer
    → IsValid (granted now n ref md a db)
unfolding granted total
granted-IsValid now n ref md a db v b known fits =
    let a' = record a { available_credits = a.available_credits + n; updated_at = now } in
    IsValid-write db v a' _ db.reservations _ refl known (omega arith)
      (below_mono (λ r. r.account_id) db.next_id _ db.reservations (omega arith)
        v.reservation_accounts)
      (Descending-mono db.next_id _ db.reservations (omega arith) v.reservation_ids) (λ k _. refl)
      (record {
        available = ground (arith, b.available);
        reserved = ground (arith, b.reserved);
        holds = b.holds;
        fits = omega arith;
      })

pub apply_grant-IsValid :
    (now n : ℕ) (ref : Reference) (md : Option Metadata) (a : CreditAccount) (db : Db)
    → IsValid db
    → IsBalanced db.entries db.reservations a
    → a.id < db.next_id
    → IsValid (apply_grant now n ref md a db).1
unfolding apply_grant granted
apply_grant-IsValid now n ref md a db v b known =
    ground (arith, granted-IsValid now n ref md a db v b known)

-- The state that a reservation writes.
reserved_state : ℕ → ℕ → String → Reference → Option Metadata → CreditAccount → Db → Db
reserved_state now n key ref md a db =
    let a' = record a {
      available_credits = a.available_credits - n;
      reserved_credits = a.reserved_credits + n;
      updated_at = now;
    } in
    record {
      accounts = put_account a' db.accounts;
      reservations = reservation_row db.next_id now a.id key n ref md ∷ db.reservations;
      entries = entry_of (db.next_id + 1) a' (some db.next_id) reserve n ref md ∷ db.entries;
      next_id = db.next_id + 1 + 1;
    }

reserved_state-IsValid :
    (now n : ℕ) (key : String) (ref : Reference) (md : Option Metadata) (a : CreditAccount)
    (db : Db)
    → IsValid db
    → IsBalanced db.entries db.reservations a
    → a.id < db.next_id
    → n ≤ a.available_credits
    → a.reserved_credits + n ≤ max_integer
    → IsValid (reserved_state now n key ref md a db)
unfolding reserved_state total held held_by
reserved_state-IsValid now n key ref md a db v b known enough fits =
    IsValid-write db v _ _ _ _ refl known (omega arith)
      (
        omega arith,
        below_mono (λ r. r.account_id) db.next_id _ db.reservations (omega arith)
            v.reservation_accounts,
      )
      (omega arith, v.reservation_ids) (λ k ne. ground arith)
      (record {
        available = ground (arith, b.available);
        reserved = ground (arith, b.reserved);
        holds = ground (arith, b.holds);
        fits = (omega (arith, b.fits), fits);
      })

pub apply_reserve-IsValid :
    (now n : ℕ) (key : String) (ref : Reference) (md : Option Metadata) (a : CreditAccount)
    (db : Db)
    → IsValid db
    → IsBalanced db.entries db.reservations a
    → a.id < db.next_id
    → IsValid (apply_reserve now n key ref md a db).1
unfolding apply_reserve reserved_state
apply_reserve-IsValid now n key ref md a db v b known =
    ground (arith, reserved_state-IsValid now n key ref md a db v b known)
