-- ===== src/Credits/Fence/Attempts.antt =====
-- The reservations of one extraction under the calls of apps/api/app/credits/service.py.
use procure_delta.Prelude.{
  arith, ℕ, ◌+◌, ◌≤◌, ◌≡◌, refl, inl, inr, String, Bool, ◌&&◌, Option, none, some, List, [], ◌∷◌,
  leb, str_eq, if◌then◌else◌, find, Bool-cases, Option-cases,
}
use procure_delta.Prelude.Actions.{ok, bind_inv}
use procure_delta.Prelude.Int.{ℤ, pos, negsuc}
use procure_delta.Credits.Schema.{
  AccountKind, internal_budget, CreditAccount, CreditReservation, Db, Metadata, put_reservation,
  max_integer,
}
use procure_delta.Credits.Session.{CreditMutation, Reference, locked_account, insert_account}
use procure_delta.Credits.Service.{
  Settlement, grant_credits, grant_locked, reserve_credits, reserve_locked, settle, settle_locked,
  has_reservation_key, settled_status,
}
use procure_delta.Credits.Service.Tables.{Descending, put_reservation_above, find_below}
use procure_delta.Credits.Fence.{is_attempt, reference_type_name}

-- The reservations of one extraction.
unfoldable pub attempts : String → List CreditReservation → ℕ
attempts key [] = 0
attempts key (r ∷ rs) = (if is_attempt key r then 1 else 0) + attempts key rs

pub no_attempts :
    (key : String) (rs : List CreditReservation)
    → find (is_attempt key) rs ≡ none
    → attempts key rs ≡ 0
unfolding attempts
no_attempts key [] e = refl
no_attempts key (r ∷ rs) e = ground (arith, no_attempts key rs)

attempts-put_reservation :
    (key : String) (p : CreditReservation → Bool) (n : ℕ) (old new : CreditReservation)
    (rs : List CreditReservation)
    → Descending n rs
    → find p rs ≡ some old
    → new.id ≡ old.id
    → is_attempt key new ≡ is_attempt key old
    → attempts key (put_reservation new rs) ≡ attempts key rs
unfolding attempts
attempts-put_reservation key p n old new [] d h same kept = cc
attempts-put_reservation key p n old new (x ∷ rs) d h same kept = ground (
  arith,
  put_reservation_above new x.id rs,
  find_below p x.id old rs,
  attempts-put_reservation key p x.id old new rs,
)

locked_account_reservations :
    (now : ℕ) (owner : String) (kind : AccountKind) (db : Db)
    → (locked_account now owner kind db).1.reservations ≡ db.reservations
unfolding locked_account insert_account
locked_account_reservations now owner kind db = ground arith

grant_locked_reservations :
    (now n : ℕ) (ref : Reference) (md : Option Metadata) (a : CreditAccount) (s : Db)
    {m : CreditMutation} {db' : Db}
    → grant_locked now n ref md a s ≡ (ok m, db')
    → db'.reservations ≡ s.reservations
unfolding grant_locked
grant_locked_reservations now n ref md a s h = ground arith

reserve_locked_attempts :
    (k : String) (now n : ℕ) (key : String) (ref : Reference) (md : Option Metadata)
    (a : CreditAccount) (s : Db) {m : CreditMutation} {db' : Db}
    → reserve_locked now n key ref md a s ≡ (ok m, db')
    → attempts k db'.reservations ≤ attempts k s.reservations + (if str_eq key k then 1 else 0)
unfolding reserve_locked attempts
reserve_locked_attempts k now n key ref md a s h = ground arith

settle_locked_attempts :
    (k : String) (now : ℕ) (how : Settlement) (key idempotency : String) (md : Option Metadata)
    (a : CreditAccount) (n : ℕ) (s : Db) {m : CreditMutation} {db' : Db}
    → Descending n s.reservations
    → settle_locked now how key idempotency md a s ≡ (ok m, db')
    → attempts k db'.reservations ≡ attempts k s.reservations
unfolding settle_locked
settle_locked_attempts k now how key idempotency md a n s d h =
    elim (Option-cases (find (has_reservation_key a.id key) s.reservations)) [
      | inl nothing ↦ ground arith
      | inr (r, found) ↦
          let settled = record r { status = settled_status how; settled_at = some now } in
          let kept =
            attempts-put_reservation k (has_reservation_key a.id key) n r settled s.reservations d
              found refl refl in
          ground (arith, kept)
    ]

-- The effect of one call of the ledger that returns.
module _ (k : String) where
  pub grant_credits_attempts :
      (now : ℕ) (owner : String) (amount : ℤ) (ref : Reference) (md : Option Metadata)
      (kind : AccountKind) (db : Db) {m : CreditMutation} {db' : Db}
      → grant_credits now owner amount ref md kind db ≡ (ok m, db')
      → attempts k db'.reservations ≡ attempts k db.reservations
  unfolding grant_credits
  grant_credits_attempts now owner (negsuc n) ref md kind db h = cc
  grant_credits_attempts now owner (pos n) ref md kind db h =
      elim (Bool-cases (leb 1 n && leb n max_integer)) [
        | inl e ↦
            let (a, s, locked, done) =
              bind_inv (locked_account now owner kind) (grant_locked now n ref md) db (rw e at h) in
            let same : s.reservations ≡ db.reservations =
              cc (locked, locked_account_reservations now owner kind db) in
            rw (grant_locked_reservations now n ref md a s done, same) refl
        | inr e ↦ let bad = rw e at h in cc
      ]

  pub reserve_credits_attempts :
      (now : ℕ) (owner : String) (amount : ℤ) (key : String) (ref : Reference)
      (md : Option Metadata) (db : Db) {m : CreditMutation} {db' : Db}
      → reserve_credits now owner amount key ref md db ≡ (ok m, db')
      → ref.reference_type ≡ reference_type_name
      → attempts k db'.reservations ≤ attempts k db.reservations + (if str_eq key k then 1 else 0)
  unfolding reserve_credits
  reserve_credits_attempts now owner (negsuc n) key ref md db h kind = cc
  reserve_credits_attempts now owner (pos n) key ref md db h kind =
      elim (Bool-cases (leb 1 n && leb n max_integer)) [
        | inl e ↦
            let (a, s, locked, done) =
              bind_inv (locked_account now owner internal_budget) (reserve_locked now n key ref md)
                db (rw e at h) in
            let same : s.reservations ≡ db.reservations =
              cc (locked, locked_account_reservations now owner internal_budget db) in
            rw (← same) (reserve_locked_attempts k now n key ref md a s done)
        | inr e ↦ let bad = rw e at h in cc
      ]

  pub settle_attempts :
      (now : ℕ) (how : Settlement) (owner key idempotency : String) (md : Option Metadata) (n : ℕ)
      (db : Db) {m : CreditMutation} {db' : Db}
      → Descending n db.reservations
      → settle now how owner key idempotency md db ≡ (ok m, db')
      → attempts k db'.reservations ≡ attempts k db.reservations
  unfolding settle
  settle_attempts now how owner key idempotency md n db d h =
      let (a, s, locked, done) =
        bind_inv (locked_account now owner internal_budget)
          (settle_locked now how key idempotency md) db h in
      let same : s.reservations ≡ db.reservations =
        cc (locked, locked_account_reservations now owner internal_budget db) in
      rw (settle_locked_attempts k now how key idempotency md a n s (rw same d) done, same) refl
