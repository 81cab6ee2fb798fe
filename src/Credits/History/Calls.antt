-- ===== src/Credits/History/Calls.antt =====
-- What the calls of apps/api/app/credits/service.py, and sequences of them, leave of the owners'
-- accounts, the entries of the idempotency keys and the settled reservations.
use procure_delta.Prelude.{
  arith, ℕ, ◌≡◌, refl, inl, inr, String, ◌&&◌, Option, some, List, [], ◌∷◌, leb, find, Bool-cases,
  Option-cases, sym,
}
use mathlib.Core.Path.{subst}
use procure_delta.Prelude.Actions.{Result, ok, err, bind_inv}
use procure_delta.Prelude.Int.{ℤ, pos, negsuc}
use procure_delta.Credits.Schema.{
  AccountKind, internal_budget, CreditAccount, Db, Metadata, max_integer, CreditError,
}
use procure_delta.Credits.Session.{entry_of, CreditMutation, owned_by, Reference, locked_account}
use procure_delta.Credits.Service.{
  Settlement, grant_credits, grant_locked, reserve_credits, reserve_locked, settle, settle_locked,
  settle_found, has_reservation_key, settled_status, settled_account, settlement_reference,
  settlement_operation,
}
use procure_delta.Credits.Service.Tables.{Descending-mono, put_reservation-Descending}
use procure_delta.Credits.Service.Replay.{locked_account_inv}
use procure_delta.Credits.History.{
  Request, granting, reserving, settling, perform, outcome, history,
}
use procure_delta.Credits.History.Later.{reservation_stays, settled_stays}
use procure_delta.Credits.History.Stays.{
  IsKeyed, Later, Later-refl, Later-trans, locked_account-Later, write-Later, grant_locked_inv,
  reserve_locked_inv, settle_found_inv,
}

module _ (owner : String) (a : CreditAccount) (s : Db)
    (f : find (owned_by owner) s.accounts ≡ some a) (v : IsKeyed s) where
  grant_locked-Later :
      (now n : ℕ) (ref : Reference) (md : Option Metadata) {m : CreditMutation} {db' : Db}
      → grant_locked now n ref md a s ≡ (ok m, db')
      → Later s db'
  grant_locked-Later now n ref md h = elim (grant_locked_inv now n ref md a s h) [
    | inl same ↦ subst (Later s) (sym same) (Later-refl v)
    | inr (fresh, same) ↦ subst (Later s) (sym same) (
        write-Later s owner a _ _ s.reservations _ v f refl refl refl fresh (omega arith)
          (Descending-mono s.next_id _ s.reservations (omega arith) v.reservations)
          (λ _ _ _ g _. g))
  ]

  reserve_locked-Later :
      (now n : ℕ) (key : String) (ref : Reference) (md : Option Metadata) {m : CreditMutation}
      {db' : Db}
      → reserve_locked now n key ref md a s ≡ (ok m, db')
      → Later s db'
  reserve_locked-Later now n key ref md h = elim (reserve_locked_inv now n key ref md a s h) [
    | inl same ↦ subst (Later s) (sym same) (Later-refl v)
    | inr (fresh, none_yet, same) ↦ subst (Later s) (sym same) (
        write-Later s owner a _ _ _ _ v f refl refl refl fresh (omega arith)
          (omega arith, v.reservations)
          (λ k key' r g _. reservation_stays k key' _ r s.reservations none_yet g))
  ]

  settle_locked-Later :
      (now : ℕ) (how : Settlement) (key idempotency : String) (md : Option Metadata)
      {m : CreditMutation} {db' : Db}
      → settle_locked now how key idempotency md a s ≡ (ok m, db')
      → Later s db'
  unfolding settle_locked
  settle_locked-Later now how key idempotency md h =
      let p = has_reservation_key a.id key in
      elim (Option-cases (find p s.reservations)) [
        | inl missing ↦ let bad = rw missing at h in unfold settle_found in cc
        | inr (r, found) ↦ elim (settle_found_inv now how idempotency md a r s (rw found at h)) [
          | inl same ↦ subst (Later s) (sym same) (Later-refl v)
          | inr (fresh, opened, same) ↦
              let a' = settled_account how now r.amount a in
              let e =
                entry_of s.next_id a' (some r.id) (settlement_operation how) r.amount
                  (settlement_reference idempotency r) md in
              let new = record r { status = settled_status how; settled_at = some now } in
              subst (Later s) (sym same) (
                write-Later s owner a a' e _ _ v f (ground arith) (ground arith) (ground arith)
                  (ground (arith, fresh)) (omega arith)
                  (Descending-mono s.next_id _ _ (omega arith)
                    (put_reservation-Descending new s.next_id s.reservations v.reservations))
                  (λ k key' row g t.
                    settled_stays k key' row p s.next_id r new s.reservations v.reservations found
                      opened refl refl refl g t))
        ]
      ]

-- One call that returns.
pub grant_credits-Later :
    (now : ℕ) (owner : String) (amount : ℤ) (ref : Reference) (md : Option Metadata)
    (kind : AccountKind) (db : Db) {m : CreditMutation} {db' : Db}
    → IsKeyed db
    → grant_credits now owner amount ref md kind db ≡ (ok m, db')
    → Later db db'
unfolding grant_credits
grant_credits-Later now owner (negsuc n) ref md kind db v h = cc
grant_credits-Later now owner (pos n) ref md kind db v h =
    elim (Bool-cases (leb 1 n && leb n max_integer)) [
      | inl e ↦
          let (a, s, locked, done) =
            bind_inv (locked_account now owner kind) (grant_locked now n ref md) db (rw e at h) in
          let first = locked_account-Later now owner kind db v locked in
          let (f, _) = locked_account_inv now owner kind db locked in
          Later-trans first (grant_locked-Later owner a s f first.keyed now n ref md done)
      | inr e ↦ let bad = rw e at h in cc
    ]

pub reserve_credits-Later :
    (now : ℕ) (owner : String) (amount : ℤ) (key : String) (ref : Reference) (md : Option Metadata)
    (db : Db) {m : CreditMutation} {db' : Db}
    → IsKeyed db
    → reserve_credits now owner amount key ref md db ≡ (ok m, db')
    → Later db db'
unfolding reserve_credits
reserve_credits-Later now owner (negsuc n) key ref md db v h = cc
reserve_credits-Later now owner (pos n) key ref md db v h =
    elim (Bool-cases (leb 1 n && leb n max_integer)) [
      | inl e ↦
          let (a, s, locked, done) =
            bind_inv (locked_account now owner internal_budget) (reserve_locked now n key ref md) db
              (rw e at h) in
          let first = locked_account-Later now owner internal_budget db v locked in
          let (f, _) = locked_account_inv now owner internal_budget db locked in
          Later-trans first (reserve_locked-Later owner a s f first.keyed now n key ref md done)
      | inr e ↦ let bad = rw e at h in cc
    ]

pub settle-Later :
    (now : ℕ) (how : Settlement) (owner key idempotency : String) (md : Option Metadata) (db : Db)
    {m : CreditMutation} {db' : Db}
    → IsKeyed db
    → settle now how owner key idempotency md db ≡ (ok m, db')
    → Later db db'
unfolding settle
settle-Later now how owner key idempotency md db v h =
    let (a, s, locked, done) =
      bind_inv (locked_account now owner internal_budget) (settle_locked now how key idempotency md)
        db h in
    let first = locked_account-Later now owner internal_budget db v locked in
    let (f, _) = locked_account_inv now owner internal_budget db locked in
    Later-trans first (settle_locked-Later owner a s f first.keyed now how key idempotency md done)

pub perform-Later :
    (r : Request) (db : Db) {m : CreditMutation} {db' : Db}
    → IsKeyed db
    → perform r db ≡ (ok m, db')
    → Later db db'
unfolding perform
perform-Later (granting now owner amount ref md kind) db v h =
    grant_credits-Later now owner amount ref md kind db v h
perform-Later (reserving now owner amount key ref md) db v h =
    reserve_credits-Later now owner amount key ref md db v h
perform-Later (settling now how owner key idempotency md) db v h =
    settle-Later now how owner key idempotency md db v h

outcome-Later :
    (db : Db) (r : Result CreditError CreditMutation × Db)
    → IsKeyed db
    → ((m : CreditMutation) (db' : Db) → r ≡ (ok m, db') → Later db db')
    → Later db (outcome db r)
outcome-Later db (ok m, db') v h = h m db' refl
outcome-Later db (err _, _) v h = Later-refl v

pub history-Later : (rs : List Request) (db : Db) → IsKeyed db → Later db (history rs db)
unfolding history
history-Later [] db v = Later-refl v
history-Later (r ∷ rs) db v =
    let first = outcome-Later db (perform r db) v (λ m db' h. perform-Later r db v h) in
    Later-trans first (history-Later rs _ first.keyed)
