-- ===== src/Credits/Service/Effects.antt =====
-- What a grant that was applied adds to the ledger, in apps/api/app/credits/service.py.
use procure_delta.Prelude.{
  ℕ, ◌≡◌, String, true, ◌&&◌, Option, ◌∷◌, arith, inl, inr, Bool-cases, leb,
}
use procure_delta.Prelude.Actions.{ok, bind_inv}
use procure_delta.Prelude.Int.{pos}
use procure_delta.Credits.Schema.{AccountKind, grant, Metadata, CreditAccount, Db, max_integer}
use procure_delta.Credits.Session.{CreditMutation, Reference, locked_account, insert_account}
use procure_delta.Credits.Service.{grant_credits, grant_locked}

-- One entry, of the amount granted, for the account that the call returned.
pub record GrantEntered (n : ℕ) (m : CreditMutation) (db db' : Db) : Type 0 where
  pub entries : db'.entries ≡ m.ledger ∷ db.entries
  pub account : m.ledger.account_id ≡ m.account.id
  pub operation : m.ledger.operation ≡ grant
  pub amount : m.ledger.amount ≡ n

grant_locked_entered :
    (now n : ℕ) (ref : Reference) (md : Option Metadata) (a : CreditAccount) (s : Db)
    {m : CreditMutation} {db' : Db}
    → grant_locked now n ref md a s ≡ (ok m, db')
    → m.applied ≡ true
    → GrantEntered n m s db'
unfolding grant_locked
grant_locked_entered now n ref md a s h applied = record {
  entries = ground arith;
  account = ground arith;
  operation = ground arith;
  amount = ground arith;
}

locked_account_entries :
    (now : ℕ) (owner : String) (kind : AccountKind) (db : Db)
    → (locked_account now owner kind db).1.entries ≡ db.entries
unfolding locked_account insert_account
locked_account_entries now owner kind db = ground arith

pub grant_entered :
    (now n : ℕ) (owner : String) (ref : Reference) (md : Option Metadata) (kind : AccountKind)
    (db : Db) {m : CreditMutation} {db' : Db}
    → grant_credits now owner (pos n) ref md kind db ≡ (ok m, db')
    → m.applied ≡ true
    → GrantEntered n m db db'
unfolding grant_credits
grant_entered now n owner ref md kind db h applied =
    elim (Bool-cases (leb 1 n && leb n max_integer)) [
      | inl e ↦
          let (a, s, locked, done) =
            bind_inv (locked_account now owner kind) (grant_locked now n ref md) db (rw e at h) in
          let g = grant_locked_entered now n ref md a s done applied in
          let same : s.entries ≡ db.entries =
            cc (locked, locked_account_entries now owner kind db) in
          record {
            entries = rw (← same) g.entries;
            account = g.account;
            operation = g.operation;
            amount = g.amount;
          }
      | inr e ↦ let bad = rw e at h in cc
    ]
