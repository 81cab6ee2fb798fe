-- ===== src/Credits/History/Conservation.antt =====
-- Whatever the calls, the ledger accounts for every credit.
use procure_delta.Prelude.{◌+◌, ◌≡◌, String, some, List, [], ◌∷◌, arith, find, find-All}
use procure_delta.Prelude.Actions.{Result, ok, err}
use procure_delta.Credits.Schema.{grant, commit, CreditAccount, Db, empty_db, CreditError}
use procure_delta.Credits.Session.{CreditMutation, owned_by}
use procure_delta.Credits.Service.Tables.{total}
use procure_delta.Credits.Service.Invariant.{IsValid, IsBalanced}
use procure_delta.Credits.Service.Calls.{
  grant_credits-IsValid, reserve_credits-IsValid, settle-IsValid,
}
use procure_delta.Credits.History.{
  Request, granting, reserving, settling, perform, outcome, history,
}

pub perform-IsValid : (r : Request) (db : Db) → IsValid db → IsValid (perform r db).1
unfolding perform
perform-IsValid (granting now owner amount ref md kind) db v =
    grant_credits-IsValid now owner amount ref md kind db v
perform-IsValid (reserving now owner amount key ref md) db v =
    reserve_credits-IsValid now owner amount key ref md db v
perform-IsValid (settling now how owner reservation key md) db v =
    settle-IsValid now how owner reservation key md db v

outcome-IsValid :
    (db : Db) (r : Result CreditError CreditMutation × Db)
    → IsValid db
    → IsValid r.1
    → IsValid (outcome db r)
outcome-IsValid db (ok _, db') v v' = v'
outcome-IsValid db (err _, _) v v' = v

history_from-IsValid : (rs : List Request) (db : Db) → IsValid db → IsValid (history rs db)
unfolding history
history_from-IsValid [] db v = v
history_from-IsValid (r ∷ rs) db v =
    history_from-IsValid rs _ (outcome-IsValid db (perform r db) v (perform-IsValid r db v))

pub empty_db-IsValid : IsValid empty_db
empty_db-IsValid = ground arith

-- After any calls on an empty database, the balances of every account are what its ledger entries
-- and its open reservations add up to, and fit their columns.
pub history-IsValid : (rs : List Request) → IsValid (history rs empty_db)
history-IsValid rs = history_from-IsValid rs empty_db empty_db-IsValid

-- After any calls on an empty database, the credits granted to an account are those available, those
-- reserved and those committed.
pub history_conserves :
    (rs : List Request) (owner : String) (a : CreditAccount)
    → find (owned_by owner) (history rs empty_db).accounts ≡ some a
    → total grant a.id (history rs empty_db).entries
      ≡ a.available_credits + a.reserved_credits + total commit a.id (history rs empty_db).entries
history_conserves rs owner a found =
    let db = history rs empty_db in
    let b =
      find-All (IsBalanced db.entries db.reservations) (owned_by owner) db.accounts a
        (history-IsValid rs).balanced found in
    omega (arith, b.available, b.reserved)
