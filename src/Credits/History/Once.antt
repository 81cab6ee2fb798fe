-- ===== src/Credits/History/Once.antt =====
-- Settlements, by apps/api/app/credits/service.py, of a reservation that was settled before, with any
-- calls in between.
use mathlib.Core.Path.{subst, sym}
use procure_delta.Prelude.{ℕ, ◌≡◌, refl, String, true, false, Option, some, List, arith, find}
use procure_delta.Prelude.Actions.{Result, ok, err, bind_ok}
use procure_delta.Credits.Schema.{
  internal_budget, is_reserved, Metadata, CreditAccount, CreditReservation, Db, CreditError,
}
use procure_delta.Credits.Session.{CreditMutation, locked_account}
use procure_delta.Credits.Service.{
  Settlement, has_reservation_key, settle_found, settle_locked, settle,
}
use procure_delta.Credits.Service.Replay.{locked_account_found}
use procure_delta.Credits.Service.Once.{settle-Settled}
use procure_delta.Credits.History.{Request, history}
use procure_delta.Credits.History.Later.{account_of-find, find-account_of}
use procure_delta.Credits.History.Stays.{IsKeyed}
use procure_delta.Credits.History.Calls.{history-Later, settle-Later}

-- A result that a call on a settled reservation may have: nothing is written, nothing is applied.
abbrev pub ChangesNothing : Db → Result CreditError CreditMutation × Db → Type 0
ChangesNothing db (ok m, db') = (m.applied ≡ false) × (db' ≡ db)
ChangesNothing db (err _, db') = db' ≡ db

settle_locked_again :
    (now : ℕ) (how : Settlement) (key idempotency : String) (md : Option Metadata)
    (a : CreditAccount) (row : CreditReservation) (db : Db)
    → find (has_reservation_key a.id key) db.reservations ≡ some row
    → is_reserved row.status ≡ false
    → ChangesNothing db (settle_locked now how key idempotency md a db)
unfolding settle_locked settle_found
settle_locked_again now how key idempotency md a row db listed terminal =
    ground (arith, listed, terminal)

module _ (now now' : ℕ) (how how' : Settlement) (owner key idempotency idempotency' : String)
    (md md' : Option Metadata) (rs : List Request) (db : Db) {m : CreditMutation} {db' : Db} where
  -- On a database whose rows have keys of their own: once a settlement of a reservation was
  -- applied, no later one of it is, neither a commit nor a refund, under any idempotency key and
  -- after any calls in between: it answers as a replay or raises, and changes nothing.
  pub settle_once :
      IsKeyed db
      → settle now how owner key idempotency md db ≡ (ok m, db')
      → m.applied ≡ true
      → ChangesNothing
          (history rs db')
          (settle now' how' owner key idempotency' md' (history rs db'))
  unfolding settle
  settle_once v done applied =
      let db'' = history rs db' in
      let s = settle-Settled now how owner key idempotency md db done applied in
      let later =
        history-Later rs db' (settle-Later now how owner key idempotency md db v done).keyed in
      let known = later.account owner _ (find-account_of owner m.account db'.accounts s.found) in
      let (a, f, same_id, same_kind) = account_of-find owner _ _ db''.accounts known in
      subst (ChangesNothing db'')
        (sym (
          bind_ok (locked_account now' owner internal_budget)
            (settle_locked now' how' key idempotency' md') db''
            (locked_account_found now' owner internal_budget a db'' f (rw same_kind s.kind_matches))
            refl))
        (settle_locked_again now' how' key idempotency' md' a s.row db''
          (rw same_id (later.settled _ _ s.row s.listed s.terminal)) s.terminal)
