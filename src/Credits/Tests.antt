-- ===== src/Credits/Tests.antt =====
-- The credit ledger on concrete calls: the theorems of its modules at inputs that meet their
-- hypotheses.
use procure_delta.Prelude.{
  ℕ, ◌+◌, ◌≡◌, ◌≢◌, refl, true, none, some, List, [], ◌∷◌, inl, arith, find,
}
use procure_delta.Prelude.Actions.{ok, err}
use procure_delta.Prelude.Int.{pos, negsuc}
use procure_delta.Credits.Schema.{
  internal_budget, reserved, committed, grant, reserve, commit, CreditAccount, CreditReservation,
  CreditLedgerEntry, Db, empty_db, idempotency_conflict, inconsistent_balance, out_of_range,
  max_integer,
}
use procure_delta.Credits.Session.{CreditMutation, Reference, owned_by, locked_account}
use procure_delta.Credits.Service.{
  Settlement, grant_credits, grant_locked, reserve_credits, reserve_locked, settle, settle_locked,
  refund_credits,
}
use procure_delta.Credits.Service.Tables.{total}
use procure_delta.Credits.Service.Invariant.{IsValid}
use procure_delta.Credits.Service.Once.{settle_consistent, refund_out_of_range}
use procure_delta.Credits.History.{Request, granting, reserving, settling, history}
use procure_delta.Credits.History.Conservation.{history-IsValid, history_conserves}
use procure_delta.Credits.History.Stays.{IsKeyed}
use procure_delta.Credits.History.Replay.{Repeats, grant_replay, reserve_replay, grant_conflict}
use procure_delta.Credits.History.Once.{ChangesNothing, settle_once}

abbrev funding : Reference
funding = record {
  idempotency_key = "g1";
  reference_type = "operator_budget";
  reference_key = "g1";
}

abbrev holding : Reference
holding = record { idempotency_key = "r1"; reference_type = "extraction"; reference_key = "v1" }

abbrev calls : List Request
calls =
    granting 1 "ops" (pos 10) funding none internal_budget
    ∷ granting 2 "ops" (negsuc 4) funding none internal_budget
    ∷ reserving 3 "ops" (pos 4) "x" holding none
    ∷ settling 4 Settlement.commit "ops" "x" "x:commit" none
    ∷ settling 5 Settlement.refund "ops" "x" "x:refund" none
    ∷ []

abbrev account_0 : ℕ → ℕ → ℕ → CreditAccount
account_0 available held now = record {
  id = 0;
  owner_user_id = "ops";
  account_kind = internal_budget;
  available_credits = available;
  reserved_credits = held;
  updated_at = now;
}

abbrev entry_1 : CreditLedgerEntry
entry_1 = record {
  id = 1;
  account_id = 0;
  reservation_id = none;
  operation = grant;
  amount = 10;
  idempotency_key = "g1";
  reference_type = "operator_budget";
  reference_key = "g1";
  available_after = 10;
  reserved_after = 0;
  metadata_json = [];
}

abbrev granted_10 : CreditMutation
granted_10 = record {
  account = account_0 10 0 1;
  ledger = entry_1;
  reservation = none;
  applied = true;
}

abbrev db_10 : Db
db_10 = record {
  accounts = account_0 10 0 1 ∷ [];
  reservations = [];
  entries = entry_1 ∷ [];
  next_id = 2;
}

granted :
    grant_credits 1 "ops" (pos 10) funding none internal_budget empty_db ≡ (ok granted_10, db_10)
unfolding grant_credits locked_account grant_locked
granted = refl

empty_db-IsKeyed : IsKeyed empty_db
empty_db-IsKeyed = record { accounts = tt; reservations = tt }

-- Calls between a first one and its repetition: a reservation, and a settlement of it.
abbrev between : List Request
between =
    reserving 3 "ops" (pos 4) "x" holding none
    ∷ settling 4 Settlement.commit "ops" "x" "x:commit" none
    ∷ []

grant_replay_example :
    Repeats "ops" granted_10
      (history between db_10)
      (grant_credits 7 "ops" (pos 10) funding none internal_budget (history between db_10))
grant_replay_example =
    grant_replay 1 7 "ops" funding none none between empty_db empty_db-IsKeyed (pos 10)
      internal_budget granted

grant_conflict_example :
    grant_credits 7 "ops" (pos 11) funding none internal_budget (history between db_10)
    ≡ (err idempotency_conflict, history between db_10)
grant_conflict_example =
    grant_conflict 1 7 "ops" funding funding none none internal_budget 10 11 between empty_db
      empty_db-IsKeyed granted refl refl (inl (omega arith))

history-IsValid_example : IsValid (history calls empty_db)
history-IsValid_example = history-IsValid calls

history_conserves_example :
    total grant 0 (history calls empty_db).entries
    ≡ 6 + 0 + total commit 0 (history calls empty_db).entries
history_conserves_example = history_conserves calls "ops" (account_0 6 0 4) found
  where
    found : find (owned_by "ops") (history calls empty_db).accounts ≡ some (account_0 6 0 4)
    found =
        unfold history grant_credits reserve_credits settle locked_account grant_locked
          reserve_locked settle_locked in
        refl

abbrev reservation_2 : CreditReservation
reservation_2 = record {
  id = 2;
  account_id = 0;
  reservation_key = "x";
  amount = 4;
  status = reserved;
  reference_type = "extraction";
  reference_key = "v1";
  metadata_json = [];
  created_at = 3;
  settled_at = none;
}

abbrev entry_3 : CreditLedgerEntry
entry_3 = record {
  id = 3;
  account_id = 0;
  reservation_id = some 2;
  operation = reserve;
  amount = 4;
  idempotency_key = "r1";
  reference_type = "extraction";
  reference_key = "v1";
  available_after = 6;
  reserved_after = 4;
  metadata_json = [];
}

abbrev reserved_4 : CreditMutation
reserved_4 = record {
  account = account_0 6 4 3;
  ledger = entry_3;
  reservation = some reservation_2;
  applied = true;
}

abbrev db_6 : Db
db_6 = record {
  accounts = account_0 6 4 3 ∷ [];
  reservations = reservation_2 ∷ [];
  entries = entry_3 ∷ entry_1 ∷ [];
  next_id = 4;
}

reserve_done : reserve_credits 3 "ops" (pos 4) "x" holding none db_10 ≡ (ok reserved_4, db_6)
unfolding reserve_credits locked_account reserve_locked
reserve_done = refl

db_10-IsKeyed : IsKeyed db_10
db_10-IsKeyed = record { accounts = (omega arith, tt); reservations = tt }

reserve_replay_example :
    Repeats "ops" reserved_4
      (history calls db_6)
      (reserve_credits 9 "ops" (pos 4) "x" holding none (history calls db_6))
reserve_replay_example =
    reserve_replay 3 9 "ops" holding none none calls db_10 db_10-IsKeyed (pos 4) "x" reserve_done

abbrev committed_4 : CreditMutation
committed_4 = record {
  account = account_0 6 0 4;
  ledger = record entry_3 {
    id = 4;
    operation = commit;
    idempotency_key = "c1";
    reserved_after = 0;
  };
  reservation = some (record reservation_2 { status = committed; settled_at = some 4 });
  applied = true;
}

abbrev db_settled : Db
db_settled = record {
  accounts = account_0 6 0 4 ∷ [];
  reservations = record reservation_2 { status = committed; settled_at = some 4 } ∷ [];
  entries = committed_4.ledger ∷ entry_3 ∷ entry_1 ∷ [];
  next_id = 5;
}

commit_done : settle 4 Settlement.commit "ops" "x" "c1" none db_6 ≡ (ok committed_4, db_settled)
unfolding settle locked_account settle_locked
commit_done = refl

db_6-IsKeyed : IsKeyed db_6
db_6-IsKeyed = record { accounts = (omega arith, tt); reservations = (omega arith, tt) }

settle_once_example :
    ChangesNothing
      (history calls db_settled)
      (settle 5 Settlement.refund "ops" "x" "c2" none (history calls db_settled))
settle_once_example =
    settle_once 4 5 Settlement.commit Settlement.refund "ops" "x" "c1" "c2" none none calls db_6
      db_6-IsKeyed commit_done refl

settle_consistent_example :
    (settle 6 Settlement.commit "ops" "x" "c9" none (history calls empty_db)).0
    ≢ err inconsistent_balance
settle_consistent_example =
    settle_consistent 6 Settlement.commit "ops" "x" "c9" none (history calls empty_db)
      (history-IsValid calls)

-- The database after a grant of all that fits, a reservation of all of it, and a grant of one more.
abbrev full_account : CreditAccount
full_account = account_0 1 max_integer 5

abbrev db_full : Db
db_full = record {
  accounts = full_account ∷ [];
  reservations = record reservation_2 { amount = max_integer } ∷ [];
  entries = entry_3 ∷ entry_1 ∷ [];
  next_id = 6;
}

refund_out_of_range_example :
    refund_credits 6 "ops" "x" "f1" none db_full ≡ (err out_of_range, db_full)
refund_out_of_range_example =
    refund_out_of_range 6 "ops" "x" "f1" none db_full full_account
      (record reservation_2 { amount = max_integer }) refl refl refl refl refl (omega arith)
      (omega arith)
