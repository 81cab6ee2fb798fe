-- ===== src/Credits/Service.antt =====
-- apps/api/app/credits/service.py: each coroutine as an action on the database state. The row lock
-- that `_locked_account` takes makes each call on one account atomic, so a call is one action.
pub mod Tables
pub mod Invariant
pub mod Writes
pub mod Settling
pub mod Calls
pub mod Replay
pub mod Once
pub mod Effects
use procure_delta.Prelude.{
  ℕ, ◌+◌, ◌-◌, String, Bool, true, false, ◌&&◌, not, Option, none, some, List, [], ◌∷◌, ltb, leb,
  ◌==◌, str_eq, if◌then◌else◌, find, is_some, get_or,
}
use procure_delta.Prelude.Actions.{ok, err, pure, raise, gets, modify, raise_if, ◌>>=◌, ◌>>◌}
use procure_delta.Prelude.Int.{ℤ, pos, negsuc}
use procure_delta.Credits.Schema.{
  AccountKind, internal_budget, kind_eq, ReservationStatus, reserved, committed, refunded,
  is_reserved, CreditOperation, grant, reserve, operation_eq, Metadata, CreditAccount,
  CreditReservation, CreditLedgerEntry, Db, max_integer, CreditError, bad_amount, balance_range,
  kind_mismatch, insufficient, idempotency_conflict, reservation_not_found, already_terminal,
  inconsistent_balance, not_created, Tx, flush_account, flush_reservation,
}
use procure_delta.Credits.Session.{
  CreditMutation, owned_by, insert_account, check_kind, locked_account, Reference, same_input,
  has_key, reservation_of, replay, idempotent_result, require_amount, entry_of, add_entry, mutation,
  unless_replayed,
}

pub apply_grant : ℕ → ℕ → Reference → Option Metadata → CreditAccount → Tx CreditMutation
unfolding flush_account add_entry
apply_grant now amount ref metadata account = do
  raise_if (ltb (max_integer - amount) account.available_credits) balance_range
  let account' = record account {
    available_credits = account.available_credits + amount;
    updated_at = now;
  }
  flush_account account'
  ledger ← add_entry account' none grant amount ref metadata
  pure (mutation account' none ledger)

-- `grant_credits` from the replay check on, under the account's lock.
unfoldable pub grant_locked :
    ℕ → ℕ → Reference → Option Metadata → CreditAccount → Tx CreditMutation
unfolding idempotent_result apply_grant
grant_locked now amount ref metadata account = do
  duplicate ← idempotent_result account grant amount ref
  unless_replayed duplicate (apply_grant now amount ref metadata account)

unfoldable pub grant_credits :
    ℕ → String → ℤ → Reference → Option Metadata → AccountKind → Tx CreditMutation
unfolding require_amount
grant_credits now owner amount ref metadata expected = do
  n ← require_amount amount
  account ← locked_account now owner expected
  grant_locked now n ref metadata account

abbrev pub has_reservation_key : ℕ → String → CreditReservation → Bool
has_reservation_key account key r = (r.account_id == account) && str_eq r.reservation_key key

abbrev pub find_reservation : CreditAccount → String → Tx (Option CreditReservation)
find_reservation account key =
    gets (λ db. find (has_reservation_key account.id key) db.reservations)

-- The new reservation row, with its primary key.
abbrev pub reservation_row :
    ℕ → ℕ → ℕ → String → ℕ → Reference → Option Metadata → CreditReservation
reservation_row id now account key amount ref metadata = record {
  id = id;
  account_id = account;
  reservation_key = key;
  amount = amount;
  status = reserved;
  reference_type = ref.reference_type;
  reference_key = ref.reference_key;
  metadata_json = get_or [] metadata;
  created_at = now;
  settled_at = none;
}

-- The row, added to the session and flushed.
unfoldable pub add_reservation :
    ℕ → ℕ → String → ℕ → Reference → Option Metadata → Tx CreditReservation
add_reservation now account key amount ref metadata db =
    let row = reservation_row db.next_id now account key amount ref metadata in
    (ok row, record db { reservations = row ∷ db.reservations; next_id = db.next_id + 1 })

pub apply_reserve : ℕ → ℕ → String → Reference → Option Metadata → CreditAccount → Tx CreditMutation
unfolding flush_account add_reservation add_entry
apply_reserve now amount key ref metadata account = do
  existing ← find_reservation account key
  raise_if (is_some existing) idempotency_conflict
  raise_if (ltb account.available_credits amount) insufficient
  let account' = record account {
    available_credits = account.available_credits - amount;
    reserved_credits = account.reserved_credits + amount;
    updated_at = now;
  }
  flush_account account'
  reservation ← add_reservation now account.id key amount ref metadata
  ledger ← add_entry account' (some reservation.id) reserve amount ref metadata
  pure (mutation account' (some reservation) ledger)

unfoldable pub reserve_locked :
    ℕ → ℕ → String → Reference → Option Metadata → CreditAccount → Tx CreditMutation
unfolding idempotent_result apply_reserve
reserve_locked now amount key ref metadata account = do
  duplicate ← idempotent_result account reserve amount ref
  unless_replayed duplicate (apply_reserve now amount key ref metadata account)

unfoldable pub reserve_credits :
    ℕ → String → ℤ → String → Reference → Option Metadata → Tx CreditMutation
unfolding require_amount
reserve_credits now owner amount key ref metadata = do
  n ← require_amount amount
  account ← locked_account now owner internal_budget
  reserve_locked now n key ref metadata account

pub data Settlement : Type 0 where
  commit refund : Settlement

abbrev pub settlement_operation : Settlement → CreditOperation
settlement_operation Settlement.commit = CreditOperation.commit
settlement_operation Settlement.refund = CreditOperation.refund

abbrev pub settled_status : Settlement → ReservationStatus
settled_status Settlement.commit = committed
settled_status Settlement.refund = refunded

-- The account after the settlement: a refund gives the amount back.
abbrev pub settled_account : Settlement → ℕ → ℕ → CreditAccount → CreditAccount
settled_account Settlement.commit now amount a = record a {
  reserved_credits = a.reserved_credits - amount;
  updated_at = now;
}
settled_account Settlement.refund now amount a = record a {
  reserved_credits = a.reserved_credits - amount;
  available_credits = a.available_credits + amount;
  updated_at = now;
}

pub apply_settle :
    ℕ
    → Settlement
    → Reference
    → Option Metadata
    → CreditAccount
    → CreditReservation
    → Tx CreditMutation
unfolding flush_account flush_reservation add_entry
apply_settle now how ref metadata account reservation = do
  raise_if (not (is_reserved reservation.status)) already_terminal
  raise_if (ltb account.reserved_credits reservation.amount) inconsistent_balance
  let account' = settled_account how now reservation.amount account
  let reservation' = record reservation { status = settled_status how; settled_at = some now }
  flush_account account'
  flush_reservation reservation'
  ledger ←
      add_entry account' (some reservation.id) (settlement_operation how) reservation.amount ref
        metadata
  pure (mutation account' (some reservation') ledger)

-- The reference of a settlement is that of its reservation.
abbrev pub settlement_reference : String → CreditReservation → Reference
settlement_reference key r = record {
  idempotency_key = key;
  reference_type = r.reference_type;
  reference_key = r.reference_key;
}

unfoldable pub settle_found :
    ℕ
    → Settlement
    → String
    → Option Metadata
    → CreditAccount
    → Option CreditReservation
    → Tx CreditMutation
unfolding idempotent_result apply_settle
settle_found now how key metadata account none = raise reservation_not_found
settle_found now how key metadata account (some r) = do
  let ref = settlement_reference key r
  duplicate ← idempotent_result account (settlement_operation how) r.amount ref
  unless_replayed duplicate (apply_settle now how ref metadata account r)

unfoldable pub settle_locked :
    ℕ → Settlement → String → String → Option Metadata → CreditAccount → Tx CreditMutation
unfolding settle_found
settle_locked now how reservation_key key metadata account = do
  reservation ← find_reservation account reservation_key
  settle_found now how key metadata account reservation

unfoldable pub settle :
    ℕ → Settlement → String → String → String → Option Metadata → Tx CreditMutation
settle now how owner reservation_key key metadata = do
  account ← locked_account now owner internal_budget
  settle_locked now how reservation_key key metadata account

unfoldable pub commit_credits : ℕ → String → String → String → Option Metadata → Tx CreditMutation
unfolding settle
commit_credits now = settle now Settlement.commit

unfoldable pub refund_credits : ℕ → String → String → String → Option Metadata → Tx CreditMutation
unfolding settle
refund_credits now = settle now Settlement.refund
