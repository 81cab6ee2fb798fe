-- ===== src/Credits/Session.antt =====
-- The steps that every call of apps/api/app/credits/service.py begins and ends with: the locked
-- account, the replay check on the idempotency key, and the ledger entry.
use procure_delta.Prelude.{
  ℕ, ◌+◌, String, Bool, true, false, ◌&&◌, Option, none, some, [], ◌∷◌, leb, ◌==◌, str_eq,
  if◌then◌else◌, find, is_some, get_or,
}
use procure_delta.Prelude.Actions.{ok, pure, raise, gets, modify, ◌>>=◌, ◌>>◌}
use procure_delta.Prelude.Int.{ℤ, pos, negsuc}
use procure_delta.Credits.Schema.{
  AccountKind, kind_eq, CreditOperation, operation_eq, Metadata, CreditAccount, CreditReservation,
  CreditLedgerEntry, Db, max_integer, bad_amount, kind_mismatch, idempotency_conflict, not_created,
  Tx,
}

pub record CreditMutation : Type 0 where
  pub account : CreditAccount
  pub ledger : CreditLedgerEntry
  pub reservation : Option CreditReservation
  pub applied : Bool

abbrev pub owned_by : String → CreditAccount → Bool
owned_by owner a = str_eq a.owner_user_id owner

-- `pg_insert(CreditAccount) … on_conflict_do_nothing(index_elements=[owner_user_id])`
unfoldable pub insert_account : ℕ → String → AccountKind → Db → Db
insert_account now owner kind db =
    if is_some (find (owned_by owner) db.accounts) then db else record db {
      accounts =
          record {
            id = db.next_id;
            owner_user_id = owner;
            account_kind = kind;
            available_credits = 0;
            reserved_credits = 0;
            updated_at = now;
          }
          ∷ db.accounts;
      next_id = db.next_id + 1;
    }

abbrev pub check_kind : AccountKind → Option CreditAccount → Tx CreditAccount
check_kind expected none = raise not_created
check_kind expected (some a) =
    if kind_eq a.account_kind expected then pure a else raise kind_mismatch

unfoldable pub locked_account : ℕ → String → AccountKind → Tx CreditAccount
unfolding insert_account
locked_account now owner expected = do
  modify (insert_account now owner expected)
  check_kind expected (← gets (λ db. find (owned_by owner) db.accounts))

-- What an idempotency key stands for: the input that a replay has to repeat.
pub record Reference : Type 0 where
  pub idempotency_key : String
  pub reference_type : String
  pub reference_key : String

unfoldable pub same_input : CreditOperation → ℕ → Reference → CreditLedgerEntry → Bool
same_input op amount ref e =
    operation_eq e.operation op
    && (e.amount == amount)
    && str_eq e.reference_type ref.reference_type
    && str_eq e.reference_key ref.reference_key

abbrev pub has_key : ℕ → String → CreditLedgerEntry → Bool
has_key account key e = (e.account_id == account) && str_eq e.idempotency_key key

-- `session.get(CreditReservation, id)`
abbrev pub reservation_of : Option ℕ → Db → Option CreditReservation
reservation_of none db = none
reservation_of (some i) db = find (λ r. r.id == i) db.reservations

abbrev pub replay :
    CreditAccount
    → CreditOperation
    → ℕ
    → Reference
    → Option CreditLedgerEntry
    → Tx (Option CreditMutation)
replay account op amount ref none = pure none
replay account op amount ref (some e) =
    if same_input op amount ref e
    then (λ db. (
      ok (
          some (record {
            account = account;
            ledger = e;
            reservation = reservation_of e.reservation_id db;
            applied = false;
          })),
      db,
    ))
    else raise idempotency_conflict

unfoldable pub idempotent_result :
    CreditAccount → CreditOperation → ℕ → Reference → Tx (Option CreditMutation)
unfolding same_input
idempotent_result account op amount ref = do
  existing ← gets (λ db. find (has_key account.id ref.idempotency_key) db.entries)
  replay account op amount ref existing

-- A Python `int`: `type(amount) is not int or not 1 <= amount <= 2_147_483_647`.
unfoldable pub require_amount : ℤ → Tx ℕ
require_amount (pos n) = if leb 1 n && leb n max_integer then pure n else raise bad_amount
require_amount (negsuc n) = raise bad_amount

-- `_entry`, with the primary key that the session gives the row.
abbrev pub entry_of :
    ℕ
    → CreditAccount
    → Option ℕ
    → CreditOperation
    → ℕ
    → Reference
    → Option Metadata
    → CreditLedgerEntry
entry_of id account reservation op amount ref metadata = record {
  id = id;
  account_id = account.id;
  reservation_id = reservation;
  operation = op;
  amount = amount;
  idempotency_key = ref.idempotency_key;
  reference_type = ref.reference_type;
  reference_key = ref.reference_key;
  available_after = account.available_credits;
  reserved_after = account.reserved_credits;
  metadata_json = get_or [] metadata;
}

-- The entry, added to the session and flushed.
unfoldable pub add_entry :
    CreditAccount
    → Option ℕ
    → CreditOperation
    → ℕ
    → Reference
    → Option Metadata
    → Tx CreditLedgerEntry
add_entry account reservation op amount ref metadata db =
    let entry = entry_of db.next_id account reservation op amount ref metadata in
    (ok entry, record db { entries = entry ∷ db.entries; next_id = db.next_id + 1 })

abbrev pub mutation : CreditAccount → Option CreditReservation → CreditLedgerEntry → CreditMutation
mutation account reservation ledger = record {
  account = account;
  ledger = ledger;
  reservation = reservation;
  applied = true;
}

-- `if duplicate: return duplicate`, and the rest of the call otherwise.
abbrev pub unless_replayed : Option CreditMutation → Tx CreditMutation → Tx CreditMutation
unless_replayed (some duplicate) rest = pure duplicate
unless_replayed none rest = rest
