-- ===== src/Credits/Schema.antt =====
-- The credit tables of apps/api/app/models/schema.py as rows and a database state, and the writes
-- that the credit service makes. A table is a list of rows, the newest first. A row's primary key
-- is a UUID that the session makes: it is a number here, taken from one counter, so that two rows
-- never share it. Timestamps are microseconds since an epoch.
use procure_delta.Prelude.{
  ℕ, ◌-◌, ◌^◌, String, Bool, true, false, ◌||◌, Option, List, [], map, ltb, ◌==◌, if◌then◌else◌,
}
use procure_delta.Prelude.Actions.{Action, ok, err}

pub data AccountKind : Type 0 where
  internal_budget billing_sandbox : AccountKind

-- The strings that `account_kind` may hold are compared by `!=`.
abbrev pub kind_eq : AccountKind → AccountKind → Bool
kind_eq internal_budget internal_budget = true
kind_eq billing_sandbox billing_sandbox = true
kind_eq internal_budget billing_sandbox = false
kind_eq billing_sandbox internal_budget = false

pub data ReservationStatus : Type 0 where
  reserved committed refunded : ReservationStatus

abbrev pub is_reserved : ReservationStatus → Bool
is_reserved reserved = true
is_reserved committed = false
is_reserved refunded = false

pub data CreditOperation : Type 0 where
  grant reserve commit refund : CreditOperation

abbrev pub operation_eq : CreditOperation → CreditOperation → Bool
operation_eq grant grant = true
operation_eq reserve reserve = true
operation_eq commit commit = true
operation_eq refund refund = true
operation_eq grant _ = false
operation_eq reserve _ = false
operation_eq commit _ = false
operation_eq refund _ = false

abbrev pub Metadata : Type 0
Metadata = List (String × String)

pub record CreditAccount : Type 0 where
  pub id : ℕ
  pub owner_user_id : String
  pub account_kind : AccountKind
  pub available_credits : ℕ
  pub reserved_credits : ℕ
  pub updated_at : ℕ

pub record CreditReservation : Type 0 where
  pub id : ℕ
  pub account_id : ℕ
  pub reservation_key : String
  pub amount : ℕ
  pub status : ReservationStatus
  pub reference_type : String
  pub reference_key : String
  pub metadata_json : Metadata
  pub created_at : ℕ
  pub settled_at : Option ℕ

pub record CreditLedgerEntry : Type 0 where
  pub id : ℕ
  pub account_id : ℕ
  pub reservation_id : Option ℕ
  pub operation : CreditOperation
  pub amount : ℕ
  pub idempotency_key : String
  pub reference_type : String
  pub reference_key : String
  pub available_after : ℕ
  pub reserved_after : ℕ
  pub metadata_json : Metadata

pub record Db : Type 0 where
  pub accounts : List CreditAccount
  pub reservations : List CreditReservation
  pub entries : List CreditLedgerEntry
  pub next_id : ℕ

abbrev pub empty_db : Db
empty_db = record { accounts = []; reservations = []; entries = []; next_id = 0 }

-- The largest value of a PostgreSQL `INTEGER` column, 2147483647.
abbrev pub max_integer : ℕ
max_integer = 2 ^ 31 - 1

-- `account.account_kind != expected_kind` and the other tests raise these. `not_created` is the
-- `RuntimeError` of `_locked_account`, and `out_of_range` is the database's refusal of a value that
-- an `INTEGER` column cannot hold.
pub data CreditError : Type 0 where
  bad_amount balance_range : CreditError
  kind_mismatch insufficient idempotency_conflict : CreditError
  reservation_not_found already_terminal inconsistent_balance : CreditError
  not_created out_of_range : CreditError

abbrev pub Tx : Type 0 → Type 0
Tx = Action Db CreditError

-- `UPDATE … WHERE id = a.id`, on the rows of each table.
abbrev pub put_account : CreditAccount → List CreditAccount → List CreditAccount
put_account a = map (λ x. if x.id == a.id then a else x)

abbrev pub put_reservation : CreditReservation → List CreditReservation → List CreditReservation
put_reservation r = map (λ x. if x.id == r.id then r else x)

abbrev pub overflows : CreditAccount → Bool
overflows a = ltb max_integer a.available_credits || ltb max_integer a.reserved_credits

-- The flush of a changed account row: its two balances are `INTEGER` columns.
unfoldable pub flush_account : CreditAccount → Tx (Unit {0})
flush_account a db =
    if overflows a
    then (err out_of_range, db)
    else (ok tt, record db { accounts = put_account a db.accounts })

-- The flush of a settled reservation row.
unfoldable pub flush_reservation : CreditReservation → Tx (Unit {0})
flush_reservation r db = (ok tt, record db { reservations = put_reservation r db.reservations })
