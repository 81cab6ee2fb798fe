-- ===== src/Credits/Service/Replay.antt =====
-- Replays under one idempotency key, in apps/api/app/credits/service.py.
use procure_delta.Prelude.{
  ℕ, ◌≡◌, ◌≢◌, ◌⊎◌, eq_iff, String, true, false, Option, none, some, List, [], ◌∷◌, arith, find,
  find-test, ◌-◌, eq_refl, ◌+◌,
}
use procure_delta.Prelude.Actions.{ok}
use procure_delta.Credits.Schema.{
  AccountKind, internal_budget, kind_eq, CreditOperation, grant, reserve, Metadata, CreditAccount,
  CreditLedgerEntry, Db, put_account,
}
use procure_delta.Credits.Session.{
  CreditMutation, owned_by, insert_account, locked_account, Reference, same_input, has_key,
  reservation_of, entry_of,
}
use procure_delta.Credits.Service.{grant_locked, reserve_locked}

-- The row of an owner after an update of it.
pub find-put_account :
    (owner : String) (a a' : CreditAccount) (xs : List CreditAccount)
    → find (owned_by owner) xs ≡ some a
    → a'.id ≡ a.id
    → a'.owner_user_id ≡ a.owner_user_id
    → find (owned_by owner) (put_account a' xs) ≡ some a'
find-put_account owner a a' [] h same_id same_owner = cc
find-put_account owner a a' (x ∷ xs) h same_id same_owner =
    ground (arith, find-test (owned_by owner) (x ∷ xs) a h, find-put_account owner a a' xs)

-- What makes the next call under the same key a replay of `m`.
pub record Replays (owner : String) (kind : AccountKind) (op : CreditOperation) (n : ℕ)
    (ref : Reference) (m : CreditMutation) (db : Db) : Type 0 where
  pub found : find (owned_by owner) db.accounts ≡ some m.account
  pub kind_matches : kind_eq m.account.account_kind kind ≡ true
  pub listed : find (has_key m.account.id ref.idempotency_key) db.entries ≡ some m.ledger
  pub same : same_input op n ref m.ledger ≡ true

-- A new entry is the one that its key finds, and it repeats its own input.
entry_listed :
    (i : ℕ) (a : CreditAccount) (r : Option ℕ) (op : CreditOperation) (n : ℕ) (ref : Reference)
    (md : Option Metadata)
    → let e = entry_of i a r op n ref md in
      (has_key a.id ref.idempotency_key e ≡ true) × (same_input op n ref e ≡ true)
unfolding same_input
entry_listed i a r op n ref md =
    ground
      (arith, eq_refl ref.idempotency_key, eq_refl ref.reference_type, eq_refl ref.reference_key)

pub grant_locked-Replays :
    (now n : ℕ) (ref : Reference) (md : Option Metadata) (owner : String) (kind : AccountKind)
    (a : CreditAccount) (s : Db) {m : CreditMutation} {db' : Db}
    → find (owned_by owner) s.accounts ≡ some a
    → kind_eq a.account_kind kind ≡ true
    → grant_locked now n ref md a s ≡ (ok m, db')
    → Replays owner kind grant n ref m db'
unfolding grant_locked
grant_locked-Replays now n ref md owner kind a s {m} {db'} f k h =
    let a' = record a { available_credits = a.available_credits + n; updated_at = now } in
    ground (
      arith,
      find-put_account owner a a' s.accounts f,
      entry_listed s.next_id a' none grant n ref md,
    )

pub reserve_locked-Replays :
    (now n : ℕ) (key : String) (ref : Reference) (md : Option Metadata) (owner : String)
    (a : CreditAccount) (s : Db) {m : CreditMutation} {db' : Db}
    → find (owned_by owner) s.accounts ≡ some a
    → kind_eq a.account_kind internal_budget ≡ true
    → reserve_locked now n key ref md a s ≡ (ok m, db')
    → Replays owner internal_budget reserve n ref m db'
unfolding reserve_locked
reserve_locked-Replays now n key ref md owner a s f k h =
    let a' = record a {
      available_credits = a.available_credits - n;
      reserved_credits = a.reserved_credits + n;
      updated_at = now;
    } in
    ground (
      arith,
      find-put_account owner a a' s.accounts f,
      entry_listed (s.next_id + 1) a' (some s.next_id) reserve n ref md,
    )

-- Under the lock, a replay is answered with what was done before, and writes nothing.
module _ (now n : ℕ) (ref : Reference) (md : Option Metadata) (a : CreditAccount)
    (e : CreditLedgerEntry) (db : Db)
    (listed : find (has_key a.id ref.idempotency_key) db.entries ≡ some e) where
  abbrev pub replayed : CreditMutation
  replayed = record {
    account = a;
    ledger = e;
    reservation = reservation_of e.reservation_id db;
    applied = false;
  }

  pub grant_again :
      same_input grant n ref e ≡ true → grant_locked now n ref md a db ≡ (ok replayed, db)
  unfolding grant_locked
  grant_again same = ground (arith, listed, same)

  pub reserve_again :
      (key : String)
      → same_input reserve n ref e ≡ true
      → reserve_locked now n key ref md a db ≡ (ok replayed, db)
  unfolding reserve_locked
  reserve_again key same = ground (arith, listed, same)

-- The account is there and is of the right kind, so taking its lock changes nothing.
pub locked_account_found :
    (now : ℕ) (owner : String) (kind : AccountKind) (a : CreditAccount) (db : Db)
    → find (owned_by owner) db.accounts ≡ some a
    → kind_eq a.account_kind kind ≡ true
    → locked_account now owner kind db ≡ (ok a, db)
unfolding locked_account
locked_account_found now owner kind a db f k = ground arith

-- What the lock returned is the owner's row, of the expected kind.
pub locked_account_inv :
    (now : ℕ) (owner : String) (kind : AccountKind) (db : Db) {a : CreditAccount} {s : Db}
    → locked_account now owner kind db ≡ (ok a, s)
    → (find (owned_by owner) s.accounts ≡ some a) × (kind_eq a.account_kind kind ≡ true)
unfolding locked_account insert_account
locked_account_inv now owner kind db h = ground arith

-- Another amount or another reference than an entry was made with.
abbrev pub Differs : ℕ → Reference → ℕ → Reference → Type 0
Differs n ref n' ref' =
    (n' ≢ n) ⊎ (ref'.reference_type ≢ ref.reference_type) ⊎ (ref'.reference_key ≢ ref.reference_key)

pub other_input :
    (op : CreditOperation) (n n' : ℕ) (ref ref' : Reference) (e : CreditLedgerEntry)
    → same_input op n ref e ≡ true
    → Differs n ref n' ref'
    → same_input op n' ref' e ≡ false
unfolding same_input
other_input op n n' ref ref' e h d = ground (
  arith,
  eq_iff e.reference_type ref.reference_type,
  eq_iff e.reference_type ref'.reference_type,
  eq_iff e.reference_key ref.reference_key,
  eq_iff e.reference_key ref'.reference_key,
)
