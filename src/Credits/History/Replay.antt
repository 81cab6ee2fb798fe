-- ===== src/Credits/History/Replay.antt =====
-- Calls of apps/api/app/credits/service.py under an idempotency key that an earlier call used, with
-- any calls in between.
use procure_delta.Prelude.{
  ℕ, ◌≡◌, refl, String, true, false, Option, some, List, arith, find, Bool-cases, inl, inr, leb,
  ◌&&◌,
}
use procure_delta.Prelude.Actions.{Result, ok, err, bind_inv, bind_ok}
use procure_delta.Prelude.Int.{ℤ, pos, negsuc}
use procure_delta.Credits.Schema.{
  AccountKind, internal_budget, kind_eq, CreditOperation, grant, reserve, Metadata, CreditAccount,
  CreditLedgerEntry, Db, max_integer, CreditError, idempotency_conflict,
}
use procure_delta.Credits.Session.{
  CreditMutation, owned_by, locked_account, Reference, same_input, has_key, reservation_of,
}
use procure_delta.Credits.Service.{grant_locked, grant_credits, reserve_locked, reserve_credits}
use procure_delta.Credits.Service.Replay.{
  Replays, grant_locked-Replays, reserve_locked-Replays, grant_again, reserve_again,
  locked_account_found, locked_account_inv, Differs, other_input,
}
use procure_delta.Credits.History.{Request, history}
use procure_delta.Credits.History.Later.{account_of-find, find-account_of}
use procure_delta.Credits.History.Stays.{IsKeyed, Later}
use procure_delta.Credits.History.Calls.{history-Later, grant_credits-Later, reserve_credits-Later}

-- The owner's account at a later time, and the entry that the key finds for it.
record StillReplays (owner : String) (kind : AccountKind) (key : String) (m : CreditMutation)
    (db : Db) : Type 0 where
  account : CreditAccount
  found : find (owned_by owner) db.accounts ≡ some account
  kind_matches : kind_eq account.account_kind kind ≡ true
  listed : find (has_key account.id key) db.entries ≡ some m.ledger

Replays-Later :
    {owner : String} {kind : AccountKind} {op : CreditOperation} {n : ℕ} {ref : Reference}
    {m : CreditMutation} {db db' : Db}
    → Replays owner kind op n ref m db
    → Later db db'
    → StillReplays owner kind ref.idempotency_key m db'
Replays-Later {owner} {kind} {op} {n} {ref} {m} {db} {db'} r later =
    let known = later.account owner _ (find-account_of owner m.account db.accounts r.found) in
    let (a, f, same_id, same_kind) = account_of-find owner _ _ db'.accounts known in
    record {
      account = a;
      found = f;
      kind_matches = rw same_kind r.kind_matches;
      listed = rw same_id (later.entry _ _ _ r.listed);
    }

-- A call that is answered as a replay of `m`: the same entry, with the rows of the account and of
-- the reservation as they are now, and nothing written.
abbrev pub Repeats : String → CreditMutation → Db → Result CreditError CreditMutation × Db → Type 0
Repeats owner m db r =
    (m' : CreditMutation) × (r ≡ (ok m', db))
    × (m'.ledger ≡ m.ledger)
    × (m'.applied ≡ false)
    × (find (owned_by owner) db.accounts ≡ some m'.account)
    × (m'.reservation ≡ reservation_of m.ledger.reservation_id db)

module _ (now n : ℕ) (owner : String) (ref : Reference) (md : Option Metadata) (db : Db)
    {m : CreditMutation} {db' : Db} (range : (leb 1 n && leb n max_integer) ≡ true) where
  grant-Replays :
      (kind : AccountKind)
      → grant_credits now owner (pos n) ref md kind db ≡ (ok m, db')
      → Replays owner kind grant n ref m db'
  unfolding grant_credits
  grant-Replays kind done =
      let (a, s, locked, rest) =
        bind_inv (locked_account now owner kind) (grant_locked now n ref md) db
          (rw range at done) in
      let (f, k) = locked_account_inv now owner kind db locked in
      grant_locked-Replays now n ref md owner kind a s f k rest

  reserve-Replays :
      (key : String)
      → reserve_credits now owner (pos n) key ref md db ≡ (ok m, db')
      → Replays owner internal_budget reserve n ref m db'
  unfolding reserve_credits
  reserve-Replays key done =
      let (a, s, locked, rest) =
        bind_inv (locked_account now owner internal_budget) (reserve_locked now n key ref md) db
          (rw range at done) in
      let (f, k) = locked_account_inv now owner internal_budget db locked in
      reserve_locked-Replays now n key ref md owner a s f k rest

module _ (now now' : ℕ) (owner : String) (ref : Reference) (md md' : Option Metadata)
    (rs : List Request) (db : Db) (v : IsKeyed db) {m : CreditMutation} {db' : Db} where
  grant_replay_pos :
      (n : ℕ) (kind : AccountKind)
      → (leb 1 n && leb n max_integer) ≡ true
      → grant_credits now owner (pos n) ref md kind db ≡ (ok m, db')
      → Repeats owner m
          (history rs db')
          (grant_credits now' owner (pos n) ref md' kind (history rs db'))
  unfolding grant_credits
  grant_replay_pos n kind range done =
      let later =
        history-Later rs db' (grant_credits-Later now owner (pos n) ref md kind db v done).keyed in
      let r = grant-Replays now n owner ref md db range kind done in
      let s = Replays-Later r later in
      rw range (
        _,
        bind_ok (locked_account now' owner kind) (grant_locked now' n ref md') (history rs db')
            (locked_account_found now' owner kind s.account (history rs db') s.found s.kind_matches)
            (grant_again now' n ref md' s.account m.ledger (history rs db') s.listed r.same),
        refl,
        refl,
        s.found,
        refl,
      )

  reserve_replay_pos :
      (n : ℕ) (key : String)
      → (leb 1 n && leb n max_integer) ≡ true
      → reserve_credits now owner (pos n) key ref md db ≡ (ok m, db')
      → Repeats owner m
          (history rs db')
          (reserve_credits now' owner (pos n) key ref md' (history rs db'))
  unfolding reserve_credits
  reserve_replay_pos n key range done =
      let later =
        history-Later rs db' (reserve_credits-Later now owner (pos n) key ref md db v done).keyed in
      let r = reserve-Replays now n owner ref md db range key done in
      let s = Replays-Later r later in
      rw range (
        _,
        bind_ok (locked_account now' owner internal_budget) (reserve_locked now' n key ref md')
            (history rs db')
            (locked_account_found now' owner internal_budget s.account (history rs db') s.found
              s.kind_matches)
            (reserve_again now' n ref md' s.account m.ledger (history rs db') s.listed key r.same),
        refl,
        refl,
        s.found,
        refl,
      )

  -- On a database whose rows have keys of their own: a grant that returned, made again under its
  -- idempotency key after any other calls, returns the same ledger entry as not applied, with the
  -- owner's account as it is then, and changes nothing.
  pub grant_replay :
      (amount : ℤ) (kind : AccountKind)
      → grant_credits now owner amount ref md kind db ≡ (ok m, db')
      → Repeats owner m
          (history rs db')
          (grant_credits now' owner amount ref md' kind (history rs db'))
  grant_replay (negsuc n) kind h = unfold grant_credits in cc
  grant_replay (pos n) kind h = elim (Bool-cases (leb 1 n && leb n max_integer)) [
    | inl e ↦ grant_replay_pos n kind e h
    | inr e ↦ unfold grant_credits in (let bad = rw e at h in cc)
  ]

  -- On a database whose rows have keys of their own: a reservation that returned, made again under
  -- its idempotency key after any other calls, settlements of it included, returns the same ledger
  -- entry as not applied, with the rows of the account and of the reservation as they are then, and
  -- changes nothing.
  pub reserve_replay :
      (amount : ℤ) (key : String)
      → reserve_credits now owner amount key ref md db ≡ (ok m, db')
      → Repeats owner m
          (history rs db')
          (reserve_credits now' owner amount key ref md' (history rs db'))
  reserve_replay (negsuc n) key h = unfold reserve_credits in cc
  reserve_replay (pos n) key h = elim (Bool-cases (leb 1 n && leb n max_integer)) [
    | inl e ↦ reserve_replay_pos n key e h
    | inr e ↦ unfold reserve_credits in (let bad = rw e at h in cc)
  ]

grant_locked_conflict :
    (now n : ℕ) (ref : Reference) (md : Option Metadata) (a : CreditAccount) (db : Db)
    (e : CreditLedgerEntry)
    → find (has_key a.id ref.idempotency_key) db.entries ≡ some e
    → same_input grant n ref e ≡ false
    → grant_locked now n ref md a db ≡ (err idempotency_conflict, db)
unfolding grant_locked
grant_locked_conflict now n ref md a db e listed other = ground (arith, listed, other)

module _ (now now' : ℕ) (owner : String) (ref ref' : Reference) (md md' : Option Metadata)
    (kind : AccountKind) (n n' : ℕ) (rs : List Request) (db : Db) (v : IsKeyed db)
    {m : CreditMutation} {db' : Db}
    (done : grant_credits now owner (pos n) ref md kind db ≡ (ok m, db'))
    (same_key : ref'.idempotency_key ≡ ref.idempotency_key)
    (range : (leb 1 n' && leb n' max_integer) ≡ true) where
  first_range : (leb 1 n && leb n max_integer) ≡ true
  unfolding grant_credits
  first_range = elim (Bool-cases (leb 1 n && leb n max_integer)) [
    | inl e ↦ e
    | inr e ↦ let bad = rw e at done in cc
  ]

  -- On a database whose rows have keys of their own: after a grant that returned and any other
  -- calls, a grant to the same owner, for the same kind of account, of an amount in the accepted
  -- range and under the same idempotency key, but with another amount or reference, is refused as a
  -- conflict and changes nothing.
  pub grant_conflict :
      Differs n ref n' ref'
      → grant_credits now' owner (pos n') ref' md' kind (history rs db')
        ≡ (err idempotency_conflict, history rs db')
  unfolding grant_credits
  grant_conflict d =
      let later =
        history-Later rs db' (grant_credits-Later now owner (pos n) ref md kind db v done).keyed in
      let r = grant-Replays now n owner ref md db first_range kind done in
      let s = Replays-Later r later in
      rw range (
        bind_ok (locked_account now' owner kind) (grant_locked now' n' ref' md') (history rs db')
          (locked_account_found now' owner kind s.account (history rs db') s.found s.kind_matches)
          (grant_locked_conflict now' n' ref' md' s.account (history rs db') m.ledger
            (rw same_key s.listed) (other_input grant n n' ref ref' m.ledger r.same d)))
