-- ===== src/Credits/History.antt =====
-- Any sequence of calls of apps/api/app/credits/service.py, each in a transaction of its own: the
-- caller commits when the call returns, and rolls back when it raises (apps/api/app/ops).
pub mod Conservation
pub mod Later
pub mod Stays
pub mod Calls
pub mod Replay
pub mod Once
use procure_delta.Prelude.{ℕ, String, Option, List, [], ◌∷◌}
use procure_delta.Prelude.Actions.{Result, ok, err}
use procure_delta.Prelude.Int.{ℤ}
use procure_delta.Credits.Schema.{AccountKind, Metadata, Db, CreditError, Tx}
use procure_delta.Credits.Session.{CreditMutation, Reference}
use procure_delta.Credits.Service.{Settlement, grant_credits, reserve_credits, settle}

-- One call with its arguments, the clock's reading first.
pub data Request : Type 0 where
  granting : ℕ → String → ℤ → Reference → Option Metadata → AccountKind → Request
  reserving : ℕ → String → ℤ → String → Reference → Option Metadata → Request
  settling : ℕ → Settlement → String → String → String → Option Metadata → Request

unfoldable pub perform : Request → Tx CreditMutation
unfolding grant_credits reserve_credits settle
perform (granting now owner amount ref md kind) = grant_credits now owner amount ref md kind
perform (reserving now owner amount key ref md) = reserve_credits now owner amount key ref md
perform (settling now how owner reservation key md) = settle now how owner reservation key md

-- `await session.commit()` after the call, or the rollback that leaving the session is.
abbrev pub outcome : Db → Result CreditError CreditMutation × Db → Db
outcome db (ok _, db') = db'
outcome db (err _, _) = db

unfoldable pub history : List Request → Db → Db
unfolding perform
history [] db = db
history (r ∷ rs) db = history rs (outcome db (perform r db))
