-- ===== src/Billing/History.antt =====
-- Any sequence of calls of apps/api/app/billing/service.py, each in a transaction of its own.
pub mod Kept
pub mod Once
use procure_delta.Prelude.{ℕ, ◌≡◌, refl, String, List, [], ◌∷◌}
use procure_delta.Prelude.Int.{ℤ}
use procure_delta.Prelude.Actions.{Result, ok, err}
use procure_delta.Credits.Schema.{grant}
use procure_delta.Credits.Service.Tables.{total}
use procure_delta.Billing.Schema.{SandboxEvent, BillingDb, BillingError, empty_billing}
use procure_delta.Billing.Service.{process_event, register_customer, register_price}
use procure_delta.Billing.Service.Crediting.{
  units, Matches, process_event-Matches, register_customer-Matches, register_price-Matches,
}

pub data Call : Type 0 where
  event : ℕ → String → SandboxEvent → Call
  customer : ℕ → String → String → Call
  price : String → String → String → ℤ → ℤ → Call

-- A commit where the call returned, and a rollback where it raised.
abbrev pub outcome : {A : Type 0} → BillingDb → Result BillingError A × BillingDb → BillingDb
outcome db (ok _, db') = db'
outcome db (err _, _) = db

outcome-Matches :
    {A : Type 0} (k : ℕ) (db : BillingDb) (r : Result BillingError A × BillingDb)
    → Matches k db
    → ((a : A) (s : BillingDb) → r ≡ (ok a, s) → Matches k s)
    → Matches k (outcome db r)
outcome-Matches k db (ok a, s) m keeps = keeps a s refl
outcome-Matches k db (err e, s) m keeps = m

module _ (sha256 : String → String) where
  pub perform : Call → BillingDb → BillingDb
  unfolding process_event register_customer register_price
  perform (event now scope e) db = outcome db (process_event now scope e db)
  perform (customer now scope c) db = outcome db (register_customer sha256 now scope c db)
  perform (price scope p currency amount n) db =
      outcome db (register_price scope p currency amount n db)

  unfoldable pub history : List Call → BillingDb → BillingDb
  unfolding perform
  history [] db = db
  history (c ∷ cs) db = history cs (perform c db)

  perform-Matches : (c : Call) (k : ℕ) (db : BillingDb) → Matches k db → Matches k (perform c db)
  unfolding perform
  perform-Matches (event now scope e) k db m =
      outcome-Matches k db _ m (λ r s h. process_event-Matches now k scope e db m h)
  perform-Matches (customer now scope c) k db m =
      outcome-Matches k db _ m (λ r s h. register_customer-Matches sha256 now k scope c db m h)
  perform-Matches (price scope p currency amount n) k db m =
      outcome-Matches k db _ m (λ r s h. register_price-Matches k scope p currency amount n db m h)

  history-Matches :
      (cs : List Call) (k : ℕ) (db : BillingDb) → Matches k db → Matches k (history cs db)
  unfolding history
  history-Matches [] k db m = m
  history-Matches (c ∷ cs) k db m = history-Matches cs k (perform c db) (perform-Matches c k db m)

  -- After any billing calls on an empty database, the credits granted to an account are the credit
  -- units of the invoice applications recorded for it.
  pub credits_match_applications :
      (cs : List Call) (k : ℕ)
      → total grant k (history cs empty_billing).credit.entries
        ≡ units k (history cs empty_billing).applications
  credits_match_applications cs k = history-Matches cs k empty_billing (unfold total units in refl)
