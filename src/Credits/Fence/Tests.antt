-- ===== src/Credits/Fence/Tests.antt =====
-- Two workers that charge one extraction, through apps/api/app/credits/extraction.py.
use procure_delta.Prelude.{◌≡◌, refl, arith, String, none, List, [], ◌∷◌}
use procure_delta.Prelude.Actions.{ok, err}
use procure_delta.Prelude.Int.{pos}
use procure_delta.Credits.Schema.{internal_budget, Db, empty_db}
use procure_delta.Credits.Session.{Reference, locked_account}
use procure_delta.Credits.Service.{
  Settlement, grant_credits, grant_locked, reserve_credits, reserve_locked,
}
use procure_delta.Credits.Service.Invariant.{IsValid}
use procure_delta.Credits.History.Conservation.{empty_db-IsValid}
use procure_delta.Credits.Fence.{
  ExtractionCreditPolicy, FenceStep, attempting, resolving, funding, in_progress, review_required,
  attempt, assert_no_prior_attempt, reserve_extraction, fence_history,
}
use procure_delta.Credits.Fence.Attempts.{attempts}
use procure_delta.Credits.Fence.Single.{IsSingle, fence_history-IsSingle}

abbrev policy : ExtractionCreditPolicy
policy = record { account = "ops"; units = pos 3 }

abbrev other_policy : ExtractionCreditPolicy
other_policy = record { account = "spare"; units = pos 3 }

abbrev funds : Reference
funds = record { idempotency_key = "g"; reference_type = "operator_budget"; reference_key = "g" }

abbrev sha256 : String → String
sha256 s = s

abbrev steps : List FenceStep
steps =
    funding 1 "ops" (pos 10) funds none internal_budget
    ∷ attempting 2 "v" "x" policy
    ∷ attempting 3 "v" "x" other_policy
    ∷ resolving 4 "ops" "extraction:v:x" Settlement.refund
    ∷ []

abbrev funded : Db
funded = (grant_credits 1 "ops" (pos 10) funds none internal_budget empty_db).1

first_test : (attempt sha256 2 "v" "x" policy funded).0 ≡ ok "extraction:v:x"
unfolding attempt assert_no_prior_attempt reserve_extraction reserve_credits reserve_locked
    locked_account grant_credits grant_locked
first_test = refl

second_test :
    (attempt sha256 3 "v" "x" other_policy (attempt sha256 2 "v" "x" policy funded).1).0
    ≡ err in_progress
unfolding attempt assert_no_prior_attempt reserve_extraction reserve_credits reserve_locked
    locked_account grant_credits grant_locked
second_test = refl

late_test :
    (attempt sha256 200000000 "v" "x" policy (attempt sha256 2 "v" "x" policy funded).1).0
    ≡ err review_required
unfolding attempt assert_no_prior_attempt reserve_extraction reserve_credits reserve_locked
    locked_account grant_credits grant_locked
late_test = refl

empty_db-IsSingle : IsSingle empty_db
unfolding attempts
empty_db-IsSingle key = omega arith

fence_history-IsSingle_example :
    IsValid (fence_history sha256 steps empty_db) × IsSingle (fence_history sha256 steps empty_db)
fence_history-IsSingle_example =
    fence_history-IsSingle sha256 steps empty_db empty_db-IsValid empty_db-IsSingle
