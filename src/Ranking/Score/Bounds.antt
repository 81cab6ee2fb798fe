-- ===== src/Ranking/Score/Bounds.antt =====
-- What a recommendation of apps/api/app/ranking/ranker.py says of the deterministic score.
use Prim.Native.Nat.{min}
use mathlib.Core.Path.{subst}
use native.Mathlib.Nat.{div-lt_iff_lt-mul}
use procure_delta.Prelude.{
  arith, ℕ, suc, ◌+◌, ◌*◌, ◌/◌, ◌^◌, ◌≤◌, ◌<◌, ◌≡◌, Bool, true, false, not, ◌&&◌, Option, none,
  some, leb, if◌then◌else◌, Bool-cases, inl, inr,
}
use procure_delta.Prelude.Actions.{Result, ok, err}
use procure_delta.Prelude.Int.{ℤ, pos, negsuc}
use procure_delta.Ranking.Score.{
  Decimal, half_even, bounded_score, bounded_sum, RawScores, Features, features_of, weighted,
  RankingEligibility, gate_allows, SemanticReranker, DeadlineState, deadline_state, is_expired,
  RankingDecision, RankingError, threshold, rank_with, enabled_reranker, rank_opportunity,
}

-- Rounding moves a number by half a unit at most.
half_even_le : (a : ℕ) → half_even a 100 * 100 ≤ a + 50
unfolding half_even
half_even_le a = ground arith

half_even_max : (a : ℕ) → a ≤ 10000000 → half_even a 100 ≤ 100000
unfolding half_even
half_even_max a h = ground arith

half_even_step : (a d : ℕ) → half_even a d ≤ suc (a / d)
unfolding half_even
half_even_step a d = ground arith

numerator_le :
    (n : ℤ) (d : ℕ)
    → (elim n as (λ _. ℕ) [
      | negsuc k ↦ 0
      | pos k ↦ if leb d k then 100000 else half_even (k * 100000) d
    ])
      ≤ 100000
numerator_le (negsuc k) d = ground arith
numerator_le (pos k) d = elim (Bool-cases (leb d k)) [
  | inl e ↦ rw e (ground arith)
  | inr e ↦
      let less : k < d = ground arith in
      let quotient : k * 100000 / d < 100000 =
        (div-lt_iff_lt-mul {k = d} {x = k * 100000} {y = 100000} (ground arith)).1 (ground arith) in
      let step = half_even_step (k * 100000) d in rw e (omega arith)
]

bounded_score_le : (d : Decimal) → bounded_score d ≤ 100000
unfolding bounded_score
bounded_score_le d = numerator_le d.numerator (10 ^ d.scale)

bounded_sum_le : (n : ℕ) → bounded_sum n ≤ 100000
unfolding bounded_sum
bounded_sum_le n = half_even_max (min 10000000 n) (ground arith)

-- The reranker's share is too small to lift a score below one half to the threshold.
lifted :
    (score semantic : ℕ)
    → semantic ≤ 100000
    → threshold ≤ bounded_sum (80 * score + 20 * semantic)
    → 50000 ≤ score
unfolding bounded_sum
lifted score semantic h reached =
    let near = half_even_le (min 10000000 (80 * score + 20 * semantic)) in ground arith

-- What a decision ensures where it recommends.
abbrev pub Earned : RankingEligibility → DeadlineState → RankingDecision → Type 0
Earned e state d =
    (gate_allows e ≡ true)
    × (is_expired state ≡ false)
    × (threshold ≤ d.final_score)
    × (50000 ≤ d.feature_score)
    × (d.final_score ≤ 100000)

abbrev IsEarned : RankingEligibility → DeadlineState → Result RankingError RankingDecision → Type 0
IsEarned e state (err _) = Unit
IsEarned e state (ok d) = d.recommended ≡ true → Earned e state d

recommended_parts :
    (a b c : Bool) → (a && not b && c) ≡ true → (a ≡ true) × (b ≡ false) × (c ≡ true)
recommended_parts a b c h = ground arith

reached_le : (n : ℕ) → leb threshold n ≡ true → threshold ≤ n
reached_le n h = ground arith

rank_with-IsEarned :
    (f : Features) (e : RankingEligibility) (state : DeadlineState) (r : Option SemanticReranker)
    → IsEarned e state (rank_with f e state r)
unfolding rank_with
rank_with-IsEarned f e state none = λ h.
    let (a, b, c) = recommended_parts (gate_allows e) (is_expired state) _ h in
    let score = bounded_sum (weighted f) in
    let reached = reached_le score c in (a, b, reached, omega arith, bounded_sum_le (weighted f))
rank_with-IsEarned f e state (some r) =
    elim (Bool-cases (leb 1 r.max_candidates && leb r.max_candidates 20)) [
      | inr bad ↦ rw bad tt
      | inl good ↦ rw good (λ h.
          let (a, b, c) = recommended_parts (gate_allows e) (is_expired state) _ h in
          let score = bounded_sum (weighted f) in
          let semantic = bounded_score r.score in
          let reached = reached_le (bounded_sum (80 * score + 20 * semantic)) c in
          (
            a,
            b,
            reached,
            lifted score semantic (bounded_score_le r.score) reached,
            bounded_sum_le (80 * score + 20 * semantic),
          ))
    ]

-- An opportunity is recommended only where the eligibility gate allows it and its deadline has not
-- passed, with a final score between 0.6 and 1; and even where a semantic reranker takes part, the
-- deterministic score is at least one half.
pub recommended-Earned :
    (raw : RawScores) (e : RankingEligibility) (as_of : ℕ) (deadline : Option ℕ)
    (r : Option SemanticReranker) (enabled : Bool) (d : RankingDecision)
    → rank_opportunity raw e as_of deadline r enabled ≡ ok d
    → d.recommended ≡ true
    → Earned e (deadline_state as_of deadline) d
recommended-Earned raw e as_of deadline r enabled d h =
    subst (IsEarned e (deadline_state as_of deadline)) h (
      unfold rank_opportunity in
      (rank_with-IsEarned (features_of raw) e (deadline_state as_of deadline)
        (enabled_reranker enabled r)))
