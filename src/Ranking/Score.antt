-- ===== src/Ranking/Score.antt =====
-- `rank_opportunity` of apps/api/app/ranking/ranker.py on the scores of its features. A raw score is a
-- decimal, a numerator over a power of ten; a bounded score is a number of hundred-thousandths. Times
-- are aware of their zone.
pub mod Bounds
use Prim.Native.Nat.{min}
use procure_delta.Prelude.{
  ℕ, suc, ◌+◌, ◌-◌, ◌*◌, ◌/◌, ◌^◌, String, Bool, true, false, not, ◌&&◌, ◌||◌, Option, none, some,
  List, ltb, leb, ◌==◌, if◌then◌else◌,
}
use procure_delta.Prelude.Actions.{Result, ok, err}
use procure_delta.Prelude.Int.{ℤ, pos, negsuc}
use procure_delta.Lifecycle.Candidate.{is_empty}

pub record Decimal : Type 0 where
  pub numerator : ℤ
  pub scale : ℕ

-- The quotient, rounded half to even.
unfoldable pub half_even : ℕ → ℕ → ℕ
half_even a d =
    let q = a / d in
    let r = a - q * d in
    if ltb (r + r) d
    then q
    else if ltb d (r + r)
    then suc q
    else if (q - (q / 2) * 2) == 0
    then q
    else suc q

-- `_bounded` on a raw score
unfoldable pub bounded_score : Decimal → ℕ
bounded_score d = elim d.numerator [
  | negsuc n ↦ 0
  | pos n ↦ if leb (10 ^ d.scale) n then 100000 else half_even (n * 100000) (10 ^ d.scale)
]

-- `_bounded` on a weighted sum of bounded scores, whose weights are hundredths
unfoldable pub bounded_sum : ℕ → ℕ
bounded_sum n = half_even (min 10000000 n) 100

-- What the functions of features.py return.
pub record RawScores : Type 0 where
  pub lexical : Decimal
  pub capability : Decimal
  pub category : Decimal
  pub amount : Decimal
  pub recency_deadline : Decimal

pub record Features : Type 0 where
  pub lexical : ℕ
  pub capability : ℕ
  pub category : ℕ
  pub amount : ℕ
  pub recency_deadline : ℕ

abbrev pub features_of : RawScores → Features
features_of raw = record {
  lexical = bounded_score raw.lexical;
  capability = bounded_score raw.capability;
  category = bounded_score raw.category;
  amount = bounded_score raw.amount;
  recency_deadline = bounded_score raw.recency_deadline;
}

-- The weights, in hundredths.
unfoldable pub weighted : Features → ℕ
weighted f =
    25 * f.lexical + 25 * f.capability + 20 * f.category + 15 * f.amount + 15 * f.recency_deadline

pub record RankingEligibility : Type 0 where
  pub eligible : Bool
  pub hard_failure_codes : List String
  pub warning_codes : List String

abbrev pub gate_allows : RankingEligibility → Bool
gate_allows e = e.eligible && is_empty e.hard_failure_codes && is_empty e.warning_codes

-- A reranker: the bound on its candidates, and its score of this one.
pub record SemanticReranker : Type 0 where
  pub max_candidates : ℕ
  pub score : Decimal

pub data DeadlineState : Type 0 where
  unknown open_until expired : DeadlineState

abbrev pub deadline_state : ℕ → Option ℕ → DeadlineState
deadline_state as_of none = unknown
deadline_state as_of (some deadline) = if leb as_of deadline then open_until else expired

abbrev pub is_expired : DeadlineState → Bool
is_expired expired = true
is_expired unknown = false
is_expired open_until = false

pub record RankingDecision : Type 0 where
  pub features : Features
  pub feature_score : ℕ
  pub semantic_score : Option ℕ
  pub final_score : ℕ
  pub recommended : Bool
  pub deadline : DeadlineState

-- The reranker's bound is not between 1 and 20.
pub data RankingError : Type 0 where
  candidate_bound : RankingError

-- RECOMMENDATION_THRESHOLD
abbrev pub threshold : ℕ
threshold = 60000

abbrev pub ranked :
    Features → ℕ → Option ℕ → ℕ → RankingEligibility → DeadlineState → RankingDecision
ranked features score semantic final e state = record {
  features = features;
  feature_score = score;
  semantic_score = semantic;
  final_score = final;
  recommended = gate_allows e && not (is_expired state) && leb threshold final;
  deadline = state;
}

unfoldable pub rank_with :
    Features
    → RankingEligibility
    → DeadlineState
    → Option SemanticReranker
    → Result RankingError RankingDecision
rank_with f e state none =
    let score = bounded_sum (weighted f) in ok (ranked f score none score e state)
rank_with f e state (some reranker) =
    let score = bounded_sum (weighted f) in
    if leb 1 reranker.max_candidates && leb reranker.max_candidates 20
    then (let semantic = bounded_score reranker.score in
        ok (ranked f score (some semantic) (bounded_sum (80 * score + 20 * semantic)) e state))
    else err candidate_bound

abbrev pub enabled_reranker : Bool → Option SemanticReranker → Option SemanticReranker
enabled_reranker true r = r
enabled_reranker false r = none

unfoldable pub rank_opportunity :
    RawScores
    → RankingEligibility
    → ℕ
    → Option ℕ
    → Option SemanticReranker
    → Bool
    → Result RankingError RankingDecision
rank_opportunity raw e as_of deadline reranker enabled =
    rank_with (features_of raw) e (deadline_state as_of deadline)
      (enabled_reranker enabled reranker)
