-- ===== src/Delta/Tests.antt =====
-- `classify_impact` of apps/api/app/delta/rules.py on a change of budget and of regions.
use procure_delta.Prelude.{◌≡◌, ◌≤◌, refl, some, List, [], ◌∷◌}
use procure_delta.Prelude.Int.{pos}
use procure_delta.Delta.Impact.{
  Change, attachments, added, budget, regions, change_reasons, all_reasons, classify_impact,
  level_of, high,
}
use procure_delta.Delta.Impact.Severity.{worst_change, classify_impact_lem}

abbrev tightened : List Change
tightened =
    attachments (added ∷ [])
    ∷ budget (some (record { estimated_amount = pos 10; currency = "KRW" }))
        (some (record { estimated_amount = pos 20; currency = "KRW" }))
    ∷ regions (some []) (some ("Seoul" ∷ []))
    ∷ []

tightened_impact : classify_impact tightened ≡ record {
  level = some high;
  reason_codes = "attachment_added" ∷ "budget_increased" ∷ "region_restriction_added" ∷ [];
}
unfolding classify_impact all_reasons change_reasons
tightened_impact = refl

classify_impact_lem_example :
    ((classify_impact tightened).level ≡ level_of (worst_change tightened))
    × (worst_change tightened ≤ 2)
classify_impact_lem_example = classify_impact_lem tightened
