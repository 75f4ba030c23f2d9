-- ===== src/Reports/Plan.antt =====
-- The plan of twelve runs: `Counter(...) == Counter(...)` of load/report-review-comparison.py, and the
-- number and the set of load/report-review.py.
pub mod Complete
use receipt_expense_review.Prelude.{
  ℕ, Bool, ◌&&◌, List, ◌++◌, map, Eq, ◌==◌, nat_eq, string_eq, length, select, all, contains,
}
use receipt_expense_review.Reports.{Combination, combination_eq, Run, planned}

module _ {K : Type 0} ⦃e : Eq K⦄ where
  -- `Counter(ks)[k]`
  abbrev pub occurs : List K → K → ℕ
  occurs ks k = length (select (λ j. j == k) ks)

  -- `Counter(xs) == Counter(ys)`
  abbrev pub same_counts : List K → List K → Bool
  same_counts xs ys = all (λ k. occurs xs k == occurs ys k) (xs ++ ys)

  -- `set(xs) == set(ys)`
  abbrev pub same_set : List K → List K → Bool
  same_set xs ys = all (contains ys) xs && all (contains xs) ys

abbrev pub combinations : List Run → List Combination
combinations runs = map (λ r. r.combination) runs

-- The test in `validate_complete`.
unfoldable pub twelve_runs : List Run → Bool
unfolding planned
twelve_runs runs = (length runs == 12) && same_set (combinations runs) planned

-- The test in `validate_runs`.
unfoldable pub planned_runs : List Run → Bool
unfolding planned
planned_runs runs = same_counts (combinations runs) planned
