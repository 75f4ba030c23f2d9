-- ===== src/Optimized/Tests.antt =====
-- Two runs, one of them recorded before, and the theorem at them.
use receipt_expense_review.Prelude.{
  ℕ, String, ◌≡◌, refl, true, List, [], ◌∷◌, map, nat_eq, string_eq, All, contains, distinct, err,
}
use receipt_expense_review.Fixture.{Scenario}
use receipt_expense_review.Reports.{combination_eq, combination_beq}
use receipt_expense_review.Optimized.{Row, row_eq, collect_runs, result_changed, row_beq}
use receipt_expense_review.Optimized.Keeps.{IsNamed, collect_runs-keeps}

abbrev row : String → ℕ → ℕ → Row
row id repeat start = record {
  run_id = id;
  combination = record { dataset = 10000; scenario = Scenario.all_pending; repeat = repeat };
  start_ns = start;
  intact = true;
  evidence = true;
  rest = "{}";
}

abbrev files : List Row
files = row "review-a" 2 900 ∷ row "review-b" 1 400 ∷ []

abbrev existing : List Row
existing = row "review-b" 1 400 ∷ []

abbrev rows : List Row
rows = row "review-b" 1 400 ∷ row "review-a" 2 900 ∷ []

collect_runs-keeps_example :
    All (λ r. contains rows r ≡ true) existing
    × All (λ r. contains rows r ≡ true) files
    × (distinct (map (λ r. r.combination) rows) ≡ true)
unfolding collect_runs IsNamed row_beq combination_beq
collect_runs-keeps_example = collect_runs-keeps files existing rows (refl, tt) refl

-- A recorded result whose file has another start is refused.
altered : collect_runs files (row "review-b" 1 401 ∷ []) ≡ err (result_changed "review-b")
unfolding collect_runs row_beq combination_beq
altered = refl
