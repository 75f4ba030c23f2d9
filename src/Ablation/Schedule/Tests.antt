-- ===== src/Ablation/Schedule/Tests.antt =====
-- The schedule of the two data sets, and the theorems at it.
use receipt_expense_review.Prelude.{ℕ, ◌≡◌, refl, List, [], ◌∷◌, nat_eq, string_eq, length, All}
use receipt_expense_review.Fixture.{Scenario}
use receipt_expense_review.Ablation.{Variant, Key}
use receipt_expense_review.Ablation.Schedule.{schedule}
use receipt_expense_review.Ablation.Schedule.Coverage.{
  times, schedule-times, IsBalanced, schedule-IsBalanced,
}

abbrev counts : List ℕ
counts = 10000 ∷ 100000 ∷ []

schedule-length : length (schedule counts) ≡ 24
unfolding schedule
schedule-length = refl

abbrev key : Key
key = record {
  dataset = 100000;
  scenario = Scenario.status_period;
  repeat = 2;
  variant = Variant.id_first;
}

schedule-times_example : times key (schedule counts) ≡ 1
unfolding times
schedule-times_example = schedule-times key counts

schedule-IsBalanced_example : All IsBalanced (schedule counts)
schedule-IsBalanced_example = schedule-IsBalanced counts
