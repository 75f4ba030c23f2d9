-- ===== src/Fixture/Tests.antt =====
-- Runs of `expected` and `seed`, and the theorems about them at those inputs.
use receipt_expense_review.Prelude.{
  ℕ, ◌+◌, ◌≡◌, refl, ◌≢◌, ◌↔◌, true, false, some, List, [], ◌∷◌, map, arith, nat_eq, string_eq, All,
  ok,
}
use receipt_expense_review.Fixture.{
  Scenario, period_start, period_end, expected, Item, Answer, mismatch,
}
use receipt_expense_review.Fixture.Pages.{
  pages_up_to, AreListed, pages_tile, IsReviewable, accepted_answer,
}
use receipt_expense_review.Fixture.Queue.{
  Receipt, seed, find_review_queue_ids, request_of, from_date, to_date,
}
use receipt_expense_review.Fixture.Queue.Refinement.{review_queue-eq-expected}
use mathlib.Core.List.{Perm}

-- Receipts 100 to 103 and 120 to 123 belong to employee 2 and are pending.
expected-130 :
    expected 130 Scenario.all_pending 0
    ≡ record { ids = 120 ∷ 101 ∷ 123 ∷ 100 ∷ 122 ∷ 103 ∷ 121 ∷ 102 ∷ []; total = 8; page = 0 }
unfolding expected
expected-130 = refl

pages_tile_example : AreListed 130 Scenario.all_pending (pages_up_to 130 Scenario.all_pending 1)
unfolding expected
pages_tile_example = pages_tile 130 Scenario.all_pending 1 (omega arith)

abbrev item : ℕ → Item
item n = record { id = n; owner_employee_id = some 2; job_completed = true }

abbrev answer : Answer
answer = record {
  content = map item (120 ∷ 101 ∷ 123 ∷ 100 ∷ 122 ∷ 103 ∷ 121 ∷ 102 ∷ []);
  total_elements = 8;
  total_pages = 1;
  page_number = 0;
  has_next = false;
}

accepted_answer_example :
    (map (λ r. r.id) answer.content ≡ (expected 130 Scenario.all_pending 0).ids)
    × (answer.total_elements ≡ (expected 130 Scenario.all_pending 0).total)
    × (answer.page_number ≡ 0)
    × ((answer.has_next ≡ true) ↔ ((expected 130 Scenario.all_pending (0 + 1)).ids ≢ []))
    × All IsReviewable answer.content
unfolding mismatch expected
accepted_answer_example = accepted_answer answer 130 Scenario.all_pending 0 refl

review_queue-eq-expected_example :
    (rows : List Receipt) × (seed [] 130 ≡ ok rows)
    × ((table : List Receipt)
        → Perm table rows
        → find_review_queue_ids 1 (request_of Scenario.all_pending 0) table ≡ (
          (expected 130 Scenario.all_pending 0).ids,
          (expected 130 Scenario.all_pending 0).total,
        ))
review_queue-eq-expected_example = review_queue-eq-expected Scenario.all_pending 0 130 (omega arith)

-- The Korean dates of the request are the bounds of the generator.
period_dates : (from_date 335 ≡ period_start) × (to_date 364 ≡ period_end)
period_dates = (refl, refl)
