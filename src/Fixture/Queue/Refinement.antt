-- ===== src/Fixture/Queue/Refinement.antt =====
-- `expected` is what the review queue answers over the seeded table.
use receipt_expense_review.Prelude.{
  select-perm, ℕ, zero, suc, ◌+◌, ◌≤◌, ◌<◌, ◌≡◌, refl, ap, ◌∙◌, List, [], ◌∷◌, map, arith, leb,
  nat_eq, string_eq, select, ok,
}
use receipt_expense_review.Fixture.{
  Scenario, scenario_eq, range_from, is_listed, collect_rows, sort_rows, sorted_rows, expected,
}
use receipt_expense_review.Fixture.Order.{sort_rows_unique}
use receipt_expense_review.Fixture.Queue.{
  Receipt, seed_row, numbers, most_numbers, seed, in_queue, sort_key, queue_rows,
  find_review_queue_ids, request_of,
}
use mathlib.Core.List.{Perm}
use mathlib.Core.List.Perm

in_queue-seed_row :
    (case : Scenario) (page n : ℕ)
    → in_queue 1 (request_of case page) (seed_row n) ≡ is_listed case n
unfolding in_queue is_listed
in_queue-seed_row Scenario.all_pending page n = ground arith
in_queue-seed_row Scenario.status_period page n = ground arith

queue_of_seed :
    (case : Scenario) (page : ℕ) (ns : List ℕ)
    → map sort_key (select (in_queue 1 (request_of case page)) (map seed_row ns))
      ≡ collect_rows case ns
unfolding collect_rows
queue_of_seed case page [] = refl
queue_of_seed case page (n ∷ ns) =
    rw (in_queue-seed_row case page n) (ground (arith, queue_of_seed case page ns))

select-range_from_above :
    (count first left : ℕ) → count < first → select (λ n. leb n count) (range_from first left) ≡ []
select-range_from_above count first zero h = refl
select-range_from_above count first (suc left) h =
    ground (arith, select-range_from_above count (suc first) left)

select-range_from :
    (count first left k : ℕ)
    → first + k ≡ count + 1
    → k ≤ left
    → select (λ n. leb n count) (range_from first left) ≡ range_from first k
select-range_from count first left zero e h = select-range_from_above count first left (omega arith)
select-range_from count first zero (suc k) e h = absurd (omega arith)
select-range_from count first (suc left) (suc k) e h =
    ground (arith, select-range_from count (suc first) left k)

select-numbers :
    (count : ℕ) → count ≤ most_numbers → select (λ n. leb n count) numbers ≡ range_from 1 count
unfolding numbers
select-numbers count h = select-range_from count 1 most_numbers count (omega arith) h

-- Up to 100000 receipts, seeding an empty table succeeds with one row for each number.
seed_empty :
    (count : ℕ) → count ≤ most_numbers → seed [] count ≡ ok (map seed_row (range_from 1 count))
unfolding seed
seed_empty count h = rw (select-numbers count h) refl

queue_rows-seed :
    (case : Scenario) (page count : ℕ) (table : List Receipt)
    → Perm table (map seed_row (range_from 1 count))
    → queue_rows 1 (request_of case page) table ≡ sorted_rows count case
unfolding queue_rows sorted_rows
queue_rows-seed case page count table p =
    sort_rows_unique _ _ (Perm.map sort_key (select-perm (in_queue 1 (request_of case page)) p))
    ∙ ap sort_rows (queue_of_seed case page (range_from 1 count))

request-size :
    (case : Scenario) (page : ℕ)
    → ((request_of case page).size ≡ 20) × ((request_of case page).page ≡ page)
request-size Scenario.all_pending page = (refl, refl)
request-size Scenario.status_period page = (refl, refl)

-- For at most 100000 receipts the seed into an empty table succeeds, and in whatever order the
-- database holds the seeded rows, the review queue answers reviewer 1 with exactly the numbers and
-- the total of `expected`, on every page and in both scenarios.
pub review_queue-eq-expected :
    (case : Scenario) (page count : ℕ)
    → count ≤ most_numbers
    → (rows : List Receipt) × (seed [] count ≡ ok rows)
      × ((table : List Receipt)
          → Perm table rows
          → find_review_queue_ids 1 (request_of case page) table
            ≡ ((expected count case page).ids, (expected count case page).total))
unfolding find_review_queue_ids expected
review_queue-eq-expected case page count h = (
  map seed_row (range_from 1 count),
  seed_empty count h,
  λ table p.
      rw
        (
          queue_rows-seed case page count table p,
          (request-size case page).0,
          (request-size case page).1,
        )
        refl,
)
