-- ===== src/Fixture/Queue.antt =====
-- The two ends of the fixture: the rows that `seed` of load/review-baseline.py inserts, and the
-- review queue of the service that reads them (ReceiptRepository.findReviewQueueIds with the order
-- and the dates of ReceiptListRequest).
pub mod Refinement
use receipt_expense_review.Prelude.{
  ℕ, ◌+◌, ◌-◌, ◌*◌, ◌%◌, Bool, true, false, not, ◌&&◌, Option, none, some, List, [], ◌∷◌, map, ltb,
  leb, nat_beq, if◌then◌else◌, ◌==◌, nat_eq, string_eq, length, take, drop, select, any, Result, ok,
  err,
}
use receipt_expense_review.Fixture.{
  Scenario, day, owner, created, range_from, page_size, slice_page, id_of, sort_rows, Expected,
}

pub data Status : Type 0 where
  auto_approved needs_review needs_recapture manual_entry unreadable approved rejected : Status

abbrev pub status_code : Status → ℕ
status_code Status.auto_approved = 0
status_code Status.needs_review = 1
status_code Status.needs_recapture = 2
status_code Status.manual_entry = 3
status_code Status.unreadable = 4
status_code Status.approved = 5
status_code Status.rejected = 6

abbrev pub status_beq : Status → Status → Bool
status_beq a b = nat_beq (status_code a) (status_code b)

-- A row of the table `receipts`, as far as the queue reads it.
pub record Receipt : Type 0 where
  pub id : ℕ
  pub owner_employee_id : Option ℕ
  pub status : Status
  pub created_at : ℕ

-- `CASE MOD(n,20) WHEN 0 THEN 'NEEDS_REVIEW' ...`
abbrev pub seed_status : ℕ → Status
seed_status n =
    if n % 20 == 0
    then Status.needs_review
    else if n % 20 == 1
    then Status.manual_entry
    else if n % 20 == 2
    then Status.needs_recapture
    else if n % 20 == 3
    then Status.unreadable
    else Status.auto_approved

abbrev pub seed_row : ℕ → Receipt
seed_row n = record {
  id = n;
  owner_employee_id = owner n;
  status = seed_status n;
  created_at = created n;
}

-- The cross join of five digits, `1+a.n+10*b.n+100*c.n+1000*d.n+10000*e.n`.
abbrev pub most_numbers : ℕ
most_numbers = 100000

numbers : List ℕ
numbers = range_from 1 most_numbers

pub data SeedError : Type 0 where
  not_empty : SeedError

-- `seed`: only into an empty table; `WHERE n <= {count} ORDER BY n`.
pub seed : List Receipt → ℕ → Result SeedError (List Receipt)
unfolding numbers
seed [] count = ok (map seed_row (select (λ n. leb n count) numbers))
seed (_ ∷ _) count = err not_empty

-- A request of the review queue; times as in `created`.
pub record Request : Type 0 where
  pub status_filter : Option Status
  pub from_inclusive : Option ℕ
  pub to_exclusive : Option ℕ
  pub page : ℕ
  pub size : ℕ

-- `REVIEW_PENDING_STATUSES`
abbrev pub pending : List Status
pending =
    Status.needs_review ∷ Status.manual_entry ∷ Status.needs_recapture ∷ Status.unreadable ∷ []

-- `:x is null or test(x)`
abbrev pub null_or {ℓ} : {A : Type ℓ} → (A → Bool) → Option A → Bool
null_or test none = true
null_or test (some a) = test a

-- `r.ownerEmployeeId is not null and r.ownerEmployeeId <> :reviewerId`
abbrev pub owned_by_other : ℕ → Option ℕ → Bool
owned_by_other reviewer none = false
owned_by_other reviewer (some o) = not (o == reviewer)

-- The `where` clause of `findReviewQueueIds`.
pub in_queue : ℕ → Request → Receipt → Bool
in_queue reviewer q r =
    owned_by_other reviewer r.owner_employee_id
    && (any (status_beq r.status) pending
        && (null_or (status_beq r.status) q.status_filter
            && (null_or (λ start. leb start r.created_at) q.from_inclusive
                && null_or (λ stop. ltb r.created_at stop) q.to_exclusive)))

abbrev pub sort_key : Receipt → ℕ × ℕ
sort_key r = (r.created_at, r.id)

-- `xs[page*size:(page+1)*size]`, the slice of a `PageRequest`
abbrev pub slice {ℓ} : {A : Type ℓ} → ℕ → ℕ → List A → List A
slice page size xs = take size (drop (page * size) xs)

-- The rows that the query selects, under `Sort.by(DESC, "createdAt", "id")`.
pub queue_rows : ℕ → Request → List Receipt → List (ℕ × ℕ)
unfolding in_queue
queue_rows reviewer q table = sort_rows (map sort_key (select (in_queue reviewer q) table))

-- The page of numbers and the total of the count query.
pub find_review_queue_ids : ℕ → Request → List Receipt → List ℕ × ℕ
unfolding queue_rows
find_review_queue_ids reviewer q table = (
  map id_of (slice q.page q.size (queue_rows reviewer q table)),
  length (queue_rows reviewer q table),
)

-- `fromInclusive` and `toExclusive`: a Korean date is nine hours ahead of UTC. Dates are days since
-- 2025-10-01.
abbrev pub from_date : ℕ → ℕ
from_date d = d * day - 9 * 3600

abbrev pub to_date : ℕ → ℕ
to_date d = (d + 1) * day - 9 * 3600

-- `CASES`: without a filter, or NEEDS_REVIEW from 2026-09-01 to 2026-09-30.
abbrev pub request_of : Scenario → ℕ → Request
request_of Scenario.all_pending page = record {
  status_filter = none;
  from_inclusive = none;
  to_exclusive = none;
  page = page;
  size = page_size;
}
request_of Scenario.status_period page = record {
  status_filter = some Status.needs_review;
  from_inclusive = some (from_date 335);
  to_exclusive = some (to_date 364);
  page = page;
  size = page_size;
}
