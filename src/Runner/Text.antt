-- ===== src/Runner/Text.antt =====
-- The texts that the runners read: the statement kinds of load/review-baseline.py (`snapshot`), the
-- path of a page, and Python's `in` and `endswith`.
use receipt_expense_review.Prelude.{
  ◌+str◌, decimal, ℕ, ◌-◌, String, Bool, true, false, ◌&&◌, ◌||◌, Option, none, some, if◌then◌else◌,
  ◌==◌, nat_eq, string_eq,
}
use Prim.Native.String.{len, slice}
use text.Mathlib.Text.{find?, starts_with}
use receipt_expense_review.Sql.{Kind}
use receipt_expense_review.Fixture.{Scenario}

-- `part in text`
unfoldable pub occurs_in : String → String → Bool
occurs_in part text = elim (find? text part) [ none ↦ false | some _ ↦ true ]

-- `text.endswith(part)`
abbrev pub ends_with : String → String → Bool
ends_with text part = slice text (len text - len part) (len text) == part

-- `CASES[case].replace('page=0', f'page={page}')`
abbrev pub queue_path : Scenario → ℕ → String
queue_path Scenario.all_pending page =
    "/api/receipts/review-queue?page=" +str decimal page +str "&size=20"
queue_path Scenario.status_period page =
    "/api/receipts/review-queue?page="
    +str decimal page
    +str "&size=20&status=NEEDS_REVIEW&from=2026-09-01&to=2026-09-30"

-- `str.upper` and `str.lower` are arguments.
module _ (upper : String → String) where
  -- The kind of a digest's text in `snapshot`.
  unfoldable pub statement_kind : String → Option Kind
  unfolding occurs_in
  statement_kind sql =
      if occurs_in "FROM `employees`" sql && occurs_in "`login_id` = ?" sql
      then some Kind.employee
      else if occurs_in "FROM `receipts`" sql
      then (if occurs_in "COUNT (" (upper sql) || occurs_in "COUNT(" (upper sql)
          then some Kind.count
          else some Kind.list)
      else if occurs_in "FROM `receipt_extraction_jobs`" sql && occurs_in "`receipt_id` IN" sql
      then some Kind.jobs
      else none

-- `starts_with` is the library's.
abbrev pub is_server_error : String → Bool
is_server_error status = starts_with status "5"

abbrev pub case_name : Scenario → String
case_name Scenario.all_pending = "all"
case_name Scenario.status_period = "status_period"
