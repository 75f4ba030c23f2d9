-- ===== src/OptimizedRunner/Classify.antt =====
-- `classify` of load/review-optimized.py, by regular expressions that `Tools` searches for.
use receipt_expense_review.Prelude.{
  String, not, ◌&&◌, ◌||◌, Option, none, some, if◌then◌else◌, nat_eq, string_eq,
}
use receipt_expense_review.Sql.{Kind}
use receipt_expense_review.Runner.Text.{occurs_in}
use receipt_expense_review.OptimizedRunner.{Tools}

module _ (tools : Tools) where
  -- `sql` without back quotes and needless spaces, in lower case
  abbrev normal_text : String → String
  normal_text sql =
      tools.substitute "\\s*\\.\\s*" "."
        (tools.lower_strip (tools.substitute "\\s+" " " (tools.substitute "`" "" sql)))

  abbrev classify_receipts : String → Option Kind
  classify_receipts text =
      if tools.search "\\bwhere\\s+(?:\\w+\\.)?id\\s+in\\s*\\(" text
      then some Kind.entities
      else if not (occurs_in "owner_employee_id" text) || not (occurs_in " where " text)
      then none
      else if tools.starts "select\\s+count\\s*\\(" text
      then some Kind.count
      else if tools.starts "select\\s+(?:\\w+\\.)?id\\s+from\\s+receipts\\b" text
      then some Kind.ids
      else some Kind.list

  abbrev classify_text : String → Option Kind
  classify_text text =
      if not (tools.starts "select " text)
      then none
      else if tools.search "\\bfrom employees\\b" text && tools.search "\\blogin_id\\s*=" text
      then some Kind.employee
      else if tools.search "\\bfrom receipt_extraction_jobs\\b" text
          && tools.search "\\breceipt_id\\s+in\\s*\\(" text
      then some Kind.jobs
      else if not (tools.search "\\bfrom receipts\\b" text)
      then none
      else classify_receipts text

  unfoldable pub classify : String → Option Kind
  classify sql = classify_text (normal_text sql)
