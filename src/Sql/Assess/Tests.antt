-- ===== src/Sql/Assess/Tests.antt =====
-- The counts of three requests, and the theorems at them.
use receipt_expense_review.Prelude.{
  ℕ, refl, ◌≢◌, true, [], ◌∷◌, arith, nat_eq, string_eq, Dict, ok, err,
}
use receipt_expense_review.Prelude.Int.{pos, ◌+ℤ◌}
use receipt_expense_review.Sql.{Kind, Totals}
use receipt_expense_review.Sql.Assess.{
  Phase, Assessment, before, after, assess_sql, sql_within_tolerance,
}
use receipt_expense_review.Sql.Assess.Tolerance.{phases-apart}

abbrev counted : ℕ → Totals
counted n = record {
  count = pos n;
  timer = pos 1000;
  rows_examined = pos n;
  rows_sent = pos n;
  errors = pos 0;
}

abbrev sql : Dict Kind Totals
sql = (Kind.employee, counted 6) ∷ (Kind.receipt, counted 3) ∷ (Kind.job, counted 3) ∷ []

abbrev assessed : Phase → Dict Kind Assessment
assessed phase = elim (assess_sql sql 3 phase) [ ok a ↦ a | err e ↦ [] ]

phases-apart_example : sql_within_tolerance (assessed after) ≢ true
unfolding assess_sql ◌+ℤ◌
phases-apart_example =
    phases-apart sql 3 (assessed before) (assessed after) (omega arith) refl refl refl
