-- ===== src/Sql/Delta/Tests.antt =====
-- Runs of the delta functions on small snapshots, and the theorems at those inputs.
use receipt_expense_review.Prelude.{
  ℕ, ◌*◌, ◌≡◌, refl, true, false, some, [], ◌∷◌, nat_eq, string_eq, contains, Dict, lookup, ok, err,
}
use receipt_expense_review.Prelude.Int.{pos, ◌+ℤ◌}
use receipt_expense_review.Sql.{Kind, kind_eq, Row, Snapshot, Totals, plus}
use receipt_expense_review.Sql.Delta.{
  unknown_kind, read_kinds, sql_delta, optimized_kinds, optimized_delta,
}
use receipt_expense_review.Sql.Delta.Accounting.{
  spent, changed, sql_delta-counts, optimized_delta-counts, optimized_delta-raises,
}

abbrev row_of : Kind → ℕ → Row
row_of k n = record {
  kind = k;
  counters = record { count = n; timer = n * 7; rows_examined = n * 20; rows_sent = n; errors = 0 };
}

abbrev first : Snapshot
first = ("a", row_of Kind.employee 5) ∷ ("b", row_of Kind.count 2) ∷ []

abbrev second : Snapshot
second =
    ("a", row_of Kind.employee 9) ∷ ("b", row_of Kind.count 2) ∷ ("c", row_of Kind.employee 1) ∷ []

abbrev reads : Snapshot
reads =
    ("a", row_of Kind.employee 9) ∷ ("d", row_of Kind.job 4) ∷ ("e", row_of Kind.employee 3) ∷ []

-- `sql_delta-counts` at two digests of the employee query and one of the job query.
sql_delta-counts_example :
    (t : Dict Kind Totals) × (sql_delta first reads ≡ ok t)
    × ((k : Kind) → contains read_kinds k ≡ true → lookup k t ≡ some (spent k first reads))
sql_delta-counts_example = sql_delta-counts first reads (refl, (refl, (refl, tt)))

-- The COUNT query was not called again, so it may be outside the active kinds.
optimized_delta-counts_example :
    (t : Dict Kind Totals) × (optimized_delta read_kinds first second ≡ ok t)
    × ((k : Kind)
        → contains read_kinds k ≡ true
        → lookup k t ≡ some (spent k first (changed first second)))
optimized_delta-counts_example = optimized_delta-counts read_kinds first second (refl, (refl, tt))

optimized_delta-raises_example :
    (k : Kind) × (contains optimized_kinds k ≡ false)
    × (optimized_delta optimized_kinds [] (("l", row_of Kind.list 1) ∷ second)
        ≡ err (unknown_kind k))
optimized_delta-raises_example =
    optimized_delta-raises optimized_kinds [] (("l", row_of Kind.list 1) ∷ second) refl

spent-second : spent Kind.employee first second ≡ record {
  count = pos 5;
  timer = pos 35;
  rows_examined = pos 100;
  rows_sent = pos 5;
  errors = pos 0;
}
unfolding spent plus ◌+ℤ◌
spent-second = refl
