-- ===== src/Sql/Assess.antt =====
-- `assess_sql` of load/run-reads.py, and the checks that `serial_probe` and `run` make of the counts.
pub mod Tolerance
mod Tests
use receipt_expense_review.Prelude.{
  ℕ, zero, suc, ◌+◌, ◌*◌, ◌/◌, max, Bool, true, false, ◌&&◌, List, [], ◌∷◌, leb, if◌then◌else◌,
  ◌==◌, nat_eq, string_eq, all, Dict, lookup, Result, ok, ◌>>=◌, ◌>>◌, or_raise,
}
use receipt_expense_review.Prelude.Int.{ℤ, pos, sub_ℕ, ◌+ℤ◌, abs, negsuc}
use receipt_expense_review.Sql.{Kind, kind_eq, Totals}

-- `before` and `after` the improvement
pub data Phase : Type 0 where
  before after : Phase

pub record Assessment : Type 0 where
  pub expected : ℕ
  pub observed : ℤ
  pub difference : ℤ
  pub allowed_difference : ℕ
  pub within_tolerance : Bool

pub data Error : Type 0 where
  key_error : Kind → Error
  image_differs answer_differs serial_failed : Error

-- `max(1, math.ceil(value * 0.001))`
abbrev pub allowed : ℕ → ℕ
allowed value = max 1 ((value + 999) / 1000)

abbrev pub minus : ℤ → ℕ → ℤ
minus a zero = a
minus a (suc n) = a +ℤ negsuc n

pub assess_kind : ℕ → ℤ → Assessment
assess_kind value observed = record {
  expected = value;
  observed = observed;
  difference = minus observed value;
  allowed_difference = allowed value;
  within_tolerance = leb (abs (minus observed value)) (allowed value);
}

-- `dict(employee=..., receipt=count, job=count)`
abbrev pub expected_employee : Phase → ℕ → ℕ
expected_employee Phase.before count = count * 2
expected_employee Phase.after count = count

abbrev pub expected_counts : Phase → ℕ → List (Kind × ℕ)
expected_counts phase count =
    (Kind.employee, expected_employee phase count) ∷ (Kind.receipt, count) ∷ (Kind.job, count) ∷ []

pub assess_loop : Dict Kind Totals → List (Kind × ℕ) → Result Error (Dict Kind Assessment)
unfolding assess_kind
assess_loop sql [] = ok []
assess_loop sql ((kind, value) ∷ expected) = do
  totals ← or_raise (lookup kind sql) (key_error kind)
  rest ← assess_loop sql expected
  ok ((kind, assess_kind value totals.count) ∷ rest)

unfoldable pub assess_sql : Dict Kind Totals → ℕ → Phase → Result Error (Dict Kind Assessment)
unfolding assess_loop
assess_sql sql count phase = assess_loop sql (expected_counts phase count)

-- `checks['sqlWithinTolerance']` of `run`
abbrev pub sql_within_tolerance : Dict Kind Assessment → Bool
sql_within_tolerance assessment = all (λ entry. entry.1.within_tolerance) assessment

abbrev pub int_is : ℤ → ℕ → Bool
int_is (pos n) m = n == m
int_is (negsuc n) m = false

-- `all(sql[k]['count'] == v and sql[k]['rowsSent'] == v for k, v in expected.items())`
unfoldable pub exact_counts : Dict Kind Totals → List (Kind × ℕ) → Result Error Bool
exact_counts sql [] = ok true
exact_counts sql ((kind, value) ∷ expected) =
    let rest = exact_counts sql expected in
    or_raise (lookup kind sql) (key_error kind) >>= λ totals.
    if int_is totals.count value && int_is totals.rows_sent value then rest else ok false
