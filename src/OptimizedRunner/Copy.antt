-- ===== src/OptimizedRunner/Copy.antt =====
-- `copy_dataset` of load/review-optimized.py: a data set is copied into an empty database only.
pub mod Guarded
use receipt_expense_review.Prelude.{
  ℕ, String, Bool, not, ◌&&◌, ◌||◌, List, [], ◌∷◌, if◌then◌else◌, ◌==◌, nat_eq, string_eq,
}
use receipt_expense_review.Program.{World, pure, ◌>>=◌, ◌>>◌, check, gather}
use receipt_expense_review.Runner.{Error, Action, Reply}
use receipt_expense_review.Runner.Setup.{ask}
use receipt_expense_review.OptimizedRunner.{Script, same_list, same_text}

-- `TABLES`, and `counts` of them
pub record Counts : Type 0 where
  pub employees : ℕ
  pub receipts : ℕ
  pub receipt_extraction_jobs : ℕ

abbrev pub tables : List String
tables = "employees" ∷ "receipts" ∷ "receipt_extraction_jobs" ∷ []

-- `any(counts.values())`
abbrev pub any_rows : Counts → Bool
any_rows c =
    not (c.employees == 0) || (not (c.receipts == 0) || not (c.receipt_extraction_jobs == 0))

abbrev pub is_full_copy : ℕ → Counts → Bool
is_full_copy count c =
    c.receipts == count && (c.receipt_extraction_jobs == count && c.employees == 101)

module _ (world : World Action Reply) where
  unfoldable pub table_counts : String → Script Counts
  table_counts target = do
    employees ← ask world (Action.count_rows "employees" target)
    receipts ← ask world (Action.count_rows "receipts" target)
    jobs ← ask world (Action.count_rows "receipt_extraction_jobs" target)
    pure (record { employees = employees; receipts = receipts; receipt_extraction_jobs = jobs })

  -- The INSERTs of all tables are one call, in one transaction.
  unfoldable pub insert_tables : String → String → Script (Unit {0})
  insert_tables source target = do
    columns ← gather tables λ table. do
      names ← ask world (Action.table_columns table source)
      others ← ask world (Action.table_columns table target)
      check (same_list same_text names others) Error.columns_differ
      pure (table, names)
    ask world (Action.copy_tables source target columns)

  abbrev pub copy_counted : String → String → ℕ → Counts → Script (Unit {0})
  copy_counted source target count counts =
      if any_rows counts
      then check (is_full_copy count counts) Error.incomplete_copy
      else insert_tables source target

  unfoldable pub copy_dataset : String → String → ℕ → Script (Unit {0})
  copy_dataset source target count = table_counts target >>= copy_counted source target count
