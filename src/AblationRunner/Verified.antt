-- ===== src/AblationRunner/Verified.antt =====
-- What holds when `restore` of load/review-index-ablation.py returns.
pub mod Concluded
mod Unchanged
use receipt_expense_review.Prelude.{ℕ, String, Bool, List, nat_eq, All}
use receipt_expense_review.Program.{Machine, World, ◌>>=◌, ◌>>◌, check}
use receipt_expense_review.Runner.{Dataset, Action, Reply}
use receipt_expense_review.OptimizedRunner.{Tools}
use receipt_expense_review.OptimizedRunner.Found.{IsHome, IsUnchanged}
use Unchanged.{DatasetUnchanged}
use receipt_expense_review.AblationRunner.{Memory, tables}

module _ (world : World Action Reply) (tools : Tools) (named : ℕ → String → Bool) where
  -- What was found: the image on the original database right after the restart, the original data
  -- as they were recorded, and every data set as it was recorded.
  pub record WasRestored (image : String) (datasets : List (String × Dataset))
      (before : List Action) : Type 0 where
    pub after : Machine Action Memory
    pub home : IsHome world tools image before after
    pub unchanged :
        IsUnchanged world tools tables "receipt_loadtest" "original-fingerprint-after"
          "original-fingerprint-before" after
    pub datasets_unchanged :
        All
          (λ d. (start : Machine Action Memory) × DatasetUnchanged world tools named d start)
          datasets
