-- ===== src/AblationRunner.antt =====
-- What load/review-index-ablation.py does around its loads, whose order and whose results are in
-- `Ablation`: `check_dataset`, `connect` and `restore`; the start and the
-- profiles are in the children.
pub mod Initialize
pub mod Profile
pub mod Verified
mod Tests
use receipt_expense_review.Prelude.{
  ◌+str◌, ℕ, String, Bool, false, not, ◌&&◌, Option, none, some, List, [], ◌∷◌, ◌==◌, nat_eq,
  string_eq, length, all, Dict, lookup, insert,
}
use receipt_expense_review.Program.{
  World, Program, pure, lift, gets, modify, ◌>>=◌, ◌>>◌, check, each, gather,
}
use receipt_expense_review.Ablation.{Variant}
use receipt_expense_review.Ablation.Schedule.{Item}
use receipt_expense_review.Ablation.Runs.{Row}
use receipt_expense_review.Runner.{Public, Dataset, Fingerprint, AppState, Error, Action, Reply}
use receipt_expense_review.Runner.Text.{occurs_in}
use receipt_expense_review.Runner.Setup.{ask}
use receipt_expense_review.OptimizedRunner.State.{fingerprint_of, app_state, environment, app_tag}
use receipt_expense_review.OptimizedRunner.{Tools, same_fingerprint, same_list, same_text}

-- The script's variables: `metadata`, `ACTIVE`, and `fixtures`, `checks` and
-- `passed` of `PROOF`. Of a fixture, `equal` is the first component.
pub record Memory : Type 0 where
  pub original_image_id : String
  pub active : Option Variant
  pub datasets : List (String × Dataset)
  pub runs : List Row
  pub schedule : List Item
  pub profile_completed : Bool
  pub completed : Bool
  pub restored_original_database : Bool
  pub fixtures : Dict String (Bool × Public)
  pub checks : Dict String Bool
  pub passed : Bool

abbrev pub Script : Type 0 → Type 0
Script A = Program Action Memory Error A

-- `TABLES`
abbrev pub tables : List String
tables =
    "employees" ∷ "receipts" ∷ "receipt_extraction_jobs" ∷ "audit_events" ∷ "idempotency_records"
    ∷ "account_bootstrap_lock" ∷ []

-- `all(PROOF['checks'].values())`
abbrev pub all_hold : Dict String Bool → Bool
all_hold checks = all (λ entry. entry.1) checks

abbrev pub index_fields : List String
index_fields = "status" ∷ "created_at" ∷ "id" ∷ "owner_employee_id" ∷ []

abbrev pub is_database : Option String → String → Bool
is_database none database = false
is_database (some found) database = found == database

abbrev pub note : String → Bool → Script (Unit {0})
note name holds = modify λ s. record s { checks = insert name holds s.checks }

-- `PROOF['checks'][name]`
abbrev pub is_noted : String → Dict String Bool → Bool
is_noted name checks = get_noted (lookup name checks)
  where
    get_noted : Option Bool → Bool
    get_noted none = false
    get_noted (some holds) = holds

abbrev pub is_full : Memory → Bool
is_full s = length s.runs == length s.schedule

-- The assignments of `passed` and `completed`.
abbrev pub judge : Memory → Memory
judge s =
    let passed = not (length s.checks == 0) && (all_hold s.checks && s.profile_completed) in
    record s { passed = passed; completed = is_full s && (s.profile_completed && passed) }

-- `named` is the test of the database's name by a regular expression.
module _ (world : World Action Reply) (tools : Tools) (named : ℕ → String → Bool) where
  unfoldable pub check_dataset : Option String → String → ℕ → Script (Unit {0})
  check_dataset recorded database count = do
    check (is_database recorded database && named count database) Error.no_dataset
    receipts ← ask world (Action.count_rows "receipts" database)
    check (receipts == count) Error.wrong_dataset_count
    jobs ← ask world (Action.count_rows "receipt_extraction_jobs" database)
    check (jobs == count) Error.wrong_dataset_count
    employees ← ask world (Action.count_rows "employees" database)
    check (employees == 101) Error.wrong_dataset_count
    unfinished ← ask world (Action.unfinished_jobs database)
    check (unfinished == 0) Error.data_changed
    columns ← ask world (Action.index_columns database)
    check (same_list same_text columns index_fields) Error.index_present
    versions ← ask world (Action.migrations database)
    check (versions == 1) Error.no_migration

  -- The image of a variant on a data set; nothing is created, copied or migrated.
  unfoldable pub connect : (Variant → String) → String → Variant → Script AppState
  connect images database variant = do
    ask world (Action.tag_image (images variant) app_tag)
    ask world (Action.write_override database)
    ask world (Action.recreate_app_on database)
    ask world Action.app_ready
    state ← app_state world tools
    check
        (state.image_id == images variant
          && occurs_in ("/" +str database +str "?") state.database_url)
        Error.wrong_image
    modify λ s. record s { active = some variant }
    pure state

  -- One fingerprint again, held against the first one.
  unfoldable pub compare_again : String → String → String → Script Bool
  compare_again database after before = do
    found ← fingerprint_of world tools tables database
    ask world (Action.save_fingerprint after found)
    first ← ask world (Action.read_fingerprint before)
    pure (same_fingerprint found first)

  unfoldable pub compare_dataset : String × Dataset → Script (Unit {0})
  compare_dataset (count, dataset) = do
    same ←
        compare_again dataset.database (count +str "/fingerprint-after")
          (count +str "/fingerprint-before")
    note (count +str "_data_unchanged") same

  -- The last steps: the verdict is saved before it is raised.
  unfoldable pub conclude : Script (Unit {0})
  conclude = do
    modify judge
    env ← environment world tools
    ask world (Action.save_environment "environment-end" env)
    s ← gets (λ s. s)
    ask world (Action.save_checks s.checks s.completed)
    check (all_hold s.checks) Error.restore_failed

  unfoldable pub finish : Bool → Script (Unit {0})
  finish restored = do
    modify λ s. record s {
      restored_original_database = restored;
      checks = insert "original_app_restored" restored s.checks;
    }
    conclude

  -- `metadata` is `s`.
  unfoldable pub restore_with : Memory → Script (Unit {0})
  restore_with s = do
    ask world (Action.tag_image s.original_image_id app_tag)
    ask world Action.recreate_app
    ask world Action.app_ready
    state ← app_state world tools
    same ←
        compare_again "receipt_loadtest" "original-fingerprint-after" "original-fingerprint-before"
    note "original_data_unchanged" same
    each s.datasets compare_dataset
    later ← gets (λ s. s)
    let restored =
        state.image_id == s.original_image_id
        && (occurs_in "/receipt_loadtest?" state.database_url
            && is_noted "original_data_unchanged" later.checks)
    finish restored

  unfoldable pub restore : Script (Unit {0})
  restore = gets (λ s. s) >>= restore_with
