-- ===== src/Runner/Resume.antt =====
-- How `main` of load/review-baseline.py begins: the options, a new record of the experiment, and the one
-- that an old experiment is resumed with.
pub mod Preserved
use receipt_expense_review.Prelude.{
  ℕ, String, Bool, false, ◌&&◌, none, List, [], ◌∷◌, ◌++◌, map, leb, if◌then◌else◌, ◌==◌, nat_eq,
  string_eq, length, contains, distinct, Result, ok, ◌>>◌, require,
}
use receipt_expense_review.Reports.{Combination, combination_eq}
use receipt_expense_review.Optimized.{Row, sort_by_start}
use receipt_expense_review.Runner.{Load, Experiment, Error}

-- The options; `experiment` is whether one was named, `suffix` the end of its name,
-- in lower case.
pub record Arguments : Type 0 where
  pub load : Load
  pub repeats : ℕ
  pub profile_only : Bool
  pub experiment : Bool
  pub resume : Bool
  pub suffix : String

abbrev pub in_bounds : Arguments → Bool
in_bounds args =
    leb 1 args.load.rate
    && (leb args.load.rate 100
        && (leb 5 args.load.seconds
            && (leb 5 args.load.warmup && (leb 1 args.repeats && leb args.repeats 3))))

abbrev pub fresh_experiment : Arguments → ℕ → Experiment
fresh_experiment args original_count = record {
  load = args.load;
  repeats = args.repeats;
  original_receipt_count = original_count;
  original_receipt_count_after = none;
  datasets = [];
  runs = [];
  completed = false;
  restored_original_database = false;
  resumes = [];
}

abbrev pub same_load : Load → Load → Bool
same_load a b = a.rate == b.rate && (a.seconds == b.seconds && a.warmup == b.warmup)

-- The loop over the files that no recorded run has come from.
unfoldable pub add_saved : List Row → List Row → List Row
add_saved [] runs = runs
add_saved (row ∷ files) runs =
    if contains (map (λ r. r.run_id) runs) row.run_id
    then add_saved files runs
    else add_saved files (runs ++ row ∷ [])

abbrev pub combinations : List Row → List Combination
combinations runs = map (λ r. r.combination) runs

-- `metadata` of a resumed experiment.
unfoldable pub resumed : Arguments → ℕ → Experiment → List Row → Result Error Experiment
unfolding add_saved
resumed args original_count old files =
    let runs = sort_by_start (add_saved files old.runs) in
    require (same_load old.load args.load && old.repeats == args.repeats) Error.different_load
    >> (require (old.original_receipt_count == original_count) Error.original_count_changed
        >> (require (distinct (combinations runs)) Error.repeated_combination
            >> ok (record old {
              runs = runs;
              completed = false;
              restored_original_database = false;
              resumes = old.resumes ++ length runs ∷ [];
            })))
