-- ===== src/OptimizedRunner/Controls.antt =====
-- `check_baseline` and `prepare_controls` of load/review-optimized.py: the finished baseline, and two
-- loads of the old image on the same day.
use receipt_expense_review.Prelude.{
  ◌+str◌, decimal, ℕ, String, false, ◌&&◌, Option, none, some, List, [], ◌∷◌, ◌++◌, map,
  if◌then◌else◌, ◌==◌, nat_eq, string_eq, length, all, Dict, lookup, Result, ok, err, or_raise,
}
use receipt_expense_review.Program.{
  World, Program, pure, lift, gets, modify, ◌>>=◌, ◌>>◌, check, each, finally_do,
}
use receipt_expense_review.Sql.{Kind}
use receipt_expense_review.Fixture.{Scenario}
use receipt_expense_review.Reports.{datasets}
use receipt_expense_review.Optimized.{Row, collect_runs}
use receipt_expense_review.Optimized as Optimized
use receipt_expense_review.Runner.{
  Load, Measurement, Dataset, Experiment, Environment, Comparison, Error, Action, Reply,
}
use receipt_expense_review.Runner.Setup.{ask, configure_database}
use receipt_expense_review.Runner.Measure.{measure}
use receipt_expense_review.Runner.Baseline.{row_of}
use receipt_expense_review.OptimizedRunner.State.{
  hooks, is_home, original, fingerprint, app_state, environment, restore, app_tag,
}
use receipt_expense_review.OptimizedRunner.{Tools, Script, persist, update}

abbrev pub fixed_load : Load
fixed_load = record { rate = 20; seconds = 60; warmup = 30 }

abbrev pub control_kinds : List Kind
control_kinds = Kind.employee ∷ Kind.list ∷ Kind.count ∷ Kind.jobs ∷ []

abbrev pub collected : Result Optimized.Error (List Row) → Result Error (List Row)
collected (ok rows) = ok rows
collected (err e) = err (Error.collect_failed e)

abbrev pub script : String
script = "load/k6/review-queue.js"

-- `len(set(images)) == 1`, and that image
abbrev pub only_image : List String → Option String
only_image [] = none
only_image (image ∷ images) = if all (λ other. other == image) images then some image else none

-- `scripts` are the hashes that the baseline recorded, `current` the hash of the k6 script.
unfoldable pub check_baseline :
    {S : Type 0} → Experiment → Dict String String → String → Program Action S Error (Unit {0})
check_baseline baseline scripts current = do
  check (baseline.completed && length baseline.runs == 12) Error.no_experiment
  recorded ← lift (or_raise (lookup script scripts) Error.key_error)
  check (current == recorded) Error.scripts_changed

module _ (world : World Action Reply) (tools : Tools) (encode : Measurement → String) where
  -- `baseline['datasets'][str(count)]['database']`
  abbrev pub source_of : Experiment → ℕ → Script Dataset
  source_of baseline count = lift (or_raise (lookup count baseline.datasets) Error.no_dataset)

  unfoldable pub control : Experiment → String → ℕ → Script (Unit {0})
  control baseline before_image count = do
    source ← source_of baseline count
    rows ← ask world (Action.count_receipts source.database)
    check (rows == count) Error.wrong_dataset_count
    indexes ← ask world (Action.index_statistics source.database)
    check (indexes == 0) Error.index_present
    ask world (Action.make_directory (decimal count))
    prints ← fingerprint world tools source.database
    ask world (Action.save_fingerprint (decimal count +str "/fingerprint-before") prints)
    configure_database world source.database
    state ← app_state world tools
    check (state.image_id == before_image) Error.wrong_image
    result ←
        measure world (hooks world tools control_kinds) source.database
          (record { dataset = count; scenario = Scenario.all_pending; repeat = 1 }) fixed_load
    update λ m. record m { before_controls = m.before_controls ++ row_of encode result ∷ [] }
    persist world

  abbrev pub recollect_controls : Script (Unit {0})
  recollect_controls = do
    files ← ask world Action.control_results
    s ← gets (λ s. s)
    rows ← lift (collected (collect_runs files s.metadata.before_controls))
    update λ m. record m { before_controls = rows }

  unfoldable pub run_controls : Experiment → String → String → Script (Unit {0})
  run_controls baseline before_image original_image =
      finally_do
        (do
          ask world (Action.tag_image before_image app_tag)
          each datasets (control baseline before_image)
          update λ m. record m { controls_completed = length m.before_controls == 2 })
        (finally_do recollect_controls (restore world tools original_image))

  -- The new record of the experiment.
  unfoldable pub new_comparison :
      String → Experiment → ℕ → String → String → Dict String String → Environment → Comparison
  new_comparison path baseline rows original_image before_image scripts env = record {
    baseline_experiment = some path;
    original_receipt_count = rows;
    original_receipt_count_after = none;
    original_image_id = original_image;
    before_image_id = before_image;
    after_image_id = none;
    restored_image_id = none;
    before_controls = [];
    runs = [];
    datasets = [];
    scripts = scripts;
    environment = env;
    controls_completed = false;
    profile_completed = false;
    completed = false;
    restored_original_database = false;
    resumes = [];
  }

  -- Up to the `try`: the image of the baseline and the one the app had.
  unfoldable pub begin_controls : String → Experiment → Script (String × String)
  begin_controls path baseline = do
    initial ← app_state world tools
    check (is_home initial) Error.environment_refused
    prints ← fingerprint world tools original
    receipts ← lift (or_raise (lookup "receipts" prints) Error.key_error)
    check (receipts.rows == baseline.original_receipt_count) Error.original_count_changed
    image ← lift (or_raise (only_image (map tools.image_of baseline.runs)) Error.wrong_image)
    before_image ← ask world (Action.find_image image)
    ask world (Action.tag_image before_image ("receipt-expense-review:before-" +str path))
    ask world (Action.tag_image initial.image_id ("receipt-expense-review:original-" +str path))
    ask world (Action.make_directory "controls")
    ask world (Action.save_fingerprint "original-fingerprint-before" prints)
    env ← environment world tools
    scripts ← ask world Action.source_hashes
    modify λ s. record s {
      metadata =
          new_comparison path baseline receipts.rows initial.image_id before_image scripts env;
      proof = record { fixtures = []; datasets = [] };
    }
    persist world
    pure (before_image, initial.image_id)

  unfoldable pub prepare_controls : String → Experiment → Script (Unit {0})
  prepare_controls path baseline = do
    (before_image, original_image) ← begin_controls path baseline
    run_controls baseline before_image original_image
