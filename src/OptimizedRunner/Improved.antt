-- ===== src/OptimizedRunner/Improved.antt =====
-- `optimized` of load/review-optimized.py: twelve loads of the new image, or what is left of them.
pub mod Outcome
pub mod Home
use receipt_expense_review.Prelude.{
  ◌+str◌, decimal, ℕ, String, Bool, true, false, not, ◌&&◌, ◌||◌, Option, none, some, List, [], ◌∷◌,
  ◌++◌, if◌then◌else◌, ◌==◌, nat_eq, string_eq, length, all, contains, Dict, lookup, insert,
}
use receipt_expense_review.Program.{
  World, Program, pure, lift, gets, modify, ◌>>=◌, ◌>>◌, check, each, finally_do,
}
use receipt_expense_review.Reports.{Combination, combination_eq, datasets}
use receipt_expense_review.Optimized.{Row, collect_runs}
use receipt_expense_review.Runner.{
  Measurement, Dataset, Experiment, Fingerprint, AppState, Environment, Comparison, Proof, Error,
  Action, Reply,
}
use receipt_expense_review.Runner.Setup.{ask, configure_database}
use receipt_expense_review.Runner.Measure.{measure}
use receipt_expense_review.Runner.Resume.{combinations}
use receipt_expense_review.Runner.Baseline.{row_of, order}
use receipt_expense_review.OptimizedRunner.Copy.{copy_dataset}
use receipt_expense_review.OptimizedRunner.Profile.{profile, improved_kinds}
use receipt_expense_review.OptimizedRunner.Controls.{fixed_load, collected, source_of}
use receipt_expense_review.OptimizedRunner.State.{
  hooks, is_home, original, fingerprint, app_state, environment, restore, app_tag,
}
use receipt_expense_review.OptimizedRunner.{
  Memory, Tools, Script, same_fingerprint, persist, update,
}

-- The options and the paths: `baseline` is the resolved path of the baseline's experiment.
pub record Options : Type 0 where
  pub baseline : String
  pub image : String
  pub profile_only : Bool
  pub resume : Bool
  pub suffix : String

abbrev pub same_machine : Environment → Environment → Bool
same_machine a b =
    a.cpu_count == b.cpu_count
    && (a.memory_bytes == b.memory_bytes
        && (a.buffer_pool_bytes == b.buffer_pool_bytes && a.mysql_version == b.mysql_version))

abbrev pub same_settings : AppState → AppState → Bool
same_settings a b =
    a.rest == b.rest && (a.memory_bytes == b.memory_bytes && a.nano_cpus == b.nano_cpus)

abbrev pub shared_scripts : List String
shared_scripts =
    "load/review-baseline.py" ∷ "load/run-reads.py" ∷ "load/resource_monitor.py"
    ∷ "load/k6/review-queue.js" ∷ "infra/loadtest/compose.yml" ∷ []

abbrev same_option : Option String → Option String → Bool
same_option (some a) (some b) = a == b
same_option _ _ = false

abbrev pub unchanged_scripts : Dict String String → Dict String String → Bool
unchanged_scripts current recorded =
    all (λ name. same_option (lookup name current) (lookup name recorded)) shared_scripts

abbrev pub is_value : Option String → String → Bool
is_value none value = false
is_value (some found) value = found == value

-- `metadata.get('afterImageId', after_image) == after_image`
abbrev pub is_or_missing : Option String → String → Bool
is_or_missing none value = true
is_or_missing (some found) value = found == value

module _ (world : World Action Reply) (tools : Tools) (encode : Measurement → String)
    (options : Options) where
  -- The results on the disk and those recorded, before anything is changed.
  unfoldable pub take_up : Script (Unit {0})
  take_up = do
    metadata ← ask world Action.read_comparison
    check (is_value metadata.baseline_experiment options.baseline) Error.wrong_baseline
    proof ← ask world Action.read_proof
    modify λ s. record { metadata = metadata; proof = proof }
    control_files ← ask world Action.control_results
    controls ← lift (collected (collect_runs control_files metadata.before_controls))
    update λ m. record m { before_controls = controls }
    check (length controls == 2) Error.controls_missing
    files ← ask world Action.saved_results
    runs ← lift (collected (collect_runs files metadata.runs))
    check (length runs == 0 || options.resume) Error.results_exist
    update λ m. record m { runs = runs }

  -- The image and the machine have to be those of the earlier part; the app's image is returned.
  unfoldable pub check_machine : String → Script String
  check_machine after_image = do
    s ← gets (λ s. s)
    let m = s.metadata
    check (not (after_image == m.before_image_id)) Error.same_image
    check (is_or_missing m.after_image_id after_image) Error.wrong_image
    initial ← app_state world tools
    check (is_home initial) Error.environment_refused
    now ← fingerprint world tools original
    before ← ask world (Action.read_fingerprint "original-fingerprint-before")
    check (same_fingerprint now before) Error.data_changed
    env ← environment world tools
    check (same_machine env m.environment) Error.environment_refused
    hashes ← ask world Action.source_hashes
    check (unchanged_scripts hashes m.scripts) Error.scripts_changed
    update λ old. record old {
      after_image_id = some after_image;
      completed = false;
      restored_original_database = false;
      resumes = old.resumes ++ length old.runs ∷ [];
    }
    persist world
    pure initial.image_id

  -- The new image on a copy of one data set.
  unfoldable pub connect_copy : Experiment → String → ℕ → String → Script (Unit {0})
  connect_copy baseline after_image count database = do
    source ← source_of world tools encode baseline count
    configure_database world database
    state ← app_state world tools
    check (state.image_id == after_image) Error.wrong_image
    s ← gets (λ s. s)
    check (same_settings state s.metadata.environment.app) Error.wrong_settings
    versions ← ask world (Action.migrations database)
    check (versions == 1) Error.no_migration
    copy_dataset world source.database database count
    before ← fingerprint world tools source.database
    after ← fingerprint world tools database
    recorded ← ask world (Action.read_fingerprint (decimal count +str "/fingerprint-before"))
    check (same_fingerprint before recorded) Error.data_changed
    ask world (Action.save_fingerprint (decimal count +str "/fingerprint-after") after)
    check (same_fingerprint before after) Error.data_changed
    description ← ask world (Action.describe_dataset database)
    let dataset : Dataset = record { database = database; rest = description }
    ask world (Action.save_dataset count dataset)
    modify λ x. record x {
      metadata = record x.metadata { datasets = insert count dataset x.metadata.datasets };
      proof = record x.proof { datasets = count ∷ x.proof.datasets };
    }
    persist world

  unfoldable pub measure_one : String → List Combination → Combination → Script (Unit {0})
  measure_one database done item =
      if contains done item
      then pure tt
      else measure world (hooks world tools improved_kinds) database item fixed_load >>= λ result.
          update (λ m. record m { runs = m.runs ++ row_of encode result ∷ [] }) >> persist world

  unfoldable pub run_count : Experiment → String → ℕ → Script (Unit {0})
  run_count baseline after_image count = do
    let database : String = "receipt_opt_" +str decimal count +str "_" +str options.suffix
    source_of world tools encode baseline count
    check (tools.is_alphanumeric database) Error.bad_arguments
    connect_copy baseline after_image count database
    profile world tools database count
    persist world
    s ← gets (λ s. s)
    if options.profile_only
        then pure tt
        else each (order count 3) (measure_one database (combinations s.metadata.runs))

  -- The two last assignments of the `try`.
  abbrev pub judge : Memory → Memory
  judge s =
      let profiled = length s.proof.fixtures == 6 in
      record s {
        metadata = record s.metadata {
          profile_completed = profiled;
          completed = not options.profile_only && (length s.metadata.runs == 12 && profiled);
        };
      }

  unfoldable pub recollect_runs : Script (Unit {0})
  recollect_runs = do
    files ← ask world Action.saved_results
    s ← gets (λ s. s)
    rows ← lift (collected (collect_runs files s.metadata.runs))
    update λ m. record m { runs = rows }

  -- The `finally` block: the restoration is tried whether the results could be collected or not.
  unfoldable pub clean_up : String → Script (Unit {0})
  clean_up restore_image = finally_do recollect_runs (restore world tools restore_image)

  unfoldable pub run_counts : Experiment → String → String → Script (Unit {0})
  run_counts baseline after_image restore_image =
      finally_do
        (do
          ask world (Action.tag_image after_image app_tag)
          each datasets (run_count baseline after_image)
          modify judge)
        (clean_up restore_image)

  unfoldable pub optimized : Experiment → Script (Unit {0})
  optimized baseline = do
    take_up
    after_image ← ask world (Action.find_image options.image)
    initial_image ← check_machine after_image
    run_counts baseline after_image (if options.profile_only then initial_image else after_image)
