-- ===== src/Runner/Baseline.antt =====
-- `main` of load/review-baseline.py: a new experiment or the rest of an old one, and the way back to
-- the original database.
pub mod Home
pub mod Step
pub mod Complete
use receipt_expense_review.Prelude.{
  ◌+str◌, decimal, ℕ, ◌%◌, String, Bool, true, false, not, ◌&&◌, Option, none, some, List, [], ◌∷◌,
  ◌++◌, if◌then◌else◌, ◌==◌, nat_eq, string_eq, length, all, contains, Dict, lookup, insert, Result,
  ok, err, or_raise,
}
use receipt_expense_review.Program.{
  World, Program, pure, lift, gets, modify, ◌>>=◌, ◌>>◌, check, call, each, finally_do,
}
use receipt_expense_review.Sql.{Kind, Snapshot, Totals}
use receipt_expense_review.Sql.Delta.{delta}
use receipt_expense_review.Sql.Delta as Delta
use receipt_expense_review.Fixture.{Scenario, range_from}
use receipt_expense_review.Reports.{Combination, combination_eq, datasets}
use receipt_expense_review.Optimized.{Row}
use receipt_expense_review.Runner.{Load, Measurement, Dataset, Experiment, Error, Action, Reply}
use receipt_expense_review.Runner.Text.{statement_kind}
use receipt_expense_review.Runner.Setup.{ask, configure_database, seed, fixture, snapshot}
use receipt_expense_review.Runner.Measure.{Hooks, measure}
use receipt_expense_review.Runner.Resume.{
  Arguments, in_bounds, fresh_experiment, resumed, combinations,
}
use receipt_expense_review.Runner.Profile.{profile}

-- The loads of one data set: the order of the two cases alternates.
abbrev pub round : ℕ → ℕ → List Combination
round count repeat =
    if repeat % 2 == 1
    then record { dataset = count; scenario = Scenario.all_pending; repeat = repeat }
      ∷ record { dataset = count; scenario = Scenario.status_period; repeat = repeat }
      ∷ []
    else record { dataset = count; scenario = Scenario.status_period; repeat = repeat }
      ∷ record { dataset = count; scenario = Scenario.all_pending; repeat = repeat }
      ∷ []

abbrev pub rounds : ℕ → List ℕ → List Combination
rounds count [] = []
rounds count (repeat ∷ repeats) = round count repeat ++ rounds count repeats

abbrev pub order : ℕ → ℕ → List Combination
order count repeats = rounds count (range_from 1 repeats)

-- The upper and lower case of a text, its length, and how a measurement is written as JSON.
pub record Library : Type 0 where
  pub upper : String → String
  pub lower : String → String
  pub chars : String → ℕ
  pub encode : Measurement → String

-- What later steps read of a result file.
abbrev pub row_of : (Measurement → String) → Measurement → Row
row_of encode m = record {
  run_id = m.run_id;
  combination = m.combination;
  start_ns = m.start_ns;
  intact = m.response_integrity_passed;
  evidence = m.checks.monitor && (m.checks.samples && m.checks.no_sql_errors);
  rest = encode m;
}

abbrev pub delta_result : Result Delta.Error (Dict Kind Totals) → Result Error (Dict Kind Totals)
delta_result (ok totals) = ok totals
delta_result (err (Delta.Error.unknown_kind kind)) = err (Error.unknown_kind kind)

module _ (world : World Action Reply) (library : Library) where
  abbrev pub hooks : {S : Type 0} → Hooks S
  hooks = record {
    fixture = fixture world;
    snapshot = snapshot world (statement_kind library.upper);
    delta = λ before after. lift (delta_result (delta before after));
  }

  -- `metadata` as it is, written to the disk.
  unfoldable pub save : Program Action Experiment Error (Unit {0})
  save = do metadata ← gets (λ metadata. metadata); ask world (Action.save_experiment metadata)

  -- The body of the innermost loop.
  unfoldable pub measure_item :
      String → Load → List Combination → Combination → Program Action Experiment Error (Unit {0})
  measure_item database load done item =
      if contains done item
      then pure tt
      else measure world hooks database item load >>= λ result.
          modify (λ metadata. record metadata {
            runs = metadata.runs ++ row_of library.encode result ∷ [];
          })
          >> save

  -- A data set is seeded only in a new experiment; an old one has to name it.
  abbrev pub dataset_of :
      String → ℕ → Option Experiment → Program Action Experiment Error (Unit {0})
  dataset_of database count none = seed world database
  dataset_of database count (some old) =
      lift (or_raise (lookup count old.datasets) Error.no_dataset) >> pure tt

  abbrev pub profile_new :
      String → ℕ → Option Experiment → Program Action Experiment Error (Unit {0})
  profile_new database count none = profile world hooks library.lower library.chars database count
  profile_new database count (some old) = pure tt

  abbrev pub measure_items :
      Arguments
      → String
      → List Combination
      → List Combination
      → Program Action Experiment Error (Unit {0})
  measure_items args database done items =
      if args.profile_only then pure tt else each items (measure_item database args.load done)

  -- One data set, when some of its loads are left: up to its profile.
  unfoldable pub prepare_dataset :
      Option Experiment → String → ℕ → Program Action Experiment Error (Unit {0})
  prepare_dataset old database count = do
    configure_database world database
    dataset_of database count old
    rows ← ask world (Action.count_receipts database)
    check (rows == count) Error.wrong_dataset_count
    description ← ask world (Action.describe_dataset database)
    let dataset : Dataset = record { database = database; rest = description }
    ask world (Action.make_directory (decimal count))
    ask world (Action.save_dataset count dataset)
    modify λ metadata. record metadata { datasets = insert count dataset metadata.datasets }
    save
    profile_new database count old

  abbrev pub database_of : Arguments → ℕ → String
  database_of args count = "receipt_review_" +str decimal count +str "_" +str args.suffix

  unfoldable pub prepare_and_measure :
      Arguments
      → Option Experiment
      → List Combination
      → ℕ
      → Program Action Experiment Error (Unit {0})
  prepare_and_measure args old done count =
      prepare_dataset old (database_of args count) count
      >> measure_items args (database_of args count) done (order count args.repeats)

  -- The body of the loop over the data sets.
  unfoldable pub run_dataset :
      Arguments → Option Experiment → ℕ → Program Action Experiment Error (Unit {0})
  run_dataset args old count = do
    done ← gets (λ metadata. combinations metadata.runs)
    if not args.profile_only && all (contains done) (order count args.repeats)
        then pure tt
        else prepare_and_measure args old done count

  -- The `finally` block.
  unfoldable pub restore : Program Action Experiment Error (Unit {0})
  restore = do
    ask world Action.recreate_app
    ask world Action.app_ready
    count ← ask world (Action.count_receipts "receipt_loadtest")
    modify λ metadata. record metadata {
      original_receipt_count_after = some count;
      restored_original_database = count == metadata.original_receipt_count;
    }
    save

  -- The `try` statement: `COUNTS` are 10000 and 100000.
  unfoldable pub run_all :
      Arguments → Option Experiment → Program Action Experiment Error (Unit {0})
  run_all args old =
      finally_do
        (each datasets (run_dataset args old)
          >> modify (λ metadata. record metadata { completed = true }))
        restore

  abbrev pub old_experiment : Bool → Program Action Experiment Error (Option Experiment)
  old_experiment false = pure none
  old_experiment true = ask world Action.read_experiment >>= λ old. pure (some old)

  abbrev pub missing : Option Experiment → Bool
  missing none = true
  missing (some old) = false

  -- `previous and previous.get('runs')`
  abbrev pub has_runs : Option Experiment → Bool
  has_runs none = false
  has_runs (some old) = not (length old.runs == 0)

  -- `metadata` before the first save; only a resumed one reads the result files.
  abbrev pub begun : Arguments → ℕ → Option Experiment → Program Action Experiment Error Experiment
  begun args original_count none = pure (fresh_experiment args original_count)
  begun args original_count (some old) =
      if args.resume
      then (ask world Action.saved_results >>= λ files.
          lift (resumed args original_count old files))
      else pure (fresh_experiment args original_count)

  -- Everything before `metadata` is first saved.
  unfoldable pub begin :
      Arguments → Program Action Experiment Error (Option Experiment × Experiment)
  begin args = do
    check (in_bounds args) Error.bad_arguments
    ask world (Action.make_experiment args.experiment)
    ask world Action.note_experiment
    ask world Action.read_users
    original_count ← ask world (Action.count_receipts "receipt_loadtest")
    old ← old_experiment args.experiment
    check (not (args.resume && missing old)) Error.no_experiment
    check (not (has_runs old && not args.resume)) Error.results_exist
    ask world Action.describe_environment
    metadata ← begun args original_count old
    pure (old, metadata)

  unfoldable pub first_save : Experiment → Program Action Experiment Error (Unit {0})
  first_save metadata = do modify λ before. metadata; ask world Action.describe_server; save

  unfoldable pub main : Arguments → Program Action Experiment Error (Unit {0})
  main args = do (old, metadata) ← begin args; first_save metadata; run_all args old
