-- ===== src/Runner.antt =====
-- The runners load/review-baseline.py and load/review-optimized.py: what they ask of the world
-- outside, and the records that they keep. The programs are in the children.
mod Records
pub mod Text
pub mod Setup
pub mod Measure
pub mod Profile
pub mod Resume
pub mod Baseline
pub mod Frame
mod Tests
pub use Records.{
  Public, Response, Digest, Summary, Line, Load, Checks, Measurement, Plan, Page, Dataset,
  Experiment, Fingerprint, AppState, Environment, Comparison, Proof,
}
use receipt_expense_review.Prelude.{ℕ, String, Bool, Option, List, nat_eq, string_eq, Dict}
use receipt_expense_review.Sql.{Kind, Counters, Snapshot, Totals}
use receipt_expense_review.Fixture.{Scenario, Expected, Answer}
use receipt_expense_review.Reports.{Combination}
use receipt_expense_review.Optimized
use receipt_expense_review.Optimized.{Row}

pub data Error : Type 0 where
  outside content_mismatch warmup_failed zero_division sequential_mismatch sequential_sql_counts :
      Error
  statements_missing sql_truncated not_empty results_exist different_load original_count_changed :
      Error
  repeated_combination no_dataset wrong_dataset_count no_experiment bad_arguments : Error
  environment_refused wrong_image image_missing restore_failed controls_missing data_changed : Error
  columns_differ incomplete_copy partial_profile wrong_profile wrong_statement scripts_changed :
      Error
  wrong_baseline same_image wrong_settings no_migration index_present bad_hash key_error : Error
  requested_stop : Error
  unknown_kind : Kind → Error
  bad_measurement : String → Error
  collect_failed : Optimized.Error → Error

-- What the scripts ask for: processes, HTTP, SQL, files. The last line of each group is SQL.
pub data Action : Type 0 where
  restart_app recreate_app app_ready : Action
  write_override recreate_app_on create_database : String → Action
  login fresh_name inspect_app now : Action
  request : String → Action
  make_directory : String → Action
  write_session : String → Public → Action
  unlink : String → Action
  save_fixture : String → Page → Public → Action
  run_k6 : String → String → Combination → ℕ → ℕ → Bool → Action
  read_summary read_metrics : String → Action
  start_monitor : String → Action
  stop_monitor monitor_errors : Action
  stored_samples : String → Action
  summarize_resources : ℕ → ℕ → Action
  send_summary : Measurement → Action
  send_sql : String → Kind → Totals → Action
  save_snapshots : Snapshot → Snapshot → Action
  save_result : Measurement → Action
  save_serial : Page → Dict Kind Totals → Action
  save_plans : Page → List Plan → Action
  read_consumers enable_consumers last_timer : Action
  set_consumer : String → String → Action
  captured_statements : String → ℕ → Action
  explain : String → String → Action
  statement_digests count_receipts describe_dataset insert_dataset : String → Action
  read_users describe_environment describe_server note_experiment : Action
  make_experiment : Bool → Action
  read_experiment saved_results : Action
  save_experiment : Experiment → Action
  save_dataset : ℕ → Dataset → Action
  inspect_container docker_info source_hashes read_comparison read_proof control_results : Action
  find_image : String → Action
  tag_image : String → String → Action
  table_columns row_hashes count_rows : String → String → Action
  copy_tables : String → String → List (String × List String) → Action
  read_fingerprint : String → Action
  save_fingerprint : String → Dict String Fingerprint → Action
  read_fixture saved_serial saved_plans : Page → Action
  longest_text index_statistics migrations : String → Action
  save_comparison : Comparison → Proof → Action
  save_checks : Dict String Bool → Bool → Action
  unfinished_jobs : String → Action
  index_columns : String → Action
  stop_file_exists : Action
  save_environment : String → Environment → Action

abbrev pub Reply : Action → Type 0
Reply Action.login = Unit {0}
Reply Action.fresh_name = String
Reply Action.inspect_app = String
Reply Action.now = ℕ
Reply (Action.request path) = Response
Reply (Action.run_k6 session target combination rate seconds record_) = ℕ
Reply (Action.read_summary target) = Summary
Reply (Action.read_metrics target) = List Line
Reply Action.monitor_errors = List String
Reply (Action.stored_samples run_id) = Option ℕ
Reply (Action.summarize_resources start end) = String
Reply Action.read_consumers = List (String × String)
Reply Action.last_timer = ℕ
Reply (Action.captured_statements database marker) = List String
Reply (Action.explain sql database) = String
Reply (Action.statement_digests database) = List Digest
Reply (Action.count_receipts database) = ℕ
Reply (Action.describe_dataset database) = String
Reply Action.read_experiment = Experiment
Reply Action.saved_results = List Row
Reply Action.inspect_container = Dict String String × AppState
Reply Action.docker_info = Environment
Reply Action.source_hashes = Dict String String
Reply Action.read_comparison = Comparison
Reply Action.read_proof = Proof
Reply (Action.find_image image) = String
Reply (Action.table_columns table database) = List String
Reply (Action.row_hashes table database) = List String
Reply (Action.count_rows table database) = ℕ
Reply (Action.read_fingerprint name) = Dict String Fingerprint
Reply (Action.read_fixture page) = Public
Reply (Action.saved_serial page) = Option (List Kind)
Reply (Action.saved_plans page) = Option ℕ
Reply (Action.longest_text database) = ℕ
Reply (Action.index_statistics database) = ℕ
Reply (Action.migrations database) = ℕ
Reply (Action.unfinished_jobs database) = ℕ
Reply (Action.index_columns database) = List String
Reply Action.stop_file_exists = Bool
Reply Action.control_results = List Row
Reply _ = Unit {0}
