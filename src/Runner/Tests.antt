-- ===== src/Runner/Tests.antt =====
-- Runs of the baseline's parts in a world that answers every call.
use receipt_expense_review.Prelude.{
  decimal, ℕ, String, ◌≡◌, refl, true, false, Option, none, some, List, [], ◌∷◌, nat_eq, string_eq,
  get_elem?, contains, distinct,
}
use receipt_expense_review.Program.{
  Machine, World, pure, lift, gets, modify, ◌>>=◌, check, call, each, finally_do,
}
use receipt_expense_review.Sql.{Kind, Totals, no_totals}
use receipt_expense_review.Prelude.Int.{pos}
use receipt_expense_review.Fixture.{Scenario}
use receipt_expense_review.Reports.{Combination, combination_eq, combination_beq, datasets}
use receipt_expense_review.Optimized.{Row, row_eq, sort_by_start}
use receipt_expense_review.Runner.{
  Public, Summary, Line, Load, Measurement, Experiment, Action, Reply,
}
use receipt_expense_review.Runner.Measure.{Hooks, measure, started}
use receipt_expense_review.Runner.Measure.Integrity.{measure-unlinks}
use receipt_expense_review.Runner.Resume.{Arguments, resumed, add_saved, combinations}
use receipt_expense_review.Runner.Resume.Preserved.{AllNamed, resumed-preserves}
use receipt_expense_review.Runner.Baseline.{
  Library, begin, first_save, main, run_all, run_dataset, restore, save,
}
use receipt_expense_review.Runner.Baseline.Home.{at_home, main-Home}
use receipt_expense_review.Runner.Baseline.Complete.Loops.{AllMeasured}
use receipt_expense_review.Runner.Baseline.Complete.Main.{main-AllMeasured}

abbrev some_load : Load
some_load = record { rate = 20; seconds = 60; warmup = 30 }

abbrev combo : ℕ → Scenario → ℕ → Combination
combo count case repeat = record { dataset = count; scenario = case; repeat = repeat }

abbrev row : String → Combination → ℕ → Row
row name k start = record {
  run_id = name;
  combination = k;
  start_ns = start;
  intact = true;
  evidence = true;
  rest = "{}";
}

abbrev first_row : Row
first_row = row "r1" (combo 10000 Scenario.all_pending 1) 10

abbrev second_row : Row
second_row = row "r2" (combo 10000 Scenario.status_period 1) 20

abbrev third_row : Row
third_row = row "r3" (combo 100000 Scenario.all_pending 1) 40

abbrev fourth_row : Row
fourth_row = row "r4" (combo 100000 Scenario.status_period 1) 30

abbrev old_experiment : Experiment
old_experiment = record {
  load = some_load;
  repeats = 1;
  original_receipt_count = 7;
  original_receipt_count_after = none;
  datasets = [];
  runs = first_row ∷ second_row ∷ [];
  completed = false;
  restored_original_database = false;
  resumes = [];
}

abbrev summary : Summary
summary = record {
  requests = 2;
  failures = 1;
  dropped = none;
  latency = "{}";
  response_bytes = 300;
}

abbrev line : String → String → Line
line metric status = record { is_point = true; metric = metric; status = status }

abbrev lines : List Line
lines =
    line "http_req_duration" "200"
    ∷ line "receipt_review_ms" ""
    ∷ line "http_req_duration" "503"
    ∷ line "receipt_review_ms" ""
    ∷ []

abbrev answers : (a : Action) → Option (Reply a)
answers Action.fresh_name = some "0a1b2c"
answers Action.inspect_app = some "sha256:image"
answers Action.now = some 5
answers (Action.run_k6 session target combination rate seconds recorded) = some 99
answers (Action.read_summary target) = some summary
answers (Action.read_metrics target) = some lines
answers Action.monitor_errors = some []
answers (Action.stored_samples run_id) = some (some 2)
answers (Action.summarize_resources start end) = some "{}"
answers (Action.count_receipts database) = some 7
answers Action.read_experiment = some old_experiment
answers Action.saved_results = some (second_row ∷ third_row ∷ fourth_row ∷ [])
answers Action.restart_app = some tt
answers Action.app_ready = some tt
answers Action.recreate_app = some tt
answers (Action.make_directory path) = some tt
answers (Action.start_monitor run_id) = some tt
answers Action.stop_monitor = some tt
answers (Action.save_snapshots before after) = some tt
answers (Action.send_summary m) = some tt
answers (Action.send_sql run_id kind totals) = some tt
answers (Action.save_result m) = some tt
answers (Action.unlink path) = some tt
answers (Action.make_experiment named) = some tt
answers Action.note_experiment = some tt
answers Action.read_users = some tt
answers Action.describe_environment = some tt
answers Action.describe_server = some tt
answers (Action.save_experiment e) = some tt
answers _ = none

abbrev answering : World Action Reply
answering trace a = answers a

abbrev page_seen : Public
page_seen = record {
  path = "/api";
  expected = record { ids = []; total = 0; page = 0 };
  sha256 = "00";
  response_bytes = 2;
}

abbrev two_each : Totals
two_each = record no_totals { count = pos 2 }

abbrev plain_hooks : Hooks (Unit {0})
plain_hooks = record {
  fixture = λ directory page. pure ("session.json", page_seen);
  snapshot = λ database. pure [];
  delta = λ before after. pure ((Kind.list, two_each) ∷ []);
}

abbrev begun_at : Machine Action (Unit {0})
begun_at = record { trace = []; memory = tt }

abbrev one_combo : Combination
one_combo = combo 10000 Scenario.all_pending 2

abbrev result : Measurement
result = record {
  run_id = "review-10000-all-r2-0a1b2c";
  combination = one_combo;
  load = some_load;
  start_ns = 5;
  end_ns = 5;
  requests = 2;
  failures = 1;
  dropped = 0;
  latency = "{}";
  sql = (Kind.list, two_each) ∷ [];
  resources = "{}";
  response_bytes = 300;
  checks = record {
    k6 = false;
    no_failures = false;
    no_dropped = true;
    monitor = true;
    samples = true;
    no_sql_errors = true;
    sql_counts = true;
  };
  errors = [];
  passed = false;
  image_id = "sha256:image";
  k6_exit_code = 99;
  warmup_dropped = 0;
  status_counts = ("200", 1) ∷ ("503", 1) ∷ [];
  response_integrity_passed = true;
}

measure-unlinks_example :
    get_elem? (measure answering plain_hooks "db" one_combo some_load begun_at).1.trace 0
    ≡ some (Action.unlink "session.json")
unfolding started ◌>>=◌ finally_do call pure decimal
measure-unlinks_example =
    measure-unlinks answering plain_hooks "db" one_combo some_load begun_at
      (started answering plain_hooks one_combo begun_at).1 "review-10000-all-r2-0a1b2c"
      "session.json" refl

abbrev plain_library : Library
plain_library = record { upper = λ t. t; lower = λ t. t; chars = λ t. 0; encode = λ m. "{}" }

abbrev resuming : Arguments
resuming = record {
  load = some_load;
  repeats = 1;
  profile_only = false;
  experiment = true;
  resume = true;
  suffix = "20261018t105936";
}

abbrev blank : Machine Action Experiment
blank = record { trace = []; memory = old_experiment }

-- Two recorded runs and two that are only on the disk make the four loads of one repeat.
main-AllMeasured_example :
    (main answering plain_library resuming blank).1.memory.completed ≡ true
    × AllMeasured datasets 1 (main answering plain_library resuming blank).1.memory
unfolding main begin first_save run_all run_dataset restore save resumed add_saved sort_by_start
    ◌>>=◌ finally_do call each pure lift gets modify check combination_beq
main-AllMeasured_example =
    main-AllMeasured answering plain_library resuming refl blank
      (main answering plain_library resuming blank).1 tt refl

main-Home_example : at_home (main answering plain_library resuming blank).1.trace ≡ true
unfolding at_home
main-Home_example = main-Home answering plain_library resuming blank refl

abbrev resumed_experiment : Experiment
resumed_experiment = record old_experiment {
  runs = first_row ∷ second_row ∷ fourth_row ∷ third_row ∷ [];
  resumes = 4 ∷ [];
}

resumed-preserves_example :
    ((r : Row) → contains old_experiment.runs r ≡ true → contains resumed_experiment.runs r ≡ true)
    × AllNamed resumed_experiment.runs (second_row ∷ third_row ∷ fourth_row ∷ [])
    × (distinct (combinations resumed_experiment.runs) ≡ true)
unfolding resumed add_saved sort_by_start combination_beq
resumed-preserves_example =
    resumed-preserves resuming 7 old_experiment (second_row ∷ third_row ∷ fourth_row ∷ [])
      resumed_experiment refl
