-- ===== src/OptimizedRunner/Tests.antt =====
-- Runs of the optimized runner's parts in a world that answers every call.
use receipt_expense_review.Prelude.{
  ℕ, String, ◌≡◌, refl, true, false, Option, none, some, List, [], ◌∷◌, if◌then◌else◌, ◌==◌, nat_eq,
  string_eq, All, distinct, Dict,
}
use receipt_expense_review.Program.{
  Machine, World, pure, lift, gets, modify, ◌>>=◌, check, call, each, gather, finally_do,
}
use receipt_expense_review.Sql.{Kind, kind_eq}
use receipt_expense_review.Fixture.{Scenario}
use receipt_expense_review.Reports.{combination_eq, combination_beq}
use receipt_expense_review.Optimized.{
  Row, row_eq, row_beq, by_id, add_files, collect_runs, sort_by_start,
}
use receipt_expense_review.Runner.{Fingerprint, AppState, Action, Reply}
use receipt_expense_review.Runner.Text.{occurs_in}
use receipt_expense_review.Runner.Resume.{combinations}
use receipt_expense_review.OptimizedRunner.{Memory, Tools, persist}
use receipt_expense_review.OptimizedRunner.State.{
  required, restore, note_restored, fingerprint_table, app_state,
}
use receipt_expense_review.OptimizedRunner.Copy.{table_counts, copy_dataset}
use receipt_expense_review.OptimizedRunner.Copy.Guarded.{IsGuarded, copy_dataset-IsGuarded}
use receipt_expense_review.OptimizedRunner.Profile.{captured_kinds, capture}
use receipt_expense_review.OptimizedRunner.Profile.Captured.{IsCaptured, capture-IsCaptured}
use receipt_expense_review.OptimizedRunner.Improved.{Options, clean_up, recollect_runs}
use receipt_expense_review.OptimizedRunner.Improved.Home.{IsRestored}
use receipt_expense_review.OptimizedRunner.Improved.Outcome.{flags, clean_up-Restored}

abbrev tools : Tools
tools = record {
  search = λ pattern text. false;
  substitute = λ pattern by text. text;
  lower_strip = λ text. text;
  starts = λ pattern text. false;
  is_hash = λ text. true;
  sha256 = λ hashes. "ff";
  size = λ text. 40;
  image_of = λ row. "image";
  is_alphanumeric = λ text. true;
}

abbrev state : AppState
state = record {
  image_id = "image";
  database_url = "";
  memory_bytes = 1;
  nano_cpus = 1;
  rest = "{}";
}

abbrev prints : Dict String Fingerprint
prints =
    ("receipts", record { columns = "id" ∷ []; rows = 2; sha256 = "ff" })
    ∷ ("receipt_extraction_jobs", record { columns = "id" ∷ []; rows = 2; sha256 = "ff" })
    ∷ []

abbrev row : String → ℕ → Row
row name repeat = record {
  run_id = name;
  combination = record { dataset = 10000; scenario = Scenario.all_pending; repeat = repeat };
  start_ns = repeat;
  intact = true;
  evidence = true;
  rest = "{}";
}

abbrev answers : (a : Action) → Option (Reply a)
answers (Action.count_rows table database) = some 101
answers (Action.tag_image image tag) = some tt
answers Action.recreate_app = some tt
answers Action.app_ready = some tt
answers Action.inspect_container =
    some (("DB_URL", "jdbc:mysql://mysql:3306/receipt_loadtest?x") ∷ required, state)
answers (Action.table_columns table database) = some ("id" ∷ [])
answers (Action.row_hashes table database) = some ("a" ∷ "b" ∷ [])
answers (Action.save_fingerprint name found) = some tt
answers (Action.read_fingerprint name) = some prints
answers Action.saved_results = some (row "r1" 1 ∷ row "r2" 2 ∷ [])
answers (Action.save_comparison metadata proof) = some tt
answers _ = none

abbrev answering : World Action Reply
answering trace a = answers a

abbrev start : Machine Action Memory
start = record {
  trace = [];
  memory = record {
    metadata = record {
      baseline_experiment = none;
      original_receipt_count = 2;
      original_receipt_count_after = none;
      original_image_id = "image";
      before_image_id = "before";
      after_image_id = some "image";
      restored_image_id = none;
      before_controls = [];
      runs = row "r1" 1 ∷ [];
      datasets = [];
      scripts = [];
      environment = record {
        cpu_count = 8;
        memory_bytes = 1;
        buffer_pool_bytes = 1;
        mysql_version = "8";
        app = state;
      };
      controls_completed = true;
      profile_completed = true;
      completed = false;
      restored_original_database = false;
      resumes = [];
    };
    proof = record { fixtures = []; datasets = [] };
  };
}

abbrev options : Options
options = record {
  baseline = "/baseline";
  image = "after";
  profile_only = false;
  resume = true;
  suffix = "x";
}

-- 101 receipts, jobs and employees are there: nothing is copied.
copy_dataset-IsGuarded_example :
    IsGuarded answering "source" "target" 101 []
      (copy_dataset answering "source" "target" 101 start).1.trace
unfolding copy_dataset table_counts ◌>>=◌ call pure check
copy_dataset-IsGuarded_example =
    copy_dataset-IsGuarded answering "source" "target" 101 start
      (copy_dataset answering "source" "target" 101 start).1 tt refl

abbrev kind_of : String → Option Kind
kind_of text = if text == "select count" then some Kind.count else some Kind.ids

abbrev captured : Dict Kind String
captured = (Kind.count, "select count") ∷ (Kind.ids, "select id") ∷ []

capture-IsCaptured_example :
    All
      (IsCaptured captured_kinds kind_of (λ text. 40) 1024 captured)
      ("select count" ∷ "select id" ∷ "select count" ∷ [])
unfolding capture
capture-IsCaptured_example =
    capture-IsCaptured captured_kinds kind_of (λ text. 40) 1024
      ("select count" ∷ "select id" ∷ "select count" ∷ []) captured refl

clean_up-Restored_example :
    let end : Memory = (clean_up answering tools (λ m. "{}") options "image" start).1.memory in
    (end.metadata.restored_original_database ≡ true)
    × (distinct (combinations end.metadata.runs) ≡ true)
    × (flags end ≡ flags start.memory)
    × (before : List Action) × IsRestored answering tools "image" before
unfolding clean_up recollect_runs restore note_restored fingerprint_table app_state persist
    collect_runs sort_by_start row_beq combination_beq ◌>>=◌ finally_do call each gather pure lift
    gets modify check occurs_in by_id add_files
clean_up-Restored_example =
    clean_up-Restored answering tools (λ m. "{}") options "image" start
      (clean_up answering tools (λ m. "{}") options "image" start).1 tt refl
