-- ===== src/Reports/Tests.antt =====
-- An experiment of twelve runs, and the theorems at it.
use receipt_expense_review.Prelude.{
  ◌+str◌, decimal, ℕ, ◌+◌, ◌≤◌, String, ◌≡◌, refl, ◌↔◌, ◌⊎◌, true, false, Option, none, some, List,
  [], ◌∷◌, map, arith, leb, if◌then◌else◌, ◌==◌, nat_eq, string_eq, take, All, ok, err,
}
use receipt_expense_review.Sql.{Kind, Counters}
use receipt_expense_review.Fixture.{Scenario, scenario_eq}
use receipt_expense_review.Reports.{
  Run, Meta, Combination, combination_eq, combination_beq, planned,
}
use receipt_expense_review.Reports.Groups.{total}
use receipt_expense_review.Reports.Plan.{occurs, combinations, planned_runs, twelve_runs}
use receipt_expense_review.Reports.Plan.Complete.{planned_runs-iff-twelve_runs}
use receipt_expense_review.Reports.Stats.{Stats, stats}
use receipt_expense_review.Reports.Stats.Middle.{IsSummary, stats-IsSummary}
use receipt_expense_review.Reports.Validate.{
  Folder, needs, validate_runs, validate_complete, value_error, plan,
}
use receipt_expense_review.Reports.Validate.Offered.{slots, validate_runs-offered}
use receipt_expense_review.Reports.Aggregate.{Group, Place, aggregate}
use receipt_expense_review.Reports.Aggregate.Complete.{sum_groups, aggregate-whole}

abbrev counters : Counters
counters = record {
  count = 1190;
  timer = 2380000;
  rows_examined = 47600;
  rows_sent = 23800;
  errors = 0;
}

abbrev run_of : Combination → Run
run_of k = record {
  run_id =
      decimal k.dataset
      +str (decimal k.repeat
          +str "-"
          +str (if k.scenario == Scenario.all_pending then "all" else "period"));
  image_id = "sha256:app";
  combination = k;
  rate = 20;
  seconds = 60;
  warmup = 30;
  k6_exit_code = some 99;
  checks =
      ("k6", false)
      ∷ ("noFailures", true)
      ∷ ("noDropped", false)
      ∷ ("monitor", true)
      ∷ ("samples", true)
      ∷ ("noSqlErrors", true)
      ∷ ("sqlCounts", true)
      ∷ [];
  requests = 1190;
  failures = 0;
  dropped = 10;
  p95 = 1200 + k.repeat;
  p99 = 1500;
  mean = 800;
  sql =
      (Kind.employee, counters)
      ∷ (Kind.list, counters)
      ∷ (Kind.count, counters)
      ∷ (Kind.jobs, counters)
      ∷ [];
  samples = ("app", 30) ∷ ("mysql", 30) ∷ ("db", 30) ∷ [];
}

abbrev meta_of : List Combination → Meta
meta_of ks = record {
  completed = true;
  restored_original_database = true;
  original_receipt_count = 3233;
  original_receipt_count_after = some 3233;
  rate = 20;
  seconds = 60;
  warmup = 30;
  repeats = 3;
  runs = map run_of ks;
}

abbrev find_run : String → List Run → Option Run
find_run id [] = none
find_run id (run ∷ runs) = if run.run_id == id then some run else find_run id runs

abbrev folder : Folder
folder = record {
  verification = λ id. find_run id (map run_of planned);
  json_equal = λ a b. a.run_id == b.run_id;
}

abbrev groups_of : List Run → List (Place × Group)
groups_of runs = elim (aggregate runs) [ ok groups ↦ groups | err e ↦ [] ]

-- The run of 100,000 receipts that is planned last was not measured.
short_plan : validate_complete folder (meta_of (take 11 planned)) ≡ err (value_error plan)
unfolding validate_complete needs planned twelve_runs
short_plan = refl

planned_runs-iff-twelve_runs_example :
    (planned_runs (map run_of planned) ≡ true) ↔ (twelve_runs (map run_of planned) ≡ true)
planned_runs-iff-twelve_runs_example = planned_runs-iff-twelve_runs (map run_of planned)

validate_runs-offered_example :
    (map run_of planned ≡ map run_of planned)
    × All (λ k. occurs (combinations (map run_of planned)) k ≡ 1) planned
    × (14400 ≤ total slots (map run_of planned))
    × (total slots (map run_of planned) ≤ 14412)
unfolding validate_runs needs planned planned_runs combination_beq decimal
validate_runs-offered_example =
    validate_runs-offered folder (meta_of planned) (map run_of planned) refl

aggregate-whole_example :
    (sum_groups (λ g. g.requests) (groups_of (map run_of planned))
      ≡ total (λ r. r.requests) (map run_of planned))
    × (sum_groups (λ g. g.failures) (groups_of (map run_of planned))
        ≡ total (λ r. r.failures) (map run_of planned))
    × (sum_groups (λ g. g.dropped) (groups_of (map run_of planned))
        ≡ total (λ r. r.dropped) (map run_of planned))
    × (sum_groups (λ g. g.planned_request_slots) (groups_of (map run_of planned))
        ≡ total (λ r. r.requests + r.dropped) (map run_of planned))
unfolding validate_complete needs planned twelve_runs combination_beq aggregate decimal stats
aggregate-whole_example =
    aggregate-whole folder (meta_of planned) (map run_of planned) (groups_of (map run_of planned))
      refl refl

leb_total : (a b : ℕ) → (leb a b ≡ true) ⊎ (leb b a ≡ true)
leb_total a b = ground arith

leb_trans : (a b c : ℕ) → leb a b ≡ true → leb b c ≡ true → leb a c ≡ true
leb_trans a b c h k = ground arith

abbrev values : List ℕ
values = 7 ∷ 3 ∷ 9 ∷ []

abbrev spread : Stats ℕ
spread = record { low_middle = 7; high_middle = 7; minimum = 3; maximum = 9 }

stats-IsSummary_example : IsSummary leb values spread
unfolding stats
stats-IsSummary_example = stats-IsSummary leb leb_total leb_trans values spread refl
