-- ===== src/AblationReport/Tests.antt =====
-- A report on a small made-up experiment of 24 runs.
use receipt_expense_review.Prelude.{
  decimal, ℕ, suc, String, ◌≡◌, refl, true, false, none, some, List, [], ◌∷◌, ◌++◌, nat_eq,
  string_eq, length, Dict, Result, ok, err,
}
use receipt_expense_review.Sql.{Kind, kind_eq, Counters}
use receipt_expense_review.Fixture.{Scenario, scenario_eq}
use receipt_expense_review.Ablation.{Variant, variant_eq, Key, key_eq, key_beq}
use receipt_expense_review.Reports.Stats.{stats}
use receipt_expense_review.Runner.{Public}
use receipt_expense_review.Evidence.{Point, assess_raw_requests, assess_run}
use receipt_expense_review.AblationReport.{Entry, Meta, Explained, Files, needs, expected_kinds}
use receipt_expense_review.AblationReport.Profiles.{collect_profiles, collect_pair, collect_profile}
use receipt_expense_review.AblationReport.Runs.{check_record, check_answer, check_runs, pair_delta}
use receipt_expense_review.AblationReport.Load.{
  planned_keys, Report, group_of, pair_of, check_meta, load_report,
}
use receipt_expense_review.AblationReport.Points.{Copied, sql_points}
use receipt_expense_review.AblationReport.Points as Points
use receipt_expense_review.AblationReport.Points.Defined.{sql_points-defined}
use receipt_expense_review.AblationReport.Load.Paired.{IsComplete, load_report-IsComplete}

abbrev counters : ℕ → Counters
counters n = record { count = n; timer = 7; rows_examined = 1; rows_sent = 1; errors = 0 }

abbrev counted : ℕ → List Kind → Dict Kind Counters
counted n [] = []
counted n (k ∷ ks) = (k, counters n) ∷ counted n ks

abbrev image_of : Variant → String
image_of Variant.index_only = "image1"
image_of Variant.id_first = "image2"

abbrev order_of : Variant → ℕ
order_of Variant.index_only = 1
order_of Variant.id_first = 2

-- The name is the position in the plan.
abbrev entry_of : ℕ → Key → Entry
entry_of n k = record {
  run = record {
    run_id = decimal n;
    image_id = image_of k.variant;
    combination = record { dataset = k.dataset; scenario = k.scenario; repeat = k.repeat };
    rate = 20;
    seconds = 60;
    warmup = 30;
    k6_exit_code = some 99;
    checks = ("monitor", true) ∷ ("samples", true) ∷ ("noSqlErrors", true) ∷ [];
    requests = 1;
    failures = 0;
    dropped = 1199;
    p95 = n;
    p99 = n;
    mean = n;
    sql = counted 1 (expected_kinds k.variant);
    samples = ("app", 30) ∷ ("mysql", 30) ∷ ("db", 60) ∷ [];
  };
  variant = k.variant;
  pair_id = "pair";
  pair_order = order_of k.variant;
}

abbrev entries_of : ℕ → List Key → List Entry
entries_of n [] = []
entries_of n (k ∷ ks) = entry_of n k ∷ entries_of (suc n) ks

abbrev meta : Meta
meta = record {
  completed = true;
  restored_original_database = true;
  rate = 20;
  seconds = 60;
  warmup = 30;
  repeats = 3;
  runs = entries_of 1 planned_keys;
  image = image_of;
}

abbrev answer : Public
answer = record {
  path = "/api";
  expected = record { ids = 4 ∷ []; total = 1; page = 0 };
  sha256 = "00";
  response_bytes = 2;
}

abbrev plans_of_kind : Kind → List Explained
plans_of_kind k =
    record { kind = some k; sql = "select"; repeat = 1; time = some 3 }
    ∷ record { kind = some k; sql = "select"; repeat = 2; time = some 4 }
    ∷ record { kind = some k; sql = "select"; repeat = 3; time = some 5 }
    ∷ []

abbrev plans_of : Variant → List Explained
plans_of Variant.index_only = plans_of_kind Kind.list ++ plans_of_kind Kind.count
plans_of Variant.id_first =
    plans_of_kind Kind.ids ++ (plans_of_kind Kind.entities ++ plans_of_kind Kind.count)

abbrev files : Files
files = record {
  original_before = some "{}";
  original_after = some "{}";
  fixture = λ place. some answer;
  serial =
      λ place. some (record { requests = 100; sql = counted 100 (expected_kinds place.variant) });
  explained = λ place. some (plans_of place.variant);
  is_inside = λ e. true;
  verification = λ e. some e;
  holds = λ raw e. true;
  run_fixture = λ e. some answer;
  samples = λ e. (
    record { run_id = e.run.run_id; requests = 1; failures = 0; warmup_dropped = none },
    record {
      points =
          Point.duration "200" ∷ Point.check true ∷ Point.review_ms ∷ Point.review_requests 1 ∷ [];
      timeout_logs = 0;
      warmup_dropped = none;
      warmup_failures = none;
    },
  );
  proof = some (record { passed = true; checks = ("same", true) ∷ [] });
  layer_images = none;
  counts_rows = λ sql. false;
}

abbrev value : {E A : Type 0} → Result E A → A → A
value (ok a) d = a
value (err e) d = d

abbrev nothing : Report
nothing = record { runs = []; profiles = []; assessments = []; groups = []; pairs = [] }

load_report-IsComplete_example : IsComplete meta
unfolding load_report check_meta check_runs check_record check_answer pair_delta pair_of group_of
    collect_profiles collect_pair collect_profile needs key_beq stats assess_raw_requests assess_run
    decimal
load_report-IsComplete_example =
    load_report-IsComplete files meta (value (load_report files meta) nothing) refl

abbrev one_entry : Entry
one_entry = entry_of 1 (record {
  dataset = 10000;
  scenario = Scenario.all_pending;
  repeat = 1;
  variant = Variant.id_first;
})

abbrev copied : Copied
copied = record { fields = λ e a. []; end_ns = λ e. 9 }

sql_points-defined_example :
    (points : List Points.Point) × (sql_points copied one_entry ≡ ok points)
    × (length points ≡ length one_entry.run.sql)
sql_points-defined_example =
    sql_points-defined copied one_entry
      (record { evidence = refl; kinds = refl; statements = refl; arrivals = refl }) refl
