-- ===== src/Reports/Aggregate.antt =====
-- `aggregate` of load/report-review.py.
pub mod Complete
use receipt_expense_review.Prelude.{
  ℕ, ◌+◌, String, ◌≡◌, ◌↔◌, Bool, true, ◌&&◌, List, [], ◌∷◌, ◌++◌, map, arith, leb, Eq, ◌==◌,
  nat_eq, string_eq, select, lookup, Result, ok, ◌>>=◌, ◌>>◌, or_raise,
}
use receipt_expense_review.Sql.{Kind, kind_eq, Counters}
use receipt_expense_review.Fixture.{Scenario, scenario_eq}
use receipt_expense_review.Reports.{Run, datasets, scenarios}
use receipt_expense_review.Reports.Stats.{Error, Stats, Ratio, ratio_le, divide, stats, key_error}

pub record SqlStats : Type 0 where
  pub time_per_call : Stats Ratio
  pub rows_examined_per_call : Stats Ratio
  pub calls_per_request : Stats Ratio

-- The value of one data set and scenario, without `responseBytesPerRequest` and `resources`.
pub record Group : Type 0 where
  pub run_ids : List String
  pub requests : ℕ
  pub failures : ℕ
  pub dropped : ℕ
  pub planned_request_slots : ℕ
  pub p95 : Stats ℕ
  pub p99 : Stats ℕ
  pub mean : Stats ℕ
  pub sql : List (Kind × SqlStats)

abbrev pub sum_of : (Run → ℕ) → List Run → ℕ
sum_of f [] = 0
sum_of f (run ∷ runs) = f run + sum_of f runs

pub ratios : (Run → Result Error Ratio) → List Run → Result Error (List Ratio)
ratios f [] = ok []
ratios f (run ∷ runs) = do q ← f run; qs ← ratios f runs; ok (q ∷ qs)

-- `r["sql"][kind]`
abbrev pub sql_of : Kind → Run → Result Error Counters
sql_of kind run = or_raise (lookup kind run.sql) key_error

pub sql_stats : List Run → Kind → Result Error SqlStats
unfolding ratios
sql_stats runs kind = do
  times ← ratios (λ r. sql_of kind r >>= λ c. divide c.timer c.count) runs
  time_per_call ← stats ratio_le times
  rows ← ratios (λ r. sql_of kind r >>= λ c. divide c.rows_examined c.count) runs
  rows_per_call ← stats ratio_le rows
  calls ← ratios (λ r. sql_of kind r >>= λ c. divide c.count r.requests) runs
  calls_per_request ← stats ratio_le calls
  ok (record {
    time_per_call = time_per_call;
    rows_examined_per_call = rows_per_call;
    calls_per_request = calls_per_request;
  })

pub all_sql : List Run → List Kind → Result Error (List (Kind × SqlStats))
unfolding sql_stats
all_sql runs [] = ok []
all_sql runs (kind ∷ kinds) = do
  one ← sql_stats runs kind
  rest ← all_sql runs kinds
  ok ((kind, one) ∷ rest)

abbrev pub report_kinds : List Kind
report_kinds = Kind.employee ∷ Kind.list ∷ Kind.count ∷ Kind.jobs ∷ []

-- The value for the selected runs.
pub group : List Run → Result Error Group
unfolding all_sql
group selected = do
  sql ← all_sql selected report_kinds
  p95 ← stats leb (map (λ r. r.p95) selected)
  p99 ← stats leb (map (λ r. r.p99) selected)
  mean ← stats leb (map (λ r. r.mean) selected)
  ok (record {
    run_ids = map (λ r. r.run_id) selected;
    requests = sum_of (λ r. r.requests) selected;
    failures = sum_of (λ r. r.failures) selected;
    dropped = sum_of (λ r. r.dropped) selected;
    planned_request_slots = sum_of (λ r. r.requests + r.dropped) selected;
    p95 = p95;
    p99 = p99;
    mean = mean;
    sql = sql;
  })

pub record Place : Type 0 where
  pub dataset : ℕ
  pub scenario : Scenario

abbrev pub place_beq : Place → Place → Bool
place_beq a b = a.dataset == b.dataset && a.scenario == b.scenario

pub place_beq_iff : (a b : Place) → (place_beq a b ≡ true) ↔ (a ≡ b)
place_beq_iff a b = ground (arith, scenario_eq.beq_iff a.scenario b.scenario)

instance abbrev pub place_eq : Eq Place
place_eq = record { beq = place_beq; beq_iff = place_beq_iff }

abbrev pub place_of : Run → Place
place_of run = record { dataset = run.dataset; scenario = run.scenario }

abbrev scenario_places : ℕ → List Scenario → List Place
scenario_places size [] = []
scenario_places size (case ∷ cases) =
    record { dataset = size; scenario = case } ∷ scenario_places size cases

abbrev dataset_places : List ℕ → List Place
dataset_places [] = []
dataset_places (size ∷ sizes) = scenario_places size scenarios ++ dataset_places sizes

-- `for size in DATASETS: for case in SCENARIOS`
pub places : List Place
places = dataset_places datasets

pub aggregate_at : List Place → List Run → Result Error (List (Place × Group))
unfolding group
aggregate_at [] runs = ok []
aggregate_at (place ∷ rest) runs = do
  one ← group (select (λ r. place_of r == place) runs)
  others ← aggregate_at rest runs
  ok ((place, one) ∷ others)

unfoldable pub aggregate : List Run → Result Error (List (Place × Group))
unfolding places aggregate_at
aggregate runs = aggregate_at places runs
