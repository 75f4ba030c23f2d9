-- ===== src/Runner/Records.antt =====
-- The records that the runners of load/review-baseline.py and load/review-optimized.py keep.
use receipt_expense_review.Prelude.{ℕ, String, Bool, Option, List, nat_eq, string_eq, Dict}
use receipt_expense_review.Sql.{Kind, Counters, Totals}
use receipt_expense_review.Fixture.{Scenario, Expected, Answer}
use receipt_expense_review.Reports.{Combination}
use receipt_expense_review.Optimized.{Row}

-- `public` of `fixture`
pub record Public : Type 0 where
  pub path : String
  pub expected : Expected
  pub sha256 : String
  pub response_bytes : ℕ

-- An HTTP answer: the JSON, its SHA-256 and its size.
pub record Response : Type 0 where
  pub actual : Answer
  pub sha256 : String
  pub size : ℕ

-- A row of `events_statements_summary_by_digest`.
pub record Digest : Type 0 where
  pub digest : String
  pub sql : String
  pub counters : Counters

-- `metrics` of a `summary.json`; `latency` is only copied.
pub record Summary : Type 0 where
  pub requests : ℕ
  pub failures : ℕ
  pub dropped : Option ℕ
  pub latency : String
  pub response_bytes : ℕ

-- A line of `metrics.json`.
pub record Line : Type 0 where
  pub is_point : Bool
  pub metric : String
  pub status : String

-- The load: `rate`, `seconds` and `warmup`.
pub record Load : Type 0 where
  pub rate : ℕ
  pub seconds : ℕ
  pub warmup : ℕ

-- `checks` of `measure`
pub record Checks : Type 0 where
  pub k6 : Bool
  pub no_failures : Bool
  pub no_dropped : Bool
  pub monitor : Bool
  pub samples : Bool
  pub no_sql_errors : Bool
  pub sql_counts : Bool

-- `result` of `measure`; `response_bytes` is to be divided by `requests`.
pub record Measurement : Type 0 where
  pub run_id : String
  pub combination : Combination
  pub load : Load
  pub start_ns : ℕ
  pub end_ns : ℕ
  pub requests : ℕ
  pub failures : ℕ
  pub dropped : ℕ
  pub latency : String
  pub sql : Dict Kind Totals
  pub resources : String
  pub response_bytes : ℕ
  pub checks : Checks
  pub errors : List String
  pub passed : Bool
  pub image_id : String
  pub k6_exit_code : ℕ
  pub warmup_dropped : ℕ
  pub status_counts : Dict String ℕ
  pub response_integrity_passed : Bool

-- What a plan is of: `dict(sql=..., repeat=..., plan=...)`.
pub record Plan : Type 0 where
  pub kind : Option Kind
  pub sql : String
  pub repeat : ℕ
  pub plan : String

-- One page of one case on one data set.
pub record Page : Type 0 where
  pub dataset : ℕ
  pub scenario : Scenario
  pub page : ℕ

-- `dataset.json`, as far as it is read: the database.
pub record Dataset : Type 0 where
  pub database : String
  pub rest : String

-- `experiment.json` of the baseline. A flag is false also where it is missing; `resumes` has the
-- completed run counts of `resumeHistory`.
pub record Experiment : Type 0 where
  pub load : Load
  pub repeats : ℕ
  pub original_receipt_count : ℕ
  pub original_receipt_count_after : Option ℕ
  pub datasets : Dict ℕ Dataset
  pub runs : List Row
  pub completed : Bool
  pub restored_original_database : Bool
  pub resumes : List ℕ

-- `fingerprint`, for each table: the columns, the number of rows and the hash.
pub record Fingerprint : Type 0 where
  pub columns : List String
  pub rows : ℕ
  pub sha256 : String

-- What `app_state` and `environment` return; `rest` has the settings and the Java options.
pub record AppState : Type 0 where
  pub image_id : String
  pub database_url : String
  pub memory_bytes : ℕ
  pub nano_cpus : ℕ
  pub rest : String

pub record Environment : Type 0 where
  pub cpu_count : ℕ
  pub memory_bytes : ℕ
  pub buffer_pool_bytes : ℕ
  pub mysql_version : String
  pub app : AppState

-- `experiment.json` of load/review-optimized.py. A flag is false also where it is missing.
pub record Comparison : Type 0 where
  pub baseline_experiment : Option String
  pub original_receipt_count : ℕ
  pub original_receipt_count_after : Option ℕ
  pub original_image_id : String
  pub before_image_id : String
  pub after_image_id : Option String
  pub restored_image_id : Option String
  pub before_controls : List Row
  pub runs : List Row
  pub datasets : Dict ℕ Dataset
  pub scripts : Dict String String
  pub environment : Environment
  pub controls_completed : Bool
  pub profile_completed : Bool
  pub completed : Bool
  pub restored_original_database : Bool
  pub resumes : List ℕ

-- `PROOF`, `comparability.json`: the fixtures and the data sets that were found equal.
pub record Proof : Type 0 where
  pub fixtures : Dict Page Public
  pub datasets : List ℕ
