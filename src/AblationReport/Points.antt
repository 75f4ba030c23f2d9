-- ===== src/AblationReport/Points.antt =====
-- `publication_points`, the tests of `publish` and `representative_run` of
-- load/report-review-ablation.py.
pub mod Defined
use receipt_expense_review.Prelude.{
  ℕ, zero, suc, ◌+◌, ◌-◌, max, String, Bool, ◌&&◌, Option, none, some, List, [], ◌∷◌, ◌++◌, map,
  ltb, if◌then◌else◌, ◌==◌, nat_eq, string_eq, select, Dict, lookup, Result, ok, err, ◌>>=◌, ◌>>◌,
  or_raise,
}
use receipt_expense_review.Sql.{Kind, Counters}
use receipt_expense_review.Fixture.{Scenario, scenario_eq}
use receipt_expense_review.Ablation.{Variant, variant_eq}
use receipt_expense_review.Evidence as Evidence
use receipt_expense_review.Reports.Stats.{Ratio, divide}
use receipt_expense_review.Reports.Stats as Stats
use receipt_expense_review.AblationReport.{Entry, Place, Requirement, Error, each}
use receipt_expense_review.AblationReport.Profiles.{Profile}
use receipt_expense_review.AblationReport.Load.{Report, gather}

-- `SUMMARY`, `SQL` and `SERIAL`
pub data Series : Type 0 where
  summary sql serial : Series

-- The tags of a run, and those of a profile.
pub data Tags : Type 0 where
  of_run : Entry → Option Kind → Tags
  of_profile : Place → Kind → Tags

pub record Point : Type 0 where
  pub series : Series
  pub tags : Tags
  pub fields : Dict String Ratio
  pub timestamp : ℕ

-- What is only copied from a run: the fields of its summary, and the end of its load.
pub record Copied : Type 0 where
  pub fields : Entry → Evidence.Assessment → Dict String Ratio
  pub end_ns : Entry → ℕ

abbrev pub whole : ℕ → Ratio
whole n = record { numerator = n; denominator = 1 }

-- `a / b`
abbrev pub quotient : ℕ → ℕ → Result Error Ratio
quotient a zero = err Error.zero_division
quotient a (suc b) = ok (record { numerator = a; denominator = suc b })

-- The times are in picoseconds here.
unfoldable pub run_sql_fields : ℕ → Counters → Result Error (Dict String Ratio)
run_sql_fields requests q = do
  per_call ← quotient q.timer q.count
  per_request ← quotient q.timer requests
  examined ← quotient q.rows_examined q.count
  sent ← quotient q.rows_sent q.count
  ok (
      ("calls", whole q.count)
      ∷ ("total_ms", whole q.timer)
      ∷ ("ms_per_call", per_call)
      ∷ ("ms_per_request", per_request)
      ∷ ("rows_examined_per_call", examined)
      ∷ ("rows_sent_per_call", sent)
      ∷ [])

unfoldable pub serial_fields : Counters → Result Error (Dict String Ratio)
serial_fields q = do
  per_call ← quotient q.timer q.count
  examined ← quotient q.rows_examined q.count
  sent ← quotient q.rows_sent q.count
  ok (
      ("calls", whole q.count)
      ∷ ("ms_per_call", per_call)
      ∷ ("rows_examined_per_call", examined)
      ∷ ("rows_sent_per_call", sent)
      ∷ [])

-- `max(...)` of nothing raises.
abbrev pub latest : List ℕ → Result Error ℕ
latest [] = err Error.no_values
latest (n ∷ ns) = ok (above n ns)
  where
    above : ℕ → List ℕ → ℕ
    above m [] = m
    above m (k ∷ ks) = above (max m k) ks

module _ (copied : Copied) where
  -- The points of the statements of one run.
  unfoldable pub sql_points : Entry → Result Error (List Point)
  sql_points e =
      gather
        (λ row. do
          fields ← run_sql_fields e.run.requests row.1
          ok (record {
            series = Series.sql;
            tags = Tags.of_run e (some row.0);
            fields = fields;
            timestamp = copied.end_ns e;
          }))
        e.run.sql

  unfoldable pub run_points : Dict String Evidence.Assessment → Entry → Result Error (List Point)
  run_points assessments e = do
    assessment ← or_raise (lookup e.run.run_id assessments) Error.key_error
    points ← sql_points e
    ok (
        record {
          series = Series.summary;
          tags = Tags.of_run e none;
          fields = copied.fields e assessment;
          timestamp = copied.end_ns e;
        }
        ∷ points)

  -- The points of the sequential requests of one profile.
  unfoldable pub serial_points : List Entry → Profile → Result Error (List Point)
  serial_points entries p =
      gather
        (λ row. do
          last ← latest (map copied.end_ns entries)
          fields ← serial_fields row.1
          ok (record {
            series = Series.serial;
            tags = Tags.of_profile p.place row.0;
            fields = fields;
            timestamp = last;
          }))
        p.serial.sql

  abbrev joined : List (List Point) → List Point
  joined [] = []
  joined (ps ∷ pss) = ps ++ joined pss

  unfoldable pub publication_points : Report → Result Error (List Point)
  publication_points report = do
    runs ← gather (run_points report.assessments) report.runs
    profiles ← gather (serial_points report.runs) report.profiles
    ok (joined runs ++ joined profiles)

abbrev distance : ℕ → ℕ → ℕ
distance a b = a - b + (b - a)

abbrev nearest : ℕ → Entry → List Entry → Entry
nearest target e [] = e
nearest target e (f ∷ entries) =
    nearest target (if ltb (distance f.run.p95 target) (distance e.run.p95 target) then f else e)
      entries

abbrev is_candidate : Entry → Bool
is_candidate e =
    e.variant == Variant.id_first
    && (e.run.combination.dataset == 100000 && e.run.combination.scenario == Scenario.all_pending)

abbrev first_nearest : ℕ → List Entry → Result Error Entry
first_nearest target [] = err Error.no_values
first_nearest target (e ∷ entries) = ok (nearest target e entries)

-- `min(candidates, key=...)`: the first of those nearest to the median.
unfoldable pub representative_run : ℕ → List Entry → Result Error Entry
representative_run median entries = first_nearest median (select is_candidate entries)
