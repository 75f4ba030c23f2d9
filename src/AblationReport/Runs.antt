-- ===== src/AblationReport/Runs.antt =====
-- What `load_report` of load/report-review-ablation.py demands of each run, and of each pair of runs.
use receipt_expense_review.Prelude.{
  ℕ, String, Bool, not, ◌&&◌, ◌||◌, Option, none, some, List, [], ◌∷◌, if◌then◌else◌, ◌==◌, nat_eq,
  string_eq, Dict, lookup, insert, Result, ok, err, ◌>>=◌, ◌>>◌, or_raise,
}
use receipt_expense_review.Prelude.Int.{ℤ, sub_ℕ}
use receipt_expense_review.Sql.{kind_eq}
use receipt_expense_review.Fixture.{Scenario, scenario_eq}
use receipt_expense_review.Ablation.{Variant, variant_eq, Key, key_eq}
use receipt_expense_review.Evidence.{assess_raw_requests}
use receipt_expense_review.Evidence as Evidence
use receipt_expense_review.Reports.Plan.{same_set}
use receipt_expense_review.Reports.Validate.{
  run_load_ok, exit_ok, has_evidence, arrivals_ok, all_seen,
}
use receipt_expense_review.Runner.{Public}
use receipt_expense_review.OptimizedRunner.{same_public}
use receipt_expense_review.AblationReport.Profiles.{Profile}
use receipt_expense_review.AblationReport.{
  Entry, key_of, Files, Requirement, Error, needs, expected_kinds, kinds_of, each,
}

-- `for service in ("app", "mysql", "db")`
abbrev pub services : List String
services = "app" ∷ "mysql" ∷ "db" ∷ []

abbrev pub sampled : Dict String ℕ → String → Result Error (Unit {0})
sampled samples service = do
  n ← or_raise (lookup service samples) Error.key_error
  needs (not (n == 0)) Requirement.resources_seen

-- The tests of the run's own record.
unfoldable pub check_record : Files → Entry → Result Error (Unit {0})
check_record files e = do
  needs (files.is_inside e) Requirement.outside_root
  raw ← or_raise (files.verification e) Error.no_file
  needs (files.holds raw e) Requirement.recorded
  needs (run_load_ok e.run) Requirement.run_load
  needs (exit_ok e.run.k6_exit_code) Requirement.k6_exit
  needs (has_evidence e.run) Requirement.evidence
  needs (same_set (kinds_of e.run.sql) (expected_kinds e.variant)) Requirement.known_kinds
  needs (all_seen e.run.sql) Requirement.sql_seen
  needs (arrivals_ok e.run) Requirement.arrivals
  each (sampled e.run.samples) services

-- `BASE.assess_raw_requests(directory.parent, [run])`
abbrev pub raw_assessment :
    Result Evidence.Error (Dict String Evidence.Assessment)
    → Result Error (Dict String Evidence.Assessment)
raw_assessment (ok d) = ok d
raw_assessment (err e) = err (Error.raw_error e)

-- `assessments.update(...)`
abbrev pub merge :
    Dict String Evidence.Assessment
    → Dict String Evidence.Assessment
    → Dict String Evidence.Assessment
merge d [] = d
merge d ((name, a) ∷ more) = merge (insert name a d) more

abbrev pub is_standard : Entry → Profile → Bool
is_standard e p =
    p.place.dataset == e.run.combination.dataset
    && (p.place.scenario == e.run.combination.scenario
        && (p.place.page == 0 && p.place.variant == e.variant))

-- `next(p["fixture"] for p in profiles if ...)`
abbrev pub standard_of : Entry → List Profile → Option Public
standard_of e [] = none
standard_of e (p ∷ profiles) = if is_standard e p then some p.fixture else standard_of e profiles

unfoldable pub check_answer : Files → List Profile → Entry → Result Error (Unit {0})
check_answer files profiles e = do
  fixture ← or_raise (files.run_fixture e) Error.no_file
  standard ← or_raise (standard_of e profiles) Error.key_error
  needs (same_public fixture standard) Requirement.run_answer

-- The loop over the runs, which adds to `assessments`.
unfoldable pub check_runs :
    Files
    → List Profile
    → List Entry
    → Dict String Evidence.Assessment
    → Result Error (Dict String Evidence.Assessment)
check_runs files profiles [] assessments = ok assessments
check_runs files profiles (e ∷ entries) assessments = do
  check_record files e
  found ← raw_assessment (assess_raw_requests (files.samples e ∷ []))
  check_answer files profiles e
  check_runs files profiles entries (merge assessments found)

-- `matched.get(variant)`: of equal ones the last counts, as in the dict.
abbrev pub matched : Key → List Entry → Option Entry → Option Entry
matched key [] found = found
matched key (e ∷ entries) found = matched key entries (if key_of e == key then some e else found)

abbrev pub orders_ok : Entry → Entry → Bool
orders_ok a b = (a.pair_order == 1 && b.pair_order == 2) || (a.pair_order == 2 && b.pair_order == 1)

-- One repeat of one case: the difference of the two p95.
unfoldable pub pair_delta : List Entry → ℕ → Scenario → ℕ → Result Error ℤ
pair_delta entries size case repeat = do
  a ←
      or_raise
        (matched
          (record {
            dataset = size;
            scenario = case;
            repeat = repeat;
            variant = Variant.index_only;
          })
          entries none)
        Error.key_error
  b ←
      or_raise
        (matched
          (record { dataset = size; scenario = case; repeat = repeat; variant = Variant.id_first })
          entries none)
        Error.key_error
  needs (a.pair_id == b.pair_id && orders_ok a b) Requirement.pair_order
  ok (sub_ℕ b.run.p95 a.run.p95)
