-- ===== src/Reports/Validate.antt =====
-- `validate_complete` of load/report-review.py; `validate_runs` and `validate_run` of
-- load/report-review-comparison.py.
pub mod Offered
use receipt_expense_review.Prelude.{
  ℕ, ◌+◌, String, Bool, true, false, not, ◌&&◌, ◌||◌, Option, none, some, List, [], ◌∷◌, map, ◌==◌,
  nat_eq, string_eq, all, contains, distinct, Dict, lookup, Result, ok, ◌>>=◌, ◌>>◌, require,
  or_raise,
}
use receipt_expense_review.Sql.{Kind, kind_eq, Counters}
use receipt_expense_review.Reports.{Run, Meta}
use receipt_expense_review.Reports.Plan.{twelve_runs, planned_runs}

-- What is not met where `require` raises `ValueError`.
pub data Requirement : Type 0 where
  completed restored receipt_count load plan run_ids one_image : Requirement
  run_load k6_exit evidence arrivals known_kinds check_names recorded sql_seen resources_seen :
      Requirement

-- `key_error` is a missing key, `no_file` a missing `verification.json`.
pub data Error : Type 0 where
  value_error : Requirement → Error
  key_error no_file : Error

-- `read(folder / run_id / "verification.json")`, and `==` of two such objects.
pub record Folder : Type 0 where
  pub verification : String → Option Run
  pub json_equal : Run → Run → Bool

unfoldable pub needs : Bool → Requirement → Result Error (Unit {0})
needs condition requirement = require condition (value_error requirement)

-- `checks.get(name) is True`
abbrev pub is_true : Dict String Bool → String → Bool
is_true checks name = elim (lookup name checks) [ none ↦ false | some b ↦ b ]

abbrev pub evidence_checks : List String
evidence_checks = "monitor" ∷ "samples" ∷ "noSqlErrors" ∷ []

abbrev pub has_evidence : Run → Bool
has_evidence run = all (is_true run.checks) evidence_checks

-- `(run["rate"], run["seconds"], run["warmup"]) == (20, 60, 30)`
abbrev pub run_load_ok : Run → Bool
run_load_ok run = (run.rate == 20) && ((run.seconds == 60) && (run.warmup == 30))

-- `run.get("k6ExitCode", 0) in (0, 99)`
abbrev pub exit_ok : Option ℕ → Bool
exit_ok none = true
exit_ok (some code) = code == 0 || code == 99

abbrev pub arrivals_ok : Run → Bool
arrivals_ok run = run.requests + run.dropped == 1200 || run.requests + run.dropped == 1201

abbrev pub comparison_kinds : List Kind
comparison_kinds =
    Kind.employee ∷ Kind.list ∷ Kind.ids ∷ Kind.entities ∷ Kind.count ∷ Kind.jobs ∷ []

abbrev pub seen : Counters → Bool
seen item = not (item.count == 0) && (item.errors == 0)

abbrev pub all_seen : Dict Kind Counters → Bool
all_seen sql = all (λ entry. seen entry.1) sql

-- `read(...) == run`
pub is_recorded : Folder → Run → Result Error (Unit {0})
is_recorded folder run = or_raise (folder.verification run.run_id) no_file >>= λ original.
    needs (folder.json_equal original run) recorded

pub validate_run : Folder → Run → Result Error (Unit {0})
unfolding is_recorded
validate_run folder run =
    is_recorded folder run
    >> (needs (run_load_ok run) run_load
        >> (needs (exit_ok run.k6_exit_code) k6_exit
            >> (needs (has_evidence run) evidence
                >> (needs (arrivals_ok run) arrivals
                    >> (needs (all (λ entry. contains comparison_kinds entry.0) run.sql) known_kinds
                        >> needs (all_seen run.sql) sql_seen)))))

pub each_run : (Run → Result Error (Unit {0})) → List Run → Result Error (Unit {0})
each_run validate [] = ok tt
each_run validate (run ∷ runs) = validate run >> each_run validate runs

-- `len({r["imageId"] for r in runs}) == 1`
abbrev pub one_image_id : List Run → Bool
one_image_id [] = false
one_image_id (run ∷ runs) = all (λ r. r.image_id == run.image_id) runs

abbrev pub meta_load_ok : Meta → Bool
meta_load_ok meta =
    (meta.rate == 20) && ((meta.seconds == 60) && ((meta.warmup == 30) && (meta.repeats == 3)))

abbrev pub counted_after : Option ℕ → ℕ → Bool
counted_after none n = false
counted_after (some after) n = n == after

unfoldable pub validate_runs : Folder → Meta → Result Error (List Run)
unfolding validate_run each_run
validate_runs folder meta =
    needs meta.completed completed
    >> (needs meta.restored_original_database restored
        >> (needs
              (counted_after meta.original_receipt_count_after meta.original_receipt_count
                && counted_after meta.original_receipt_count_after 3233)
              receipt_count
            >> (needs (meta_load_ok meta) load
                >> (needs (planned_runs meta.runs) plan
                    >> (needs (one_image_id meta.runs) one_image
                        >> (each_run (validate_run folder) meta.runs >> ok meta.runs))))))

abbrev pub required_names : List String
required_names =
    "k6" ∷ "noFailures" ∷ "noDropped" ∷ "monitor" ∷ "samples" ∷ "noSqlErrors" ∷ "sqlCounts" ∷ []

abbrev pub report_kinds : List Kind
report_kinds = Kind.employee ∷ Kind.list ∷ Kind.count ∷ Kind.jobs ∷ []

-- `for kind in KINDS: require(run["sql"][kind]...)`
pub kinds_seen : Dict Kind Counters → List Kind → Result Error (Unit {0})
kinds_seen sql [] = ok tt
kinds_seen sql (kind ∷ kinds) =
    (or_raise (lookup kind sql) key_error >>= λ item. needs (seen item) sql_seen)
    >> kinds_seen sql kinds

pub resources_sampled : Dict String ℕ → List String → Result Error (Unit {0})
resources_sampled samples [] = ok tt
resources_sampled samples (service ∷ services) =
    (or_raise (lookup service samples) key_error >>= λ n. needs (not (n == 0)) resources_seen)
    >> resources_sampled samples services

-- The loop's body in `validate_complete`.
pub complete_run : Folder → Run → Result Error (Unit {0})
unfolding is_recorded kinds_seen resources_sampled
complete_run folder run =
    needs (run_load_ok run) run_load
    >> (needs (all (contains (map (λ entry. entry.0) run.checks)) required_names) check_names
        >> (needs (has_evidence run) evidence
            >> (needs (exit_ok run.k6_exit_code) k6_exit
                >> (is_recorded folder run
                    >> (kinds_seen run.sql report_kinds
                        >> resources_sampled run.samples ("app" ∷ "mysql" ∷ "db" ∷ []))))))

unfoldable pub validate_complete : Folder → Meta → Result Error (List Run)
unfolding complete_run each_run
validate_complete folder meta =
    needs meta.completed completed
    >> (needs (twelve_runs meta.runs) plan
        >> (needs (distinct (map (λ r. r.run_id) meta.runs)) run_ids
            >> (needs (one_image_id meta.runs) one_image
                >> (needs meta.restored_original_database restored
                    >> (needs
                          (counted_after meta.original_receipt_count_after
                            meta.original_receipt_count)
                          receipt_count
                        >> (needs (meta_load_ok meta) load
                            >> (each_run (complete_run folder) meta.runs >> ok meta.runs)))))))
