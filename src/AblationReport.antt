-- ===== src/AblationReport.antt =====
-- load/report-review-ablation.py: the report on the index ablation experiment, up to its text. Here are
-- the records that it reads.
pub mod Profiles
pub mod Runs
pub mod Load
pub mod Points
mod Tests
use receipt_expense_review.Prelude.{
  ℕ, String, Bool, Option, List, [], ◌∷◌, map, nat_eq, string_eq, Dict, Result, ok, ◌>>◌, require,
}
use receipt_expense_review.Sql.{Kind, kind_eq, Counters}
use receipt_expense_review.Fixture.{Scenario, scenario_eq}
use receipt_expense_review.Ablation.{Variant, variant_eq, Key, key_eq}
use receipt_expense_review.Reports.{Run}
use receipt_expense_review.Runner.{Public}
use receipt_expense_review.Evidence as Evidence

-- A run of `experiment.json`, with what the experiment added to it.
pub record Entry : Type 0 where
  pub run : Run
  pub variant : Variant
  pub pair_id : String
  pub pair_order : ℕ

abbrev pub key_of : Entry → Key
key_of e = record {
  dataset = e.run.combination.dataset;
  scenario = e.run.combination.scenario;
  repeat = e.run.combination.repeat;
  variant = e.variant;
}

-- `experiment.json`, as far as it is read; a flag is false also where it is missing.
pub record Meta : Type 0 where
  pub completed : Bool
  pub restored_original_database : Bool
  pub rate : ℕ
  pub seconds : ℕ
  pub warmup : ℕ
  pub repeats : ℕ
  pub runs : List Entry
  pub image : Variant → String

pub record Serial : Type 0 where
  pub requests : ℕ
  pub sql : Dict Kind Counters

-- An entry of an `explain-*.json`; `time` is the top node's, where the plan's first line has one.
pub record Explained : Type 0 where
  pub kind : Option Kind
  pub sql : String
  pub repeat : ℕ
  pub time : Option ℕ

-- Which profile: data set, case, page and variant.
pub record Place : Type 0 where
  pub dataset : ℕ
  pub scenario : Scenario
  pub page : ℕ
  pub variant : Variant

-- `comparability.json`
pub record Proof : Type 0 where
  pub passed : Bool
  pub checks : Dict String Bool

-- The files; `none` is one that is missing. `is_inside` is that a run's folder is below the root, and
-- `holds` that each field of an original is in the run; `counts_rows` is `"count(" in sql.lower()`.
pub record Files : Type 0 where
  pub original_before : Option String
  pub original_after : Option String
  pub fixture : Place → Option Public
  pub serial : Place → Option Serial
  pub explained : Place → Option (List Explained)
  pub is_inside : Entry → Bool
  pub verification : Entry → Option Entry
  pub holds : Entry → Entry → Bool
  pub run_fixture : Entry → Option Public
  pub samples : Entry → Evidence.Run × Evidence.Folder
  pub proof : Option Proof
  pub layer_images : Option (Variant → String)
  pub counts_rows : String → Bool

-- What is not met where `require` raises `ValueError`.
pub data Requirement : Type 0 where
  completed restored original_data load plan run_ids serial_requests serial_kinds : Requirement
  serial_counts unknown_plan plans_missing three_plans plan_time same_answers : Requirement
  outside_root recorded run_load k6_exit evidence known_kinds sql_seen arrivals : Requirement
  resources_seen run_answer one_image comparable pair_order layers : Requirement

pub data Error : Type 0 where
  value_error : Requirement → Error
  no_file key_error no_values zero_division : Error
  raw_error : Evidence.Error → Error

unfoldable pub needs : Bool → Requirement → Result Error (Unit {0})
needs condition requirement = require condition (Error.value_error requirement)

abbrev pub variants : List Variant
variants = Variant.index_only ∷ Variant.id_first ∷ []

-- `EXPECTED`
abbrev pub expected_kinds : Variant → List Kind
expected_kinds Variant.index_only = Kind.employee ∷ Kind.list ∷ Kind.count ∷ Kind.jobs ∷ []
expected_kinds Variant.id_first =
    Kind.employee ∷ Kind.ids ∷ Kind.entities ∷ Kind.count ∷ Kind.jobs ∷ []

abbrev pub kinds_of : {A : Type 0} → Dict Kind A → List Kind
kinds_of d = map (λ entry. entry.0) d

abbrev pub each : {A : Type 0} → (A → Result Error (Unit {0})) → List A → Result Error (Unit {0})
each body [] = ok tt
each body (x ∷ xs) = body x >> each body xs
