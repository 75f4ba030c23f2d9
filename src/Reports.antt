-- ===== src/Reports.antt =====
-- The reports on the finished experiments (load/report-review.py, load/report-review-comparison.py):
-- the runs they read, the plan they hold them to, and the sums they show.
pub mod Groups
pub mod Plan
pub mod Validate
pub mod Stats
pub mod Aggregate
mod Tests
use receipt_expense_review.Prelude.{
  ℕ, ◌*◌, String, ◌≡◌, ◌↔◌, Bool, true, ◌&&◌, Option, List, [], ◌∷◌, ◌++◌, arith, Eq, ◌==◌, nat_eq,
  string_eq, Dict,
}
use receipt_expense_review.Sql.{Kind, kind_eq, Counters}
use receipt_expense_review.Fixture.{Scenario, scenario_eq}

-- `(r['dataset'], r['scenario'], r['repeat'])`
pub record Combination : Type 0 where
  pub dataset : ℕ
  pub scenario : Scenario
  pub repeat : ℕ

unfoldable pub combination_beq : Combination → Combination → Bool
combination_beq a b = a.dataset == b.dataset && (a.scenario == b.scenario && a.repeat == b.repeat)

pub combination_beq_iff : (a b : Combination) → (combination_beq a b ≡ true) ↔ (a ≡ b)
unfolding combination_beq
combination_beq_iff a b = ground (arith, scenario_eq.beq_iff a.scenario b.scenario)

instance abbrev pub combination_eq : Eq Combination
combination_eq = record { beq = combination_beq; beq_iff = combination_beq_iff }

-- A run as its `verification.json` records it, as far as the reports read it. `samples` has the
-- number of observations of a service; times are in picoseconds.
pub record Run : Type 0 where
  pub run_id : String
  pub image_id : String
  pub combination : Combination
  pub open combination use *
  pub rate : ℕ
  pub seconds : ℕ
  pub warmup : ℕ
  pub k6_exit_code : Option ℕ
  pub checks : Dict String Bool
  pub requests : ℕ
  pub failures : ℕ
  pub dropped : ℕ
  pub p95 : ℕ
  pub p99 : ℕ
  pub mean : ℕ
  pub sql : Dict Kind Counters
  pub samples : Dict String ℕ

-- `experiment.json`
pub record Meta : Type 0 where
  pub completed : Bool
  pub restored_original_database : Bool
  pub original_receipt_count : ℕ
  pub original_receipt_count_after : Option ℕ
  pub rate : ℕ
  pub seconds : ℕ
  pub warmup : ℕ
  pub repeats : ℕ
  pub runs : List Run

-- `DATASETS`, `SCENARIOS` and the repeats
abbrev pub datasets : List ℕ
datasets = 10000 ∷ 100000 ∷ []

abbrev pub scenarios : List Scenario
scenarios = Scenario.all_pending ∷ Scenario.status_period ∷ []

abbrev pub repeats : List ℕ
repeats = 1 ∷ 2 ∷ 3 ∷ []

abbrev repeat_items : ℕ → Scenario → List ℕ → List Combination
repeat_items size case [] = []
repeat_items size case (r ∷ rs) =
    record { dataset = size; scenario = case; repeat = r } ∷ repeat_items size case rs

abbrev case_items : ℕ → List Scenario → List Combination
case_items size [] = []
case_items size (case ∷ cases) = repeat_items size case repeats ++ case_items size cases

abbrev size_items : List ℕ → List Combination
size_items [] = []
size_items (size ∷ sizes) = case_items size scenarios ++ size_items sizes

-- `(n, c, r) for n in ... for c in ... for r in (1, 2, 3)`
unfoldable pub planned : List Combination
planned = size_items datasets
