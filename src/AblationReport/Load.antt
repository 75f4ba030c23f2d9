-- ===== src/AblationReport/Load.antt =====
-- `load_report` of load/report-review-ablation.py: what an experiment has to be for a report, and the
-- groups and pairs that are shown.
pub mod Paired
use receipt_expense_review.Prelude.{
  ℕ, suc, ◌+◌, String, Bool, true, not, ◌&&◌, Option, none, some, List, [], ◌∷◌, ◌++◌, map, leb,
  if◌then◌else◌, Eq, ◌==◌, nat_eq, string_eq, length, select, all, contains, Dict, Result, ok,
  ◌>>=◌, ◌>>◌, or_raise,
}
use receipt_expense_review.Prelude.Int.{ℤ}
use receipt_expense_review.Fixture.{Scenario, scenario_eq}
use receipt_expense_review.Ablation.{Variant, variant_eq, Key, key_eq}
use receipt_expense_review.Evidence as Evidence
use receipt_expense_review.Reports.{datasets, scenarios, repeats}
use receipt_expense_review.Reports.Plan.{same_counts}
use receipt_expense_review.Reports.Stats.{Stats, stats}
use receipt_expense_review.AblationReport.Profiles.{Profile, collect_profiles, stats_of}
use receipt_expense_review.AblationReport.Runs.{check_runs, pair_delta}
use receipt_expense_review.AblationReport.{
  Entry, key_of, Meta, Proof, Files, Requirement, Error, needs, variants, each,
}

-- `len(set(xs))`
abbrev pub set_size {ℓ} : {A : Type ℓ} ⦃e : Eq A⦄ → List A → ℕ
set_size [] = 0
set_size (x ∷ xs) = if contains xs x then set_size xs else suc (set_size xs)

abbrev variant_keys : ℕ → Scenario → ℕ → List Variant → List Key
variant_keys size case repeat [] = []
variant_keys size case repeat (v ∷ vs) =
    record { dataset = size; scenario = case; repeat = repeat; variant = v }
    ∷ variant_keys size case repeat vs

abbrev repeat_keys : ℕ → Scenario → List ℕ → List Key
repeat_keys size case [] = []
repeat_keys size case (r ∷ rs) = variant_keys size case r variants ++ repeat_keys size case rs

abbrev case_keys : ℕ → List Scenario → List Key
case_keys size [] = []
case_keys size (case ∷ cases) = repeat_keys size case repeats ++ case_keys size cases

abbrev size_keys : List ℕ → List Key
size_keys [] = []
size_keys (size ∷ sizes) = case_keys size scenarios ++ size_keys sizes

-- `(n, c, r, v) for n in ... for c in ... for r in (1, 2, 3) for v in VARIANTS`
abbrev pub planned_keys : List Key
planned_keys = size_keys datasets

abbrev pub keys : List Entry → List Key
keys entries = map key_of entries

-- The runs of one variant, data set and case; the resources are left out.
pub record Group : Type 0 where
  pub variant : Variant
  pub dataset : ℕ
  pub scenario : Scenario
  pub run_ids : List String
  pub p95 : Stats ℕ
  pub p99 : Stats ℕ
  pub requests : ℕ
  pub failures : ℕ
  pub dropped : ℕ

pub record Pair : Type 0 where
  pub dataset : ℕ
  pub scenario : Scenario
  pub deltas : List ℤ

pub record Report : Type 0 where
  pub runs : List Entry
  pub profiles : List Profile
  pub assessments : Dict String Evidence.Assessment
  pub groups : List Group
  pub pairs : List Pair

abbrev sum : List ℕ → ℕ
sum [] = 0
sum (n ∷ ns) = n + sum ns

abbrev selected : List Entry → Variant → ℕ → Scenario → List Entry
selected entries variant size case =
    select
      (λ e.
        e.variant == variant
        && (e.run.combination.dataset == size && e.run.combination.scenario == case))
      entries

unfoldable pub group_of : List Entry → ℕ → Variant → Scenario → Result Error Group
group_of entries size variant case = do
  let chosen = selected entries variant size case
  p95 ← stats_of (stats leb (map (λ e. e.run.p95) chosen))
  p99 ← stats_of (stats leb (map (λ e. e.run.p99) chosen))
  ok (record {
    variant = variant;
    dataset = size;
    scenario = case;
    run_ids = map (λ e. e.run.run_id) chosen;
    p95 = p95;
    p99 = p99;
    requests = sum (map (λ e. e.run.requests) chosen);
    failures = sum (map (λ e. e.run.failures) chosen);
    dropped = sum (map (λ e. e.run.dropped) chosen);
  })

-- `[body(x) for x in xs]`
abbrev pub gather : {A B : Type 0} → (A → Result Error B) → List A → Result Error (List B)
gather body [] = ok []
gather body (x ∷ xs) = do b ← body x; bs ← gather body xs; ok (b ∷ bs)

unfoldable pub pair_of : List Entry → ℕ → Scenario → Result Error Pair
pair_of entries size case = do
  deltas ← gather (pair_delta entries size case) repeats
  ok (record { dataset = size; scenario = case; deltas = deltas })

-- The groups and the pairs of one data set.
abbrev pub shown : List Entry → ℕ → Result Error (List (List Group) × List Pair)
shown entries size = do
  groups ← gather (λ variant. gather (group_of entries size variant) scenarios) variants
  pairs ← gather (pair_of entries size) scenarios
  ok (groups, pairs)

abbrev joined : {A : Type 0} → List (List A) → List A
joined [] = []
joined (xs ∷ xss) = xs ++ joined xss

abbrev pub is_comparable : Proof → Bool
is_comparable proof =
    proof.passed && (not (length proof.checks == 0) && all (λ entry. entry.1) proof.checks)

abbrev pub one_image : List Entry → Variant → Bool
one_image entries variant =
    set_size (map (λ e. e.run.image_id) (select (λ e. e.variant == variant) entries)) == 1

abbrev same_images : Option (Variant → String) → (Variant → String) → Bool
same_images none image = true
same_images (some layers) image = all (λ v. layers v == image v) variants

-- The tests before a file of a run is read.
unfoldable pub check_meta : Files → Meta → Result Error (Unit {0})
check_meta files meta = do
  needs meta.completed Requirement.completed
  needs meta.restored_original_database Requirement.restored
  before ← or_raise files.original_before Error.no_file
  after ← or_raise files.original_after Error.no_file
  needs (before == after) Requirement.original_data
  needs (meta.rate == 20 && (meta.seconds == 60 && (meta.warmup == 30 && meta.repeats == 3)))
      Requirement.load
  needs (same_counts (keys meta.runs) planned_keys) Requirement.plan
  needs (set_size (map (λ e. e.run.run_id) meta.runs) == 24) Requirement.run_ids

unfoldable pub load_report : Files → Meta → Result Error Report
load_report files meta = do
  check_meta files meta
  profiles ← collect_profiles files
  assessments ← check_runs files profiles meta.runs []
  each (λ v. needs (one_image meta.runs v) Requirement.one_image) variants
  proof ← or_raise files.proof Error.no_file
  needs (is_comparable proof) Requirement.comparable
  parts ← gather (shown meta.runs) datasets
  needs (same_images files.layer_images meta.image) Requirement.layers
  ok (record {
    runs = meta.runs;
    profiles = profiles;
    assessments = assessments;
    groups = joined (map (λ part. joined part.0) parts);
    pairs = joined (map (λ part. part.1) parts);
  })
