-- ===== src/AblationReport/Profiles.antt =====
-- `collect_profiles` of load/report-review-ablation.py.
use receipt_expense_review.Prelude.{
  ℕ, String, Bool, ◌&&◌, none, some, List, [], ◌∷◌, ◌++◌, map, leb, if◌then◌else◌, ◌==◌, nat_eq,
  string_eq, length, all, contains, Dict, lookup, insert, Result, ok, err, ◌>>=◌, ◌>>◌, or_raise,
}
use receipt_expense_review.Sql.{Kind, kind_eq, Counters}
use receipt_expense_review.Fixture.{Scenario}
use receipt_expense_review.Ablation.{Variant}
use receipt_expense_review.Reports.{datasets}
use receipt_expense_review.Reports.Plan.{same_set}
use receipt_expense_review.Reports.Stats.{Stats, stats}
use receipt_expense_review.Reports.Stats as Stats
use receipt_expense_review.Runner.{Public}
use receipt_expense_review.Runner.Profile.{profiled_pages}
use receipt_expense_review.OptimizedRunner.{same_public}
use receipt_expense_review.AblationReport.{
  Serial, Explained, Place, Files, Requirement, Error, needs, expected_kinds, kinds_of,
}

pub record Profile : Type 0 where
  pub place : Place
  pub fixture : Public
  pub serial : Serial
  pub top_node : Dict Kind (Stats ℕ)

-- `entry.get("kind") or (...)`
abbrev pub plan_kind : (String → Bool) → Explained → Kind
plan_kind counts_rows entry = elim entry.kind [
  | none ↦ if counts_rows entry.sql then Kind.count else Kind.list
  | some k ↦ k
]

-- `grouped.setdefault(kind, []).append(entry)`
abbrev pub add_entry : Kind → Explained → Dict Kind (List Explained) → Dict Kind (List Explained)
add_entry kind entry grouped =
    insert kind (elim (lookup kind grouped) [ none ↦ entry ∷ [] | some es ↦ es ++ entry ∷ [] ])
      grouped

pub group_plans :
    (String → Bool)
    → Variant
    → List Explained
    → Dict Kind (List Explained)
    → Result Error (Dict Kind (List Explained))
group_plans counts_rows variant [] grouped = ok grouped
group_plans counts_rows variant (entry ∷ plans) grouped =
    let kind = plan_kind counts_rows entry in
    needs (contains (expected_kinds variant) kind) Requirement.unknown_plan
    >> group_plans counts_rows variant plans (add_entry kind entry grouped)

pub times_of : List Explained → Result Error (List ℕ)
times_of [] = ok []
times_of (entry ∷ entries) = do
  time ← or_raise entry.time (Error.value_error Requirement.plan_time)
  times ← times_of entries
  ok (time ∷ times)

abbrev pub stats_of : Result Stats.Error (Stats ℕ) → Result Error (Stats ℕ)
stats_of (ok s) = ok s
stats_of (err e) = err Error.no_values

-- The loop over `grouped.items()`.
pub summarize_plans : Dict Kind (List Explained) → Result Error (Dict Kind (Stats ℕ))
unfolding times_of
summarize_plans [] = ok []
summarize_plans ((kind, entries) ∷ grouped) = do
  needs (length entries == 3 && same_set (map (λ e. e.repeat) entries) (1 ∷ 2 ∷ 3 ∷ []))
      Requirement.three_plans
  times ← times_of entries
  top_node ← stats_of (stats leb times)
  rest ← summarize_plans grouped
  ok ((kind, top_node) ∷ rest)

-- `"list" if variant == "index_only" else "ids"`
abbrev pub listing_kind : Variant → Kind
listing_kind Variant.index_only = Kind.list
listing_kind Variant.id_first = Kind.ids

abbrev pub hundred : Kind × Counters → Bool
hundred (kind, q) = q.count == 100 && q.errors == 0

-- The body of the loop over the variants.
unfoldable pub collect_profile : Files → Place → Result Error Profile
unfolding group_plans summarize_plans
collect_profile files place = do
  fixture ← or_raise (files.fixture place) Error.no_file
  serial ← or_raise (files.serial place) Error.no_file
  needs (serial.requests == 100) Requirement.serial_requests
  needs (same_set (kinds_of serial.sql) (expected_kinds place.variant)) Requirement.serial_kinds
  needs (all hundred serial.sql) Requirement.serial_counts
  plans ← or_raise (files.explained place) Error.no_file
  grouped ← group_plans files.counts_rows place.variant plans []
  needs
      (contains (kinds_of grouped) Kind.count
        && contains (kinds_of grouped) (listing_kind place.variant))
      Requirement.plans_missing
  top_node ← summarize_plans grouped
  ok (record { place = place; fixture = fixture; serial = serial; top_node = top_node })

-- Both variants of one page; their answers are the same.
unfoldable pub collect_pair : Files → ℕ → Scenario × ℕ → Result Error (List Profile)
collect_pair files size target = do
  index_only ← collect_profile files (record {
    dataset = size;
    scenario = target.0;
    page = target.1;
    variant = Variant.index_only;
  })
  id_first ←
      collect_profile files (record {
        dataset = size;
        scenario = target.0;
        page = target.1;
        variant = Variant.id_first;
      })
  needs (same_public index_only.fixture id_first.fixture) Requirement.same_answers
  ok (index_only ∷ id_first ∷ [])

abbrev pub collect_pages : Files → ℕ → List (Scenario × ℕ) → Result Error (List Profile)
collect_pages files size [] = ok []
collect_pages files size (target ∷ targets) = do
  pair ← collect_pair files size target
  rest ← collect_pages files size targets
  ok (pair ++ rest)

abbrev pub collect_sizes : Files → List ℕ → Result Error (List Profile)
collect_sizes files [] = ok []
collect_sizes files (size ∷ sizes) = do
  pages ← collect_pages files size profiled_pages
  rest ← collect_sizes files sizes
  ok (pages ++ rest)

unfoldable pub collect_profiles : Files → Result Error (List Profile)
collect_profiles files = collect_sizes files datasets
