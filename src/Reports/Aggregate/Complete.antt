-- ===== src/Reports/Aggregate/Complete.antt =====
-- Every run counts in exactly one group of the report.
use receipt_expense_review.Prelude.{
  ℕ, ◌+◌, ◌≡◌, refl, ap, ◌∙◌, true, List, [], ◌∷◌, map, arith, leb, ◌==◌, nat_eq, string_eq, select,
  All, contains, Result, ok, >>=-eq-ok,
}
use receipt_expense_review.Sql.{kind_eq}
use receipt_expense_review.Reports.{Run, Meta, planned}
use receipt_expense_review.Reports.Plan.Complete.{twelve_runs-All}
use receipt_expense_review.Reports.Validate.{Folder, validate_complete}
use receipt_expense_review.Reports.Validate.Offered.{validate_complete-plan}
use receipt_expense_review.Reports.Groups.{total, group_total, IsDistinct, groups-total}
use receipt_expense_review.Reports.Stats.{Error, stats}
use receipt_expense_review.Reports.Aggregate.{
  Group, sum_of, all_sql, report_kinds, group, Place, place_eq, place_of, places, aggregate_at,
  aggregate,
}

sum_of-total : (f : Run → ℕ) (runs : List Run) → sum_of f runs ≡ total f runs
sum_of-total f [] = refl
sum_of-total f (run ∷ runs) = omega (arith, sum_of-total f runs)

-- The sums of a group are those of its runs.
group-sums :
    (selected : List Run) (g : Group)
    → group selected ≡ ok g
    → (g.requests ≡ total (λ r. r.requests) selected)
      × (g.failures ≡ total (λ r. r.failures) selected)
      × (g.dropped ≡ total (λ r. r.dropped) selected)
      × (g.planned_request_slots ≡ total (λ r. r.requests + r.dropped) selected)
unfolding group
group-sums selected g h =
    let a = >>=-eq-ok (all_sql selected report_kinds) _ h in
    let b = >>=-eq-ok (stats leb (map (λ r. r.p95) selected)) _ a.2 in
    let c = >>=-eq-ok (stats leb (map (λ r. r.p99) selected)) _ b.2 in
    let d = >>=-eq-ok (stats leb (map (λ r. r.mean) selected)) _ c.2 in
    let e = same d.2 in
    (
      ap (λ g. g.requests) e ∙ sum_of-total (λ r. r.requests) selected,
      ap (λ g. g.failures) e ∙ sum_of-total (λ r. r.failures) selected,
      ap (λ g. g.dropped) e ∙ sum_of-total (λ r. r.dropped) selected,
      ap (λ g. g.planned_request_slots) e ∙ sum_of-total (λ r. r.requests + r.dropped) selected,
    )
  where
    same : {x y : Group} → Path (Result Error Group) (ok x) (ok y) → y ≡ x
    same h = cc

pub sum_groups : (Group → ℕ) → List (Place × Group) → ℕ
sum_groups f [] = 0
sum_groups f ((place, g) ∷ groups) = f g + sum_groups f groups

at-total :
    (field : Group → ℕ) (w : Run → ℕ)
    → ((selected : List Run) (g : Group) → group selected ≡ ok g → field g ≡ total w selected)
    → (ps : List Place) (runs : List Run) (groups : List (Place × Group))
    → aggregate_at ps runs ≡ ok groups
    → sum_groups field groups ≡ total (group_total place_of w runs) ps
unfolding aggregate_at sum_groups
at-total field w sums [] runs [] h = refl
at-total field w sums [] runs (g ∷ groups) h = cc
at-total field w sums (p ∷ ps) runs groups h =
    let one = >>=-eq-ok (group (select (λ r. place_of r == p) runs)) _ h in
    let others = >>=-eq-ok (aggregate_at ps runs) _ one.2 in
    ap (sum_groups field) (same others.2)
    ∙ omega (
      arith,
      sums (select (λ r. place_of r == p) runs) one.0 one.1,
      at-total field w sums ps runs others.0 others.1,
    )
  where
    same :
        {x y : List (Place × Group)}
        → Path (Result Error (List (Place × Group))) (ok x) (ok y)
        → y ≡ x
    same h = cc

places-IsDistinct : IsDistinct places
unfolding places IsDistinct
places-IsDistinct = (refl, (refl, (refl, (refl, tt))))

module _ (runs : List Run) (groups : List (Place × Group)) (made : aggregate runs ≡ ok groups)
    (placed : All (λ r. contains places (place_of r) ≡ true) runs) where
  field-total :
      (field : Group → ℕ) (w : Run → ℕ)
      → ((selected : List Run) (g : Group) → group selected ≡ ok g → field g ≡ total w selected)
      → sum_groups field groups ≡ total w runs
  unfolding aggregate
  field-total field w sums =
      at-total field w sums places runs groups made
      ∙ groups-total place_of w places runs places-IsDistinct placed

  -- The requests, failures, dropped arrivals and planned slots of all groups are those of all runs.
  IsWhole : Type 0
  IsWhole =
      (sum_groups (λ g. g.requests) groups ≡ total (λ r. r.requests) runs)
      × (sum_groups (λ g. g.failures) groups ≡ total (λ r. r.failures) runs)
      × (sum_groups (λ g. g.dropped) groups ≡ total (λ r. r.dropped) runs)
      × (sum_groups (λ g. g.planned_request_slots) groups
          ≡ total (λ r. r.requests + r.dropped) runs)

  whole : IsWhole
  unfolding IsWhole
  whole = (
    field-total (λ g. g.requests) (λ r. r.requests) (λ s g h. (group-sums s g h).0),
    field-total (λ g. g.failures) (λ r. r.failures) (λ s g h. (group-sums s g h).1),
    field-total (λ g. g.dropped) (λ r. r.dropped) (λ s g h. (group-sums s g h).2),
    field-total (λ g. g.planned_request_slots) (λ r. r.requests + r.dropped)
        (λ s g h. (group-sums s g h).3),
  )

-- The groups of a report whose runs `validate_complete` has passed leave out no run and count none
-- twice: their requests, failures, dropped arrivals and planned slots add up to those of all runs.
pub aggregate-whole :
    (folder : Folder) (meta : Meta) (runs : List Run) (groups : List (Place × Group))
    → validate_complete folder meta ≡ ok runs
    → aggregate runs ≡ ok groups
    → (sum_groups (λ g. g.requests) groups ≡ total (λ r. r.requests) runs)
      × (sum_groups (λ g. g.failures) groups ≡ total (λ r. r.failures) runs)
      × (sum_groups (λ g. g.dropped) groups ≡ total (λ r. r.dropped) runs)
      × (sum_groups (λ g. g.planned_request_slots) groups
          ≡ total (λ r. r.requests + r.dropped) runs)
unfolding places IsWhole planned
aggregate-whole folder meta runs groups valid made = whole runs groups made (
    twelve_runs-All
      (λ k. contains places (record { dataset = k.dataset; scenario = k.scenario }) ≡ true) runs
      (validate_complete-plan folder meta runs valid)
      (
        refl,
        (refl, (refl, (refl, (refl, (refl, (refl, (refl, (refl, (refl, (refl, (refl, tt))))))))))),
      ))
