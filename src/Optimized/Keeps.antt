-- ===== src/Optimized/Keeps.antt =====
-- No result is lost or altered when the results are collected.
use receipt_expense_review.Prelude.{
  or-false, String, ◌≡◌, refl, ap, ◌∙◌, subst, inl, inr, true, false, ◌&&◌, some, List, [], ◌∷◌,
  map, arith, ◌==◌, nat_eq, string_eq, Bool-cases, All, contains, distinct, Dict, lookup, insert,
  lookup-insert_self, lookup-insert_ne, Result, ok, >>=-eq-ok, require-eq-ok,
}
use receipt_expense_review.Reports.{combination_eq}
use receipt_expense_review.Optimized.{
  Row, row_eq, Error, by_id, unchanged, add_files, values, insert_by_start, sort_by_start,
  collect_runs, repeated_combination,
}

-- The row stands under its own name.
pub IsStored : Dict String Row → Row → Type 0
IsStored rows row = lookup row.run_id rows ≡ some row

-- A later row of the same name is the same row.
keeps :
    (rows : Dict String Row) (old new : Row)
    → IsStored rows old
    → unchanged (lookup new.run_id rows) new ≡ true
    → IsStored (insert new.run_id new rows) old
unfolding IsStored
keeps rows old new stored same = elim (Bool-cases (new.run_id == old.run_id)) [
  | inl here ↦
      let e : new.run_id ≡ old.run_id = (string_eq.beq_iff new.run_id old.run_id).0 here in
      let f : new ≡ old =
        (row_eq.beq_iff new old).0
          (subst (λ o. unchanged o new ≡ true) (ap (λ k. lookup k rows) e ∙ stored) same) in
      rw f (lookup-insert_self old.run_id old rows)
  | inr elsewhere ↦
      lookup-insert_ne new.run_id old.run_id new rows
        (λ e. cc ((string_eq.beq_iff new.run_id old.run_id).1 e, elsewhere))
      ∙ stored
]

add_files-keeps :
    (files : List Row) (rows found : Dict String Row) (old : Row)
    → add_files files rows ≡ ok found
    → IsStored rows old
    → IsStored found old
unfolding add_files
add_files-keeps [] rows found old h stored = subst (λ d. IsStored d old) (same h) stored
  where
    same : {x y : Dict String Row} → Path (Result Error (Dict String Row)) (ok x) (ok y) → x ≡ y
    same h = cc
add_files-keeps (row ∷ files) rows found old h stored =
    let a = require-eq-ok (unchanged (lookup row.run_id rows) row) _ _ h in
    let b = require-eq-ok (row.intact && row.evidence) _ _ a.1 in
    add_files-keeps files (insert row.run_id row rows) found old b.1 (keeps rows old row stored a.0)

add_files-AllStored :
    (files : List Row) (rows found : Dict String Row)
    → add_files files rows ≡ ok found
    → All (IsStored found) files
unfolding add_files IsStored
add_files-AllStored [] rows found h = tt
add_files-AllStored (row ∷ files) rows found h =
    let a = require-eq-ok (unchanged (lookup row.run_id rows) row) _ _ h in
    let b = require-eq-ok (row.intact && row.evidence) _ _ a.1 in
    (
      add_files-keeps files (insert row.run_id row rows) found row b.1
          (lookup-insert_self row.run_id row rows),
      add_files-AllStored files (insert row.run_id row rows) found b.1,
    )

contains-values :
    (id : String) (row : Row) (rows : Dict String Row)
    → lookup id rows ≡ some row
    → contains (values rows) row ≡ true
contains-values id row [] h = cc
contains-values id row ((j, r) ∷ rows) h =
    ground (arith, row_eq.beq_iff r row, contains-values id row rows)

contains-insert :
    (x row : Row) (xs : List Row)
    → contains (x ∷ xs) row ≡ true
    → contains (insert_by_start x xs) row ≡ true
contains-insert x row [] h = h
contains-insert x row (y ∷ ys) h = ground (arith, contains-insert x row ys)

pub contains-sort :
    (row : Row) (xs : List Row) → contains xs row ≡ true → contains (sort_by_start xs) row ≡ true
unfolding sort_by_start
contains-sort row [] h = h
contains-sort row (x ∷ xs) h =
    ground (arith, contains-insert x row (sort_by_start xs), contains-sort row xs)

abbrev pub ids : List Row → List String
ids rows = map (λ row. row.run_id) rows

-- No two of the rows have the same name.
unfoldable pub IsNamed : List Row → Type 0
IsNamed [] = Unit
IsNamed (row ∷ rows) = (contains (ids rows) row.run_id ≡ false) × IsNamed rows

by_id-lookup :
    (id : String) (existing : List Row) (rows : Dict String Row)
    → contains (ids existing) id ≡ false
    → lookup id (by_id existing rows) ≡ lookup id rows
unfolding by_id
by_id-lookup id [] rows absent = refl
by_id-lookup id (row ∷ existing) rows absent =
    let split = or-false (row.run_id == id) (contains (ids existing) id) absent in
    by_id-lookup id existing (insert row.run_id row rows) split.1
    ∙ lookup-insert_ne row.run_id id row rows
        (λ e. cc ((string_eq.beq_iff row.run_id id).1 e, split.0))

by_id-AllStored :
    (existing : List Row) (rows : Dict String Row)
    → IsNamed existing
    → All (IsStored (by_id existing rows)) existing
unfolding by_id IsNamed IsStored
by_id-AllStored [] rows named = tt
by_id-AllStored (row ∷ existing) rows named = (
  by_id-lookup row.run_id existing (insert row.run_id row rows) named.0
      ∙ lookup-insert_self row.run_id row rows,
  by_id-AllStored existing (insert row.run_id row rows) named.1,
)

All-map :
    (P Q : Row → Type 0) (rows : List Row) → ((row : Row) → P row → Q row) → All P rows → All Q rows
All-map P Q [] f h = tt
All-map P Q (row ∷ rows) f h = (f row h.0, All-map P Q rows f h.1)

-- When the recorded runs have different names and `collect_runs` returns, every recorded run and the
-- run of every file is in the result as it is, and no combination of data set, scenario and repeat
-- is there twice.
pub collect_runs-keeps :
    (files existing rows : List Row)
    → IsNamed existing
    → collect_runs files existing ≡ ok rows
    → All (λ row. contains rows row ≡ true) existing
      × All (λ row. contains rows row ≡ true) files
      × (distinct (map (λ row. row.combination) rows) ≡ true)
unfolding collect_runs IsStored
collect_runs-keeps files existing rows named h =
    let found = >>=-eq-ok (add_files files (by_id existing [])) _ h in
    let sorted = sort_by_start (values found.0) in
    let last =
      require-eq-ok (distinct (map (λ row. row.combination) sorted)) repeated_combination
        (ok sorted) found.2 in
    let e : sorted ≡ rows = same last.1 in
    let inside : (row : Row) → IsStored found.0 row → contains rows row ≡ true = λ row stored.
      subst (λ rs. contains rs row ≡ true) e
        (contains-sort row (values found.0) (contains-values row.run_id row found.0 stored)) in
    (
      All-map (IsStored (by_id existing [])) (λ row. contains rows row ≡ true) existing
          (λ row stored.
            inside row (add_files-keeps files (by_id existing []) found.0 row found.1 stored))
          (by_id-AllStored existing [] named),
      All-map (IsStored found.0) (λ row. contains rows row ≡ true) files inside
          (add_files-AllStored files (by_id existing []) found.0 found.1),
      subst (λ rs. distinct (map (λ row. row.combination) rs) ≡ true) e last.0,
    )
  where
    same : {x y : List Row} → Path (Result Error (List Row)) (ok x) (ok y) → x ≡ y
    same h = cc

pub collect_runs-combinations :
    (files existing rows : List Row)
    → collect_runs files existing ≡ ok rows
    → distinct (map (λ row. row.combination) rows) ≡ true
unfolding collect_runs
collect_runs-combinations files existing rows h =
    let found = >>=-eq-ok (add_files files (by_id existing [])) _ h in
    let sorted = sort_by_start (values found.0) in
    let last =
      require-eq-ok (distinct (map (λ row. row.combination) sorted)) repeated_combination
        (ok sorted) found.2 in
    subst (λ rs. distinct (map (λ row. row.combination) rs) ≡ true) (same last.1) last.0
  where
    same : {x y : List Row} → Path (Result Error (List Row)) (ok x) (ok y) → x ≡ y
    same h = cc
