-- ===== src/Optimized.antt =====
-- `collect_runs` of load/review-optimized.py: the results on disk and those already recorded.
pub mod Keeps
mod Tests
use receipt_expense_review.Prelude.{
  ℕ, String, ◌≡◌, ◌↔◌, Bool, true, false, not, ◌&&◌, Option, none, some, List, [], ◌∷◌, map, arith,
  leb, if◌then◌else◌, Eq, ◌==◌, nat_eq, string_eq, distinct, Dict, lookup, insert, Result, ok,
  ◌>>=◌, ◌>>◌, require,
}
use receipt_expense_review.Reports.{Combination, combination_eq}

-- A `verification.json`, as far as it is read; `rest` stands for the fields that are only compared.
pub record Row : Type 0 where
  pub run_id : String
  pub combination : Combination
  pub start_ns : ℕ
  pub intact : Bool
  pub evidence : Bool
  pub rest : String

abbrev bool_same : Bool → Bool → Bool
bool_same true b = b
bool_same false b = not b

-- `row == other`
unfoldable pub row_beq : Row → Row → Bool
row_beq a b =
    a.run_id == b.run_id
    && (a.combination == b.combination
        && (a.start_ns == b.start_ns
            && (bool_same a.intact b.intact
                && (bool_same a.evidence b.evidence && a.rest == b.rest))))

pub row_beq_iff : (a b : Row) → (row_beq a b ≡ true) ↔ (a ≡ b)
unfolding row_beq
row_beq_iff a b = ground (
  arith,
  string_eq.beq_iff a.run_id b.run_id,
  combination_eq.beq_iff a.combination b.combination,
  string_eq.beq_iff a.rest b.rest,
)

instance abbrev pub row_eq : Eq Row
row_eq = record { beq = row_beq; beq_iff = row_beq_iff }

pub data Error : Type 0 where
  result_changed bad_measurement : String → Error
  repeated_combination : Error

-- `{row['runId']: row for row in existing}`
unfoldable pub by_id : List Row → Dict String Row → Dict String Row
by_id [] rows = rows
by_id (row ∷ existing) rows = by_id existing (insert row.run_id row rows)

abbrev pub unchanged : Option Row → Row → Bool
unchanged none row = true
unchanged (some old) row = row == old

-- The loop over the files. `evidence` is that all of the three checks hold.
unfoldable pub add_files : List Row → Dict String Row → Result Error (Dict String Row)
add_files [] rows = ok rows
add_files (row ∷ files) rows =
    require (unchanged (lookup row.run_id rows) row) (result_changed row.run_id)
    >> (require (row.intact && row.evidence) (bad_measurement row.run_id)
        >> add_files files (insert row.run_id row rows))

abbrev pub values : Dict String Row → List Row
values rows = map (λ entry. entry.1) rows

abbrev pub insert_by_start : Row → List Row → List Row
insert_by_start x [] = x ∷ []
insert_by_start x (y ∷ ys) =
    if leb x.start_ns y.start_ns then x ∷ y ∷ ys else y ∷ insert_by_start x ys

-- `sorted(by_id.values(), key=lambda row: row['startNs'])`
unfoldable pub sort_by_start : List Row → List Row
sort_by_start [] = []
sort_by_start (x ∷ xs) = insert_by_start x (sort_by_start xs)

-- `files` are the rows of the files in the order of their paths.
unfoldable pub collect_runs : List Row → List Row → Result Error (List Row)
unfolding by_id add_files sort_by_start
collect_runs files existing = add_files files (by_id existing []) >>= λ found.
    let rows = sort_by_start (values found) in
    require (distinct (map (λ row. row.combination) rows)) repeated_combination >> ok rows
