-- ===== src/Ablation/Runs.antt =====
-- `annotate`, `collect` and the measuring loop of `run` in load/review-index-ablation.py. What is on
-- disk (result files and metadata) is the state; what one load does is an outcome of the environment.
pub mod NoRerun
pub mod Progress
mod Tests
use receipt_expense_review.Prelude.{
  ℕ, ◌*◌, String, Bool, true, false, not, ◌&&◌, Option, none, some, List, [], ◌∷◌, ◌++◌, map, leb,
  if◌then◌else◌, ◌==◌, nat_eq, string_eq, all, contains, Result, ok, err, ◌>>=◌, ◌>>◌, require,
  or_raise,
}
use receipt_expense_review.Fixture.{Scenario, scenario_eq}
use receipt_expense_review.Sql.{Kind, kind_eq}
use receipt_expense_review.Ablation.{Variant, variant_eq, Key, key_eq}
use receipt_expense_review.Ablation.Schedule.{Item}

-- What `collect` and `annotate` read of a `verification.json`; `rest` stands for all other fields,
-- which are only compared.
pub record Measured : Type 0 where
  pub run_id : String
  pub start_ns : ℕ
  pub image_id : String
  pub sql_kinds : List Kind
  pub response_integrity_passed : Bool
  pub monitor : Bool
  pub samples : Bool
  pub no_sql_errors : Bool
  pub rest : String

-- `variant` is the directory that the file stands in.
pub record Row : Type 0 where
  pub key : Key
  pub measured : Measured
  pub open measured use *

-- The images and the kinds of SQL of each variant, `IMAGES` and `KINDS`.
pub record Setup : Type 0 where
  pub image : Variant → String
  pub kinds : Variant → List Kind

pub data Error : Type 0 where
  wrong_image_or_kinds bad_measurement unexpected_combination result_changed result_missing : Error
  unfinished_load : Key → Error

-- `set(a) == set(b)`
abbrev pub same_kinds : List Kind → List Kind → Bool
same_kinds xs ys = all (contains ys) xs && all (contains xs) ys

-- The two tests of `annotate`; what it adds to the row comes from the plan.
pub annotate : Setup → Item → Row → Result Error Row
annotate setup item row = do
  require
      (row.image_id == setup.image item.variant
        && same_kinds row.sql_kinds (setup.kinds item.variant))
      wrong_image_or_kinds
  require (row.response_integrity_passed && (row.monitor && (row.samples && row.no_sql_errors)))
      bad_measurement
  ok row

-- `lookup.get(key)`: of equal keys the last one planned would win, but the plan has none.
pub find_item : Key → List Item → Option Item
find_item k [] = none
find_item k (item ∷ items) = if item.key == k then some item else find_item k items

-- The loop over the result files.
pub collect_files : Setup → List Item → List Key → List Row → Result Error (List Row)
unfolding annotate find_item
collect_files setup plan seen [] = ok []
collect_files setup plan seen (row ∷ files) = do
  item ← or_raise (find_item row.key plan) unexpected_combination
  require (not (contains seen row.key)) unexpected_combination
  annotated ← annotate setup item row
  rows ← collect_files setup plan (row.key ∷ seen) files
  ok (annotated ∷ rows)

-- `result.sort(key=lambda row: row['startNs'])`, which keeps the order of equal times.
pub insert_by_start : Row → List Row → List Row
insert_by_start x [] = x ∷ []
insert_by_start x (y ∷ ys) =
    if leb x.start_ns y.start_ns then x ∷ y ∷ ys else y ∷ insert_by_start x ys

pub sort_by_start : List Row → List Row
unfolding insert_by_start
sort_by_start [] = []
sort_by_start (x ∷ xs) = insert_by_start x (sort_by_start xs)

abbrev pub bool_same : Bool → Bool → Bool
bool_same true b = b
bool_same false b = not b

-- `row == old[row['runId']]`
pub row_beq : Row → Row → Bool
row_beq a b =
    a.key == b.key
    && (a.run_id == b.run_id
        && (a.start_ns == b.start_ns
            && (a.image_id == b.image_id
                && (same_kinds a.sql_kinds b.sql_kinds
                    && (bool_same a.response_integrity_passed b.response_integrity_passed
                        && (bool_same a.monitor b.monitor
                            && (bool_same a.samples b.samples
                                && (bool_same a.no_sql_errors b.no_sql_errors
                                    && a.rest == b.rest))))))))

abbrev or_this : Option Row → String → Row → Option Row
or_this (some later) run_id row = some later
or_this none run_id row = if row.run_id == run_id then some row else none

-- `old.get(run_id)`: of equal names the last one counts.
abbrev pub find_run : String → List Row → Option Row
find_run run_id [] = none
find_run run_id (row ∷ rows) = or_this (find_run run_id rows) run_id row

abbrev pub is_unchanged : List Row → Row → Bool
is_unchanged old row = elim (find_run row.run_id old) [ none ↦ true | some r ↦ row_beq row r ]

-- The experiment on disk: the result files, and `runs` and `activeRun` of the metadata. `loads` lists
-- the loads that were ever started, newest first; the script does not keep it.
pub record State : Type 0 where
  pub files : List Row
  pub runs : List Row
  pub active_run : Option Key
  pub loads : List Key

abbrev pub row_keys : List Row → List Key
row_keys rows = map (λ row. row.key) rows

-- `active and not any(... for row in result)`
abbrev pub check_active : Option Key → List Row → Result Error (Unit {0})
check_active none rows = ok tt
check_active (some k) rows = require (contains (row_keys rows) k) (unfinished_load k)

pub collect : Setup → List Item → State → Result Error (List Row)
unfolding collect_files sort_by_start row_beq
collect setup plan s = do
  found ← collect_files setup plan [] s.files
  let rows = sort_by_start found
  require (all (is_unchanged s.runs) rows) result_changed
  require (all (λ row. contains (map (λ r. r.run_id) rows) row.run_id) s.runs) result_missing
  check_active s.active_run rows
  ok rows

-- What happens once a load has started: `B.measure` returns its row; it saves the row and raises; it
-- raises before there is a row; the process dies after or before the row is saved.
pub data Outcome : Type 0 where
  completed failed_after killed_after : Measured → Outcome
  failed_before killed_before : Outcome

-- Whether the `finally` blocks still run.
pub data Ending : Type 0 where
  finished stopped raised killed : Ending

abbrev pub row_of : Item → Measured → Row
row_of item m = record { key = item.key; measured = m }

-- `metadata['activeRun'] = item; save(...)`, just before `B.measure`
abbrev pub start_load : Item → State → State
start_load item s = record s { active_run = some item.key; loads = item.key ∷ s.loads }

abbrev pub write_file : Row → State → State
write_file row s = record s { files = row ∷ s.files }

abbrev pub after_annotate : Result Error Row → State → Bool × State
after_annotate (ok row) s = (true, record s { runs = s.runs ++ row ∷ []; active_run = none })
after_annotate (err e) s = (false, s)

-- One load: whether the loop goes on, how the process ends otherwise, and the state.
abbrev pub attempt : Setup → Item → Outcome → State → Bool × Ending × State
attempt setup item (completed m) s =
    let row = row_of item m in
    let (goes_on, t) =
      after_annotate (annotate setup item row) (write_file row (start_load item s)) in
    (goes_on, raised, t)
attempt setup item (failed_after m) s =
    (false, raised, write_file (row_of item m) (start_load item s))
attempt setup item (killed_after m) s =
    (false, killed, write_file (row_of item m) (start_load item s))
attempt setup item failed_before s = (false, raised, start_load item s)
attempt setup item killed_before s = (false, killed, start_load item s)

-- `for item in metadata['schedule']`; `done` is computed once, before the loop. Where no outcome is
-- left the stop file is found.
pub measure_loop : Setup → List Key → List Item → List Outcome → State → Ending × State
unfolding annotate
measure_loop setup done [] outcomes s = (finished, s)
measure_loop setup done (item ∷ items) outcomes s = elim (contains done item.key) [
  | true ↦ measure_loop setup done items outcomes s
  | false ↦ elim outcomes [
    | [] ↦ (stopped, s)
    | o ∷ rest ↦
        let (goes_on, ending, t) = attempt setup item o s in
        elim goes_on [ true ↦ measure_loop setup done items rest t | false ↦ (ending, t) ]
  ]
]

-- A successful `collect` sets `runs` and clears `activeRun`; a failed one changes nothing.
abbrev pub recollect : Result Error (List Row) → State → State
recollect (ok rows) s = record s { runs = rows; active_run = none }
recollect (err e) s = s

-- The `finally` block of `run`.
abbrev pub finally_collect : Setup → List Item → Ending → State → State
finally_collect setup plan killed s = s
finally_collect setup plan _ s = recollect (collect setup plan s) s

-- One invocation with `--resume` (a first one starts from the empty state, where it is the same).
pub invoke : Setup → List Item → State → List Outcome → Result Error State
unfolding collect measure_loop
invoke setup plan s outcomes = do
  rows ← collect setup plan s
  let (ending, t) =
      measure_loop setup (row_keys rows) plan outcomes (record s { runs = rows; active_run = none })
  ok (finally_collect setup plan ending t)

abbrev pub or_unchanged : State → Result Error State → State
or_unchanged s (ok t) = t
or_unchanged s (err e) = s

-- Any number of invocations, one after the other; a refused one leaves the disk as it was.
pub invoke_all : Setup → List Item → State → List (List Outcome) → State
unfolding invoke
invoke_all setup plan s [] = s
invoke_all setup plan s (outcomes ∷ later) =
    invoke_all setup plan (or_unchanged s (invoke setup plan s outcomes)) later

abbrev pub fresh : State
fresh = record { files = []; runs = []; active_run = none; loads = [] }
