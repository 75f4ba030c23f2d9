-- ===== src/Ablation/Runs/Tests.antt =====
-- Histories of the experiment, and the theorems at those inputs.
use receipt_expense_review.Prelude.{
  ℕ, ◌≤◌, ◌≡◌, refl, ◌⊎◌, true, not, ◌&&◌, ◌||◌, some, List, [], ◌∷◌, arith, nat_eq, string_eq,
  contains, ok, err,
}
use receipt_expense_review.Fixture.{Scenario, scenario_eq}
use receipt_expense_review.Sql.{Kind, kind_eq}
use receipt_expense_review.Ablation.{Variant, variant_eq, Key, key_eq}
use receipt_expense_review.Ablation.Schedule.{Item, schedule}
use receipt_expense_review.Ablation.Schedule.Coverage.{keys, occurrences, schedule-Once}
use receipt_expense_review.Ablation.Runs.{
  Measured, Setup, Error, annotate, row_keys, Outcome, completed, killed_after, failed_before,
  finished, row_of, measure_loop, invoke, invoke_all, fresh, start_load,
}
use receipt_expense_review.Ablation.Runs.NoRerun.{load_times, no_rerun}
use receipt_expense_review.Ablation.Runs.Progress.{
  unfinished_refused, successes, measure_loop-finishes,
}

abbrev setup : Setup
setup = record { image = λ v. "app"; kinds = λ v. Kind.list ∷ [] }

abbrev measured : Measured
measured = record {
  run_id = "r1";
  start_ns = 5;
  image_id = "app";
  sql_kinds = Kind.list ∷ [];
  response_integrity_passed = true;
  monitor = true;
  samples = true;
  no_sql_errors = true;
  rest = "{}";
}

abbrev counts : List ℕ
counts = 10000 ∷ 100000 ∷ []

counts_once : (d : ℕ) → occurrences d counts ≤ 1
counts_once d = ground arith

abbrev first_key : Key
first_key = record {
  dataset = 10000;
  scenario = Scenario.all_pending;
  repeat = 1;
  variant = Variant.index_only;
}

abbrev history : List (List Outcome)
history = (completed measured ∷ killed_after measured ∷ []) ∷ (failed_before ∷ []) ∷ []

no_rerun_example :
    let s = invoke_all setup (schedule counts) fresh history in
    (load_times first_key s.loads ≤ 1)
    × ((load_times first_key s.loads ≡ 0)
        ⊎ (contains (row_keys s.files) first_key ≡ true)
        ⊎ (s.active_run ≡ some first_key))
no_rerun_example =
    no_rerun setup (schedule counts) history first_key (schedule-Once counts counts_once)

abbrev first_item : Item
first_item = record { key = first_key; pair_order = 1 }

unfinished_refused_example :
    (e : Error) × (invoke setup
        (first_item ∷ [])
        (start_load first_item fresh)
        (completed measured ∷ [])
      ≡ err e)
unfinished_refused_example =
    unfinished_refused setup (first_item ∷ []) (start_load first_item fresh)
      (completed measured ∷ []) first_key refl refl

annotate_measured :
    (item : Item) → annotate setup item (row_of item measured) ≡ ok (row_of item measured)
unfolding annotate
annotate_measured item = refl

measure_loop-finishes_example :
    ((measure_loop setup []
        (schedule counts)
        (successes (λ item. measured) [] (schedule counts))
        fresh).0
      ≡ finished)
    × ((k : Key)
        → contains
            (row_keys
              (measure_loop setup []
                (schedule counts)
                (successes (λ item. measured) [] (schedule counts))
                fresh).1.files)
            k
          ≡ (contains (row_keys fresh.files) k
              || (not (contains [] k) && contains (keys (schedule counts)) k)))
measure_loop-finishes_example =
    measure_loop-finishes setup (λ item. measured) [] (schedule counts) fresh annotate_measured
