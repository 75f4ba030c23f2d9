-- ===== src/Runner/Profile.antt =====
-- `profile` of load/review-baseline.py: a hundred sequential requests of three pages, and the plans of
-- the statements that they caused.
use receipt_expense_review.Prelude.{
  decimal, ℕ, ◌+◌, String, Bool, ◌&&◌, ◌||◌, none, List, [], ◌∷◌, ◌++◌, ltb, ◌==◌, nat_eq,
  string_eq, length, all,
}
use receipt_expense_review.Prelude.Int.{abs}
use receipt_expense_review.Program.{
  World, Program, pure, ◌>>=◌, ◌>>◌, check, each, gather, finally_do,
}
use receipt_expense_review.Sql.{Kind, Totals}
use receipt_expense_review.Sql.Assess.{minus}
use receipt_expense_review.Fixture.{Scenario, range_from}
use receipt_expense_review.Runner.{Public, Plan, Page, Error, Action, Reply}
use receipt_expense_review.Runner.Text.{occurs_in, ends_with}
use receipt_expense_review.Runner.Setup.{ask}
use receipt_expense_review.Runner.Measure.{Hooks}

-- `[('all',0),('status_period',0),('all',50)]`
abbrev pub profiled_pages : List (Scenario × ℕ)
profiled_pages =
    (Scenario.all_pending, 0) ∷ (Scenario.status_period, 0) ∷ (Scenario.all_pending, 50) ∷ []

-- Neither `row['count']!=100` nor `row['errors']`.
abbrev pub hundred_times : Kind × Totals → Bool
hundred_times (kind, row) = abs (minus row.count 100) == 0 && abs row.errors == 0

abbrev pub joined : List (List Plan) → List Plan
joined [] = []
joined (ps ∷ pss) = ps ++ joined pss

-- `str.lower` and `len` of a `str` are arguments.
module _ {S : Type 0} (world : World Action Reply) (hooks : Hooks S) (lower : String → String)
    (chars : String → ℕ) where
  unfoldable pub sequential_requests : Public → Program Action S Error (Unit {0})
  sequential_requests public = each (range_from 0 100) λ _. do
    raw ← ask world (Action.request public.path)
    check (raw.sha256 == public.sha256) Error.sequential_mismatch

  abbrev whole_text : String → Bool
  whole_text sql = ends_with sql "20" || (occurs_in "count(" (lower sql) || ltb (chars sql) 1024)

  unfoldable pub explain_all : String → List String → Program Action S Error (List (List Plan))
  explain_all database statements = gather statements λ sql. do
    check (whole_text sql) Error.sql_truncated
    gather (range_from 0 3) λ repeat. do
      plan ← ask world (Action.explain sql database)
      pure (record { kind = none; sql = sql; repeat = repeat + 1; plan = plan })

  unfoldable pub profile_page : String → Page → Public → Program Action S Error (Unit {0})
  profile_page database page public = do
    marker ← ask world Action.last_timer
    before ← hooks.snapshot database
    sequential_requests public
    after ← hooks.snapshot database
    sql ← hooks.delta before after
    ask world (Action.save_serial page sql)
    check (all hundred_times sql) Error.sequential_sql_counts
    raw ← ask world (Action.captured_statements database marker)
    check (length raw == 2) Error.statements_missing
    plans ← explain_all database raw
    ask world (Action.save_plans page (joined plans))

  -- The consumers that were read first are written back at the end.
  unfoldable pub profile : String → ℕ → Program Action S Error (Unit {0})
  profile database count = do
    consumers ← ask world Action.read_consumers
    ask world Action.enable_consumers
    finally_do
        (each profiled_pages λ target. do
          let page : Page = record { dataset = count; scenario = target.0; page = target.1 }
          (session, public) ← hooks.fixture (decimal count) page
          finally_do (profile_page database page public) (ask world (Action.unlink session)))
        (each consumers λ consumer. ask world (Action.set_consumer consumer.0 consumer.1))
