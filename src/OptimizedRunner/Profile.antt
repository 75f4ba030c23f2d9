-- ===== src/OptimizedRunner/Profile.antt =====
-- `profile` of load/review-optimized.py: finished profiles are checked and kept, a half-finished one
-- is refused, and every statement is captured once.
pub mod Captured
use receipt_expense_review.Prelude.{
  decimal, ℕ, ◌-◌, String, Bool, true, false, not, ◌&&◌, Option, none, some, List, [], ◌∷◌, map,
  leb, if◌then◌else◌, ◌==◌, nat_eq, string_eq, all, contains, Dict, lookup, insert, Result, ok, err,
  or_raise,
}
use receipt_expense_review.Program.{
  World, Program, pure, lift, ◌>>=◌, ◌>>◌, check, each, gather, finally_do,
}
use receipt_expense_review.Sql.{Kind, kind_eq, Totals}
use receipt_expense_review.Fixture.{range_from}
use receipt_expense_review.Runner.{Public, Plan, Page, Error, Action, Reply}
use receipt_expense_review.Runner.Setup.{ask}
use receipt_expense_review.Runner.Measure.{Hooks}
use receipt_expense_review.Runner.Profile.{
  profiled_pages, hundred_times, sequential_requests, joined,
}
use receipt_expense_review.OptimizedRunner.Classify.{classify}
use receipt_expense_review.OptimizedRunner.State.{hooks}
use receipt_expense_review.OptimizedRunner.{Memory, Tools, Script}

abbrev pub captured_kinds : List Kind
captured_kinds = Kind.ids ∷ Kind.entities ∷ Kind.count ∷ []

-- `KINDS`
abbrev pub improved_kinds : List Kind
improved_kinds = Kind.employee ∷ Kind.ids ∷ Kind.entities ∷ Kind.count ∷ Kind.jobs ∷ []

-- `set(a) == set(b)`
abbrev pub same_kinds : List Kind → List Kind → Bool
same_kinds xs ys = all (contains ys) xs && all (contains xs) ys

abbrev pub agrees : Option String → String → Bool
agrees none sql = true
agrees (some found) sql = found == sql

-- The loop over the captured texts, whose kinds `kind_of` finds; `wanted` are the kinds to capture.
module _ (wanted : List Kind) (kind_of : String → Option Kind) (size : String → ℕ)
    (max_text : ℕ) where
  abbrev capture_one : Option Kind → String → Dict Kind String → Result Error (Dict Kind String)
  capture_one none sql captured = err Error.wrong_statement
  capture_one (some kind) sql captured =
      if not (contains wanted kind)
      then err Error.wrong_statement
      else if leb (max_text - 1) (size sql)
      then err Error.sql_truncated
      else if agrees (lookup kind captured) sql
      then ok (insert kind sql captured)
      else err Error.wrong_statement

  abbrev go_on :
      Result Error (Dict Kind String)
      → (Dict Kind String → Result Error (Dict Kind String))
      → Result Error (Dict Kind String)
  go_on (err e) next = err e
  go_on (ok captured) next = next captured

  unfoldable pub capture : List String → Dict Kind String → Result Error (Dict Kind String)
  capture [] captured = ok captured
  capture (sql ∷ raw) captured = go_on (capture_one (kind_of sql) sql captured) (capture raw)

abbrev pub kinds_of : {A : Type 0} → Dict Kind A → List Kind
kinds_of d = map (λ entry. entry.0) d

abbrev pub is_there : {A : Type 0} → Option A → Bool
is_there none = false
is_there (some a) = true

module _ (world : World Action Reply) (tools : Tools) where
  unfoldable pub explain_kinds :
      {S : Type 0}
      → List Kind
      → String
      → Dict Kind String
      → Program Action S Error (List (List Plan))
  explain_kinds wanted database captured = gather wanted λ kind. do
    sql ← lift (or_raise (lookup kind captured) Error.key_error)
    gather (range_from 1 3) λ repeat. do
      plan ← ask world (Action.explain sql database)
      pure (record { kind = some kind; sql = sql; repeat = repeat; plan = plan })

  unfoldable pub new_profile : String → ℕ → Page → Public → Script (Unit {0})
  new_profile database max_text page public = do
    marker ← ask world Action.last_timer
    before ← (hooks world tools improved_kinds).snapshot database
    sequential_requests world (hooks world tools improved_kinds) tools.lower_strip tools.size public
    after ← (hooks world tools improved_kinds).snapshot database
    totals ← (hooks world tools improved_kinds).delta before after
    ask world (Action.save_serial page totals)
    check (all hundred_times totals) Error.sequential_sql_counts
    raw ← ask world (Action.captured_statements database marker)
    captured ← lift (capture captured_kinds (classify tools) tools.size max_text raw [])
    check (same_kinds (kinds_of captured) captured_kinds) Error.statements_missing
    plans ← explain_kinds captured_kinds database captured
    ask world (Action.save_plans page (joined plans))

  -- What is on the disk decides.
  abbrev pub profile_saved :
      Option (List Kind) → Option ℕ → String → ℕ → Page → Public → Script (Unit {0})
  profile_saved (some kinds) (some plans) database max_text page public =
      check (same_kinds kinds improved_kinds && plans == 9) Error.wrong_profile
  profile_saved none none database max_text page public = new_profile database max_text page public
  profile_saved _ _ database max_text page public = check false Error.partial_profile

  unfoldable pub profile_target : String → ℕ → Page → Script (Unit {0})
  profile_target database max_text page = do
    (session, public) ← (hooks world tools improved_kinds).fixture (decimal page.dataset) page
    finally_do
        (do
          serial ← ask world (Action.saved_serial page)
          plans ← ask world (Action.saved_plans page)
          profile_saved serial plans database max_text page public)
        (ask world (Action.unlink session))

  unfoldable pub profile : String → ℕ → Script (Unit {0})
  profile database count = do
    consumers ← ask world Action.read_consumers
    ask world Action.enable_consumers
    finally_do
        (do
          max_text ← ask world (Action.longest_text database)
          each profiled_pages λ target.
              profile_target database max_text
                (record { dataset = count; scenario = target.0; page = target.1 }))
        (each consumers λ consumer. ask world (Action.set_consumer consumer.0 consumer.1))
