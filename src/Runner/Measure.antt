-- ===== src/Runner/Measure.antt =====
-- `measure` and `k6` of load/review-baseline.py: one load, its checks, and what is kept of it.
pub mod Integrity
use receipt_expense_review.Prelude.{
  ◌+str◌, decimal, ℕ, suc, ◌+◌, String, Bool, true, false, not, ◌&&◌, ◌||◌, Option, List, [], ◌∷◌,
  leb, if◌then◌else◌, ◌==◌, nat_eq, string_eq, length, select, all, Dict, insert,
}
use receipt_expense_review.Prelude.Int.{ℤ, pos, abs}
use receipt_expense_review.Program.{
  World, Program, pure, raise, lift, ◌>>=◌, ◌>>◌, check, call, each, finally_do,
}
use receipt_expense_review.Sql.{Kind, Snapshot, Totals}
use receipt_expense_review.Sql.Assess.{minus, allowed}
use receipt_expense_review.Evidence.{count_of, or_zero}
use receipt_expense_review.Evidence as Evidence
use receipt_expense_review.Reports.{Combination}
use receipt_expense_review.Runner.{
  Public, Summary, Line, Load, Checks, Measurement, Page, Error, Action, Reply,
}
use receipt_expense_review.Runner.Text.{is_server_error, case_name}
use receipt_expense_review.Runner.Setup.{ask}

-- The functions that load/review-optimized.py puts in the place of those of this script.
pub record Hooks (S : Type 0) : Type 0 where
  pub fixture : String → Page → Program Action S Error (String × Public)
  pub snapshot : String → Program Action S Error Snapshot
  pub delta : Snapshot → Snapshot → Program Action S Error (Dict Kind Totals)

-- The loop over `metrics.json`: `raw_count` and the `Counter` of the statuses.
abbrev pub count_latency : List Line → ℕ
count_latency lines = length (select (λ l. l.is_point && l.metric == "receipt_review_ms") lines)

unfoldable pub count_statuses : List Line → Dict String ℕ → Dict String ℕ
count_statuses [] statuses = statuses
count_statuses (l ∷ lines) statuses = count_statuses lines (
    if l.is_point && l.metric == "http_req_duration"
    then insert l.status (suc (count_of l.status statuses)) statuses
    else statuses)

abbrev pub total : Dict String ℕ → ℕ
total [] = 0
total ((status, n) ∷ statuses) = n + total statuses

abbrev pub usual_status : String × ℕ → Bool
usual_status (status, n) = status == "200" || status == "0" || is_server_error status

-- `response_integrity`; the difference of the source is on the other side of the equation.
unfoldable pub response_integrity : Dict String ℕ → ℕ → ℕ → Bool
response_integrity statuses requests failures =
    total statuses == requests
    && (count_of "200" statuses + failures == requests && all usual_status statuses)

abbrev pub no_errors : Kind × Totals → Bool
no_errors (kind, row) = abs row.errors == 0

abbrev pub near : ℕ → Kind × Totals → Bool
near requests (kind, row) = leb (abs (minus row.count requests)) (allowed requests)

abbrev pub checks_of : ℕ → Summary → ℕ → ℕ → List String → Dict Kind Totals → Checks
checks_of code metrics raw_count stored errors sql = record {
  k6 = code == 0;
  no_failures = metrics.failures == 0;
  no_dropped = or_zero metrics.dropped == 0;
  monitor = length errors == 0;
  samples = metrics.requests == raw_count && raw_count == stored;
  no_sql_errors = all no_errors sql;
  sql_counts = all (near metrics.requests) sql;
}

-- `all(checks.values())`
abbrev pub all_checks : Checks → Bool
all_checks c =
    c.k6
    && (c.no_failures
        && (c.no_dropped && (c.monitor && (c.samples && (c.no_sql_errors && c.sql_counts)))))

-- The exit codes of k6 without a fault of its own: 99 is a threshold that was missed.
abbrev pub ran : ℕ → Bool
ran code = code == 0 || code == 99

-- What is demanded of a result before it is returned.
abbrev pub acceptable : Measurement → Bool
acceptable m =
    ran m.k6_exit_code
    && (m.response_integrity_passed
        && (m.checks.monitor && (m.checks.samples && m.checks.no_sql_errors)))

module _ {S : Type 0} (world : World Action Reply) (hooks : Hooks S) where
  -- From the first snapshot to the end of the monitor: the exit code, the two times and the two
  -- snapshots.
  unfoldable pub loaded :
      String
      → String
      → Combination
      → Load
      → String
      → Program Action S Error (ℕ × ℕ × ℕ × Snapshot × Snapshot)
  loaded session run_id combination load database = do
    before ← hooks.snapshot database
    ask world (Action.start_monitor run_id)
    start ← ask world Action.now
    (code, end, after) ←
        finally_do
          (do
            code ← ask world (Action.run_k6 session run_id combination load.rate load.seconds true)
            end ← ask world Action.now
            after ← hooks.snapshot database
            pure (code, end, after))
          (ask world Action.stop_monitor)
    pure (code, start, end, before, after)

  -- The two calls of `R.send`
  unfoldable pub send_all : Measurement → Program Action S Error (Unit {0})
  send_all m = do
    ask world (Action.send_summary m)
    each m.sql λ row. ask world (Action.send_sql m.run_id row.0 row.1)

  -- The warm-up: how many iterations were dropped.
  unfoldable pub warm_up : String → String → Combination → Load → Program Action S Error (Option ℕ)
  warm_up session run_id combination load = do
    let warm = run_id +str "/warmup"
    code ← ask world (Action.run_k6 session warm combination load.rate load.warmup false)
    metrics ← ask world (Action.read_summary warm)
    check (ran code) Error.warmup_failed
    pure metrics.dropped

  -- A result is sent and saved before it is judged.
  unfoldable pub kept : Measurement → Program Action S Error Measurement
  kept result = do
    send_all result
    ask world (Action.save_result result)
    check (acceptable result) (Error.bad_measurement result.run_id)
    pure result

  -- The body of the `try`.
  unfoldable pub measured :
      String → String → String → Combination → Load → Program Action S Error Measurement
  unfolding count_statuses response_integrity
  measured session run_id database combination load = do
    warmup_dropped ← warm_up session run_id combination load
    image ← ask world Action.inspect_app
    (code, start, end, before, after) ← loaded session run_id combination load database
    ask world (Action.save_snapshots before after)
    metrics ← ask world (Action.read_summary run_id)
    sql ← hooks.delta before after
    lines ← ask world (Action.read_metrics run_id)
    let statuses = count_statuses lines []
    stored ← ask world (Action.stored_samples run_id)
    errors ← ask world Action.monitor_errors
    let checks : Checks = checks_of code metrics (count_latency lines) (or_zero stored) errors sql
    resources ← ask world (Action.summarize_resources start end)
    check (not (metrics.requests == 0)) Error.zero_division
    let result : Measurement = record {
      run_id = run_id;
      combination = combination;
      load = load;
      start_ns = start;
      end_ns = end;
      requests = metrics.requests;
      failures = metrics.failures;
      dropped = or_zero metrics.dropped;
      latency = metrics.latency;
      sql = sql;
      resources = resources;
      response_bytes = metrics.response_bytes;
      checks = checks;
      errors = errors;
      passed = all_checks checks;
      image_id = image;
      k6_exit_code = code;
      warmup_dropped = or_zero warmup_dropped;
      status_counts = statuses;
      response_integrity_passed = response_integrity statuses metrics.requests metrics.failures;
    }
    kept result

  -- Up to the `try`: the name of the run, and its session.
  unfoldable pub started : Combination → Program Action S Error (String × String)
  started combination = do
    ask world Action.restart_app
    ask world Action.app_ready
    name ← ask world Action.fresh_name
    let run_id : String =
        "review-"
        +str decimal combination.dataset
        +str "-"
        +str case_name combination.scenario
        +str "-r"
        +str decimal combination.repeat
        +str "-"
        +str name
    ask world (Action.make_directory run_id)
    ask world (Action.make_directory (run_id +str "/warmup"))
    (session, public) ←
        hooks.fixture run_id
          (record { dataset = combination.dataset; scenario = combination.scenario; page = 0 })
    pure (run_id, session)

  unfoldable pub measure : String → Combination → Load → Program Action S Error Measurement
  measure database combination load = do
    (run_id, session) ← started combination
    finally_do (measured session run_id database combination load)
        (ask world (Action.unlink session))
