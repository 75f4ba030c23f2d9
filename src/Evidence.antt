-- ===== src/Evidence.antt =====
-- `assess_raw_requests` of load/report-review.py: the raw samples of a run against its record.
pub mod Counting
pub mod Accounts
mod Tests
use receipt_expense_review.Prelude.{
  ℕ, suc, ◌+◌, ◌-◌, String, Bool, true, false, ◌&&◌, Option, none, some, List, [], ◌∷◌, leb, ◌==◌,
  nat_eq, string_eq, Dict, lookup, insert, Result, ok, ◌>>=◌, ◌>>◌, require,
}

-- A line of `metrics.json`. `duration` has the status tag of `http_req_duration`, or `unknown`;
-- `check` says whether the value is 1; `other` is another metric, or no point at all.
pub data Point : Type 0 where
  duration : String → Point
  check : Bool → Point
  review_ms : Point
  review_failures review_requests : ℕ → Point
  other : Point

pub record Tally : Type 0 where
  pub statuses : Dict String ℕ
  pub checks_passed : ℕ
  pub checks_failed : ℕ
  pub latency_samples : ℕ
  pub failure_counter : ℕ
  pub request_counter : ℕ

abbrev pub no_points : Tally
no_points = record {
  statuses = [];
  checks_passed = 0;
  checks_failed = 0;
  latency_samples = 0;
  failure_counter = 0;
  request_counter = 0;
}

-- `statuses.get(status, 0)`
abbrev pub or_zero : Option ℕ → ℕ
or_zero none = 0
or_zero (some n) = n

abbrev pub count_of : String → Dict String ℕ → ℕ
count_of status statuses = or_zero (lookup status statuses)

-- The body of the loop over the lines.
pub add_point : Point → Tally → Tally
add_point (Point.duration status) t = record t {
  statuses = insert status (suc (count_of status t.statuses)) t.statuses;
}
add_point (Point.check true) t = record t { checks_passed = suc t.checks_passed }
add_point (Point.check false) t = record t { checks_failed = suc t.checks_failed }
add_point Point.review_ms t = record t { latency_samples = suc t.latency_samples }
add_point (Point.review_failures n) t = record t { failure_counter = t.failure_counter + n }
add_point (Point.review_requests n) t = record t { request_counter = t.request_counter + n }
add_point Point.other t = t

pub tally : List Point → Tally → Tally
unfolding add_point
tally [] t = t
tally (point ∷ points) t = tally points (add_point point t)

pub sum_values : Dict String ℕ → ℕ
sum_values [] = 0
sum_values ((status, n) ∷ statuses) = n + sum_values statuses

-- The record of a run, as far as it is read here.
pub record Run : Type 0 where
  pub run_id : String
  pub requests : ℕ
  pub failures : ℕ
  pub warmup_dropped : Option ℕ

-- The files of a run: the points, how often `request timeout` occurs in `console.log`, and two
-- counts of `warmup/summary.json`.
pub record Folder : Type 0 where
  pub points : List Point
  pub timeout_logs : ℕ
  pub warmup_dropped : Option ℕ
  pub warmup_failures : Option ℕ

pub data Error : Type 0 where
  sample_mismatch failure_mismatch content_mismatch timeout_mismatch warmup_mismatch :
      String → Error

pub record Assessment : Type 0 where
  pub status_counts : Dict String ℕ
  pub response_hash_matches : ℕ
  pub latency_samples : ℕ
  pub request_timeouts : ℕ
  pub other_status_zero : ℕ
  pub warmup_dropped : ℕ
  pub warmup_failures : ℕ

-- `run.get("warmupDropped", dropped) == dropped`
abbrev pub recorded_dropped : Option ℕ → ℕ → Bool
recorded_dropped none dropped = true
recorded_dropped (some n) dropped = n == dropped

-- The body of the loop over the runs. `requests - failures` is an integer there, so the equation
-- with it has `failures` on the other side.
unfoldable pub assess_run : Run → Folder → Result Error Assessment
unfolding tally sum_values
assess_run run folder =
    let t = tally folder.points no_points in
    let zero_count = count_of "0" t.statuses in
    let dropped = or_zero folder.warmup_dropped in
    require
      ((sum_values t.statuses == t.latency_samples)
        && ((t.latency_samples == t.request_counter) && (t.request_counter == run.requests)))
      (sample_mismatch run.run_id)
    >> (require ((t.failure_counter == t.checks_failed) && (t.checks_failed == run.failures))
          (failure_mismatch run.run_id)
        >> (require
              ((count_of "200" t.statuses == t.checks_passed)
                && (t.checks_passed + run.failures == run.requests))
              (content_mismatch run.run_id)
            >> (require (leb folder.timeout_logs zero_count) (timeout_mismatch run.run_id)
                >> (require (recorded_dropped run.warmup_dropped dropped)
                      (warmup_mismatch run.run_id)
                    >> ok (record {
                      status_counts = t.statuses;
                      response_hash_matches = t.checks_passed;
                      latency_samples = t.latency_samples;
                      request_timeouts = folder.timeout_logs;
                      other_status_zero = zero_count - folder.timeout_logs;
                      warmup_dropped = dropped;
                      warmup_failures = or_zero folder.warmup_failures;
                    })))))

-- The loop over the runs, which adds to `result`.
pub assess_loop :
    List (Run × Folder) → Dict String Assessment → Result Error (Dict String Assessment)
unfolding assess_run
assess_loop [] result = ok result
assess_loop ((run, folder) ∷ runs) result = do
  assessment ← assess_run run folder
  assess_loop runs (insert run.run_id assessment result)

unfoldable pub assess_raw_requests : List (Run × Folder) → Result Error (Dict String Assessment)
unfolding assess_loop
assess_raw_requests runs = assess_loop runs []
