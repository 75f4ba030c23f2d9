-- ===== src/Lib.antt =====
-- Verification of the load-test tools of the receipt and expense review service (the Python programs
-- under load/). They seed a database, put load on the service, keep what they measured as files, and
-- write reports from them. What makes them trustworthy is their bookkeeping, and that is modelled:
--
--   Sql         load/run-reads.py (sql_delta, assess_sql), load/review-baseline.py and
--               load/review-optimized.py (delta): counters of SQL digests between two snapshots, and
--               the tolerance on them.
--   Fixture     load/review-baseline.py (seed, expected, fixture): the synthetic receipts, the
--               independent oracle for the review queue, and the comparison of an answer with it.
--               Fixture.Queue has the service's side, the query findReviewQueueIds of
--               ReceiptRepository.java with the dates and the page of ReceiptListRequest.java (under
--               src/main/java/com/example/receipt/domain/receipt).
--   Ablation    load/review-index-ablation.py (schedule, annotate, collect, run): the plan of the
--               loads, the result files, and the loop that measures and resumes.
--   Duplicates  load/run-duplicates.py (snapshot, check_responses, verify_case): what is checked of a
--               burst of equal submissions.
--   Evidence    load/report-review.py (assess_raw_requests): the raw samples against the record.
--   Reports     load/report-review.py (validate_complete, stats, aggregate) and
--               load/report-review-comparison.py (validate_runs, validate_run).
--   AblationRunner  load/review-index-ablation.py (initialize, check_dataset, connect, fixture,
--               profile, restore, and what run does around its loads): the checks of a data set, the
--               start of the app on it, the profiles after the loads, and the restoration with its
--               verdict.
--   AblationReport  load/report-review-ablation.py (collect_profiles, load_report, publication_points,
--               representative_run).
--   Optimized   load/review-optimized.py (collect_runs): the results on disk and those recorded.
--   Program     what a script is: calls of the world outside, variables, exceptions and finally blocks,
--               with rules for what such a program keeps, returns and leaves.
--   Runner      load/review-baseline.py (configure_database, fixture, snapshot, profile, measure, main):
--               Runner.Measure is one load, Runner.Baseline the experiment, Runner.Resume how an old
--               one is taken up.
--   OptimizedRunner  load/review-optimized.py (classify, fixture, fingerprint, app_state, restore,
--               copy_dataset, profile, check_baseline, prepare_controls, optimized). It puts three
--               functions of its own into the loads of Runner (Runner.Measure.Hooks).
--   Monitor     load/resource_monitor.py (watch_containers, watch_db, stop): the resource samples that
--               are taken during a run. Its times are in microseconds.
--
-- The fixture's oracle and the seed share owner and creation time; a run of Ablation is checked with
-- the fixture, counted with Sql.delta and ends as a file; Evidence and Reports read such files.
--
-- How the state corresponds. A dict is an association list in insertion order (Dict). A Python
-- exception is an `err` of a component's own error type, and a list of collected messages is a list
-- of errors, empty where the program passes. Ablation.Runs.State holds the result files and the two
-- fields `runs` and `activeRun` of experiment.json; its `loads` is a record of the loads that were
-- started, which only the theorems read. What a load does (success, exception, death of the process,
-- before or after its file is written) is an Outcome that the environment chooses. Files, HTTP
-- answers, the object store and `==` of two JSON objects are fields of the records Services and
-- Folder, which the definitions take as arguments. Fields that are only compared stand together in
-- `rest`.
--
-- The runners are programs: a call of the world (Runner.Action: a process, a query, an HTTP request, a
-- file) is noted in a trace, and its answer comes from a World, which may answer anything that fits
-- and may depend on all calls before; no answer is an exception. So a theorem about a runner holds
-- whatever Docker, MySQL, k6 and the files do. A query is a constructor with the parts of its text
-- that vary, and its answer is what the script makes of the output (int, splitlines, json.loads). A
-- file's content is an answer, or an argument of the call that saves it. What re, hashlib, json and
-- the case of a str give is in the records Library and Tools, which the programs take.
--
-- Numbers. Counters and times are natural numbers: times of receipts in seconds since 2025-10-01,
-- timers in picoseconds where the source divides to milliseconds as a float. A difference of counters
-- is an integer. A quotient in a report is kept as a pair and compared by cross multiplication, and a
-- median as the two middle values. All loops are structural recursion on the list that is read, so
-- there is no fuel; the seed's cross join of five digits is the list of its 100000 numbers.
--
-- Not modelled: the processes and the network (Docker, MySQL, k6, InfluxDB, Grafana, HTTP sessions),
-- the text of the reports, the texts of SQL and of Compose files, the wait for the app, main of
-- load/review-optimized.py, which checks its options and calls one of two functions, and the verifiers
-- of the dashboards. Fields of records that are only written are left out of the runners'
-- metadata. Of verify_case the prefix of the store is taken without slashes at its ends; of
-- aggregate and of load_report the resource columns are left out, and of aggregate the response
-- bytes.
pub mod Prelude
pub mod Program
pub mod Sql
pub mod Fixture
pub mod Ablation
pub mod Duplicates
pub mod Evidence
pub mod Reports
pub mod Monitor
pub mod Optimized
pub mod Runner
pub mod OptimizedRunner
pub mod AblationReport
pub mod AblationRunner
