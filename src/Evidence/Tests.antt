-- ===== src/Evidence/Tests.antt =====
-- Two runs with their raw samples, and the theorems at them.
use receipt_expense_review.Prelude.{
  String, ◌≡◌, refl, Bool, true, false, none, some, List, [], ◌∷◌, if◌then◌else◌, nat_eq, string_eq,
  All, err,
}
use receipt_expense_review.Evidence.{
  Point, Run, Folder, Assessment, assess_run, assess_raw_requests, failure_mismatch,
}
use receipt_expense_review.Evidence.Accounts.{
  IsAssessed, IsNamed, ids, assess_raw_requests-AllAssessed,
}

abbrev answered : String → Bool → List Point → List Point
answered status good rest =
    Point.duration status
    ∷ Point.check good
    ∷ Point.review_ms
    ∷ Point.review_failures (if good then 0 else 1)
    ∷ Point.review_requests 1
    ∷ rest

abbrev first : Run
first = record { run_id = "r1"; requests = 3; failures = 1; warmup_dropped = none }

abbrev second : Run
second = record { run_id = "r2"; requests = 1; failures = 0; warmup_dropped = some 2 }

abbrev first_folder : Folder
first_folder = record {
  points = answered "200" true (Point.other ∷ answered "0" false (answered "200" true []));
  timeout_logs = 1;
  warmup_dropped = none;
  warmup_failures = some 4;
}

abbrev second_folder : Folder
second_folder = record {
  points = answered "200" true [];
  timeout_logs = 0;
  warmup_dropped = some 2;
  warmup_failures = none;
}

abbrev first_assessment : Assessment
first_assessment = record {
  status_counts = ("200", 2) ∷ ("0", 1) ∷ [];
  response_hash_matches = 2;
  latency_samples = 3;
  request_timeouts = 1;
  other_status_zero = 0;
  warmup_dropped = 0;
  warmup_failures = 4;
}

abbrev second_assessment : Assessment
second_assessment = record {
  status_counts = ("200", 1) ∷ [];
  response_hash_matches = 1;
  latency_samples = 1;
  request_timeouts = 0;
  other_status_zero = 0;
  warmup_dropped = 2;
  warmup_failures = 0;
}

abbrev runs : List (Run × Folder)
runs = (first, first_folder) ∷ (second, second_folder) ∷ []

assess_raw_requests-AllAssessed_example :
    All (IsAssessed (("r1", first_assessment) ∷ ("r2", second_assessment) ∷ [])) runs
unfolding assess_raw_requests IsNamed ids
assess_raw_requests-AllAssessed_example =
    assess_raw_requests-AllAssessed runs (("r1", first_assessment) ∷ ("r2", second_assessment) ∷ [])
      (refl, (refl, tt)) refl

-- A failure that no sample shows is refused.
hidden_failure :
    assess_run (record first { failures = 0; requests = 3 }) first_folder
    ≡ err (failure_mismatch "r1")
unfolding assess_run
hidden_failure = refl
