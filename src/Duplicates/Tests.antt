-- ===== src/Duplicates/Tests.antt =====
-- A case of two requests with one key, and the theorems at it.
use receipt_expense_review.Prelude.{
  ℕ, String, ◌≡◌, refl, true, false, Option, none, some, List, [], ◌∷◌, nat_eq, string_eq, ok,
}
use receipt_expense_review.Duplicates.{
  Case, Sample, Phase, ReceiptRow, JobRow, AuditRow, Tables, initial, after_completion, same_key,
  Line, snapshot, receipts, jobs, audit, keys,
}
use receipt_expense_review.Duplicates.Responses.{check_responses}
use receipt_expense_review.Duplicates.Responses.Accepted.{IsAccepted, check_responses-IsAccepted}
use receipt_expense_review.Duplicates.Verdict.{User, Services, Verdict, verdict, verify_case}
use receipt_expense_review.Duplicates.Verdict.ExactlyOnce.{IsExactlyOnce, verify_case-IsExactlyOnce}

abbrev case : Case
case = record { id = "d-r1-n2-same-key"; vus = 2; mode = same_key }

abbrev receipt : ReceiptRow
receipt = record {
  id = 7;
  owner_id = 1;
  status = some "AUTO_APPROVED";
  version = 3;
  sha256 = "ab12";
  size = 640;
}

abbrev job : JobRow
job = record {
  id = 9;
  receipt_id = 7;
  status = "COMPLETED";
  attempt_count = 1;
  duplicate_detected = 0;
  version = 2;
  storage_key = "receipts/7.png";
}

abbrev event : ℕ → String → AuditRow
event n action = record {
  id = n;
  receipt_id = 7;
  action = action;
  previous_status = none;
  new_status = none;
}

abbrev lines : List Line
lines =
    receipts receipt
    ∷ jobs job
    ∷ audit (event 1 "UPLOADED")
    ∷ audit (event 2 "EXTRACTION_JOB_CLAIMED")
    ∷ audit (event 3 "EXTRACTION_COMPLETED")
    ∷ audit (event 4 "VALIDATION_COMPLETED")
    ∷ keys (record { receipt_id = 7; key = "lt-d-r1-n2-same-key" })
    ∷ []

abbrev tables : Tables
tables = record {
  receipts = receipt ∷ [];
  jobs = job ∷ [];
  audit =
      event 1 "UPLOADED"
      ∷ event 2 "EXTRACTION_JOB_CLAIMED"
      ∷ event 3 "EXTRACTION_COMPLETED"
      ∷ event 4 "VALIDATION_COMPLETED"
      ∷ [];
  keys = record { receipt_id = 7; key = "lt-d-r1-n2-same-key" } ∷ [];
}

snapshot-lines : snapshot lines ≡ tables
unfolding snapshot
snapshot-lines = refl

abbrev answered : ℕ → ℕ → Option String → Sample
answered vu status replay = record {
  vu = vu;
  employee_id = 1;
  status = status;
  receipt_id = some 7;
  job_id = some 9;
  replay = replay;
}

abbrev first : Phase
first = record {
  name = initial;
  exit_code = 0;
  matches = true ∷ true ∷ [];
  responses = answered 1 202 none ∷ answered 2 200 (some "true") ∷ [];
}

abbrev second : Phase
second = record {
  name = after_completion;
  exit_code = 0;
  matches = true ∷ true ∷ [];
  responses = answered 1 200 (some "true") ∷ answered 2 200 (some "true") ∷ [];
}

abbrev services : Services
services = record {
  image_hash = λ id. ("ab12", 640);
  get_detail = λ user id. ok (
    200,
    some (record {
      job_status = some "COMPLETED";
      shop_name = some "테스트상점";
      total_amount = some 12000;
      rules = ("DUPLICATE_SUBMISSION", "PASS") ∷ [];
    }),
  );
  extraction_starts = λ id. 1;
  s3_keys = λ key. key ∷ [];
  s3_prefix = "prod";
}

abbrev users : List User
users =
    record { employee_id = 1; login_id = "load-1" }
    ∷ record { employee_id = 2; login_id = "load-2" }
    ∷ []

check_responses-IsAccepted_example : IsAccepted case first tables
unfolding check_responses
check_responses-IsAccepted_example = check_responses-IsAccepted case first tables refl

verify_case-IsExactlyOnce_example :
    IsExactlyOnce services case tables tables first second (verdict [] none)
unfolding verify_case check_responses
verify_case-IsExactlyOnce_example =
    verify_case-IsExactlyOnce services case tables tables first second refl refl users
      (verdict [] none) refl refl

-- The job of a request that was repeated must not have been tried twice.
second_attempt :
    (v : Verdict) × (verify_case services case tables
        (record tables { jobs = record job { attempt_count = 2 } ∷ [] })
        (first ∷ second ∷ [])
        users
      ≡ ok v)
    × (v.passed ≡ false)
unfolding verify_case check_responses
second_attempt = (_, refl, refl)
