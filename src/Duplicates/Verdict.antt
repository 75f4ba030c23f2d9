-- ===== src/Duplicates/Verdict.antt =====
-- `verify_case` of load/run-duplicates.py.
pub mod ExactlyOnce
use receipt_expense_review.Prelude.{
  ◌+str◌, error_if, ℕ, suc, String, Bool, true, false, not, ◌&&◌, ◌||◌, Option, none, some, List,
  [], ◌∷◌, ◌++◌, map, if◌then◌else◌, ◌==◌, nat_eq, string_eq, length, take, all, any, Dict, lookup,
  insert, Result, ok, err, ◌>>=◌,
}
use receipt_expense_review.Duplicates.{
  Mode, mode_beq, Case, PhaseName, Sample, Phase, ReceiptRow, JobRow, AuditRow, KeyRow, Tables,
}
use receipt_expense_review.Duplicates.Responses.{ResponseError, check_responses, option_eq}

pub data CaseError : Type 0 where
  response : ResponseError → CaseError
  row_counts image_differs replay_changed_state extraction_state duplicate_flag : CaseError
  final_status audit_counts key_count api_data api_rule foreign_read stored_objects : CaseError
  extraction_starts : ℕ → CaseError

-- `next` without a match, `detail.get` on `None`, and a failed login of `get_detail`.
pub data Raised : Type 0 where
  stop_iteration attribute_error runtime_error : Raised

pub record User : Type 0 where
  pub employee_id : ℕ
  pub login_id : String

-- A body of `/api/receipts/{id}`, as far as it is read; `rules` lists the code and outcome of
-- `ruleResults`.
pub record Detail : Type 0 where
  pub job_status : Option String
  pub shop_name : Option String
  pub total_amount : Option ℕ
  pub rules : List (String × String)

-- The services the case is checked against: the image's SHA-256 and size, the API, the extractor's
-- log, the object store, and the store's prefix without slashes at its ends.
pub record Services : Type 0 where
  pub image_hash : String → String × ℕ
  pub get_detail : User → ℕ → Result Raised (ℕ × Option Detail)
  pub extraction_starts : String → ℕ
  pub s3_keys : String → List String
  pub s3_prefix : String

pub record Verdict : Type 0 where
  pub passed : Bool
  pub errors : List CaseError
  pub foreign_status : Option ℕ

module _ {A : Type 0} (same : A → A → Bool) where
  abbrev pub list_beq : List A → List A → Bool
  list_beq [] [] = true
  list_beq (x ∷ xs) (y ∷ ys) = same x y && list_beq xs ys
  list_beq _ _ = false

abbrev pub receipt_beq : ReceiptRow → ReceiptRow → Bool
receipt_beq a b =
    (a.id == b.id)
    && ((a.owner_id == b.owner_id)
        && (option_eq a.status b.status
            && ((a.version == b.version) && ((a.sha256 == b.sha256) && (a.size == b.size)))))

abbrev pub job_beq : JobRow → JobRow → Bool
job_beq a b =
    (a.id == b.id)
    && ((a.receipt_id == b.receipt_id)
        && ((a.status == b.status)
            && ((a.attempt_count == b.attempt_count)
                && ((a.duplicate_detected == b.duplicate_detected)
                    && ((a.version == b.version) && (a.storage_key == b.storage_key))))))

abbrev pub audit_beq : AuditRow → AuditRow → Bool
audit_beq a b =
    (a.id == b.id)
    && ((a.receipt_id == b.receipt_id)
        && ((a.action == b.action)
            && (option_eq a.previous_status b.previous_status
                && option_eq a.new_status b.new_status)))

abbrev pub key_row_beq : KeyRow → KeyRow → Bool
key_row_beq a b = (a.receipt_id == b.receipt_id) && (a.key == b.key)

-- `before == after`
pub tables_beq : Tables → Tables → Bool
tables_beq a b =
    list_beq receipt_beq a.receipts b.receipts
    && (list_beq job_beq a.jobs b.jobs
        && (list_beq audit_beq a.audit b.audit && list_beq key_row_beq a.keys b.keys))

-- `collections.Counter`
pub counter : List String → Dict String ℕ
counter [] = []
counter (a ∷ actions) =
    let rest = counter actions in
    insert a (suc (elim (lookup a rest) [ none ↦ 0 | some n ↦ n ])) rest

abbrev pub dict_within : Dict String ℕ → Dict String ℕ → Bool
dict_within a b = all (λ entry. option_eq (lookup entry.0 b) (some entry.1)) a

-- Equality of two dictionaries, whatever the order of their keys.
abbrev pub dict_beq : Dict String ℕ → Dict String ℕ → Bool
dict_beq a b = dict_within a b && dict_within b a

abbrev pub expected_audit : Bool → Dict String ℕ
expected_audit duplicate =
    ("UPLOADED", 1)
    ∷ ("EXTRACTION_JOB_CLAIMED", 1)
    ∷ ("EXTRACTION_COMPLETED", 1)
    ∷ ("VALIDATION_COMPLETED", 1)
    ∷ (if duplicate then ("DUPLICATE_DETECTED", 1) ∷ [] else [])

-- Another receipt of the same image is due, unless one key or one pair of users made the case.
abbrev pub is_duplicate : Case → Bool
is_duplicate case =
    not (mode_beq case.mode Mode.same_key)
    && not (mode_beq case.mode Mode.cross_owner && (case.vus == 2))

abbrev pub expected_status : Bool → String
expected_status true = "NEEDS_REVIEW"
expected_status false = "AUTO_APPROVED"

abbrev pub expected_keys : Mode → ℕ
expected_keys Mode.no_key = 0
expected_keys _ = 1

pub phase_errors : Case → List Phase → Tables → List CaseError
phase_errors case [] before = []
phase_errors case (phase ∷ phases) before =
    map response (check_responses case phase before) ++ phase_errors case phases before

-- The checks on the rows, from the image to the stored keys.
pub row_errors : Services → Case → Tables → Tables → ReceiptRow → JobRow → List CaseError
unfolding tables_beq counter
row_errors services case before after receipt job =
    let image = services.image_hash case.id in
    let duplicate = is_duplicate case in
    error_if (not (receipt.sha256 == image.0) || not (receipt.size == image.1)) image_differs
    ++ (error_if (not (tables_beq before after)) replay_changed_state
        ++ (error_if (not (job.status == "COMPLETED") || not (job.attempt_count == 1))
              extraction_state
            ++ (error_if
                  (if duplicate
                    then job.duplicate_detected == 0
                    else not (job.duplicate_detected == 0))
                  duplicate_flag
                ++ (error_if (not (option_eq receipt.status (some (expected_status duplicate))))
                      final_status
                    ++ (error_if
                          (not (
                            dict_beq (counter (map (λ a. a.action) after.audit))
                              (expected_audit duplicate)))
                          audit_counts
                        ++ error_if (not (length after.keys == expected_keys case.mode))
                            key_count)))))

abbrev pub find_user : (User → Bool) → List User → Result Raised User
find_user p [] = err stop_iteration
find_user p (user ∷ users) = if p user then ok user else find_user p users

abbrev pub data_errors : Detail → List CaseError
data_errors detail =
    error_if
      (not (option_eq detail.job_status (some "COMPLETED"))
        || (not (option_eq detail.shop_name (some "테스트상점"))
            || not (option_eq detail.total_amount (some 12000))))
      api_data

-- `status != 200 or detail.get(...)`: the body is read only at 200.
abbrev pub check_detail : ℕ → Option Detail → Result Raised (List CaseError)
check_detail status none = if status == 200 then err attribute_error else ok (api_data ∷ [])
check_detail status (some detail) =
    if status == 200 then ok (data_errors detail) else ok (api_data ∷ [])

abbrev rules_of : Option Detail → List (String × String)
rules_of none = []
rules_of (some detail) = detail.rules

abbrev duplicate_rule : Option Detail → Bool
duplicate_rule detail =
    any (λ r. (r.0 == "DUPLICATE_SUBMISSION") && (r.1 == "FAIL")) (rules_of detail)

abbrev bool_beq : Bool → Bool → Bool
bool_beq true b = b
bool_beq false b = not b

-- The read of another employee, in the one mode that has one.
pub foreign_read_status : Services → Case → ReceiptRow → List User → Result Raised (Option ℕ)
foreign_read_status services case receipt users =
    if mode_beq case.mode Mode.cross_owner
    then (find_user (λ u. not (u.employee_id == receipt.owner_id)) (take 2 users) >>= λ user.
        services.get_detail user receipt.id >>= λ answer. ok (some answer.0))
    else ok none

abbrev foreign_errors : Option ℕ → List CaseError
foreign_errors none = []
foreign_errors (some status) = error_if (not (status == 404)) foreign_read

-- `'/'.join(part for part in [prefix, storage_key] if part)`
abbrev pub object_key : String → String → String
object_key prefix key =
    if prefix == "" then key else if key == "" then prefix else prefix +str ("/" +str key)

-- What is reported once the API has answered: on the rule, the foreign read, the log, the store.
abbrev pub served_errors : Services → Case → JobRow → Option Detail → Option ℕ → List CaseError
served_errors services case job detail foreign =
    let starts = services.extraction_starts case.id in
    let key = object_key services.s3_prefix job.storage_key in
    error_if (not (bool_beq (duplicate_rule detail) (is_duplicate case))) api_rule
    ++ (foreign_errors foreign
        ++ (error_if (not (starts == 1)) (extraction_starts starts)
            ++ error_if (not (list_beq (λ a b. a == b) (services.s3_keys key) (key ∷ [])))
                stored_objects))

-- The checks on the API, the log and the object store.
pub service_errors :
    Services → Case → ReceiptRow → JobRow → List User → Result Raised (List CaseError × Option ℕ)
unfolding foreign_read_status
service_errors services case receipt job users =
    find_user (λ u. u.employee_id == receipt.owner_id) users >>= λ owner.
    services.get_detail owner receipt.id >>= λ answer.
    check_detail answer.0 answer.1 >>= λ detail_errors.
    foreign_read_status services case receipt users >>= λ foreign.
    ok (detail_errors ++ served_errors services case job answer.1 foreign, foreign)

abbrev pub is_empty : List CaseError → Bool
is_empty [] = true
is_empty _ = false

abbrev pub verdict : List CaseError → Option ℕ → Verdict
verdict errors foreign = record {
  passed = is_empty errors;
  errors = errors;
  foreign_status = foreign;
}

abbrev pub verify_single :
    Services
    → Case
    → Tables
    → Tables
    → List CaseError
    → List ReceiptRow
    → List JobRow
    → List User
    → Result Raised Verdict
verify_single services case before after errors (receipt ∷ []) (job ∷ []) users =
    service_errors services case receipt job users >>= λ found.
    ok (verdict (errors ++ (row_errors services case before after receipt job ++ found.0)) found.1)
verify_single services case before after errors _ _ users =
    ok (record { passed = false; errors = errors ++ row_counts ∷ []; foreign_status = none })

unfoldable pub verify_case :
    Services → Case → Tables → Tables → List Phase → List User → Result Raised Verdict
unfolding phase_errors row_errors service_errors
verify_case services case before after phases users =
    verify_single services case before after (phase_errors case phases before) after.receipts
      after.jobs users
