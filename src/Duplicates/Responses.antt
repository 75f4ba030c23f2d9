-- ===== src/Duplicates/Responses.antt =====
-- `check_responses` of load/run-duplicates.py.
pub mod Accepted
use receipt_expense_review.Prelude.{
  ◌+str◌, decimal, lower_flag, error_if, ℕ, String, Bool, true, false, not, ◌&&◌, ◌||◌, Option,
  none, some, List, [], ◌∷◌, ◌++◌, map, if◌then◌else◌, Eq, ◌==◌, nat_eq, string_eq, length, select,
  all, contains,
}
use receipt_expense_review.Duplicates.{
  Mode, mode_beq, Case, PhaseName, Sample, Phase, ReceiptRow, JobRow, KeyRow, Tables,
}

pub data ResponseError : Type 0 where
  threshold_or_count samples_differ not_one_receipt_and_job created_count : ResponseError
  foreign_not_blocked owner_response replay_header : ℕ → ResponseError

-- The idempotency key that VU sends, if the mode has one.
pub request_key : Case → ℕ → Option String
request_key case vu = elim case.mode [
  | Mode.same_key ↦ some ("lt-" +str case.id)
  | Mode.no_key ↦ none
  | Mode.different_key ↦ some ("lt-" +str (case.id +str ("-" +str decimal vu)))
  | Mode.cross_owner ↦ some ("lt-" +str (case.id +str ("-" +str decimal vu)))
]

abbrev pub option_eq {ℓ} : {A : Type ℓ} ⦃e : Eq A⦄ → Option A → Option A → Bool
option_eq none none = true
option_eq (some a) (some b) = a == b
option_eq _ _ = false

-- `key in saved_keys`
abbrev pub key_saved : List KeyRow → Option String → Bool
key_saved rows none = false
key_saved rows (some key) = contains (map (λ row. row.key) rows) key

abbrev pub foreign_bad : Sample → Bool
foreign_bad s =
    not (s.status == 409) || (not (option_eq s.receipt_id none) || not (option_eq s.job_id none))

abbrev pub owner_bad : ReceiptRow → JobRow → Sample → Bool
owner_bad receipt job s =
    not (s.status == 200 || s.status == 202)
    || (not (option_eq s.receipt_id (some receipt.id)) || not (option_eq s.job_id (some job.id)))

-- The body of the loop over the samples.
pub check_sample : Case → List KeyRow → ReceiptRow → JobRow → Sample → List ResponseError
unfolding request_key
check_sample case rows receipt job s =
    if not (s.employee_id == receipt.owner_id)
    then error_if (foreign_bad s) (foreign_not_blocked s.vu)
    else error_if (owner_bad receipt job s) (owner_response s.vu)
      ++ error_if
          (s.status == 200
            && not
                (option_eq s.replay (some (lower_flag (key_saved rows (request_key case s.vu))))))
          (replay_header s.vu)

pub check_samples : Case → List KeyRow → ReceiptRow → JobRow → List Sample → List ResponseError
unfolding check_sample
check_samples case rows receipt job [] = []
check_samples case rows receipt job (s ∷ samples) =
    check_sample case rows receipt job s ++ check_samples case rows receipt job samples

-- `sum(s['status'] == status for s in samples)`
abbrev pub count_status : ℕ → List Sample → ℕ
count_status status samples = length (select (λ s. s.status == status) samples)

abbrev pub expected_created : PhaseName → ℕ
expected_created PhaseName.initial = 1
expected_created PhaseName.after_completion = 0

abbrev pub check_counts : Case → Phase → List ResponseError
check_counts case phase =
    error_if (not (phase.exit_code == 0) || not (length phase.responses == case.vus))
      threshold_or_count
    ++ error_if (not (all (λ b. b) phase.matches)) samples_differ

-- `snapshot_data['receipts'][0]` and `['jobs'][0]`, where there is one of each.
abbrev pub check_single :
    Case → Phase → List KeyRow → List ReceiptRow → List JobRow → List ResponseError
check_single case phase rows (receipt ∷ []) (job ∷ []) =
    error_if (not (count_status 202 phase.responses == expected_created phase.name)) created_count
    ++ check_samples case rows receipt job phase.responses
check_single case phase rows _ _ = not_one_receipt_and_job ∷ []

unfoldable pub check_responses : Case → Phase → Tables → List ResponseError
unfolding check_samples
check_responses case phase tables =
    check_counts case phase ++ check_single case phase tables.keys tables.receipts tables.jobs
