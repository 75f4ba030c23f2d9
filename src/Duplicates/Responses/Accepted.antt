-- ===== src/Duplicates/Responses/Accepted.antt =====
-- What the responses of a burst are when `check_responses` reports nothing.
use receipt_expense_review.Prelude.{
  not-false, or-false, nat-same, lower_flag, error_if, error_if-nil, append-nil_iff, ℕ, suc, ◌+◌,
  String, ◌≡◌, refl, ap, ◌∙◌, ◌≢◌, ◌⊎◌, inl, inr, Bool, true, false, not, ◌&&◌, ◌||◌, Option, none,
  some, List, [], ◌∷◌, arith, eq_iff, nat_beq_iff, ◌==◌, nat_eq, string_eq, Bool-cases, length, All,
  all-iff-All,
}
use receipt_expense_review.Duplicates.{Case, Sample, Phase, ReceiptRow, JobRow, KeyRow, Tables}
use receipt_expense_review.Duplicates.Responses.{
  request_key, option_eq, key_saved, check_sample, check_samples, count_status, expected_created,
  check_counts, check_single, check_responses, foreign_bad, owner_bad,
}

-- A request of another employee than the owner learns nothing of the receipt; one of the owner is
-- answered with the receipt and its job, and a repeated one says whether its key was stored.
pub data IsRightResponse (case : Case) (rows : List KeyRow) (receipt : ReceiptRow) (job : JobRow)
    (s : Sample) : Type 0 where
  blocked :
      s.employee_id ≢ receipt.owner_id
      → s.status ≡ 409
      → s.receipt_id ≡ none
      → s.job_id ≡ none
      → IsRightResponse case rows receipt job s
  created :
      s.employee_id ≡ receipt.owner_id
      → s.status ≡ 202
      → s.receipt_id ≡ some receipt.id
      → s.job_id ≡ some job.id
      → IsRightResponse case rows receipt job s
  reused :
      s.employee_id ≡ receipt.owner_id
      → s.status ≡ 200
      → s.receipt_id ≡ some receipt.id
      → s.job_id ≡ some job.id
      → s.replay ≡ some (lower_flag (key_saved rows (request_key case s.vu)))
      → IsRightResponse case rows receipt job s

or-true : (a b : Bool) → a || b ≡ true → (a ≡ true) ⊎ (b ≡ true)
or-true true b h = inl refl
or-true false b h = inr h

option_eq-some : (o : Option ℕ) (n : ℕ) → option_eq o (some n) ≡ true → o ≡ some n
option_eq-some none n h = cc
option_eq-some (some m) n h = ap some ((nat_beq_iff m n).0 h)

option_eq-none : (o : Option ℕ) → option_eq o none ≡ true → o ≡ none
option_eq-none none h = refl
option_eq-none (some m) h = cc

option_eq-some-str : (o : Option String) (t : String) → option_eq o (some t) ≡ true → o ≡ some t
option_eq-some-str none t h = cc
option_eq-some-str (some u) t h = ap some ((eq_iff u t).0 h)

error_if-false : {E : Type 0} (b : Bool) (e : E) → error_if b e ≡ [] → b ≡ false
error_if-false b e h = (error_if-nil b e).0 h

nat-differ : (a b : ℕ) → (a == b) ≡ false → a ≢ b
nat-differ a b h = ground arith

module _ (case : Case) (rows : List KeyRow) (receipt : ReceiptRow) (job : JobRow) (s : Sample) where
  foreign-IsRight :
      (s.employee_id == receipt.owner_id) ≡ false
      → foreign_bad s ≡ false
      → IsRightResponse case rows receipt job s
  foreign-IsRight h bad =
      let parts = or-false _ _ bad in
      let ids = or-false _ _ parts.1 in
      blocked (nat-differ _ _ h) (nat-same _ _ (not-false _ parts.0))
        (option_eq-none _ (not-false _ ids.0)) (option_eq-none _ (not-false _ ids.1))

  owner-IsRight :
      (s.employee_id == receipt.owner_id) ≡ true
      → owner_bad receipt job s ≡ false
      → (s.status == 200
          && not (option_eq s.replay (some (lower_flag (key_saved rows (request_key case s.vu))))))
        ≡ false
      → IsRightResponse case rows receipt job s
  owner-IsRight h bad replay =
      let parts = or-false _ _ bad in
      let ids = or-false _ _ parts.1 in
      let receipt_id = option_eq-some _ _ (not-false _ ids.0) in
      let job_id = option_eq-some _ _ (not-false _ ids.1) in
      elim (or-true _ _ (not-false _ parts.0)) [
        | inl again ↦
            reused (nat-same _ _ h) (nat-same _ _ again) receipt_id job_id
              (option_eq-some-str _ _ (not-false _ (rw again at replay)))
        | inr new ↦ created (nat-same _ _ h) (nat-same _ _ new) receipt_id job_id
      ]

  check_sample-IsRight :
      check_sample case rows receipt job s ≡ [] → IsRightResponse case rows receipt job s
  unfolding check_sample
  check_sample-IsRight h = elim (Bool-cases (s.employee_id == receipt.owner_id)) [
    | inl own ↦
        let parts = (append-nil_iff _ _).0 (rw own at h) in
        owner-IsRight own (error_if-false _ _ parts.0) (error_if-false _ _ parts.1)
    | inr foreign ↦ foreign-IsRight foreign (error_if-false _ _ (rw foreign at h))
  ]

check_samples-AllRight :
    (case : Case) (rows : List KeyRow) (receipt : ReceiptRow) (job : JobRow) (samples : List Sample)
    → check_samples case rows receipt job samples ≡ []
    → All (IsRightResponse case rows receipt job) samples
unfolding check_samples
check_samples-AllRight case rows receipt job [] h = tt
check_samples-AllRight case rows receipt job (s ∷ samples) h =
    let parts = (append-nil_iff _ _).0 h in
    (
      check_sample-IsRight case rows receipt job s parts.0,
      check_samples-AllRight case rows receipt job samples parts.1,
    )

status_one :
    (case : Case) (rows : List KeyRow) (receipt : ReceiptRow) (job : JobRow) (s : Sample)
    → IsRightResponse case rows receipt job s
    → (s.status ≡ 409) ⊎ ((s.status ≡ 202) ⊎ (s.status ≡ 200))
status_one case rows receipt job s (blocked e f g h) = inl f
status_one case rows receipt job s (created e f g h) = inr (inl f)
status_one case rows receipt job s (reused e f g h i) = inr (inr f)

count-split :
    (s : Sample) (samples : List Sample)
    → (s.status ≡ 409) ⊎ ((s.status ≡ 202) ⊎ (s.status ≡ 200))
    → count_status 202 (s ∷ samples)
        + count_status 200 (s ∷ samples)
        + count_status 409 (s ∷ samples)
      ≡ suc (count_status 202 samples + count_status 200 samples + count_status 409 samples)
count-split s samples (inl e) = rw e (omega arith)
count-split s samples (inr (inl e)) = rw e (omega arith)
count-split s samples (inr (inr e)) = rw e (omega arith)

counts-total :
    (case : Case) (rows : List KeyRow) (receipt : ReceiptRow) (job : JobRow) (samples : List Sample)
    → All (IsRightResponse case rows receipt job) samples
    → count_status 202 samples + count_status 200 samples + count_status 409 samples
      ≡ length samples
counts-total case rows receipt job [] h = refl
counts-total case rows receipt job (s ∷ samples) h =
    count-split s samples (status_one case rows receipt job s h.0)
    ∙ ap suc (counts-total case rows receipt job samples h.1)

-- What is known of a phase that nothing is wrong with.
pub record IsAccepted (case : Case) (phase : Phase) (tables : Tables) : Type 0 where
  pub receipt : ReceiptRow
  pub job : JobRow
  pub one_receipt : tables.receipts ≡ receipt ∷ []
  pub one_job : tables.jobs ≡ job ∷ []
  pub exit_code : phase.exit_code ≡ 0
  pub stored : All (λ b. b ≡ true) phase.matches
  pub created_once : count_status 202 phase.responses ≡ expected_created phase.name
  pub answered :
      count_status 202 phase.responses
        + count_status 200 phase.responses
        + count_status 409 phase.responses
      ≡ case.vus
  pub right : All (IsRightResponse case tables.keys receipt job) phase.responses

record IsCounted (case : Case) (phase : Phase) : Type 0 where
  exited : phase.exit_code ≡ 0
  sent : length phase.responses ≡ case.vus
  stored : All (λ b. b ≡ true) phase.matches

check_counts-IsCounted :
    (case : Case) (phase : Phase) → check_counts case phase ≡ [] → IsCounted case phase
check_counts-IsCounted case phase h =
    let parts = (append-nil_iff _ _).0 h in
    let both = or-false _ _ (error_if-false _ _ parts.0) in
    record {
      exited = nat-same _ _ (not-false _ both.0);
      sent = nat-same _ _ (not-false _ both.1);
      stored = all-iff-All (λ b. b) phase.matches (not-false _ (error_if-false _ _ parts.1));
    }

single-IsAccepted :
    (case : Case) (phase : Phase) (tables : Tables) (rs : List ReceiptRow) (js : List JobRow)
    → tables.receipts ≡ rs
    → tables.jobs ≡ js
    → IsCounted case phase
    → check_single case phase tables.keys rs js ≡ []
    → IsAccepted case phase tables
single-IsAccepted case phase tables (receipt ∷ []) (job ∷ []) e f counted h =
    let parts = (append-nil_iff _ _).0 h in
    let all_right = check_samples-AllRight case tables.keys receipt job phase.responses parts.1 in
    record {
      receipt = receipt;
      job = job;
      one_receipt = e;
      one_job = f;
      exit_code = counted.exited;
      stored = counted.stored;
      created_once = nat-same _ _ (not-false _ (error_if-false _ _ parts.0));
      answered = counts-total case tables.keys receipt job phase.responses all_right ∙ counted.sent;
      right = all_right;
    }
single-IsAccepted case phase tables [] js e f counted h = cc
single-IsAccepted case phase tables (r ∷ []) [] e f counted h = cc
single-IsAccepted case phase tables (r ∷ []) (j ∷ k ∷ js) e f counted h = cc
single-IsAccepted case phase tables (r ∷ r' ∷ rs) js e f counted h = cc

-- When `check_responses` reports nothing, k6 exited with 0 and the stored samples match, the tables
-- hold exactly one receipt and one job, one response of the initial phase and none of the later
-- one is 202, the responses 202, 200 and 409 together are as many as the case has users, and each
-- response is the one its sender must get: a foreign employee 409 without identifiers, the owner
-- 202 or 200 with both, a 200 with the replay header that the stored keys ask for.
pub check_responses-IsAccepted :
    (case : Case) (phase : Phase) (tables : Tables)
    → check_responses case phase tables ≡ []
    → IsAccepted case phase tables
unfolding check_responses
check_responses-IsAccepted case phase tables h =
    let parts = (append-nil_iff _ _).0 h in
    single-IsAccepted case phase tables tables.receipts tables.jobs refl refl
      (check_counts-IsCounted case phase parts.0) parts.1
