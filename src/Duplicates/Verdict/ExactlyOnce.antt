-- ===== src/Duplicates/Verdict/ExactlyOnce.antt =====
-- A case that `verify_case` passes: the receipt was created, and its image read, exactly once.
mod Same
use receipt_expense_review.Prelude.{
  not, take, ◌≢◌, inl, inr, Bool-cases, not-false, or-false, error_if, error_if-nil, append-nil_iff,
  ℕ, ◌+◌, ◌≡◌, refl, sym, ap, ◌∙◌, subst, arith, Bool, true, false, Option, none, some, List, [],
  ◌∷◌, map, ◌==◌, nat_eq, string_eq, length, Result, ok, >>=-eq-ok,
}
use receipt_expense_review.Duplicates.{
  Mode, mode_beq, Case, PhaseName, Sample, Phase, ReceiptRow, JobRow, AuditRow, KeyRow, Tables,
  initial, after_completion,
}
use receipt_expense_review.Duplicates.Responses.{
  ResponseError, check_responses, count_status, option_eq, expected_created,
}
use receipt_expense_review.Duplicates.Responses.Accepted.{IsAccepted, check_responses-IsAccepted}
use receipt_expense_review.Duplicates.Verdict.{
  CaseError, Raised, User, Services, Verdict, is_duplicate, expected_status, expected_keys,
  phase_errors, row_errors, service_errors, check_detail, foreign_read_status, foreign_errors,
  object_key, is_empty, verify_case, verify_single, served_errors, Detail, verdict, find_user,
  response, list_beq, tables_beq, bool_beq, duplicate_rule,
}
use Same.{tables_same, same, option_same, string_list_same}

silent : {E : Type 0} (b : Bool) (e : E) → error_if b e ≡ [] → b ≡ false
silent b e h = (error_if-nil b e).0 h

-- What the rows show when none of their checks reports anything.
pub record IsStoredOnce (services : Services) (case : Case) (before after : Tables)
    (receipt : ReceiptRow) (job : JobRow) : Type 0 where
  sha256 : receipt.sha256 ≡ (services.image_hash case.id).0
  size : receipt.size ≡ (services.image_hash case.id).1
  unchanged : before ≡ after
  completed : job.status ≡ "COMPLETED"
  one_attempt : job.attempt_count ≡ 1
  final_status : receipt.status ≡ some (expected_status (is_duplicate case))
  stored_keys : length after.keys ≡ expected_keys case.mode

row_errors-IsStoredOnce :
    (services : Services) (case : Case) (before after : Tables) (receipt : ReceiptRow)
    (job : JobRow)
    → row_errors services case before after receipt job ≡ []
    → IsStoredOnce services case before after receipt job
unfolding row_errors
row_errors-IsStoredOnce services case before after receipt job h =
    let a = (append-nil_iff _ _).0 h in
    let b = (append-nil_iff _ _).0 a.1 in
    let c = (append-nil_iff _ _).0 b.1 in
    let d = (append-nil_iff _ _).0 c.1 in
    let e = (append-nil_iff _ _).0 d.1 in
    let f = (append-nil_iff _ _).0 e.1 in
    let image = or-false _ _ (silent _ _ a.0) in
    let state = or-false _ _ (silent _ _ c.0) in
    record {
      sha256 = same _ _ (not-false _ image.0);
      size = same _ _ (not-false _ image.1);
      unchanged = tables_same before after (not-false _ (silent _ _ b.0));
      completed = same _ _ (not-false _ state.0);
      one_attempt = same _ _ (not-false _ state.1);
      final_status = option_same _ _ (not-false _ (silent _ _ e.0));
      stored_keys = same _ _ (not-false _ (silent _ _ f.1));
    }

-- The read of the receipt by another than its owner: due in one mode, and refused.
pub ForeignDue : Services → ReceiptRow → Mode → Option ℕ → Type 0
ForeignDue services receipt Mode.cross_owner foreign =
    (foreign ≡ some 404)
    × (user : User) × (user.employee_id ≢ receipt.owner_id)
    × (detail : Option Detail) × (services.get_detail user receipt.id ≡ ok (404, detail))
ForeignDue services receipt _ foreign = foreign ≡ none

-- What the services show when none of their checks reports anything.
pub record IsServedOnce (services : Services) (case : Case) (receipt : ReceiptRow) (job : JobRow)
    (foreign : Option ℕ) : Type 0 where
  one_extraction : services.extraction_starts case.id ≡ 1
  one_object :
      services.s3_keys (object_key services.s3_prefix job.storage_key)
      ≡ object_key services.s3_prefix job.storage_key ∷ []
  foreign_due : ForeignDue services receipt case.mode foreign

ok-injective : {E A : Type 0} (a b : A) (r : Result E A) → r ≡ ok a → r ≡ ok b → a ≡ b
ok-injective a b r g h = cc

found_user :
    (p : User → Bool) (users : List User) (user : User)
    → find_user p users ≡ ok user
    → p user ≡ true
found_user p [] user h = cc
found_user p (u ∷ users) user h = elim (Bool-cases (p u)) [
  | inl e ↦ subst (λ x. p x ≡ true) (same_user (rw e at h)) e
  | inr e ↦ found_user p users user (rw e at h)
]
  where
    same_user : Path (Result Raised User) (ok u) (ok user) → u ≡ user
    same_user h = cc

-- The read that was made, when its check reports nothing.
foreign_read_status-ForeignDue :
    (services : Services) (case : Case) (receipt : ReceiptRow) (users : List User) (mode : Mode)
    (foreign : Option ℕ)
    → case.mode ≡ mode
    → foreign_read_status services case receipt users ≡ ok foreign
    → foreign_errors foreign ≡ []
    → ForeignDue services receipt mode foreign
unfolding foreign_read_status ForeignDue
foreign_read_status-ForeignDue services case receipt users Mode.cross_owner foreign m h quiet =
    let found =
      >>=-eq-ok (find_user (λ u. not (u.employee_id == receipt.owner_id)) (take 2 users)) _
        (rw m at h) in
    let answer = >>=-eq-ok (services.get_detail found.0 receipt.id) _ found.2 in
    let read : some answer.0.0 ≡ foreign = ok-injective _ _ _ refl answer.2 in
    let denied : answer.0.0 ≡ 404 =
      same _ _ (not-false _ (silent _ _ (subst (λ o. foreign_errors o ≡ []) (sym read) quiet))) in
    (
      sym read ∙ ap some denied,
      found.0,
      differ found.0 (found_user _ (take 2 users) found.0 found.1),
      answer.0.1,
      answer.1 ∙ ap (λ n. ok (n, answer.0.1)) denied,
    )
  where
    differ :
        (u : User)
        → not (u.employee_id == receipt.owner_id) ≡ true
        → u.employee_id ≢ receipt.owner_id
    differ u h = ground (arith, h)
foreign_read_status-ForeignDue services case receipt users Mode.same_key foreign m h quiet =
    sym (ok-injective _ _ _ refl (rw m at h))
foreign_read_status-ForeignDue services case receipt users Mode.different_key foreign m h quiet =
    sym (ok-injective _ _ _ refl (rw m at h))
foreign_read_status-ForeignDue services case receipt users Mode.no_key foreign m h quiet =
    sym (ok-injective _ _ _ refl (rw m at h))

served_errors-IsServedOnce :
    (services : Services) (case : Case) (receipt : ReceiptRow) (job : JobRow)
    (detail : Option Detail) (foreign : Option ℕ) (users : List User)
    → foreign_read_status services case receipt users ≡ ok foreign
    → served_errors services case job detail foreign ≡ []
    → IsServedOnce services case receipt job foreign
served_errors-IsServedOnce services case receipt job detail foreign users read h =
    let a = (append-nil_iff _ _).0 h in
    let b = (append-nil_iff _ _).0 a.1 in
    let c = (append-nil_iff _ _).0 b.1 in
    record {
      one_extraction = same _ _ (not-false _ (silent _ _ c.0));
      one_object = string_list_same _ _ (not-false _ (silent _ _ c.1));
      foreign_due =
          foreign_read_status-ForeignDue services case receipt users case.mode foreign refl read
            b.0;
    }

service_errors-IsServedOnce :
    (services : Services) (case : Case) (receipt : ReceiptRow) (job : JobRow) (users : List User)
    (found : List CaseError × Option ℕ)
    → service_errors services case receipt job users ≡ ok found
    → found.0 ≡ []
    → IsServedOnce services case receipt job found.1
unfolding service_errors
service_errors-IsServedOnce services case receipt job users found h none_found =
    let owner = >>=-eq-ok (find_user (λ u. u.employee_id == receipt.owner_id) users) _ h in
    let answer = >>=-eq-ok (services.get_detail owner.0 receipt.id) _ owner.2 in
    let detail = >>=-eq-ok (check_detail answer.0.0 answer.0.1) _ answer.2 in
    let read = >>=-eq-ok (foreign_read_status services case receipt users) _ detail.2 in
    let e = ok-injective _ _ _ refl read.2 in
    let nothing = (append-nil_iff _ _).0 (ap (λ f. f.0) e ∙ none_found) in
    subst (IsServedOnce services case receipt job) (ap (λ f. f.1) e) (
      served_errors-IsServedOnce services case receipt job answer.0.1 read.0 users read.1 nothing.1)

-- A case of which nothing is wrong, from its two phases to the object store.
pub record IsExactlyOnce (services : Services) (case : Case) (before after : Tables)
    (first second : Phase) (v : Verdict) : Type 0 where
  receipt : ReceiptRow
  job : JobRow
  one_receipt : after.receipts ≡ receipt ∷ []
  one_job : after.jobs ≡ job ∷ []
  first_accepted : IsAccepted case first before
  second_accepted : IsAccepted case second before
  created_once : count_status 202 first.responses + count_status 202 second.responses ≡ 1
  stored : IsStoredOnce services case before after receipt job
  served : IsServedOnce services case receipt job v.foreign_status

map-nil : (errors : List ResponseError) → map response errors ≡ [] → errors ≡ []
map-nil [] h = refl
map-nil (e ∷ errors) h = cc

is_empty-nil : (errors : List CaseError) → is_empty errors ≡ true → errors ≡ []
is_empty-nil [] h = refl
is_empty-nil (e ∷ errors) h = cc

module _ (services : Services) (case : Case) (before after : Tables) (first second : Phase)
    (first_initial : first.name ≡ initial) (second_later : second.name ≡ after_completion) where
  phases-IsAccepted :
      phase_errors case (first ∷ second ∷ []) before ≡ []
      → IsAccepted case first before × IsAccepted case second before
  unfolding phase_errors
  phases-IsAccepted h =
      let a = (append-nil_iff _ _).0 h in
      let b = (append-nil_iff _ _).0 a.1 in
      (
        check_responses-IsAccepted case first before (map-nil _ a.0),
        check_responses-IsAccepted case second before (map-nil _ b.0),
      )

  created_one :
      IsAccepted case first before
      → IsAccepted case second before
      → count_status 202 first.responses + count_status 202 second.responses ≡ 1
  created_one a b =
      let e = a.created_once in
      let f = b.created_once in rw (e, f, first_initial, second_later) refl

  single-IsExactlyOnce :
      (users : List User) (v : Verdict) (errors : List CaseError) (rs : List ReceiptRow)
      (js : List JobRow)
      → after.receipts ≡ rs
      → after.jobs ≡ js
      → errors ≡ phase_errors case (first ∷ second ∷ []) before
      → verify_single services case before after errors rs js users ≡ ok v
      → v.passed ≡ true
      → IsExactlyOnce services case before after first second v
  single-IsExactlyOnce users v errors (receipt ∷ []) (job ∷ []) e f g h passed =
      let found = >>=-eq-ok (service_errors services case receipt job users) _ h in
      let end = ok-injective _ _ _ refl found.2 in
      let empty = (append-nil_iff _ _).0 (is_empty-nil _ (ap (λ w. w.passed) end ∙ passed)) in
      let rest = (append-nil_iff _ _).0 empty.1 in
      let accepted = phases-IsAccepted (sym g ∙ empty.0) in
      record {
        receipt = receipt;
        job = job;
        one_receipt = e;
        one_job = f;
        first_accepted = accepted.0;
        second_accepted = accepted.1;
        created_once = created_one accepted.0 accepted.1;
        stored = row_errors-IsStoredOnce services case before after receipt job rest.0;
        served =
            subst (IsServedOnce services case receipt job) (ap (λ w. w.foreign_status) end)
              (service_errors-IsServedOnce services case receipt job users found.0 found.1 rest.1);
      }
  single-IsExactlyOnce users v errors [] js e f g h passed = cc
  single-IsExactlyOnce users v errors (r ∷ []) [] e f g h passed = cc
  single-IsExactlyOnce users v errors (r ∷ []) (j ∷ k ∷ js) e f g h passed = cc
  single-IsExactlyOnce users v errors (r ∷ r' ∷ rs) js e f g h passed = cc

  -- A case whose two phases `verify_case` passes was handled exactly once: one receipt and one job
  -- are left, one of all responses of both phases is 202, both phases are accepted, the snapshots
  -- before and after the second phase are equal, the image's hash and size are the stored ones,
  -- the job completed at its first attempt, the extractor started once, the object store holds the
  -- one key, the keys and the final status are those due, and another employee's read gave 404.
  pub verify_case-IsExactlyOnce :
      (users : List User) (v : Verdict)
      → verify_case services case before after (first ∷ second ∷ []) users ≡ ok v
      → v.passed ≡ true
      → IsExactlyOnce services case before after first second v
  unfolding verify_case
  verify_case-IsExactlyOnce users v h passed =
      single-IsExactlyOnce users v _ after.receipts after.jobs refl refl refl h passed
