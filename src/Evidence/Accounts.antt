-- ===== src/Evidence/Accounts.antt =====
-- A run that `assess_run` takes: every response of it is accounted for.
use receipt_expense_review.Prelude.{
  or-false, both, nat-same, ℕ, ◌+◌, ◌-◌, String, ◌≡◌, sym, ◌∙◌, subst, true, false, some, List, [],
  ◌∷◌, map, arith, leb, ◌==◌, nat_eq, string_eq, All, contains, Dict, lookup, insert,
  lookup-insert_self, lookup-insert_ne, Result, ok, >>=-eq-ok, require-eq-ok,
}
use receipt_expense_review.Evidence.{
  Tally, no_points, count_of, tally, sum_values, Run, Folder, Error, Assessment, assess_run,
  assess_loop, assess_raw_requests,
}
use receipt_expense_review.Evidence.Counting.{occurrences, durations, sum-tally, count-tally}

pub record IsAccounted (run : Run) (folder : Folder) (a : Assessment) : Type 0 where
  pub every_response : durations folder.points ≡ run.requests
  pub matches_are_200 : occurrences "200" folder.points ≡ a.response_hash_matches
  pub rest_failed : a.response_hash_matches + run.failures ≡ run.requests
  pub zeros : a.request_timeouts + a.other_status_zero ≡ occurrences "0" folder.points
  pub counted :
      (status : String) → count_of status a.status_counts ≡ occurrences status folder.points
  pub samples : a.latency_samples ≡ run.requests

leb-minus : (a b : ℕ) → leb a b ≡ true → a + (b - a) ≡ b
leb-minus a b h = ground arith

ok-injective : {a b : Assessment} → Path (Result Error Assessment) (ok a) (ok b) → a ≡ b
ok-injective h = cc

module _ (run : Run) (folder : Folder) where
  counts : Tally
  counts = tally folder.points no_points

  count_all : (status : String) → count_of status counts.statuses ≡ occurrences status folder.points
  unfolding counts
  count_all status = omega (arith, count-tally status folder.points no_points)

  sum_all : sum_values counts.statuses ≡ durations folder.points
  unfolding counts sum_values
  sum_all = omega (arith, sum-tally folder.points no_points)

  pub assess_run-IsAccounted :
      (a : Assessment) → assess_run run folder ≡ ok a → IsAccounted run folder a
  unfolding assess_run counts
  assess_run-IsAccounted a h =
      let sums = require-eq-ok _ _ _ h in
      let failed = require-eq-ok _ _ _ sums.1 in
      let content = require-eq-ok _ _ _ failed.1 in
      let timeouts = require-eq-ok _ _ _ content.1 in
      let warm = require-eq-ok _ _ _ timeouts.1 in
      let s = both _ _ sums.0 in
      let s' = both _ _ s.1 in
      let c = both _ _ content.0 in
      let requests = nat-same _ _ s.0 ∙ (nat-same _ _ s'.0 ∙ nat-same _ _ s'.1) in
      let latency = nat-same _ _ s'.0 ∙ nat-same _ _ s'.1 in
      let zero_parts = leb-minus _ _ timeouts.0 in
      subst (IsAccounted run folder) (ok-injective warm.1) (record {
        every_response = sym sum_all ∙ requests;
        matches_are_200 = sym (count_all "200") ∙ nat-same _ _ c.0;
        rest_failed = nat-same _ _ c.1;
        zeros = zero_parts ∙ count_all "0";
        counted = count_all;
        samples = latency;
      })

-- The names under which the loop stores.
unfoldable pub ids : List (Run × Folder) → List String
ids runs = map (λ entry. entry.0.run_id) runs

loop-keeps :
    (id : String) (runs : List (Run × Folder)) (result d : Dict String Assessment)
    → contains (ids runs) id ≡ false
    → assess_loop runs result ≡ ok d
    → lookup id d ≡ lookup id result
unfolding assess_loop ids
loop-keeps id [] result d absent h = cc
loop-keeps id ((run, folder) ∷ runs) result d absent h =
    let step = >>=-eq-ok (assess_run run folder) _ h in
    let split = or-false (run.run_id == id) _ absent in
    loop-keeps id runs (insert run.run_id step.0 result) d split.1 step.2
    ∙ lookup-insert_ne run.run_id id step.0 result
        (λ e. cc ((string_eq.beq_iff run.run_id id).1 e, split.0))

pub IsAssessed : Dict String Assessment → Run × Folder → Type 0
IsAssessed d entry =
    (a : Assessment) × (lookup entry.0.run_id d ≡ some a) × (IsAccounted entry.0 entry.1 a)

-- No two of the runs have the same name.
unfoldable pub IsNamed : List (Run × Folder) → Type 0
IsNamed [] = Unit
IsNamed ((run, folder) ∷ runs) = (contains (ids runs) run.run_id ≡ false) × IsNamed runs

loop-AllAssessed :
    (runs : List (Run × Folder)) (result d : Dict String Assessment)
    → IsNamed runs
    → assess_loop runs result ≡ ok d
    → All (IsAssessed d) runs
unfolding assess_loop IsNamed IsAssessed
loop-AllAssessed [] result d named h = tt
loop-AllAssessed ((run, folder) ∷ runs) result d named h =
    let step = >>=-eq-ok (assess_run run folder) _ h in
    let rest = insert run.run_id step.0 result in
    (
      (
        step.0,
        loop-keeps run.run_id runs rest d named.0 step.2
            ∙ lookup-insert_self run.run_id step.0 result,
        assess_run-IsAccounted run folder step.0 step.1,
      ),
      loop-AllAssessed runs rest d named.1 step.2,
    )

-- When the runs have different names and none is refused, the result has an assessment under the
-- name of each, and it accounts for that run's responses.
pub assess_raw_requests-AllAssessed :
    (runs : List (Run × Folder)) (d : Dict String Assessment)
    → IsNamed runs
    → assess_raw_requests runs ≡ ok d
    → All (IsAssessed d) runs
unfolding assess_raw_requests
assess_raw_requests-AllAssessed runs d named h = loop-AllAssessed runs [] d named h
