-- ===== src/AblationReport/Load/Paired.antt =====
-- What a report that was loaded rests on.
use receipt_expense_review.Prelude.{
  ℕ, String, ◌≡◌, refl, ◌∙◌, Bool, true, ◌&&◌, Option, none, some, List, [], ◌∷◌, ◌++◌, ◌==◌,
  nat_eq, string_eq, all, All, all-iff-All, Dict, Result, ok, ◌>>◌, or_raise, >>=-eq-ok,
  require-eq-ok, both, nat-same,
}
use receipt_expense_review.Prelude.Int.{ℤ}
use receipt_expense_review.Sql.{kind_eq}
use receipt_expense_review.Fixture.{Scenario}
use receipt_expense_review.Ablation.{Variant, Key, key_eq, key_beq}
use receipt_expense_review.Reports.{datasets, scenarios, repeats}
use receipt_expense_review.Reports.Plan.{same_counts, occurs, same_set}
use receipt_expense_review.Reports.Validate.{has_evidence, arrivals_ok, all_seen}
use receipt_expense_review.Evidence.{assess_raw_requests}
use receipt_expense_review.Evidence as Evidence
use receipt_expense_review.AblationReport.Profiles.{Profile, collect_profiles}
use receipt_expense_review.AblationReport.Runs.{
  check_record, check_runs, check_answer, raw_assessment, matched, orders_ok, pair_delta,
}
use receipt_expense_review.AblationReport.Load.{
  Group, Pair, planned_keys, keys, Report, gather, group_of, pair_of, shown, check_meta, one_image,
  load_report,
}
use receipt_expense_review.AblationReport.{
  Entry, Meta, Files, Requirement, Error, needs, each, variants, expected_kinds, kinds_of,
}

-- The record of a run whose evidence is complete.
pub record IsChecked (e : Entry) : Type 0 where
  pub evidence : has_evidence e.run ≡ true
  pub kinds : same_set (kinds_of e.run.sql) (expected_kinds e.variant) ≡ true
  pub statements : all_seen e.run.sql ≡ true
  pub arrivals : arrivals_ok e.run ≡ true

abbrev key : ℕ → Scenario → ℕ → Variant → Key
key size case repeat v = record { dataset = size; scenario = case; repeat = repeat; variant = v }

-- One repeat of one case was measured with both variants, in one pair, one after the other.
pub record IsPair (entries : List Entry) (size : ℕ) (case : Scenario) (repeat : ℕ) : Type 0 where
  pub index_only : Entry
  pub id_first : Entry
  pub first_found : matched (key size case repeat Variant.index_only) entries none ≡ some index_only
  pub second_found : matched (key size case repeat Variant.id_first) entries none ≡ some id_first
  pub same_pair : index_only.pair_id ≡ id_first.pair_id
  pub orders : orders_ok index_only id_first ≡ true

or_raise-cases : {A : Type 0} (o : Option A) (e : Error) (a : A) → or_raise o e ≡ ok a → o ≡ some a
or_raise-cases none e a h = cc
or_raise-cases (some x) e a h = cc

needs-ok :
    {B : Type 0} (c : Bool) (r : Requirement) (m : Result Error B) {b : B}
    → (needs c r >> m) ≡ ok b
    → (c ≡ true) × (m ≡ ok b)
unfolding needs
needs-ok c r m h = require-eq-ok c (Error.value_error r) m h

pair_delta-IsPair :
    (entries : List Entry) (size : ℕ) (case : Scenario) (repeat : ℕ) (d : ℤ)
    → pair_delta entries size case repeat ≡ ok d
    → IsPair entries size case repeat
unfolding pair_delta
pair_delta-IsPair entries size case repeat d h =
    let found : Variant → Result Error Entry =
      λ v. or_raise (matched (key size case repeat v) entries none) Error.key_error in
    let (a, ha, h1) = >>=-eq-ok (found Variant.index_only) _ h in
    let (b, hb, h2) = >>=-eq-ok (found Variant.id_first) _ h1 in
    let (c, h3) = needs-ok (a.pair_id == b.pair_id && orders_ok a b) _ _ h2 in
    let (c1, c2) = both _ _ c in
    record {
      index_only = a;
      id_first = b;
      first_found = or_raise-cases _ _ a ha;
      second_found = or_raise-cases _ _ b hb;
      same_pair = (string_eq.beq_iff a.pair_id b.pair_id).0 c1;
      orders = c2;
    }

-- What holds of each part that was gathered holds of all.
gather-All :
    {A B : Type 0} (P : A → Type 0) (body : A → Result Error B)
    → ((a : A) (b : B) → body a ≡ ok b → P a)
    → (xs : List A) (bs : List B) → gather body xs ≡ ok bs
    → All P xs
gather-All P body k [] bs h = tt
gather-All P body k (x ∷ xs) bs h =
    let (b, hb, h1) = >>=-eq-ok (body x) _ h in
    let (rest, hr, h2) = >>=-eq-ok (gather body xs) _ h1 in
    (k x b hb, gather-All P body k xs rest hr)

check_record-IsChecked :
    (files : Files) (e : Entry) (u : Unit {0}) → check_record files e ≡ ok u → IsChecked e
unfolding check_record
check_record-IsChecked files e u h =
    let (_, h1) = needs-ok _ _ _ h in
    let (raw, _, h2) = >>=-eq-ok (or_raise (files.verification e) Error.no_file) _ h1 in
    let (_, h3) = needs-ok _ _ _ h2 in
    let (_, h4) = needs-ok _ _ _ h3 in
    let (_, h5) = needs-ok _ _ _ h4 in
    let (evidence, h6) = needs-ok _ _ _ h5 in
    let (kinds, h7) = needs-ok _ _ _ h6 in
    let (statements, h8) = needs-ok _ _ _ h7 in
    let (arrivals, _) = needs-ok _ _ _ h8 in
    record { evidence = evidence; kinds = kinds; statements = statements; arrivals = arrivals }

check_runs-IsChecked :
    (files : Files) (profiles : List Profile) (entries : List Entry)
    (d d' : Dict String Evidence.Assessment)
    → check_runs files profiles entries d ≡ ok d'
    → All IsChecked entries
unfolding check_runs
check_runs-IsChecked files profiles [] d d' h = tt
check_runs-IsChecked files profiles (e ∷ entries) d d' h =
    let (u, h1, h2) = >>=-eq-ok (check_record files e) _ h in
    let (found, _, h3) =
      >>=-eq-ok (raw_assessment (assess_raw_requests (files.samples e ∷ []))) _ h2 in
    let (_, _, h4) = >>=-eq-ok (check_answer files profiles e) _ h3 in
    (check_record-IsChecked files e u h1, check_runs-IsChecked files profiles entries _ d' h4)

-- The three repeats of one case on one data set.
abbrev pub ThreePairs : List Entry → ℕ → Scenario → Type 0
ThreePairs entries size case = All (IsPair entries size case) repeats

pair_of-ThreePairs :
    (entries : List Entry) (size : ℕ) (case : Scenario) (p : Pair)
    → pair_of entries size case ≡ ok p
    → ThreePairs entries size case
unfolding pair_of
pair_of-ThreePairs entries size case p h =
    let (deltas, h1, _) = >>=-eq-ok (gather (pair_delta entries size case) repeats) _ h in
    gather-All (IsPair entries size case) (pair_delta entries size case)
      (pair_delta-IsPair entries size case) repeats deltas h1

shown_pairs :
    (entries : List Entry) (size : ℕ) (part : List (List Group) × List Pair)
    → shown entries size ≡ ok part
    → All (ThreePairs entries size) scenarios
shown_pairs entries size part h =
    let (groups, _, h1) =
      >>=-eq-ok (gather (λ v. gather (group_of entries size v) scenarios) variants) _ h in
    let (pairs, h2, _) = >>=-eq-ok (gather (pair_of entries size) scenarios) _ h1 in
    gather-All (ThreePairs entries size) (pair_of entries size) (pair_of-ThreePairs entries size)
      scenarios pairs h2

-- What is known of the experiment.
pub record IsComplete (meta : Meta) : Type 0 where
  pub completed : meta.completed ≡ true
  pub restored : meta.restored_original_database ≡ true
  pub once : All (λ k. occurs (keys meta.runs) k ≡ 1) planned_keys
  pub checked : All IsChecked meta.runs
  pub paired : All (λ size. All (ThreePairs meta.runs size) scenarios) datasets

planned_once : all (λ k. occurs planned_keys k == 1) planned_keys ≡ true
unfolding key_beq
planned_once = refl

All-map :
    {A : Type 0} {P Q : A → Type 0} (xs : List A) → ((x : A) → P x → Q x) → All P xs → All Q xs
All-map [] k h = tt
All-map (x ∷ xs) k h = (k x h.0, All-map xs k h.1)

All-right : {A : Type 0} (P : A → Type 0) (xs ys : List A) → All P (xs ++ ys) → All P ys
All-right P [] ys h = h
All-right P (x ∷ xs) ys h = All-right P xs ys h.1

All-zip :
    {A : Type 0} (P Q : A → Type 0) (xs : List A) → All P xs → All Q xs → All (λ x. P x × Q x) xs
All-zip P Q [] p q = tt
All-zip P Q (x ∷ xs) p q = ((p.0, q.0), All-zip P Q xs p.1 q.1)

same_counts-once :
    (ks : List Key) → same_counts ks planned_keys ≡ true → All (λ k. occurs ks k ≡ 1) planned_keys
same_counts-once ks h =
    let every = all-iff-All (λ k. occurs ks k == occurs planned_keys k) (ks ++ planned_keys) h in
    let ones = all-iff-All (λ k. occurs planned_keys k == 1) planned_keys planned_once in
    All-map planned_keys one
      (All-zip Same One planned_keys (All-right Same ks planned_keys every) ones)
  where
    Same : Key → Type 0
    Same k = occurs ks k == occurs planned_keys k ≡ true

    One : Key → Type 0
    One k = occurs planned_keys k == 1 ≡ true

    one : (k : Key) → Same k × One k → occurs ks k ≡ 1
    one k p = nat-same _ _ p.0 ∙ nat-same _ _ p.1

meta-IsComplete :
    (files : Files) (meta : Meta) (u : Unit {0})
    → check_meta files meta ≡ ok u
    → (meta.completed ≡ true)
      × (meta.restored_original_database ≡ true)
      × (same_counts (keys meta.runs) planned_keys ≡ true)
unfolding check_meta
meta-IsComplete files meta u h =
    let (done, h1) = needs-ok _ _ _ h in
    let (restored, h2) = needs-ok _ _ _ h1 in
    let (_, _, h3) = >>=-eq-ok (or_raise files.original_before Error.no_file) _ h2 in
    let (_, _, h4) = >>=-eq-ok (or_raise files.original_after Error.no_file) _ h3 in
    let (_, h5) = needs-ok _ _ _ h4 in
    let (_, h6) = needs-ok _ _ _ h5 in
    let (counts, _) = needs-ok _ _ _ h6 in (done, restored, counts)

-- When load_report returns, the experiment is completed and restored, each planned combination was
-- measured exactly once, every run has its evidence, the statements of its variant and the due
-- number of arrivals, and each repeat of each case on each data set is a pair of the two variants
-- that were measured one after the other.
pub load_report-IsComplete :
    (files : Files) (meta : Meta) (report : Report)
    → load_report files meta ≡ ok report
    → IsComplete meta
unfolding load_report
load_report-IsComplete files meta report h =
    let (u, h1, k1) = >>=-eq-ok (check_meta files meta) _ h in
    let (profiles, _, k2) = >>=-eq-ok (collect_profiles files) _ k1 in
    let (d, h3, k3) = >>=-eq-ok (check_runs files profiles meta.runs []) _ k2 in
    let (_, _, k4) =
      >>=-eq-ok (each (λ v. needs (one_image meta.runs v) Requirement.one_image) variants) _ k3 in
    let (_, _, k5) = >>=-eq-ok (or_raise files.proof Error.no_file) _ k4 in
    let (_, k6) = needs-ok _ _ _ k5 in
    let (parts, h7, _) = >>=-eq-ok (gather (shown meta.runs) datasets) _ k6 in
    let (done, restored, counts) = meta-IsComplete files meta u h1 in
    record {
      completed = done;
      restored = restored;
      once = same_counts-once (keys meta.runs) counts;
      checked = check_runs-IsChecked files profiles meta.runs [] d h3;
      paired =
          gather-All (λ size. All (ThreePairs meta.runs size) scenarios) (shown meta.runs)
            (shown_pairs meta.runs) datasets parts h7;
    }
