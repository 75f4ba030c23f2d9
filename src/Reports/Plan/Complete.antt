-- ===== src/Reports/Plan/Complete.antt =====
-- A report's twelve runs are the planned ones, each once.
use receipt_expense_review.Prelude.{
  both, ◌≤◌, ◌≡◌, refl, sym, ◌∙◌, subst, ◌↔◌, inl, inr, Bool, true, List, [], ◌∷◌, ◌++◌, map, arith,
  nat_beq_iff, Eq, ◌==◌, nat_eq, string_eq, Bool-cases, length, select, all, All, all-iff-All,
  contains,
}
use receipt_expense_review.Reports.{Combination, combination_eq, combination_beq, Run, planned}
use receipt_expense_review.Reports.Groups.{total, group_total, IsDistinct, groups-total}
use receipt_expense_review.Reports.Plan.{
  occurs, same_counts, same_set, combinations, twelve_runs, planned_runs,
}

module _ {K : Type 0} ⦃e : Eq K⦄ where
  ones : (ks : List K) → total (λ k. 1) ks ≡ length ks
  ones [] = refl
  ones (k ∷ ks) = omega (arith, ones ks)

  total-occurs :
      (xs ks : List K)
      → IsDistinct ks
      → All (λ x. contains ks x ≡ true) xs
      → total (occurs xs) ks ≡ length xs
  total-occurs xs ks d h = same ks ∙ (groups-total (λ x. x) (λ x. 1) ks xs d h ∙ ones xs)
    where
      same : (js : List K) → total (occurs xs) js ≡ total (group_total (λ x. x) (λ x. 1) xs) js
      same [] = refl
      same (j ∷ js) = omega (arith, same js, ones (select (λ i. i == j) xs))

  occurs-pos : (xs : List K) (k : K) → contains xs k ≡ true → 1 ≤ occurs xs k
  occurs-pos [] k h = cc
  occurs-pos (x ∷ xs) k h = ground (arith, occurs-pos xs k)

  length-occurs_le :
      (xs ks : List K) → All (λ k. contains xs k ≡ true) ks → length ks ≤ total (occurs xs) ks
  length-occurs_le xs [] h = omega arith
  length-occurs_le xs (k ∷ ks) h = omega (arith, occurs-pos xs k h.0, length-occurs_le xs ks h.1)

  -- As many elements as keys, and every key there: each key is there once.
  pigeonhole :
      (xs ks : List K)
      → All (λ k. contains xs k ≡ true) ks
      → total (occurs xs) ks ≤ length ks
      → All (λ k. occurs xs k ≡ 1) ks
  pigeonhole xs [] h n = tt
  pigeonhole xs (k ∷ ks) h n = (
    omega (arith, occurs-pos xs k h.0, length-occurs_le xs ks h.1),
    pigeonhole xs ks h.1 (omega (arith, occurs-pos xs k h.0)),
  )

  pub at : (P : K → Type 0) (ks : List K) (k : K) → All P ks → contains ks k ≡ true → P k
  at P [] k h c = cc
  at P (j ∷ ks) k h c = elim (Bool-cases (j == k)) [
    | inl here ↦ subst P ((e.beq_iff j k).0 here) h.0
    | inr elsewhere ↦ at P ks k h.1 (rw elsewhere at c)
  ]

  contains-occurs : (xs : List K) (k : K) → 1 ≤ occurs xs k → contains xs k ≡ true
  contains-occurs [] k h = ground arith
  contains-occurs (x ∷ xs) k h = ground (arith, contains-occurs xs k)

  All-contains : (ks : List K) → All (λ k. contains ks k ≡ true) ks
  All-contains [] = tt
  All-contains (k ∷ ks) = (ground (arith, e.beq_iff k k), weaken ks (All-contains ks))
    where
      weaken :
          (js : List K)
          → All (λ j. contains ks j ≡ true) js
          → All (λ j. contains (k ∷ ks) j ≡ true) js
      weaken [] h = tt
      weaken (j ∷ js) h = (ground (arith, h.0), weaken js h.1)

  occurs-distinct : (ks : List K) → IsDistinct ks → All (λ k. occurs ks k ≡ 1) ks
  occurs-distinct ks d =
      pigeonhole ks ks (All-contains ks) (omega (arith, total-occurs ks ks d (All-contains ks)))

  total-ones : (xs ks : List K) → All (λ k. occurs xs k ≡ 1) ks → total (occurs xs) ks ≡ length ks
  total-ones xs [] h = refl
  total-ones xs (k ∷ ks) h = omega (arith, h.0, total-ones xs ks h.1)

length-map : {A B : Type 0} (f : A → B) (xs : List A) → length (map f xs) ≡ length xs
length-map f [] = refl
length-map f (x ∷ xs) = omega (arith, length-map f xs)

planned-IsDistinct : IsDistinct planned
unfolding planned IsDistinct combination_beq
planned-IsDistinct = (
  refl,
  (refl, (refl, (refl, (refl, (refl, (refl, (refl, (refl, (refl, (refl, (refl, tt))))))))))),
)

All-append : {A : Type 0} (P : A → Type 0) (xs ys : List A) → All P (xs ++ ys) → All P xs × All P ys
All-append P [] ys h = (tt, h)
All-append P (x ∷ xs) ys h = let rest = All-append P xs ys h.1 in ((h.0, rest.0), rest.1)

all-intro : {A : Type 0} (p : A → Bool) (xs : List A) → All (λ x. p x ≡ true) xs → all p xs ≡ true
all-intro p [] h = refl
all-intro p (x ∷ xs) h = rw (h.0, all-intro p xs h.1) refl

all-append :
    {A : Type 0} (p : A → Bool) (xs ys : List A)
    → all p xs ≡ true
    → all p ys ≡ true
    → all p (xs ++ ys) ≡ true
all-append p [] ys h k = k
all-append p (x ∷ xs) ys h k = ground (arith, all-append p xs ys)

All-zip :
    {A : Type 0} (P Q R : A → Type 0) (xs : List A)
    → ((x : A) → P x → Q x → R x)
    → All P xs
    → All Q xs
    → All R xs
All-zip P Q R [] f h k = tt
All-zip P Q R (x ∷ xs) f h k = (f x h.0 k.0, All-zip P Q R xs f h.1 k.1)

module _ {K : Type 0} ⦃e : Eq K⦄ (xs ks : List K) (d : IsDistinct ks) where
  counts-agree :
      same_counts xs ks ≡ true
      → All (λ k. (occurs xs k == occurs ks k) ≡ true) xs
        × All (λ k. (occurs xs k == occurs ks k) ≡ true) ks
  counts-agree h =
      All-append (λ k. (occurs xs k == occurs ks k) ≡ true) xs ks
        (all-iff-All (λ k. occurs xs k == occurs ks k) (xs ++ ks) h)

  ones-there : same_counts xs ks ≡ true → All (λ k. occurs xs k ≡ 1) ks
  ones-there h =
      All-zip (λ k. (occurs xs k == occurs ks k) ≡ true) (λ k. occurs ks k ≡ 1)
        (λ k. occurs xs k ≡ 1) ks
        (λ k same one. (nat_beq_iff (occurs xs k) (occurs ks k)).0 same ∙ one) (counts-agree h).1
        (occurs-distinct ks d)

  members : same_counts xs ks ≡ true → All (λ k. contains ks k ≡ true) xs
  members h =
      All-zip (λ k. (occurs xs k == occurs ks k) ≡ true) (λ k. contains xs k ≡ true)
        (λ k. contains ks k ≡ true) xs
        (λ k same there.
          contains-occurs ks k (
            omega (arith, occurs-pos xs k there, (nat_beq_iff (occurs xs k) (occurs ks k)).0 same)))
        (counts-agree h).0 (All-contains xs)

  counts-set : same_counts xs ks ≡ true → (length xs ≡ length ks) × (same_set xs ks ≡ true)
  counts-set h = (
    sym (total-occurs xs ks d (members h)) ∙ total-ones xs ks (ones-there h),
    rw
        (
          all-intro (contains ks) xs (members h),
          all-intro (contains xs) ks (
              All-zip (λ k. occurs xs k ≡ 1) (λ k. occurs xs k ≡ 1) (λ k. contains xs k ≡ true) ks
                (λ k one again. contains-occurs xs k (omega (arith, one))) (ones-there h)
                (ones-there h)),
        )
        refl,
  )

  set-counts : length xs ≡ length ks → same_set xs ks ≡ true → same_counts xs ks ≡ true
  set-counts n h =
      let sets = both (all (contains ks) xs) (all (contains xs) ks) h in
      let inside = all-iff-All (contains ks) xs sets.0 in
      let once =
        pigeonhole xs ks (all-iff-All (contains xs) ks sets.1)
          (omega (arith, n, total-occurs xs ks d inside)) in
      let same =
        All-zip (λ k. occurs xs k ≡ 1) (λ k. occurs ks k ≡ 1)
          (λ k. (occurs xs k == occurs ks k) ≡ true) ks
          (λ k one other. (nat_beq_iff (occurs xs k) (occurs ks k)).1 (one ∙ sym other)) once
          (occurs-distinct ks d) in
      all-append (λ k. occurs xs k == occurs ks k) xs ks
        (all-intro (λ k. occurs xs k == occurs ks k) xs
          (All-zip (λ k. contains ks k ≡ true) (λ k. contains ks k ≡ true)
            (λ k. (occurs xs k == occurs ks k) ≡ true) xs
            (λ k there again. at (λ k. (occurs xs k == occurs ks k) ≡ true) ks k same there) inside
            inside))
        (all-intro (λ k. occurs xs k == occurs ks k) ks same)

-- The two reports hold the runs to the same plan: the counts of `validate_runs` are right exactly
-- when the number and the set of `validate_complete` are.
pub planned_runs-iff-twelve_runs :
    (runs : List Run) → (planned_runs runs ≡ true) ↔ (twelve_runs runs ≡ true)
unfolding planned_runs twelve_runs
planned_runs-iff-twelve_runs runs = (
  λ h.
      let set = counts-set (combinations runs) planned planned-IsDistinct h in
      rw
        (
          set.1,
          (nat_beq_iff (length runs) 12).1 (sym (length-map (λ r. r.combination) runs) ∙ set.0),
        )
        refl,
  λ h.
      let parts = both (length runs == 12) (same_set (combinations runs) planned) h in
      set-counts (combinations runs) planned planned-IsDistinct
        (length-map (λ r. r.combination) runs ∙ (nat_beq_iff (length runs) 12).0 parts.0) parts.1,
)

-- Twelve runs whose combinations are, as a set, the planned ones have each of these exactly once.
pub twelve_runs-once :
    (runs : List Run)
    → twelve_runs runs ≡ true
    → All (λ k. occurs (combinations runs) k ≡ 1) planned
unfolding twelve_runs
twelve_runs-once runs h =
    let parts = both (length runs == 12) (same_set (combinations runs) planned) h in
    let sets =
      both (all (contains planned) (combinations runs)) (all (contains (combinations runs)) planned)
        parts.1 in
    let n : length runs ≡ 12 = (nat_beq_iff (length runs) 12).0 parts.0 in
    pigeonhole (combinations runs) planned
      (all-iff-All (contains (combinations runs)) planned sets.1)
      (omega (
        arith,
        n,
        length-map (λ r. r.combination) runs,
        total-occurs (combinations runs) planned planned-IsDistinct
            (all-iff-All (contains planned) (combinations runs) sets.0),
      ))

pub twelve_runs-length : (runs : List Run) → twelve_runs runs ≡ true → length runs ≡ 12
unfolding twelve_runs
twelve_runs-length runs h =
    (nat_beq_iff (length runs) 12).0
      (both (length runs == 12) (same_set (combinations runs) planned) h).0

-- A property of every planned combination is one of every run's.
pub twelve_runs-All :
    (P : Combination → Type 0) (runs : List Run)
    → twelve_runs runs ≡ true
    → All P planned
    → All (λ r. P r.combination) runs
unfolding twelve_runs
twelve_runs-All P runs h p =
    let sets = (both (length runs == 12) (same_set (combinations runs) planned) h).1 in
    let inside =
      all-iff-All (contains planned) (combinations runs)
        (both (all (contains planned) (combinations runs))
          (all (contains (combinations runs)) planned) sets).0 in
    each runs inside
  where
    each :
        (rs : List Run)
        → All (λ k. contains planned k ≡ true) (combinations rs)
        → All (λ r. P r.combination) rs
    each [] k = tt
    each (r ∷ rs) k = (at P planned r.combination p k.0, each rs k.1)
