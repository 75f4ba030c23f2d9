-- ===== src/Ablation/Runs/Progress.antt =====
-- What a resumed invocation refuses, and that it completes the plan when every load succeeds.
use receipt_expense_review.Prelude.{
  Result-cases, ◌≡◌, refl, ap, ◌∙◌, subst, inl, inr, Bool, true, false, not, ◌&&◌, ◌||◌, some, List,
  [], ◌∷◌, arith, if◌then◌else◌, ◌==◌, nat_eq, string_eq, Bool-cases, contains, ok, err,
}
use receipt_expense_review.Ablation.{variant_eq, Key, key_eq}
use receipt_expense_review.Ablation.Schedule.{Item}
use receipt_expense_review.Ablation.Schedule.Coverage.{keys}
use receipt_expense_review.Ablation.Runs.{
  Measured, Setup, Error, annotate, State, row_keys, collect, Outcome, completed, finished, row_of,
  attempt, measure_loop, invoke,
}
use receipt_expense_review.Ablation.Runs.NoRerun.{collect_shows}

-- An interrupted load that left no result is never repeated by itself: every later invocation is
-- refused, whatever the loads of that invocation would do.
pub unfinished_refused :
    (setup : Setup) (plan : List Item) (s : State) (outcomes : List Outcome) (k : Key)
    → s.active_run ≡ some k
    → contains (row_keys s.files) k ≡ false
    → (e : Error) × (invoke setup plan s outcomes ≡ err e)
unfolding invoke
unfinished_refused setup plan s outcomes k active absent =
    elim (Result-cases (collect setup plan s)) [
      | inr (e, bad) ↦ (e, rw (bad, invoke) refl)
      | inl (rows, found) ↦ absurd (cc ((collect_shows setup plan s found).1 k active, absent))
    ]

-- The loads of the items that are not done yet, each a success.
abbrev pub successes : (Item → Measured) → List Key → List Item → List Outcome
successes measure done [] = []
successes measure done (item ∷ items) =
    if contains done item.key
    then successes measure done items
    else completed (measure item) ∷ successes measure done items

-- The files only grow.
grows :
    (setup : Setup) (item : Item) (m : Measured) (s : State) (k : Key)
    → annotate setup item (row_of item m) ≡ ok (row_of item m)
    → contains (row_keys (attempt setup item (completed m) s).2.files) k
      ≡ (item.key == k || contains (row_keys s.files) k)
grows setup item m s k good = ground arith

or_true : (b : Bool) → true ≡ (b || true)
or_true true = refl
or_true false = refl

skipped :
    (done : List Key) (item : Item) (items : List Item) (k : Key) (b : Bool)
    → contains done item.key ≡ true
    → (b || (not (contains done k) && contains (keys items) k))
      ≡ (b || (not (contains done k) && contains (keys (item ∷ items)) k))
skipped done item items k b old = elim (Bool-cases (item.key == k)) [
  | inr other ↦ rw other refl
  | inl same ↦
      rw (subst (λ j. contains done j ≡ true) ((key_eq.beq_iff item.key k).0 same) old) refl
]

added :
    (done : List Key) (item : Item) (items : List Item) (k : Key) (b : Bool)
    → contains done item.key ≡ false
    → (item.key == k || b || (not (contains done k) && contains (keys items) k))
      ≡ (b || (not (contains done k) && contains (keys (item ∷ items)) k))
added done item items k b new = elim (Bool-cases (item.key == k)) [
  | inr other ↦ rw other refl
  | inl same ↦
      rw (same, subst (λ j. contains done j ≡ false) ((key_eq.beq_iff item.key k).0 same) new)
        (or_true b)
]

module _ (setup : Setup) (measure : Item → Measured) (done : List Key) (item : Item)
    (items : List Item) (s : State) where
  loop_done :
      (outcomes : List Outcome)
      → contains done item.key ≡ true
      → measure_loop setup done (item ∷ items) outcomes s ≡ measure_loop setup done items outcomes s
  unfolding measure_loop
  loop_done outcomes old = rw (old, measure_loop) refl

  loop_new :
      (o : Outcome) (rest : List Outcome)
      → (attempt setup item o s).0 ≡ true
      → contains done item.key ≡ false
      → measure_loop setup done (item ∷ items) (o ∷ rest) s
        ≡ measure_loop setup done items rest (attempt setup item o s).2
  unfolding measure_loop
  loop_new o rest on new = rw (new, on, measure_loop) refl

  success_goes_on :
      annotate setup item (row_of item (measure item)) ≡ ok (row_of item (measure item))
      → (attempt setup item (completed (measure item)) s).0 ≡ true
  success_goes_on good = rw good refl

  step_done :
      contains done item.key ≡ true
      → measure_loop setup done (item ∷ items) (successes measure done (item ∷ items)) s
        ≡ measure_loop setup done items (successes measure done items) s
  step_done old =
      let same : successes measure done (item ∷ items) ≡ successes measure done items =
        rw old refl in
      ap (λ os. measure_loop setup done (item ∷ items) os s) same
      ∙ loop_done (successes measure done items) old

  step_new :
      annotate setup item (row_of item (measure item)) ≡ ok (row_of item (measure item))
      → contains done item.key ≡ false
      → measure_loop setup done (item ∷ items) (successes measure done (item ∷ items)) s
        ≡ measure_loop setup done items
            (successes measure done items)
            (attempt setup item (completed (measure item)) s).2
  step_new good new =
      let next : successes measure done (item ∷ items)
          ≡ completed (measure item) ∷ successes measure done items =
        rw new refl in
      ap (λ os. measure_loop setup done (item ∷ items) os s) next
      ∙ loop_new (completed (measure item)) (successes measure done items) (success_goes_on good)
          new

nil_ends :
    (setup : Setup) (done : List Key) (s : State) → (measure_loop setup done [] [] s).0 ≡ finished
unfolding measure_loop
nil_ends setup done s = refl

nil_files :
    (setup : Setup) (done : List Key) (s : State) (k : Key)
    → contains (row_keys (measure_loop setup done [] [] s).1.files) k
      ≡ (contains (row_keys s.files) k || (not (contains done k) && false))
unfolding measure_loop
nil_files setup done s k = ground arith

-- If every load succeeds, the loop comes to the end of the plan, and afterwards exactly the planned
-- combinations that were not done have been added to the result files.
pub measure_loop-finishes :
    (setup : Setup) (measure : Item → Measured) (done : List Key) (items : List Item) (s : State)
    → ((item : Item)
        → annotate setup item (row_of item (measure item)) ≡ ok (row_of item (measure item)))
    → ((measure_loop setup done items (successes measure done items) s).0 ≡ finished)
      × ((k : Key)
          → contains
              (row_keys (measure_loop setup done items (successes measure done items) s).1.files)
              k
            ≡ (contains (row_keys s.files) k || (not (contains done k) && contains (keys items) k)))
measure_loop-finishes setup measure done [] s good =
    (nil_ends setup done s, λ k. nil_files setup done s k)
measure_loop-finishes setup measure done (item ∷ items) s good =
    elim (Bool-cases (contains done item.key)) [
      | inl old ↦
          let (ends, found) = measure_loop-finishes setup measure done items s good in
          let step = step_done setup measure done item items s old in
          (
            ap (λ r. r.0) step ∙ ends,
            λ k.
                ap (λ r. contains (row_keys r.1.files) k) step
                ∙ (found k ∙ skipped done item items k (contains (row_keys s.files) k) old),
          )
      | inr new ↦
          let t = (attempt setup item (completed (measure item)) s).2 in
          let (ends, found) = measure_loop-finishes setup measure done items t good in
          let step = step_new setup measure done item items s (good item) new in
          (
            ap (λ r. r.0) step ∙ ends,
            λ k.
                ap (λ r. contains (row_keys r.1.files) k) step
                ∙ (found k
                    ∙ (ap (λ b. b || (not (contains done k) && contains (keys items) k))
                          (grows setup item (measure item) s k (good item))
                        ∙ added done item items k (contains (row_keys s.files) k) new)),
          )
    ]
