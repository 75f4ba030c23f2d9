-- ===== src/Runner/Baseline/Complete/Loops.antt =====
-- The loops over the data sets in `main` of load/review-baseline.py.
use receipt_expense_review.Prelude.{
  ℕ, String, ◌≡◌, refl, sym, ap, ◌∙◌, subst, inl, inr, true, false, not, ◌&&◌, Option, List, [],
  ◌∷◌, nat_eq, string_eq, Bool-cases, all, All, all-iff-All, contains, distinct, both,
}
use receipt_expense_review.Program.{Machine, World, each}
use receipt_expense_review.Program.Outcomes.{Returns, bind-Returns, pure_memory, gets-Returns}
use receipt_expense_review.Reports.{Combination, combination_eq}
use receipt_expense_review.Runner.{Experiment, Action, Reply}
use receipt_expense_review.Runner.Resume.{Arguments}
use receipt_expense_review.Runner.Baseline.Step.{measured_ones}
use receipt_expense_review.Runner.Baseline.Complete.{
  Ready, Finished, each-Finished, prepare_dataset-Keeps,
}
use receipt_expense_review.Runner.Baseline.{
  Library, order, measure_items, prepare_and_measure, run_dataset,
}

-- Every load of every data set of the list is measured, and no combination twice.
pub record AllMeasured (counts : List ℕ) (repeats : ℕ) (e : Experiment) : Type 0 where
  pub once : distinct (measured_ones e) ≡ true
  pub every :
      All (λ count. All (λ k. contains (measured_ones e) k ≡ true) (order count repeats)) counts

All-map :
    {A : Type 0} {P Q : A → Type 0} (xs : List A) → ((x : A) → P x → Q x) → All P xs → All Q xs
All-map [] k h = tt
All-map (x ∷ xs) k h = (k x h.0, All-map xs k h.1)

module _ (world : World Action Reply) (library : Library) (args : Arguments)
    (old : Option Experiment) (loads : args.profile_only ≡ false) where
  measure_items-Finished :
      (database : String) (items done : List Combination) (s t : Machine Action Experiment)
      (u : Unit {0})
      → distinct items ≡ true
      → Ready items done s.memory
      → Returns (measure_items world library args database done items) s u t
      → Finished items s.memory t.memory
  measure_items-Finished database items done s t u d r h =
      each-Finished world library database args.load items done s t u d r (rw loads at h)

  prepare_and_measure-Finished :
      (count : ℕ) (done : List Combination) (s t : Machine Action Experiment) (u : Unit {0})
      → distinct (order count args.repeats) ≡ true
      → distinct (measured_ones s.memory) ≡ true
      → done ≡ measured_ones s.memory
      → Returns (prepare_and_measure world library args old done count) s u t
      → Finished (order count args.repeats) s.memory t.memory
  unfolding prepare_and_measure
  prepare_and_measure-Finished count done s t u d once e h =
      let (v, s1, h1, h2) = bind-Returns _ _ s t u h in
      let same : measured_ones s1.memory ≡ measured_ones s.memory =
        subst (λ x. measured_ones x.memory ≡ measured_ones s.memory) (ap (λ p. p.1) h1)
          ((prepare_dataset-Keeps world library (measured_ones s.memory) old _ count).after s
            refl) in
      let ready : Ready (order count args.repeats) done s1.memory = record {
        once = rw same once;
        known = λ k i m. subst (λ xs. contains xs k ≡ true) (same ∙ sym e) m;
        kept = λ k m. subst (λ xs. contains xs k ≡ true) (e ∙ sym same) m;
      } in
      let f = measure_items-Finished _ (order count args.repeats) done s1 t u d ready h2 in
      record {
        once = f.once;
        kept = λ k m. f.kept k (subst (λ xs. contains xs k ≡ true) (sym same) m);
        every = f.every;
      }

  run_dataset-Finished :
      (count : ℕ) (s t : Machine Action Experiment) (u : Unit {0})
      → distinct (order count args.repeats) ≡ true
      → distinct (measured_ones s.memory) ≡ true
      → Returns (run_dataset world library args old count) s u t
      → Finished (order count args.repeats) s.memory t.memory
  unfolding run_dataset
  run_dataset-Finished count s t u d once h =
      let (done, s1, h1, h2) = bind-Returns _ _ s t u h in
      let (e1, e2) = gets-Returns _ s s1 done h1 in
      elim (Bool-cases (not args.profile_only && all (contains done) (order count args.repeats))) [
        | inl b ↦
            let e : t.memory ≡ s.memory = pure_memory tt u s1 t (rw b at h2) ∙ e2 in
            let (b1, b2) = both _ _ b in
            subst (Finished (order count args.repeats) s.memory) (sym e) (record {
              once = once;
              kept = λ k m. m;
              every =
                  subst (λ xs. All (λ k. contains xs k ≡ true) (order count args.repeats)) e1
                    (all-iff-All (contains done) (order count args.repeats) b2);
            })
        | inr b ↦
            subst (λ x. Finished (order count args.repeats) x t.memory) e2
              (prepare_and_measure-Finished count done s1 t u d
                (subst (λ x. distinct (measured_ones x) ≡ true) (sym e2) once)
                (e1 ∙ ap measured_ones (sym e2)) (rw b at h2))
      ]

  pub each_dataset-AllMeasured :
      (counts : List ℕ) (s t : Machine Action Experiment) (u : Unit {0})
      → All (λ count. distinct (order count args.repeats) ≡ true) counts
      → distinct (measured_ones s.memory) ≡ true
      → Returns (each counts (run_dataset world library args old)) s u t
      → AllMeasured counts args.repeats t.memory
        × ((k : Combination)
            → contains (measured_ones s.memory) k ≡ true
            → contains (measured_ones t.memory) k ≡ true)
  unfolding each
  each_dataset-AllMeasured [] s t u d once h =
      let e = pure_memory tt u s t h in
      subst
        (λ x.
          AllMeasured [] args.repeats x
          × ((k : Combination)
              → contains (measured_ones s.memory) k ≡ true
              → contains (measured_ones x) k ≡ true))
        (sym e) (record { once = once; every = tt }, λ k m. m)
  each_dataset-AllMeasured (count ∷ counts) s t u d once h =
      let (v, s1, h1, h2) = bind-Returns _ _ s t u h in
      let f = run_dataset-Finished count s s1 v d.0 once h1 in
      let (a, grows) = each_dataset-AllMeasured counts s1 t u d.1 f.once h2 in
      (
        record { once = a.once; every = (All-map _ grows f.every, a.every) },
        λ k m. grows k (f.kept k m),
      )
