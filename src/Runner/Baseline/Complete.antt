-- ===== src/Runner/Baseline/Complete.antt =====
-- When `main` of load/review-baseline.py returns, every planned load has been measured once.
pub mod Loops
pub mod Main
use receipt_expense_review.Prelude.{
  ℕ, String, ◌≡◌, sym, ap, ◌∙◌, subst, inl, inr, Bool, true, false, ◌||◌, Option, none, some, List,
  [], ◌∷◌, ◌++◌, arith, ◌==◌, nat_eq, string_eq, Bool-cases, All, contains, distinct,
}
use receipt_expense_review.Program.{
  Machine, World, Program, pure, lift, gets, modify, ◌>>=◌, ◌>>◌, check, call, each, finally_do,
}
use receipt_expense_review.Program.Keeps.{
  Keeps, Keeps-pure, Keeps-lift, Keeps-gets, Keeps-bind, Keeps-check, Keeps-modify,
}
use receipt_expense_review.Program.Outcomes.{
  Returns, bind-Returns, finally-Returns, Yields, Yields-pure, Yields-bind, Yields-bind_use,
  Yields-check, Yields-if, Yields-map, modify_memory, pure_memory, same_memory,
}
use receipt_expense_review.Reports.{Combination, combination_eq, datasets}
use receipt_expense_review.Runner.{Load, Measurement, Dataset, Experiment, Error, Action, Reply}
use receipt_expense_review.Runner.Setup.{ask}
use receipt_expense_review.Runner.Resume.{Arguments, resumed, combinations}
use receipt_expense_review.Runner.Resume.Preserved.{resumed-cases}
use receipt_expense_review.Runner.Frame.{
  Of, ask-Keeps, asks, checks, configure_database-Keeps, seed-Keeps, fixture-Keeps, snapshot-Keeps,
  profile-Keeps,
}
use receipt_expense_review.Runner.Baseline.Step.{
  contains-append_iff, distinct-append, measured_ones, Step, measure_item-Step, save-Keeps,
}
use receipt_expense_review.Runner.Baseline.{
  Library, hooks, order, save, measure_item, dataset_of, profile_new, prepare_dataset,
  prepare_and_measure, run_dataset, restore, run_all, begin, begun, first_save, main,
}

-- No combination is measured twice so far, and `done` is what of `items` is measured.
pub record Ready (items done : List Combination) (e : Experiment) : Type 0 where
  pub once : distinct (measured_ones e) ≡ true
  pub known :
      (k : Combination)
      → contains items k ≡ true
      → contains (measured_ones e) k ≡ true
      → contains done k ≡ true
  pub kept : (k : Combination) → contains done k ≡ true → contains (measured_ones e) k ≡ true

-- From `e` to `e'`, all of `items` were measured, no combination twice, and none was lost.
pub record Finished (items : List Combination) (e e' : Experiment) : Type 0 where
  pub once : distinct (measured_ones e') ≡ true
  pub kept :
      (k : Combination) → contains (measured_ones e) k ≡ true → contains (measured_ones e') k ≡ true
  pub every : All (λ k. contains (measured_ones e') k ≡ true) items

apart :
    (item : Combination) (items : List Combination)
    → distinct (item ∷ items) ≡ true
    → (contains items item ≡ false) × (distinct items ≡ true)
apart item items h = ground arith

head_in : (item : Combination) (items : List Combination) → contains (item ∷ items) item ≡ true
head_in item items = ground (arith, combination_eq.beq_iff item item)

later :
    (item k : Combination) (items : List Combination)
    → contains items k ≡ true
    → contains (item ∷ items) k ≡ true
later item k items h = ground (arith, h)

false_not_true : (b : Bool) → b ≡ true → b ≡ false → ⊥
false_not_true b h n = cc

-- After a new run of `item`.
Ready-added :
    (item : Combination) (items done : List Combination) (e e1 : Experiment)
    → distinct (item ∷ items) ≡ true
    → contains done item ≡ false
    → measured_ones e1 ≡ measured_ones e ++ item ∷ []
    → Ready (item ∷ items) done e
    → Ready items done e1
Ready-added item items done e e1 d n added r = record {
  once = rw added (distinct-append (measured_ones e) item r.once absent);
  known = λ k h m. known k h (sym (ap (λ xs. contains xs k) added) ∙ m);
  kept = λ k h.
      rw added (rw (contains-append_iff (measured_ones e) item k) (ground (arith, r.kept k h)));
}
  where
    absent : contains (measured_ones e) item ≡ false
    absent = elim (Bool-cases (contains (measured_ones e) item)) [
      | inl h ↦ absurd (false_not_true _ (r.known item (head_in item items) h) n)
      | inr h ↦ h
    ]

    known :
        (k : Combination)
        → contains items k ≡ true
        → contains (measured_ones e ++ item ∷ []) k ≡ true
        → contains done k ≡ true
    known k h m = elim (Bool-cases (contains (measured_ones e) k)) [
      | inl old ↦ r.known k (later item k items h) old
      | inr new ↦
          let e2 : item == k ≡ true =
            ground (arith, contains-append_iff (measured_ones e) item k, m, new) in
          let e3 : item ≡ k = (combination_eq.beq_iff item k).0 e2 in
          absurd (
            false_not_true _ (subst (λ x. contains items x ≡ true) (sym e3) h)
              (apart item items d).0)
    ]

Finished-skip :
    (item : Combination) (items : List Combination) (e e' : Experiment)
    → contains (measured_ones e) item ≡ true
    → Finished items e e'
    → Finished (item ∷ items) e e'
Finished-skip item items e e' h f = record {
  once = f.once;
  kept = f.kept;
  every = (f.kept item h, f.every);
}

module _ (world : World Action Reply) (library : Library) where
  pub each-Finished :
      (database : String) (load : Load) (items done : List Combination)
      (s t : Machine Action Experiment) (u : Unit {0})
      → distinct items ≡ true
      → Ready items done s.memory
      → Returns (each items (measure_item world library database load done)) s u t
      → Finished items s.memory t.memory
  unfolding each
  each-Finished database load [] done s t u d r h =
      let e = pure_memory tt u s t h in
      subst (Finished [] s.memory) (sym e) (record { once = r.once; kept = λ k m. m; every = tt })
  each-Finished database load (item ∷ items) done s t u d r h =
      let (v, s1, h1, h2) = bind-Returns _ _ s t u h in
      let d2 = (apart item items d).1 in
      elim (measure_item-Step world library database load done item s s1 v h1) [
        | Step.skipped k e ↦
            let r1 : Ready items done s.memory = record {
              once = r.once;
              known = λ j i m. r.known j (later item j items i) m;
              kept = r.kept;
            } in
            let f =
              each-Finished database load items done s1 t u d2 (subst (Ready items done) (sym e) r1)
                h2 in
            Finished-skip item items s.memory t.memory (r.kept item k)
              (subst (λ x. Finished items x t.memory) e f)
        | Step.added n a ↦
            let r1 = Ready-added item items done s.memory s1.memory d n a r in
            let f = each-Finished database load items done s1 t u d2 r1 h2 in
            let grows : (k : Combination)
                → contains (measured_ones s.memory) k || (item == k) ≡ true
                → contains (measured_ones t.memory) k ≡ true =
              λ k m. f.kept k (ap (λ xs. contains xs k) a ∙ contains-append_iff _ item k ∙ m) in
            record {
              once = f.once;
              kept = λ k m. grows k (ground (arith, m));
              every = (grows item (ground (arith, combination_eq.beq_iff item item)), f.every);
            }
      ]

  -- The runs stay as they are until the first load of a data set.
  pub prepare_dataset-Keeps :
      (runs0 : List Combination) (old : Option Experiment) (database : String) (count : ℕ)
      → Keeps (Of λ e. measured_ones e ≡ runs0) (prepare_dataset world library old database count)
  unfolding prepare_dataset
  prepare_dataset-Keeps runs0 old database count =
      Keeps-bind _ _ (configure_database-Keeps world Q database) λ _.
        Keeps-bind _ _ (dataset_keeps old) λ _. asks world Q (Action.count_receipts _) _ λ _.
          checks world Q _ _ _ (
            asks world Q (Action.describe_dataset _) _ λ _.
              asks world Q (Action.make_directory _) _ λ _.
                asks world Q (Action.save_dataset _ _) _ λ _.
                  Keeps-bind _ _ (Keeps-modify _ λ s h. h)
                    λ _. Keeps-bind _ _ (save-Keeps world library Q) λ _. profile_keeps old)
    where
      Q : Experiment → Type 0
      Q e = measured_ones e ≡ runs0

      dataset_keeps :
          (old : Option Experiment) → Keeps (Of Q) (dataset_of world library database count old)
      dataset_keeps none = seed-Keeps world Q database
      dataset_keeps (some e) = Keeps-bind _ _ (Keeps-lift _) λ _. Keeps-pure _

      profile_keeps :
          (old : Option Experiment) → Keeps (Of Q) (profile_new world library database count old)
      profile_keeps none =
          profile-Keeps world Q (hooks world library) (fixture-Keeps world Q)
            (snapshot-Keeps world Q _) (λ x y. Keeps-lift _) _ _ database count
      profile_keeps (some e) = Keeps-pure _
