-- ===== src/Runner/Baseline/Step.antt =====
-- One step of the innermost loop of `main` of load/review-baseline.py: which runs it adds.
use receipt_expense_review.Prelude.{
  String, ◌≡◌, refl, ap, ◌∙◌, inl, inr, true, false, ◌||◌, List, [], ◌∷◌, ◌++◌, arith, ◌==◌, nat_eq,
  string_eq, Bool-cases, contains, distinct, or-false,
}
use receipt_expense_review.Program.{Machine, World}
use receipt_expense_review.Program.Keeps.{Keeps, Keeps-lift, Keeps-gets, Keeps-bind}
use receipt_expense_review.Program.Outcomes.{
  Returns, bind-Returns, modify_memory, pure_memory, same_memory,
}
use receipt_expense_review.Reports.{Combination, combination_eq}
use receipt_expense_review.Optimized.{Row}
use receipt_expense_review.Runner.{Load, Experiment, Action, Reply}
use receipt_expense_review.Runner.Measure.{measure}
use receipt_expense_review.Runner.Measure.Integrity.{measure-IsSound}
use receipt_expense_review.Runner.Resume.{combinations}
use receipt_expense_review.Runner.Frame.{
  Of, ask-Keeps, fixture-Keeps, snapshot-Keeps, measure-Keeps,
}
use receipt_expense_review.Runner.Baseline.{Library, hooks, row_of, save, measure_item}

-- The combinations that are measured.
abbrev pub measured_ones : Experiment → List Combination
measured_ones e = combinations e.runs

pub contains-append_iff :
    (xs : List Combination) (k j : Combination)
    → contains (xs ++ k ∷ []) j ≡ contains xs j || (k == j)
contains-append_iff [] k j = ground arith
contains-append_iff (x ∷ xs) k j = ground (arith, contains-append_iff xs k j)

pub distinct-append :
    (xs : List Combination) (k : Combination)
    → distinct xs ≡ true
    → contains xs k ≡ false
    → distinct (xs ++ k ∷ []) ≡ true
distinct-append [] k h n = refl
distinct-append (x ∷ xs) k h n =
    let (n1, n2) = or-false (x == k) (contains xs k) n in
    ground (
      arith,
      h,
      contains-append_iff xs k x,
      combination_eq.beq_iff x k,
      combination_eq.beq_iff k x,
      distinct-append xs k,
    )

pub map-append :
    (runs : List Row) (row : Row)
    → combinations (runs ++ row ∷ []) ≡ combinations runs ++ row.combination ∷ []
map-append [] row = refl
map-append (r ∷ runs) row = ap (◌∷◌ r.combination) (map-append runs row)

module _ (world : World Action Reply) (library : Library) where
  pub save-Keeps : (Q : Experiment → Type 0) → Keeps (Of Q) (save world library)
  unfolding save
  save-Keeps Q =
      Keeps-bind _ _ (Keeps-gets _) λ metadata. ask-Keeps world Q (Action.save_experiment metadata)

  measuring-Keeps :
      (Q : Experiment → Type 0) (database : String) (item : Combination) (load : Load)
      → Keeps (Of Q) (measure world (hooks world library) database item load)
  measuring-Keeps Q =
      measure-Keeps world Q (hooks world library) (fixture-Keeps world Q) (snapshot-Keeps world Q _)
        (λ x y. Keeps-lift _)

  -- One step of the innermost loop: nothing for a combination that is done, one run for another.
  pub data Step (done : List Combination) (item : Combination) (s t : Machine Action Experiment)
      : Type 0 where
    skipped : contains done item ≡ true → t.memory ≡ s.memory → Step done item s t
    added :
        contains done item ≡ false
        → measured_ones t.memory ≡ measured_ones s.memory ++ item ∷ []
        → Step done item s t

  pub measure_item-Step :
      (database : String) (load : Load) (done : List Combination) (item : Combination)
      (s t : Machine Action Experiment) (u : Unit {0})
      → Returns (measure_item world library database load done item) s u t
      → Step done item s t
  unfolding measure_item
  measure_item-Step database load done item s t u h = elim (Bool-cases (contains done item)) [
    | inl k ↦ Step.skipped k (pure_memory tt u s t (rw k at h))
    | inr k ↦
        let (m, s1, h1, h2) = bind-Returns _ _ s t u (rw k at h) in
        let (u', s2, h3, h4) = bind-Returns _ _ s1 t u h2 in
        let e1 : s1.memory ≡ s.memory =
          same_memory _ s s1 m (λ Q. measuring-Keeps Q database item load) h1 in
        let e2 = modify_memory _ s1 s2 u' h3 in
        let e3 : t.memory ≡ s2.memory = same_memory _ s2 t u save-Keeps h4 in
        let sound = measure-IsSound world (hooks world library) database item load s s1 m h1 in
        Step.added k (
          ap measured_ones (e3 ∙ e2)
          ∙ map-append s1.memory.runs (row_of library.encode m)
          ∙ ap (λ e. measured_ones e ++ m.combination ∷ []) e1
          ∙ ap (λ c. measured_ones s.memory ++ c ∷ []) sound.same_combination)
  ]
