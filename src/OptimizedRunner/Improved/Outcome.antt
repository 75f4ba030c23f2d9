-- ===== src/OptimizedRunner/Improved/Outcome.antt =====
-- What holds when `optimized` of load/review-optimized.py returns.
use receipt_expense_review.Prelude.{
  Result-cases, String, ◌≡◌, refl, sym, ap, ◌∙◌, subst, inl, inr, Bool, true, false, List, arith,
  nat_eq, string_eq, distinct, Dict, Result, ok, err,
}
use receipt_expense_review.Program.{Machine, World, lift, modify, ◌>>◌, each}
use receipt_expense_review.Program.Keeps.{
  Keeps, Keeps-pure, Keeps-lift, Keeps-gets, Keeps-if, Keeps-bind, Keeps-check, Keeps-modify,
  Keeps-gather,
}
use receipt_expense_review.Program.Outcomes.{
  Returns, bind-Returns, finally-Returns, modify_memory, same_memory, gets-Returns, check_memory,
  Leaves, Leaves-bind, Yields-lift,
}
use receipt_expense_review.Reports.{Combination, combination_eq, datasets}
use receipt_expense_review.Optimized.{Row, collect_runs}
use receipt_expense_review.Optimized.Keeps.{collect_runs-combinations}
use receipt_expense_review.Optimized as Optimized
use receipt_expense_review.Runner.{
  Measurement, Experiment, AppState, Fingerprint, Error, Action, Reply,
}
use receipt_expense_review.Runner.Setup.{ask}
use receipt_expense_review.Runner.Resume.{combinations}
use receipt_expense_review.Runner.Frame.{Of, ask-Keeps, asks, checks}
use receipt_expense_review.OptimizedRunner.Controls.{collected}
use receipt_expense_review.OptimizedRunner.State.{
  restore, data_restored, note_restored, fingerprint, fingerprint_table, app_state, original,
  app_tag,
}
use receipt_expense_review.OptimizedRunner.{Memory, Tools, persist}
use receipt_expense_review.OptimizedRunner.Improved.Home.{IsRestored, restore-IsRestored}
use receipt_expense_review.OptimizedRunner.Improved.{
  Options, run_count, run_counts, clean_up, recollect_runs, optimized, judge,
}

-- Whether the experiment, and its profiles, are completed.
abbrev pub flags : Memory → Bool × Bool
flags m = (m.metadata.completed, m.metadata.profile_completed)

-- What restore leaves alone.
abbrev Same : List Combination → Bool × Bool → Memory → Type 0
Same ks done m = (combinations m.metadata.runs ≡ ks) × (flags m ≡ done)

module _ (world : World Action Reply) (tools : Tools) where
  persist-Keeps : (Q : Memory → Type 0) → Keeps (Of Q) (persist world)
  unfolding persist
  persist-Keeps Q =
      Keeps-bind _ _ (Keeps-gets _) λ s. ask-Keeps world Q (Action.save_comparison _ _)

  note_restored_memory :
      (restored : Bool)
      → Leaves
          (λ m. m.metadata.restored_original_database ≡ true)
          (note_restored world tools restored)
  unfolding note_restored
  note_restored_memory restored = record {
    memory = λ s t u h.
        let (v, s1, h1, h2) = bind-Returns _ _ s t u h in
        let (w, s2, h3, h4) = bind-Returns (persist world) _ s1 t u h2 in
        let (b, e) = check_memory restored _ s2 t u h4 in
        let e2 = same_memory (persist world) s1 s2 w persist-Keeps h3 in
        ap (λ m. m.metadata.restored_original_database) (e ∙ e2 ∙ modify_memory _ s s1 v h1) ∙ b;
  }

  restore_memory :
      (image : String)
      → Leaves (λ m. m.metadata.restored_original_database ≡ true) (restore world tools image)
  unfolding restore
  restore_memory image = Leaves-bind _ _ λ _. Leaves-bind _ _ λ _. Leaves-bind _ _ λ _.
      Leaves-bind _ _ λ _. Leaves-bind _ _ λ _. Leaves-bind _ _ λ _.
        Leaves-bind _ _
          λ _. Leaves-bind _ _ λ _. Leaves-bind _ _ λ restored. note_restored_memory restored

  restore-Keeps :
      (ks : List Combination) (done : Bool × Bool) (image : String)
      → Keeps (Of (Same ks done)) (restore world tools image)
  unfolding restore note_restored fingerprint_table app_state
  restore-Keeps ks done image = asks world Q (Action.tag_image _ _) _ λ _.
      asks world Q Action.recreate_app _ λ _. asks world Q Action.app_ready _ λ _.
        Keeps-bind _ _ app_state_keeps λ state. Keeps-bind _ _ fingerprint_keeps λ actual.
          asks world Q (Action.save_fingerprint _ _) _ λ _. Keeps-bind _ _ (Keeps-lift _) λ _.
            Keeps-bind _ _ (Keeps-modify _ λ s h. h) λ _.
              Keeps-bind _ _ (data_keeps state actual) λ restored.
                Keeps-bind _ _ (Keeps-modify _ λ s h. h)
                  λ _. Keeps-bind _ _ (persist-Keeps Q) λ _. Keeps-check _ _
    where
      Q : Memory → Type 0
      Q = Same ks done

      app_state_keeps : Keeps (Of Q) (app_state world tools)
      app_state_keeps =
          asks world Q Action.inspect_container _
            λ _. checks world Q _ _ _ (Keeps-bind _ _ (Keeps-lift _) λ _. Keeps-pure _)

      fingerprint_keeps : Keeps (Of Q) (fingerprint world tools original)
      fingerprint_keeps = Keeps-gather _ _ λ table.
          asks world Q (Action.table_columns _ _) _
            λ _. asks world Q (Action.row_hashes _ _) _ λ _. checks world Q _ _ _ (Keeps-pure _)

      data_keeps :
          (state : AppState) (actual : Dict String Fingerprint)
          → Keeps (Of Q) (data_restored world tools state image actual)
      data_keeps state actual =
          Keeps-if _ _ _ (asks world Q (Action.read_fingerprint _) _ λ _. Keeps-pure _)
            (Keeps-pure _)

-- What a completed experiment has been: not a run for the profiles only, and with all six fixtures.
abbrev pub Judged : Options → Bool × Bool → Type 0
Judged options (completed, profiled) =
    completed ≡ true → (options.profile_only ≡ false) × (profiled ≡ true)

collect_runs-distinct :
    (files existing rows : List Row)
    → collected (collect_runs files existing) ≡ ok rows
    → distinct (combinations rows) ≡ true
collect_runs-distinct files existing rows h = elim (Result-cases (collect_runs files existing)) [
  | inl (found, e) ↦
      let same : found ≡ rows = unique found (subst (λ r. collected r ≡ ok rows) e h) in
      subst (λ xs. distinct (combinations xs) ≡ true) same
        (collect_runs-combinations files existing found e)
  | inr (error, e) ↦ absurd (failed error (subst (λ r. collected r ≡ ok rows) e h))
]
  where
    unique : (found : List Row) → Path (Result Error (List Row)) (ok found) (ok rows) → found ≡ rows
    unique found h = cc

    failed :
        (e : Optimized.Error)
        → Path (Result Error (List Row)) (err (Error.collect_failed e)) (ok rows)
        → ⊥
    failed e h = cc

module _ (world : World Action Reply) (tools : Tools) (encode : Measurement → String)
    (options : Options) where
  recollect_memory :
      (s t : Machine Action Memory) (u : Unit {0})
      → Returns (recollect_runs world tools encode options) s u t
      → (distinct (combinations t.memory.metadata.runs) ≡ true) × (flags t.memory ≡ flags s.memory)
  unfolding recollect_runs
  recollect_memory s t u h =
      let (files, s1, h1, h2) = bind-Returns _ _ s t u h in
      let (m, s2, h3, h4) = bind-Returns _ _ s1 t u h2 in
      let (rows, s3, h5, h6) = bind-Returns _ _ s2 t u h4 in
      let found = collected (collect_runs files m.metadata.runs) in
      let e1 : s1.memory ≡ s.memory =
        same_memory (ask world Action.saved_results) s s1 files
          (λ Q. ask-Keeps world Q Action.saved_results) h1 in
      let e2 = (gets-Returns _ s1 s2 m h3).1 in
      let e3 : s3.memory ≡ s2.memory =
        same_memory (lift found) s2 s3 rows (λ Q. Keeps-lift found) h5 in
      let e4 = modify_memory _ s3 t u h6 in
      let d =
        (Yields-lift found (λ a k. collect_runs-distinct files m.metadata.runs a k)).value s2 s3
          rows h5 in
      (
        subst (λ x. distinct (combinations x.metadata.runs) ≡ true) (sym e4) d,
        ap (flags) e4 ∙ ap (flags) (e3 ∙ e2 ∙ e1),
      )

  judge-Judged : (m : Memory) → Judged options (flags (judge world tools encode options m))
  judge-Judged m h = ground (arith, h)

  -- What is shown of the variables at the end.
  abbrev pub Ended : Memory → Type 0
  Ended m =
      (m.metadata.restored_original_database ≡ true)
      × (distinct (combinations m.metadata.runs) ≡ true)
      × Judged options (m.metadata.completed, m.metadata.profile_completed)

  body_memory :
      (baseline : Experiment) (after_image : String)
      → Leaves
          (λ m. Judged options (flags m))
          (ask world (Action.tag_image after_image app_tag)
            >> (each datasets (run_count world tools encode options baseline after_image)
                >> modify (judge world tools encode options)))
  body_memory baseline after_image = Leaves-bind _ _ λ _. Leaves-bind _ _ λ _. record {
    memory = λ s t u h.
        subst (λ m. Judged options (flags m)) (sym (modify_memory _ s t u h))
          (judge-Judged s.memory);
  }

  -- When the finally block of optimized returns, the app was started anew with the image to restore;
  -- what was read of it directly afterwards shows that image and the original database, whose
  -- fingerprint is the one recorded before the experiment. This is noted, no combination of data
  -- set, scenario and repeat has two results, and whether the experiment and its profiles are
  -- completed is as before.
  pub clean_up-Restored :
      (restore_image : String) (s t : Machine Action Memory) (u : Unit {0})
      → Returns (clean_up world tools encode options restore_image) s u t
      → (t.memory.metadata.restored_original_database ≡ true)
        × (distinct (combinations t.memory.metadata.runs) ≡ true)
        × (flags t.memory ≡ flags s.memory)
        × (before : List Action) × IsRestored world tools restore_image before
  unfolding clean_up
  clean_up-Restored restore_image s t u h =
      let (s1, v, h1, h2) =
        finally-Returns (recollect_runs world tools encode options)
          (restore world tools restore_image) s t u h in
      let (d, f) = recollect_memory s s1 u h1 in
      let r = (restore_memory world tools restore_image).memory s1 t v h2 in
      let (k1, k2) =
        after_restore s1 t v (combinations s1.memory.metadata.runs) (flags s1.memory) h2
          (refl, refl) in
      (r, rw k1 d, k2 ∙ f, s1.trace, restore-IsRestored world tools restore_image s1 t v h2)
    where
      after_restore :
          (x y : Machine Action Memory) (c : Unit {0}) (ks : List Combination) (done : Bool × Bool)
          → Returns (restore world tools restore_image) x c y
          → Same ks done x.memory
          → Same ks done y.memory
      after_restore x y c ks done h k =
          subst (λ z. Same ks done z.memory) (ap (λ p. p.1) h)
            ((restore-Keeps world tools ks done restore_image).after x k)

  run_counts_memory :
      (baseline : Experiment) (after_image restore_image : String)
      → Leaves Ended (run_counts world tools encode options baseline after_image restore_image)
  unfolding run_counts
  run_counts_memory baseline after_image restore_image = record {
    memory = λ s t u h.
        let (s1, v, h1, h2) = finally-Returns _ _ s t u h in
        let judged = (body_memory baseline after_image).memory s s1 u h1 in
        let (r, d, f, _, _) = clean_up-Restored restore_image s1 t v h2 in
        (r, d, subst (Judged options) (sym f) judged);
  }

  pub optimized-Restored :
      (baseline : Experiment) (s t : Machine Action Memory) (u : Unit {0})
      → Returns (optimized world tools encode options baseline) s u t
      → Ended t.memory
  unfolding optimized
  optimized-Restored baseline =
      (Leaves-bind _ _
        λ _. Leaves-bind _ _ λ _. Leaves-bind _ _ λ _. run_counts_memory baseline _ _).memory
