-- ===== src/Runner/Baseline/Complete/Main.antt =====
-- `main` of load/review-baseline.py as a whole.
use receipt_expense_review.Prelude.{
  ℕ, zero, suc, ◌≡◌, refl, sym, ap, ◌∙◌, subst, true, false, ◌&&◌, Option, none, some, List, arith,
  leb, nat_eq, string_eq, All, distinct,
}
use receipt_expense_review.Program.{Machine, World}
use receipt_expense_review.Program.Keeps.{Keeps, Keeps-bind, Keeps-modify}
use receipt_expense_review.Program.Outcomes.{
  Returns, bind-Returns, finally-Returns, Yields, Yields-pure, Yields-bind, Yields-bind_use,
  Yields-check, Yields-if, modify_memory, same_memory, Yields-lift,
}
use receipt_expense_review.Reports.{Combination, combination_eq, combination_beq, datasets}
use receipt_expense_review.Runner.{Experiment, Action, Reply}
use receipt_expense_review.Runner.Resume.{Arguments, in_bounds}
use receipt_expense_review.Runner.Resume.Preserved.{resumed-cases}
use receipt_expense_review.Runner.Frame.{Of, asks}
use receipt_expense_review.Runner.Baseline.Step.{measured_ones, save-Keeps}
use receipt_expense_review.Runner.Baseline.Complete.Loops.{AllMeasured, each_dataset-AllMeasured}
use receipt_expense_review.Runner.Baseline.{
  Library, order, restore, run_all, begin, begun, first_save, main,
}

orders-distinct :
    (repeats : ℕ)
    → leb 1 repeats && leb repeats 3 ≡ true
    → All (λ count. distinct (order count repeats) ≡ true) datasets
unfolding combination_beq
orders-distinct zero h = cc
orders-distinct (suc zero) h = (refl, (refl, tt))
orders-distinct (suc (suc zero)) h = (refl, (refl, tt))
orders-distinct (suc (suc (suc zero))) h = (refl, (refl, tt))
orders-distinct (suc (suc (suc (suc n)))) h = absurd (ground (arith, h))

-- What is known of the record that an experiment starts with.
record Begins (args : Arguments) (metadata : Experiment) : Type 0 where
  bounds : leb 1 args.repeats && leb args.repeats 3 ≡ true
  once : distinct (measured_ones metadata) ≡ true

module _ (world : World Action Reply) (library : Library) (args : Arguments) where
  begun_once :
      (count : ℕ) (old : Option Experiment)
      → Yields (λ e. distinct (measured_ones e) ≡ true) (begun world library args count old)
  begun_once count none = Yields-pure _ refl
  begun_once count (some e) =
      Yields-if args.resume _ _
        (λ _.
          Yields-bind _ _ λ files. Yields-lift _ λ a h. (resumed-cases args count e files a h).1)
        (λ _. Yields-pure _ refl)

  bounds_of : in_bounds args ≡ true → leb 1 args.repeats && leb args.repeats 3 ≡ true
  bounds_of h = ground (arith, h)

  begin-Begins : Yields (λ p. Begins args p.1) (begin world library args)
  unfolding begin
  begin-Begins = Yields-check _ _ _ λ bounds. Yields-bind _ _ λ _. Yields-bind _ _ λ _.
      Yields-bind _ _ λ _. Yields-bind _ _ λ count. Yields-bind _ _ λ old. Yields-check _ _ _ λ _.
        Yields-check _ _ _ λ _. Yields-bind _ _ λ _.
          Yields-bind_use _ _ (begun_once count old)
            λ metadata once. Yields-pure _ (record { bounds = bounds_of bounds; once = once })

  restore_keeps :
      (ks : List Combination)
      → Keeps (Of λ e. (measured_ones e ≡ ks) × (e.completed ≡ true)) (restore world library)
  unfolding restore
  restore_keeps ks = asks world Q Action.recreate_app _ λ _. asks world Q Action.app_ready _ λ _.
      asks world Q (Action.count_receipts _) _
        λ _. Keeps-bind _ _ (Keeps-modify _ λ s h. h) λ _. save-Keeps world library Q
    where
      Q : Experiment → Type 0
      Q e = (measured_ones e ≡ ks) × (e.completed ≡ true)

  first_save_memory :
      (metadata : Experiment) (s t : Machine Action Experiment) (u : Unit {0})
      → Returns (first_save world library metadata) s u t
      → t.memory ≡ metadata
  unfolding first_save
  first_save_memory metadata s t u h =
      let (v, s1, h1, h2) = bind-Returns _ _ s t u h in
      same_memory _ s1 t u
        (λ Q. asks world Q Action.describe_server _ λ _. save-Keeps world library Q) h2
      ∙ modify_memory _ s s1 v h1

  module _ (loads : args.profile_only ≡ false) where
    run_all-AllMeasured :
        (old : Option Experiment) (s t : Machine Action Experiment) (u : Unit {0})
        → Begins args s.memory
        → Returns (run_all world library args old) s u t
        → (t.memory.completed ≡ true) × AllMeasured datasets args.repeats t.memory
    unfolding run_all
    run_all-AllMeasured old s t u b h =
        let (s1, v, h1, h2) = finally-Returns _ _ s t u h in
        let (w, s2, h3, h4) = bind-Returns _ _ s s1 u h1 in
        let (a, grows) =
          each_dataset-AllMeasured world library args old loads datasets s s2 w
            (orders-distinct args.repeats b.bounds) b.once h3 in
        let e = modify_memory _ s2 s1 u h4 in
        let before : (measured_ones s1.memory ≡ measured_ones s2.memory)
            × (s1.memory.completed ≡ true) =
          (ap measured_ones e, ap (λ x. x.completed) e) in
        let (k1, k2) = kept s1 t v (measured_ones s2.memory) h2 before in
        (k2, record { once = rw k1 a.once; every = rw k1 a.every })
      where
        kept :
            (x y : Machine Action Experiment) (c : Unit {0}) (ks : List Combination)
            → Returns (restore world library) x c y
            → (measured_ones x.memory ≡ ks) × (x.memory.completed ≡ true)
            → (measured_ones y.memory ≡ ks) × (y.memory.completed ≡ true)
        kept x y c ks h k =
            subst (λ z. (measured_ones z.memory ≡ ks) × (z.memory.completed ≡ true))
              (ap (λ p. p.1) h) ((restore_keeps ks).after x k)

    -- When main returns and was not asked for the profiles only, the experiment is marked as
    -- completed, every repeat of both cases on both data sets is among its runs, and no
    -- combination is there twice, whatever runs a resumed experiment brought along.
    pub main-AllMeasured :
        (s t : Machine Action Experiment) (u : Unit {0})
        → Returns (main world library args) s u t
        → (t.memory.completed ≡ true) × AllMeasured datasets args.repeats t.memory
    unfolding main
    main-AllMeasured s t u h =
        let (p, s1, h1, h2) = bind-Returns _ _ s t u h in
        let (v, s2, h3, h4) = bind-Returns _ _ s1 t u h2 in
        let b = begin-Begins.value s s1 p h1 in
        let e : s2.memory ≡ p.1 = first_save_memory p.1 s1 s2 v h3 in
        run_all-AllMeasured p.0 s2 t u (subst (Begins args) (sym e) b) h4
