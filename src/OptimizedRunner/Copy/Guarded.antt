-- ===== src/OptimizedRunner/Copy/Guarded.antt =====
-- What `copy_dataset` has asked and done when it returns.
use receipt_expense_review.Prelude.{
  ℕ, String, ◌≡◌, refl, sym, ap, ◌∙◌, subst, ◌⊎◌, inl, inr, true, false, some, List, [], ◌∷◌, map,
  arith, nat_eq, string_eq, Bool-cases, All,
}
use receipt_expense_review.Program.{Machine, World, Program, pure, ◌>>=◌, ◌>>◌, check, gather}
use receipt_expense_review.Program.Outcomes.{Returns, bind-Returns, check_memory}
use receipt_expense_review.Program.Calls.{call-Returns, pure-Returns, check_trace}
use receipt_expense_review.Runner.{Error, Action, Reply}
use receipt_expense_review.Runner.Setup.{ask}
use receipt_expense_review.OptimizedRunner.{Memory, same_list, same_text}
use receipt_expense_review.OptimizedRunner.Found.{same_text-eq}
use receipt_expense_review.OptimizedRunner.Copy.{
  Counts, tables, any_rows, is_full_copy, table_counts, insert_tables, copy_counted, copy_dataset,
}

-- What the database answered to the three counts that come first.
pub record HasCounts (world : World Action Reply) (target : String) (employees receipts jobs : ℕ)
    (before : List Action) : Type 0 where
  pub first : world before (Action.count_rows "employees" target) ≡ some employees
  pub second :
      world (Action.count_rows "employees" target ∷ before) (Action.count_rows "receipts" target)
      ≡ some receipts
  pub third :
      world
        (Action.count_rows "receipts" target ∷ Action.count_rows "employees" target ∷ before)
        (Action.count_rows "receipt_extraction_jobs" target)
      ≡ some jobs

-- The calls of the three counts.
abbrev pub counted : String → List Action → List Action
counted target before =
    Action.count_rows "receipt_extraction_jobs" target
    ∷ Action.count_rows "receipts" target
    ∷ Action.count_rows "employees" target
    ∷ before

-- Source and target gave a table the same columns.
pub HasColumns : World Action Reply → String → String → String × List String → Type 0
HasColumns world source target (table, names) =
    (l r : List Action) × (world l (Action.table_columns table source) ≡ some names)
    × (world r (Action.table_columns table target) ≡ some names)

-- The target was complete and was left alone, or it was empty and the last call copied the three
-- tables, with the columns that they have on both sides.
pub IsGuarded : World Action Reply → String → String → ℕ → List Action → List Action → Type 0
IsGuarded world source target count before after =
    (HasCounts world target 101 count count before × (after ≡ counted target before))
    ⊎ (HasCounts world target 0 0 0 before
        × (columns : List (String × List String)) × (l : List Action) × (after
            ≡ Action.copy_tables source target columns ∷ l)
        × (map (λ c. c.0) columns ≡ "employees" ∷ "receipts" ∷ "receipt_extraction_jobs" ∷ [])
        × All (HasColumns world source target) columns)

module _ {S : Type 0} {A B : Type 0} (body : A → Program Action S Error B) where
  gather-All :
      (P : B → Type 0) (name : B → A)
      → ((x : A) (s t : Machine Action S) (b : B) → Returns (body x) s b t → (name b ≡ x) × P b)
      → (xs : List A) (s t : Machine Action S) (bs : List B) → Returns (gather xs body) s bs t
      → (map name bs ≡ xs) × All (P) bs
  unfolding gather
  gather-All P name one [] s t bs h =
      let (e, _) = pure-Returns [] bs s t h in
      subst (λ bs. (map name bs ≡ []) × All (P) bs) e (refl, tt)
  gather-All P name one (x ∷ xs) s t bs h =
      let (b, s1, h1, h2) = bind-Returns (body x) _ s t bs h in
      let (rest, s2, h3, h4) = bind-Returns (gather xs body) _ s1 t bs h2 in
      let (e, _) = pure-Returns (b ∷ rest) bs s2 t h4 in
      let (n, r) = one x s s1 b h1 in
      let (ns, rs) = gather-All P name one xs s1 s2 rest h3 in
      subst (λ bs. (map name bs ≡ x ∷ xs) × All (P) bs) e (cc (n, ns), (r, rs))

module _ (world : World Action Reply) where
  table_counts-HasCounts :
      (target : String) (s t : Machine Action Memory) (c : Counts)
      → Returns (table_counts world target) s c t
      → HasCounts world target c.employees c.receipts c.receipt_extraction_jobs s.trace
        × (t.trace ≡ counted target s.trace)
  unfolding table_counts
  table_counts-HasCounts target s t c h =
      let (employees, s1, h1, k1) =
        bind-Returns (ask world (Action.count_rows "employees" target)) _ s t c h in
      let (receipts, s2, h2, k2) =
        bind-Returns (ask world (Action.count_rows "receipts" target)) _ s1 t c k1 in
      let (jobs, s3, h3, k3) =
        bind-Returns (ask world (Action.count_rows "receipt_extraction_jobs" target)) _ s2 t c k2 in
      let (a1, e1) =
        call-Returns world Error.outside (Action.count_rows "employees" target) s s1 employees h1 in
      let (a2, e2) =
        call-Returns world Error.outside (Action.count_rows "receipts" target) s1 s2 receipts h2 in
      let (a3, e3) =
        call-Returns world Error.outside (Action.count_rows "receipt_extraction_jobs" target) s2 s3
          jobs h3 in
      let (e, e4) = pure-Returns _ c s3 t k3 in
      let second = e2 ∙ ap (λ l. Action.count_rows "receipts" target ∷ l) e1 in
      let third = e3 ∙ ap (λ l. Action.count_rows "receipt_extraction_jobs" target ∷ l) second in
      (
        subst (λ c. HasCounts world target c.employees c.receipts c.receipt_extraction_jobs s.trace)
            e
            (record {
              first = a1;
              second =
                  subst (λ l. world l (Action.count_rows "receipts" target) ≡ some receipts) e1 a2;
              third =
                  subst
                    (λ l. world l (Action.count_rows "receipt_extraction_jobs" target) ≡ some jobs)
                    second a3;
            }),
        ap (λ x. x.trace) e4 ∙ third,
      )

  columns_of :
      (source target table : String) (s t : Machine Action Memory) (c : String × List String)
      → Returns
          (do
            names ← ask world (Action.table_columns table source)
            others ← ask world (Action.table_columns table target)
            check (same_list same_text names others) Error.columns_differ
            pure (table, names))
          s
          c
          t
      → (c.0 ≡ table) × HasColumns world source target c
  unfolding HasColumns
  columns_of source target table s t c h =
      let (names, s1, h1, k1) =
        bind-Returns (ask world (Action.table_columns table source)) _ s t c h in
      let (others, s2, h2, k2) =
        bind-Returns (ask world (Action.table_columns table target)) _ s1 t c k1 in
      let (v, s3, h3, k3) =
        bind-Returns (check (same_list same_text names others) Error.columns_differ) _ s2 t c k2 in
      let (same, _) = check_memory (same_list same_text names others) _ s2 s3 v h3 in
      let (e, _) = pure-Returns (table, names) c s3 t k3 in
      let a1 =
        (call-Returns world Error.outside (Action.table_columns table source) s s1 names h1).0 in
      let a2 =
        (call-Returns world Error.outside (Action.table_columns table target) s1 s2 others h2).0 in
      subst (λ c. (c.0 ≡ table) × HasColumns world source target c) e
        (refl, (s.trace, s1.trace, a1, a2 ∙ ap some (sym (same_text-eq names others same))))

  insert_tables-lem :
      (source target : String) (s t : Machine Action Memory) (u : Unit {0})
      → Returns (insert_tables world source target) s u t
      → (columns : List (String × List String)) × (l : List Action) × (t.trace
          ≡ Action.copy_tables source target columns ∷ l)
        × (map (λ c. c.0) columns ≡ tables)
        × All (HasColumns world source target) columns
  unfolding insert_tables
  insert_tables-lem source target s t u h =
      let (columns, s1, h1, k1) = bind-Returns (gather tables _) _ s t u h in
      let (names, columns_same) =
        gather-All _ (HasColumns world source target) (λ c. c.0) (columns_of source target) tables s
          s1 columns h1 in
      (
        columns,
        s1.trace,
        (call-Returns world Error.outside (Action.copy_tables source target columns) s1 t u k1).1,
        names,
        columns_same,
      )

  any_rows-none :
      (c : Counts)
      → any_rows c ≡ false
      → (c ≡ record { employees = 0; receipts = 0; receipt_extraction_jobs = 0 })
  any_rows-none c h =
      let a : c.employees ≡ 0 = ground (arith, h) in
      let b : c.receipts ≡ 0 = ground (arith, h) in
      let d : c.receipt_extraction_jobs ≡ 0 = ground (arith, h) in
      λ i. record { employees = a i; receipts = b i; receipt_extraction_jobs = d i }

  full_copy :
      (count : ℕ) (c : Counts)
      → is_full_copy count c ≡ true
      → (c ≡ record { employees = 101; receipts = count; receipt_extraction_jobs = count })
  full_copy count c h =
      let a : c.employees ≡ 101 = ground (arith, h) in
      let b : c.receipts ≡ count = ground (arith, h) in
      let d : c.receipt_extraction_jobs ≡ count = ground (arith, h) in
      λ i. record { employees = a i; receipts = b i; receipt_extraction_jobs = d i }

  copy_counted-IsGuarded :
      (source target : String) (count : ℕ) (c : Counts) (before : List Action)
      (s t : Machine Action Memory) (u : Unit {0})
      → HasCounts world target c.employees c.receipts c.receipt_extraction_jobs before
      → s.trace ≡ counted target before
      → Returns (copy_counted world source target count c) s u t
      → IsGuarded world source target count before t.trace
  unfolding IsGuarded
  copy_counted-IsGuarded source target count c before s t u counts e h =
      elim (Bool-cases (any_rows c)) [
        | inl rows ↦
            let (full, same) =
              check_trace (is_full_copy count c) Error.incomplete_copy s t u (rw rows at h) in
            inl (
              subst
                  (λ c.
                    HasCounts world target c.employees c.receipts c.receipt_extraction_jobs before)
                  (full_copy count c full) counts,
              same ∙ e,
            )
        | inr none_there ↦
            let (columns, l, last, names, same_columns) =
              insert_tables-lem source target s t u (rw none_there at h) in
            inr (
              subst
                  (λ c.
                    HasCounts world target c.employees c.receipts c.receipt_extraction_jobs before)
                  (any_rows-none c none_there) counts,
              columns,
              l,
              last,
              names,
              same_columns,
            )
      ]

  -- When copy_dataset returns, the target held 101 employees and the asked number of receipts and of
  -- jobs, and the three counts are all that was done; or it held no row of the three tables, and
  -- the last call copied exactly these, with columns that source and target both have.
  pub copy_dataset-IsGuarded :
      (source target : String) (count : ℕ) (s t : Machine Action Memory) (u : Unit {0})
      → Returns (copy_dataset world source target count) s u t
      → IsGuarded world source target count s.trace t.trace
  unfolding copy_dataset
  copy_dataset-IsGuarded source target count s t u h =
      let (c, s1, h1, h2) = bind-Returns (table_counts world target) _ s t u h in
      let (counts, e) = table_counts-HasCounts target s s1 c h1 in
      copy_counted-IsGuarded source target count c s.trace s1 t u counts e h2
