-- ===== src/AblationRunner/Verified/Unchanged.antt =====
-- The comparisons that `restore` of load/review-index-ablation.py makes and notes.
use receipt_expense_review.Prelude.{
  ◌+str◌, ℕ, String, ◌≡◌, sym, ap, ◌∙◌, subst, ◌≢◌, Bool, true, false, some, List, [], ◌∷◌, map,
  arith, nat_eq, string_eq, All, contains, distinct, Dict, lookup, insert, lookup-insert_self,
  lookup-insert_ne,
}
use receipt_expense_review.Program.{Machine, World, each}
use receipt_expense_review.Program.Keeps.{Keeps, Keeps-bind, Keeps-gather, Keeps-pure}
use receipt_expense_review.Program.Outcomes.{Returns, bind-Returns, modify_memory, same_memory}
use receipt_expense_review.Program.Calls.{call-Returns, pure-Returns}
use receipt_expense_review.Runner.{Dataset, Error, Action, Reply}
use receipt_expense_review.Runner.Setup.{ask}
use receipt_expense_review.Runner.Frame.{Of, asks, checks}
use receipt_expense_review.OptimizedRunner.{Tools, same_fingerprint}
use receipt_expense_review.OptimizedRunner.State.{fingerprint_of, fingerprint_table}
use receipt_expense_review.OptimizedRunner.Found.{IsUnchanged, same_fingerprint-eq}
use receipt_expense_review.AblationRunner.{Memory, tables, compare_again, compare_dataset}

pub absent_cons :
    (x k : String) (xs : List String)
    → contains (x ∷ xs) k ≡ false
    → (x ≢ k) × (contains xs k ≡ false)
absent_cons x k xs n = (λ e. ground (arith, (string_eq.beq_iff x k).1 e, n), ground (arith, n))

pub distinct-cons :
    (x : String) (xs : List String)
    → distinct (x ∷ xs) ≡ true
    → (contains xs x ≡ false) × (distinct xs ≡ true)
distinct-cons x xs h = (ground (arith, h), ground (arith, h))

-- The name under which a data set's comparison is noted.
abbrev pub note_name : String × Dataset → String
note_name (count, dataset) = count +str "_data_unchanged"

module _ (world : World Action Reply) (tools : Tools) (named : ℕ → String → Bool) where
  -- A data set's fingerprint is the recorded one.
  abbrev pub DatasetUnchanged : String × Dataset → Machine Action Memory → Type 0
  DatasetUnchanged (count, dataset) start =
      IsUnchanged world tools tables dataset.database (count +str "/fingerprint-after")
        (count +str "/fingerprint-before") start

  fingerprint_keeps :
      (database : String) (Q : Memory → Type 0)
      → Keeps (Of Q) (fingerprint_of world tools tables database)
  unfolding fingerprint_table
  fingerprint_keeps database Q = Keeps-gather _ _ λ table.
      asks world Q (Action.table_columns _ _) _
        λ _. asks world Q (Action.row_hashes _ _) _ λ _. checks world Q _ _ _ (Keeps-pure _)

  compare_again_keeps :
      (database saved recorded : String) (Q : Memory → Type 0)
      → Keeps (Of Q) (compare_again world tools named database saved recorded)
  unfolding compare_again
  compare_again_keeps database saved recorded Q = Keeps-bind _ _ (fingerprint_keeps database Q) λ _.
      asks world Q (Action.save_fingerprint _ _) _
        λ _. asks world Q (Action.read_fingerprint _) _ λ _. Keeps-pure _

  compare_again-IsUnchanged :
      (database saved recorded : String) (s t : Machine Action Memory) (b : Bool)
      → b ≡ true
      → Returns (compare_again world tools named database saved recorded) s b t
      → IsUnchanged world tools tables database saved recorded s
  unfolding compare_again
  compare_again-IsUnchanged database saved recorded s t b holds h =
      let (found, s1, h1, k1) =
        bind-Returns (fingerprint_of world tools tables database) _ s t b h in
      let (v, s2, h2, k2) =
        bind-Returns (ask world (Action.save_fingerprint saved found)) _ s1 t b k1 in
      let (first, s3, h3, k3) =
        bind-Returns (ask world (Action.read_fingerprint recorded)) _ s2 t b k2 in
      let (e, _) = pure-Returns (same_fingerprint found first) b s3 t k3 in
      let e2 =
        (call-Returns world Error.outside (Action.save_fingerprint saved found) s1 s2 v h2).1 in
      let read =
        (call-Returns world Error.outside (Action.read_fingerprint recorded) s2 s3 first h3).0 in
      record {
        found = found;
        after = s1;
        taken = h1;
        same =
            subst (λ l. world l (Action.read_fingerprint recorded) ≡ some found) e2
              (read ∙ ap some (sym (same_fingerprint-eq found first (e ∙ holds))));
      }

  -- What is compared is not changed, and `true` is returned for equal fingerprints only.
  pub compare_again-lem :
      (database saved recorded : String) (s t : Machine Action Memory) (b : Bool)
      → Returns (compare_again world tools named database saved recorded) s b t
      → (t.memory ≡ s.memory)
        × (b ≡ true → IsUnchanged world tools tables database saved recorded s)
  compare_again-lem database saved recorded s t b h = (
    same_memory (compare_again world tools named database saved recorded) s t b
        (compare_again_keeps database saved recorded) h,
    λ holds. compare_again-IsUnchanged database saved recorded s t b holds h,
  )

  compare_dataset-lem :
      (d : String × Dataset) (s t : Machine Action Memory) (u : Unit {0})
      → Returns (compare_dataset world tools named d) s u t
      → (b : Bool) × (t.memory.checks ≡ insert (note_name d) b s.memory.checks)
        × (b ≡ true → DatasetUnchanged d s)
  unfolding compare_dataset
  compare_dataset-lem (count, dataset) s t u h =
      let (b, s1, h1, k1) =
        bind-Returns
          (compare_again world tools named dataset.database (count +str "/fingerprint-after")
            (count +str "/fingerprint-before"))
          _ s t u h in
      let (same, unchanged) = compare_again-lem _ _ _ s s1 b h1 in
      (
        b,
        ap (λ m. m.checks) (modify_memory _ s1 t u k1)
            ∙ ap (λ m. insert (count +str "_data_unchanged") b m.checks) same,
        unchanged,
      )

  -- What the loop leaves under the name of a data set.
  abbrev pub Compared : Dict String Bool → String × Dataset → Type 0
  Compared checks d =
      (b : Bool) × (lookup (note_name d) checks ≡ some b)
      × (b ≡ true → (start : Machine Action Memory) × DatasetUnchanged d start)

  pub datasets-Compared :
      (ds : List (String × Dataset)) (s t : Machine Action Memory) (u : Unit {0})
      → distinct (map note_name ds) ≡ true
      → Returns (each ds (compare_dataset world tools named)) s u t
      → ((k : String)
          → contains (map note_name ds) k ≡ false
          → lookup k t.memory.checks ≡ lookup k s.memory.checks)
        × All (Compared t.memory.checks) ds
  unfolding each
  datasets-Compared [] s t u d h =
      let (_, e) = pure-Returns tt u s t h in (λ k n. ap (λ m. lookup k m.memory.checks) e, tt)
  datasets-Compared (x ∷ ds) s t u d h =
      let (v, s1, h1, h2) = bind-Returns (compare_dataset world tools named x) _ s t u h in
      let (b, e, unchanged) = compare_dataset-lem x s s1 v h1 in
      let (fresh, rest_distinct) = distinct-cons (note_name x) (map note_name ds) d in
      let (keeps, rest) = datasets-Compared ds s1 t u rest_distinct h2 in
      (
        λ k n.
            let (other, absent) = not_here k n in
            keeps k absent
            ∙ ap (lookup k) e
            ∙ lookup-insert_ne (note_name x) k b s.memory.checks other,
        (
          (
            b,
            keeps (note_name x) fresh
                ∙ ap (lookup (note_name x)) e
                ∙ lookup-insert_self (note_name x) b s.memory.checks,
            λ holds. (s, unchanged holds),
          ),
          rest,
        ),
      )
    where
      not_here :
          (k : String)
          → contains (map note_name (x ∷ ds)) k ≡ false
          → (note_name x ≢ k) × (contains (map note_name ds) k ≡ false)
      not_here k n = absent_cons (note_name x) k (map note_name ds) n
