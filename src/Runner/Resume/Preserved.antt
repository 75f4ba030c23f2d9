-- ===== src/Runner/Resume/Preserved.antt =====
-- What is resumed holds every recorded run and every saved result.
use receipt_expense_review.Prelude.{
  ℕ, String, ◌≡◌, refl, sym, ap, subst, inl, inr, true, ◌&&◌, List, [], ◌∷◌, ◌++◌, arith, Eq, ◌==◌,
  nat_eq, string_eq, Bool-cases, All, contains, distinct, Result, ok, require-eq-ok,
}
use receipt_expense_review.Reports.{combination_eq}
use receipt_expense_review.Optimized.{Row, row_eq, insert_by_start, sort_by_start}
use receipt_expense_review.Optimized.Keeps.{contains-sort, ids}
use receipt_expense_review.Runner.{Experiment, Error}
use receipt_expense_review.Runner.Resume.{Arguments, resumed, add_saved, combinations, same_load}

contains-append_left {ℓ} :
    {A : Type ℓ} ⦃e : Eq A⦄ (xs ys : List A) (a : A)
    → contains xs a ≡ true
    → contains (xs ++ ys) a ≡ true
contains-append_left [] ys a h = cc
contains-append_left (x ∷ xs) ys a h = ground (arith, contains-append_left xs ys a)

ids-append_left :
    (xs ys : List Row) (id : String)
    → contains (ids xs) id ≡ true
    → contains (ids (xs ++ ys)) id ≡ true
ids-append_left [] ys id h = cc
ids-append_left (x ∷ xs) ys id h = ground (arith, ids-append_left xs ys id)

ids-append_last : (xs : List Row) (row : Row) → contains (ids (xs ++ row ∷ [])) row.run_id ≡ true
ids-append_last [] row = ground (arith, string_eq.beq_iff row.run_id row.run_id)
ids-append_last (x ∷ xs) row = ground (arith, ids-append_last xs row)

add_saved-keeps :
    (files runs : List Row) (row : Row)
    → contains runs row ≡ true
    → contains (add_saved files runs) row ≡ true
unfolding add_saved
add_saved-keeps [] runs row h = h
add_saved-keeps (f ∷ files) runs row h = elim (Bool-cases (contains (ids runs) f.run_id)) [
  | inl known ↦ rw known (add_saved-keeps files runs row h)
  | inr new ↦
      rw new (add_saved-keeps files (runs ++ f ∷ []) row (contains-append_left runs _ row h))
]

add_saved-ids :
    (files runs : List Row) (id : String)
    → contains (ids runs) id ≡ true
    → contains (ids (add_saved files runs)) id ≡ true
unfolding add_saved
add_saved-ids [] runs id h = h
add_saved-ids (f ∷ files) runs id h = elim (Bool-cases (contains (ids runs) f.run_id)) [
  | inl known ↦ rw known (add_saved-ids files runs id h)
  | inr new ↦ rw new (add_saved-ids files (runs ++ f ∷ []) id (ids-append_left runs _ id h))
]

-- Every file has a run of its name.
abbrev pub AllNamed : List Row → List Row → Type 0
AllNamed runs files = All (λ f. contains (ids runs) f.run_id ≡ true) files

add_saved-files : (files runs : List Row) → AllNamed (add_saved files runs) files
unfolding add_saved
add_saved-files [] runs = tt
add_saved-files (f ∷ files) runs = elim (Bool-cases (contains (ids runs) f.run_id)) [
  | inl known ↦
      let e : add_saved (f ∷ files) runs ≡ add_saved files runs = rw known refl in
      subst (λ z. AllNamed z (f ∷ files)) (sym e)
        (add_saved-ids files runs f.run_id known, add_saved-files files runs)
  | inr new ↦
      let e : add_saved (f ∷ files) runs ≡ add_saved files (runs ++ f ∷ []) = rw new refl in
      subst (λ z. AllNamed z (f ∷ files)) (sym e)
        (
          add_saved-ids files (runs ++ f ∷ []) f.run_id (ids-append_last runs f),
          add_saved-files files (runs ++ f ∷ []),
        )
]

ids-insert :
    (x : Row) (xs : List Row) (id : String)
    → contains (ids (x ∷ xs)) id ≡ true
    → contains (ids (insert_by_start x xs)) id ≡ true
ids-insert x [] id h = h
ids-insert x (y ∷ ys) id h = ground (arith, ids-insert x ys id)

ids-sort :
    (xs : List Row) (id : String)
    → contains (ids xs) id ≡ true
    → contains (ids (sort_by_start xs)) id ≡ true
unfolding sort_by_start
ids-sort [] id h = h
ids-sort (x ∷ xs) id h = ground (arith, ids-insert x (sort_by_start xs) id, ids-sort xs id)

All-map : {P Q : Row → Type 0} (xs : List Row) → ((x : Row) → P x → Q x) → All P xs → All Q xs
All-map [] k h = tt
All-map (x ∷ xs) k h = (k x h.0, All-map xs k h.1)

pub resumed-cases :
    (args : Arguments) (original_count : ℕ) (old : Experiment) (files : List Row) (e : Experiment)
    → resumed args original_count old files ≡ ok e
    → (e.runs ≡ sort_by_start (add_saved files old.runs)) × (distinct (combinations e.runs) ≡ true)
unfolding resumed
resumed-cases args original_count old files e h =
    let runs = sort_by_start (add_saved files old.runs) in
    let (h1, h2) =
      require-eq-ok (same_load old.load args.load && old.repeats == args.repeats) _ _ h in
    let (h3, h4) = require-eq-ok (old.original_receipt_count == original_count) _ _ h2 in
    let (h5, h6) = require-eq-ok (distinct (combinations runs)) _ _ h4 in
    let r : sort_by_start (add_saved files old.runs) ≡ e.runs = runs_same _ _ h6 in
    (sym r, subst (λ x. distinct (combinations x) ≡ true) r h5)
  where
    runs_same : (x y : Experiment) → Path (Result Error Experiment) (ok x) (ok y) → x.runs ≡ y.runs
    runs_same x y h = ap (λ z. z.runs) (same h)
      where
        same : Path (Result Error Experiment) (ok x) (ok y) → x ≡ y
        same h = cc

-- When an experiment is resumed, every recorded run and a run of the name of every saved result is
-- among its runs, and no combination of data set, scenario and repeat is there twice.
pub resumed-preserves :
    (args : Arguments) (original_count : ℕ) (old : Experiment) (files : List Row) (e : Experiment)
    → resumed args original_count old files ≡ ok e
    → ((row : Row) → contains old.runs row ≡ true → contains e.runs row ≡ true)
      × AllNamed e.runs files
      × (distinct (combinations e.runs) ≡ true)
resumed-preserves args original_count old files e h =
    let (r, d) = resumed-cases args original_count old files e h in
    (
      λ row k. rw r (contains-sort row _ (add_saved-keeps files old.runs row k)),
      rw r (All-map files (λ f. ids-sort _ f.run_id) (add_saved-files files old.runs)),
      d,
    )
