-- ===== src/Reports/Validate/Offered.antt =====
-- What a validated experiment has measured.
use receipt_expense_review.Prelude.{
  ℕ, ◌+◌, ◌*◌, ◌≤◌, ◌≡◌, refl, sym, subst, Bool, true, List, [], ◌∷◌, arith, nat_eq, string_eq,
  length, All, Result, ok, err, ◌>>◌, require-eq-ok,
}
use receipt_expense_review.Reports.{Run, Meta, combination_eq, planned}
use receipt_expense_review.Reports.Groups.{total}
use receipt_expense_review.Reports.Plan.{occurs, combinations, twelve_runs, planned_runs}
use receipt_expense_review.Reports.Plan.Complete.{
  planned_runs-iff-twelve_runs, twelve_runs-once, twelve_runs-length,
}
use receipt_expense_review.Reports.Validate.{
  Requirement, Error, Folder, needs, validate_run, each_run, validate_runs, complete_run,
  validate_complete, value_error, arrivals_ok, is_recorded,
}

-- The arrivals of a run: those k6 sent and those it dropped.
abbrev pub slots : Run → ℕ
slots run = run.requests + run.dropped

needs-ok :
    {A : Type 0} (c : Bool) (r : Requirement) (m : Result Error A) {a : A}
    → (needs c r >> m) ≡ ok a
    → (c ≡ true) × (m ≡ ok a)
unfolding needs
needs-ok c r m h = require-eq-ok c (value_error r) m h

then-ok :
    {A : Type 0} (m : Result Error (Unit {0})) (n : Result Error A) {a : A}
    → (m >> n) ≡ ok a
    → (m ≡ ok tt) × (n ≡ ok a)
then-ok (ok tt) n h = (refl, h)
then-ok (err e) n h = cc

returned : {xs ys : List Run} → Path (Result Error (List Run)) (ok xs) (ok ys) → ys ≡ xs
returned h = cc

module _ (folder : Folder) where
  run-slots :
      (run : Run) → validate_run folder run ≡ ok tt → (1200 ≤ slots run) × (slots run ≤ 1201)
  unfolding validate_run
  run-slots run h =
      let a = then-ok (is_recorded folder run) _ h in
      let b = needs-ok _ _ _ a.1 in
      let c = needs-ok _ _ _ b.1 in
      let d = needs-ok _ _ _ c.1 in
      let e = needs-ok (arrivals_ok run) _ _ d.1 in ground (arith, e.0)

  total-slots :
      (runs : List Run)
      → each_run (validate_run folder) runs ≡ ok tt
      → (1200 * length runs ≤ total slots runs) × (total slots runs ≤ 1201 * length runs)
  unfolding each_run
  total-slots [] h = (omega arith, omega arith)
  total-slots (run ∷ runs) h =
      let step = then-ok (validate_run folder run) _ h in
      let one = run-slots run step.0 in
      let rest = total-slots runs step.1 in
      (omega (arith, one.0, rest.0), omega (arith, one.1, rest.1))

  -- An experiment that `validate_runs` passes has its runs returned as they are, each planned
  -- combination of data set, scenario and repeat exactly once among them, and between 14,400 and
  -- 14,412 arrivals over all of them.
  pub validate_runs-offered :
      (meta : Meta) (runs : List Run)
      → validate_runs folder meta ≡ ok runs
      → (runs ≡ meta.runs)
        × All (λ k. occurs (combinations runs) k ≡ 1) planned
        × (14400 ≤ total slots runs)
        × (total slots runs ≤ 14412)
  unfolding validate_runs
  validate_runs-offered meta runs h =
      let a = needs-ok _ _ _ h in
      let b = needs-ok _ _ _ a.1 in
      let c = needs-ok _ _ _ b.1 in
      let d = needs-ok _ _ _ c.1 in
      let e = needs-ok (planned_runs meta.runs) _ _ d.1 in
      let f = needs-ok _ _ _ e.1 in
      let g = then-ok (each_run (validate_run folder) meta.runs) _ f.1 in
      let same : runs ≡ meta.runs = returned g.1 in
      let twelve = (planned_runs-iff-twelve_runs meta.runs).0 e.0 in
      let bounds = total-slots meta.runs g.0 in
      let n : length meta.runs ≡ 12 = twelve_runs-length meta.runs twelve in
      (
        same,
        rw same (twelve_runs-once meta.runs twelve),
        rw same (omega (arith, n, bounds.0)),
        rw same (omega (arith, n, bounds.1)),
      )

  -- What `validate_complete` returns is the planned twelve runs.
  pub validate_complete-plan :
      (meta : Meta) (runs : List Run)
      → validate_complete folder meta ≡ ok runs
      → twelve_runs runs ≡ true
  unfolding validate_complete
  validate_complete-plan meta runs h =
      let a = needs-ok _ _ _ h in
      let b = needs-ok (twelve_runs meta.runs) _ _ a.1 in
      let c = needs-ok _ _ _ b.1 in
      let d = needs-ok _ _ _ c.1 in
      let e = needs-ok _ _ _ d.1 in
      let f = needs-ok _ _ _ e.1 in
      let g = needs-ok _ _ _ f.1 in
      let last = then-ok (each_run (complete_run folder) meta.runs) _ g.1 in
      subst (λ rs. twelve_runs rs ≡ true) (sym (returned last.1)) b.0
