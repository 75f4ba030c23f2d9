-- ===== src/Sql/Assess/Tolerance.antt =====
-- What the tolerance of `assess_sql` lets through.
use receipt_expense_review.Prelude.{
  ℕ, zero, suc, ◌+◌, ◌≤◌, ◌≡◌, refl, ap, subst, ◌≢◌, Bool, true, false, ◌&&◌, Option, none, some,
  [], ◌∷◌, arith, nat_eq, string_eq, Dict, lookup, Result, ok, or_raise, >>=-eq-ok,
}
use receipt_expense_review.Prelude.Int.{ℤ, ◌+ℤ◌, pos_part}
use receipt_expense_review.Sql.{Kind, kind_eq, Totals}
use receipt_expense_review.Sql.Assess.{
  Phase, Assessment, Error, allowed, assess_kind, expected_employee, assess_loop, assess_sql,
  sql_within_tolerance, key_error, before, after,
}

near :
    (value : ℕ) (observed : ℤ)
    → (assess_kind value observed).within_tolerance ≡ true
    → (value ≤ pos_part observed + allowed value) × (pos_part observed ≤ value + allowed value)
unfolding assess_kind ◌+ℤ◌
near zero observed h = ground arith
near (suc value) observed h = ground arith

-- The employee's count, which stands first, is near the expected one.
employee-near :
    (sql : Dict Kind Totals) (count : ℕ) (phase : Phase) (a : Dict Kind Assessment)
    → assess_sql sql count phase ≡ ok a
    → sql_within_tolerance a ≡ true
    → (totals : Totals) × (lookup Kind.employee sql ≡ some totals)
      × (expected_employee phase count
          ≤ pos_part totals.count + allowed (expected_employee phase count))
      × (pos_part totals.count
          ≤ expected_employee phase count + allowed (expected_employee phase count))
unfolding assess_sql assess_loop
employee-near sql count phase a h within =
    let value = expected_employee phase count in
    let found = >>=-eq-ok (or_raise (lookup Kind.employee sql) (key_error Kind.employee)) _ h in
    let rest =
      >>=-eq-ok (assess_loop sql ((Kind.receipt, count) ∷ (Kind.job, count) ∷ [])) _ found.2 in
    let bounds =
      near value found.0.count
        (first _ _ (subst (λ d. sql_within_tolerance d ≡ true) (same rest.2) within)) in
    (found.0, present _ _ found.1, bounds.0, bounds.1)
  where
    first : (a b : Bool) → a && b ≡ true → a ≡ true
    first true b h = refl
    first false b h = cc

    same :
        {x y : Dict Kind Assessment}
        → Path (Result Error (Dict Kind Assessment)) (ok x) (ok y)
        → y ≡ x
    same h = cc

    present : (o : Option Totals) (e : Error) {t : Totals} → or_raise o e ≡ ok t → o ≡ some t
    present none e h = cc
    present (some t) e h = cc

-- From three requests on, no counts are within the tolerance of both phases: what passes as
-- evidence before the improvement cannot pass as evidence after it.
pub phases-apart :
    (sql : Dict Kind Totals) (count : ℕ) (a b : Dict Kind Assessment)
    → 3 ≤ count
    → assess_sql sql count before ≡ ok a
    → sql_within_tolerance a ≡ true
    → assess_sql sql count after ≡ ok b
    → sql_within_tolerance b ≢ true
phases-apart sql count a b n h within k = λ again.
    let x = employee-near sql count before a h within in
    let y = employee-near sql count after b k again in
    let t : x.0 ≡ y.0 = one x.1 y.1 in omega (arith, n, x.2, y.3, ap (λ t. pos_part t.count) t)
  where
    one : {x y : Totals} {o : Option Totals} → o ≡ some x → o ≡ some y → x ≡ y
    one e f = cc
