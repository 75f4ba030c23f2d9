-- ===== src/AblationReport/Points/Defined.antt =====
-- The quotients of the points are defined for what `load_report` has checked.
use receipt_expense_review.Prelude.{
  ℕ, zero, suc, String, ◌≡◌, refl, ap, true, not, List, [], ◌∷◌, ◌==◌, nat_eq, string_eq, length,
  All, all-iff-All, Dict, Result, ok, ◌>>=◌, both,
}
use receipt_expense_review.Sql.{Counters}
use receipt_expense_review.Reports.Stats.{Ratio}
use receipt_expense_review.Reports.Validate.{seen}
use receipt_expense_review.AblationReport.{Entry, Error}
use receipt_expense_review.AblationReport.Load.{gather}
use receipt_expense_review.AblationReport.Load.Paired.{IsChecked}
use receipt_expense_review.AblationReport.Points.{
  Point, Copied, quotient, run_sql_fields, sql_points,
}

quotient_ok : (a b : ℕ) → not (b == 0) ≡ true → (r : Ratio) × (quotient a b ≡ ok r)
quotient_ok a zero h = cc
quotient_ok a (suc b) h = (record { numerator = a; denominator = suc b }, refl)

-- A step that succeeds, and a rest that does.
bind_ok :
    {A B : Type 0} (r : Result Error A) (f : A → Result Error B) (a : A)
    → r ≡ ok a
    → (b : B) × (f a ≡ ok b)
    → (b : B) × ((r >>= f) ≡ ok b)
bind_ok r f a h k = (k.0, rw h k.1)

fields_ok :
    (requests : ℕ) (q : Counters)
    → not (requests == 0) ≡ true
    → seen q ≡ true
    → (d : Dict String Ratio) × (run_sql_fields requests q ≡ ok d)
unfolding run_sql_fields
fields_ok requests q h s =
    let (count, _) = both _ _ s in
    let (a, ha) = quotient_ok q.timer q.count count in
    let (b, hb) = quotient_ok q.timer requests h in
    let (c, hc) = quotient_ok q.rows_examined q.count count in
    let (d, hd) = quotient_ok q.rows_sent q.count count in
    bind_ok (quotient q.timer q.count) _ a ha (
      bind_ok (quotient q.timer requests) _ b hb (
        bind_ok (quotient q.rows_examined q.count) _ c hc
          (bind_ok (quotient q.rows_sent q.count) _ d hd (_, refl))))

-- Where each part succeeds, all are gathered, one for each.
gather_ok :
    {A B : Type 0} (P : A → Type 0) (body : A → Result Error B)
    → ((a : A) → P a → (b : B) × (body a ≡ ok b))
    → (xs : List A) → All P xs
    → (bs : List B) × (gather body xs ≡ ok bs) × (length bs ≡ length xs)
gather_ok P body k [] h = ([], refl, refl)
gather_ok P body k (x ∷ xs) h =
    let (b, hb) = k x h.0 in
    let (bs, hr, n) = gather_ok P body k xs h.1 in (b ∷ bs, rw (hb, hr) refl, ap suc n)

-- The statements of a checked run with at least one request give one point each: no quotient of
-- theirs divides by zero.
pub sql_points-defined :
    (copied : Copied) (e : Entry)
    → IsChecked e
    → not (e.run.requests == 0) ≡ true
    → (points : List Point) × (sql_points copied e ≡ ok points) × (length points ≡ length e.run.sql)
unfolding sql_points
sql_points-defined copied e checked h =
    gather_ok (λ row. seen row.1 ≡ true) _
      (λ row s.
        let (d, hd) = fields_ok e.run.requests row.1 h s in
        bind_ok (run_sql_fields e.run.requests row.1) _ d hd (_, refl))
      e.run.sql (all-iff-All _ e.run.sql checked.statements)
