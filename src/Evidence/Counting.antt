-- ===== src/Evidence/Counting.antt =====
-- What the loop over the points leaves in the dictionary of statuses.
use receipt_expense_review.Prelude.{
  ℕ, suc, ◌+◌, String, ◌≡◌, refl, ap, inl, inr, true, false, List, [], ◌∷◌, arith, if◌then◌else◌,
  ◌==◌, nat_eq, string_eq, Bool-cases, Dict, insert, lookup-insert_self, lookup-insert_ne,
}
use receipt_expense_review.Evidence.{Point, Tally, or_zero, count_of, add_point, tally, sum_values}

-- How many responses had this status.
pub occurrences : String → List Point → ℕ
occurrences status [] = 0
occurrences status (Point.duration s ∷ points) =
    let rest = occurrences status points in if s == status then suc rest else rest
occurrences status (_ ∷ points) = occurrences status points

-- How many responses there were.
pub durations : List Point → ℕ
durations [] = 0
durations (Point.duration s ∷ points) = suc (durations points)
durations (_ ∷ points) = durations points

sum-insert :
    (status : String) (n : ℕ) (statuses : Dict String ℕ)
    → sum_values (insert status n statuses) + count_of status statuses ≡ sum_values statuses + n
unfolding sum_values
sum-insert status n [] = omega arith
sum-insert status n ((s, m) ∷ statuses) = ground (arith, sum-insert status n statuses)

sum-suc :
    (status : String) (statuses : Dict String ℕ)
    → sum_values (insert status (suc (count_of status statuses)) statuses)
      ≡ suc (sum_values statuses)
sum-suc status statuses = omega (arith, sum-insert status (suc (count_of status statuses)) statuses)

pub sum-tally :
    (points : List Point) (t : Tally)
    → sum_values (tally points t).statuses ≡ sum_values t.statuses + durations points
unfolding tally durations
sum-tally [] t = omega arith
sum-tally (Point.duration s ∷ points) t =
    omega (arith, sum-tally points (add_point (Point.duration s) t), sum-suc s t.statuses)
sum-tally (Point.check true ∷ points) t = sum-tally points (add_point (Point.check true) t)
sum-tally (Point.check false ∷ points) t = sum-tally points (add_point (Point.check false) t)
sum-tally (Point.review_ms ∷ points) t = sum-tally points (add_point Point.review_ms t)
sum-tally (Point.review_failures n ∷ points) t =
    sum-tally points (add_point (Point.review_failures n) t)
sum-tally (Point.review_requests n ∷ points) t =
    sum-tally points (add_point (Point.review_requests n) t)
sum-tally (Point.other ∷ points) t = sum-tally points t

count-insert :
    (status s : String) (statuses : Dict String ℕ)
    → count_of status (insert s (suc (count_of s statuses)) statuses)
      ≡ (if s == status then suc (count_of status statuses) else count_of status statuses)
count-insert status s statuses = elim (Bool-cases (s == status)) [
  | inl same ↦
      let e : s ≡ status = (string_eq.beq_iff s status).0 same in
      rw (same, e)
        (ap or_zero (lookup-insert_self status (suc (count_of status statuses)) statuses))
  | inr differ ↦
      rw
        (
          differ,
          lookup-insert_ne s status (suc (count_of s statuses)) statuses
              (λ e. cc ((string_eq.beq_iff s status).1 e, differ)),
        )
        refl
]

pub count-tally :
    (status : String) (points : List Point) (t : Tally)
    → count_of status (tally points t).statuses
      ≡ count_of status t.statuses + occurrences status points
unfolding tally occurrences
count-tally status [] t = omega arith
count-tally status (Point.duration s ∷ points) t = ground (
  arith,
  count-tally status points (add_point (Point.duration s) t),
  count-insert status s t.statuses,
)
count-tally status (Point.check true ∷ points) t =
    count-tally status points (add_point (Point.check true) t)
count-tally status (Point.check false ∷ points) t =
    count-tally status points (add_point (Point.check false) t)
count-tally status (Point.review_ms ∷ points) t =
    count-tally status points (add_point Point.review_ms t)
count-tally status (Point.review_failures n ∷ points) t =
    count-tally status points (add_point (Point.review_failures n) t)
count-tally status (Point.review_requests n ∷ points) t =
    count-tally status points (add_point (Point.review_requests n) t)
count-tally status (Point.other ∷ points) t = count-tally status points t
