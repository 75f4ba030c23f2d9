-- ===== src/Runner/Measure/Integrity.antt =====
-- What a returned measurement is good for, and that its session is removed.
use receipt_expense_review.Prelude.{
  ℕ, ◌+◌, String, ◌≡◌, refl, sym, ◌∙◌, subst, true, some, List, [], ◌∷◌, arith, ◌==◌, nat_eq,
  string_eq, length, get_elem?, All, all-iff-All, Dict, both, nat-same,
}
use receipt_expense_review.Program.{Machine, World, ◌>>=◌, call, finally_do}
use receipt_expense_review.Program.Outcomes.{
  Returns, Yields, Yields-pure, Yields-bind, Yields-map, Yields-check, Yields-finally_do,
}
use receipt_expense_review.Evidence.{count_of}
use receipt_expense_review.Reports.{Combination}
use receipt_expense_review.Runner.{Load, Measurement, Action, Reply}
use receipt_expense_review.Runner.Measure.{
  Hooks, kept, response_integrity, total, usual_status, acceptable, measured, started, measure,
}

-- What is demanded of a result that is kept as a valid measurement of `combination`.
pub record IsSound (combination : Combination) (load : Load) (m : Measurement) : Type 0 where
  pub same_combination : m.combination ≡ combination
  pub same_load : m.load ≡ load
  pub every_request : total m.status_counts ≡ m.requests
  pub successes : count_of "200" m.status_counts + m.failures ≡ m.requests
  pub statuses : All (λ entry. usual_status entry ≡ true) m.status_counts
  pub monitored : m.errors ≡ []

integrity_lem :
    (statuses : Dict String ℕ) (requests failures : ℕ)
    → response_integrity statuses requests failures ≡ true
    → (total statuses ≡ requests)
      × (count_of "200" statuses + failures ≡ requests)
      × All (λ entry. usual_status entry ≡ true) statuses
unfolding response_integrity
integrity_lem statuses requests failures h =
    let (h1, h2) = both _ _ h in
    let (h3, h4) = both _ _ h2 in (nat-same _ _ h1, nat-same _ _ h3, all-iff-All _ _ h4)

no_message : (errors : List String) → length errors == 0 ≡ true → errors ≡ []
no_message [] h = refl
no_message (e ∷ errors) h = absurd (ground (arith, h))

module _ {S : Type 0} (world : World Action Reply) (hooks : Hooks S) where
  kept_acceptable :
      (m : Measurement) → Yields (λ r. (r ≡ m) × (acceptable m ≡ true)) (kept world hooks m)
  unfolding kept
  kept_acceptable m =
      Yields-bind _ _ λ _. Yields-bind _ _ λ _. Yields-check _ _ _ λ h. Yields-pure m (refl, h)

  accepted :
      (combination : Combination) (load : Load) (m r : Measurement)
      → (m.combination ≡ combination) × (m.load ≡ load)
      → m.checks.monitor ≡ (length m.errors == 0)
      → m.response_integrity_passed ≡ response_integrity m.status_counts m.requests m.failures
      → (r ≡ m) × (acceptable m ≡ true)
      → IsSound combination load r
  accepted combination load m r same monitor integrity (e, h) =
      let (h1, h2) = both _ _ h in
      let (h3, h4) = both _ _ h2 in
      let (h5, h6) = both _ _ h4 in
      let (i1, i2, i3) = integrity_lem _ _ _ (sym integrity ∙ h3) in
      subst (IsSound combination load) (sym e) (record {
        same_combination = same.0;
        same_load = same.1;
        every_request = i1;
        successes = i2;
        statuses = i3;
        monitored = no_message m.errors (sym monitor ∙ h5);
      })

  measured-IsSound :
      (session run_id database : String) (combination : Combination) (load : Load)
      → Yields
          (IsSound combination load)
          (measured world hooks session run_id database combination load)
  unfolding measured
  measured-IsSound session run_id database combination load = Yields-bind _ _ λ dropped.
      Yields-bind _ _ λ image. Yields-bind _ _ λ run. Yields-bind _ _ λ _.
        Yields-bind _ _ λ metrics. Yields-bind _ _ λ sql. Yields-bind _ _ λ lines.
          Yields-bind _ _ λ stored. Yields-bind _ _ λ errors. Yields-bind _ _ λ resources.
            Yields-check _ _ _ λ _.
              Yields-map _ (λ r h. accepted combination load _ r (refl, refl) refl refl h)
                (kept_acceptable _)

  pub measure-IsSound :
      (database : String) (combination : Combination) (load : Load) (s t : Machine Action S)
      (m : Measurement)
      → Returns (measure world hooks database combination load) s m t
      → IsSound combination load m
  unfolding measure
  measure-IsSound database combination load =
      (Yields-bind (started world hooks combination) _ λ name.
        Yields-finally_do _ _ (measured-IsSound name.1 name.0 database combination load)).value

  -- Once a session was made, the last call of measure removes its file, whatever else happens.
  pub measure-unlinks :
      (database : String) (combination : Combination) (load : Load) (s s' : Machine Action S)
      (run_id session : String)
      → Returns (started world hooks combination) s (run_id, session) s'
      → get_elem? (measure world hooks database combination load s).1.trace 0
        ≡ some (Action.unlink session)
  unfolding measure ◌>>=◌ finally_do call
  measure-unlinks database combination load s s' run_id session h = rw h refl
