-- ===== src/AblationRunner/Verified/Concluded.antt =====
-- `finish` of load/review-index-ablation.py's `restore`: the verdict on the noted checks.
use receipt_expense_review.Prelude.{
  ℕ, String, ◌≡◌, refl, sym, ap, ◌∙◌, subst, ◌≢◌, inl, inr, Bool, true, false, not, ◌&&◌, Option,
  some, [], ◌∷◌, arith, ◌==◌, nat_eq, string_eq, Bool-cases, length, Dict, lookup, insert,
  lookup-insert_self, lookup-insert_ne, both,
}
use receipt_expense_review.Program.{Machine, World, modify}
use receipt_expense_review.Program.Keeps.{Keeps, Keeps-bind, Keeps-lift, Keeps-pure}
use receipt_expense_review.Program.Outcomes.{
  Returns, bind-Returns, modify_memory, same_memory, gets-Returns, check_memory,
}
use receipt_expense_review.Runner.{Action, Reply}
use receipt_expense_review.Runner.Setup.{ask}
use receipt_expense_review.Runner.Frame.{Of, ask-Keeps, asks, checks}
use receipt_expense_review.OptimizedRunner.{Tools}
use receipt_expense_review.OptimizedRunner.State.{environment, app_state}
use receipt_expense_review.AblationRunner.{Memory, all_hold, is_full, judge, conclude, finish}

-- The verdict on an experiment: all checks hold, and it is completed exactly where every scheduled
-- load is recorded and the profiles are done.
pub record IsVerified (m : Memory) : Type 0 where
  pub checked : all_hold m.checks ≡ true
  pub some_check : not (length m.checks == 0) ≡ true
  pub verdict : m.completed ≡ is_full m && m.profile_completed

judge_verdict :
    (m : Memory)
    → not (length m.checks == 0) ≡ true
    → all_hold m.checks ≡ true
    → (judge m).completed ≡ is_full m && m.profile_completed
judge_verdict m h k = rw (h, k) (twice (is_full m) m.profile_completed)
  where
    twice : (a b : Bool) → a && (b && b) ≡ a && b
    twice true true = refl
    twice true false = refl
    twice false b = refl

insert_some :
    (name : String) (b : Bool) (d : Dict String Bool) → not (length (insert name b d) == 0) ≡ true
insert_some name b [] = refl
insert_some name b ((k, c) ∷ d) = ground arith

holds_lookup :
    (name : String) (b : Bool) (d : Dict String Bool)
    → all_hold d ≡ true
    → lookup name d ≡ some b
    → b ≡ true
holds_lookup name b [] h k = cc
holds_lookup name b ((n, c) ∷ d) h k =
    let (h1, h2) = both c (all_hold d) h in
    elim (Bool-cases (n == name)) [
      | inl e ↦ some_eq c (rw e at k) ∙ h1
      | inr e ↦ holds_lookup name b d h2 (rw e at k)
    ]
  where
    some_eq : (c : Bool) → Path (Option Bool) (some c) (some b) → b ≡ c
    some_eq c h = cc

module _ (world : World Action Reply) (tools : Tools) (named : ℕ → String → Bool) where
  environment_keeps : (Q : Memory → Type 0) → Keeps (Of Q) (environment world tools)
  unfolding environment app_state
  environment_keeps Q = asks world Q Action.docker_info _ λ _.
      Keeps-bind _ _
        (asks world Q Action.inspect_container _
          λ _. checks world Q _ _ _ (Keeps-bind _ _ (Keeps-lift _) λ _. Keeps-pure _))
        λ _. Keeps-pure _

  conclude-IsVerified :
      (s t : Machine Action Memory) (u : Unit {0})
      → not (length s.memory.checks == 0) ≡ true
      → Returns (conclude world tools named) s u t
      → IsVerified t.memory
        × (t.memory.checks ≡ s.memory.checks)
        × (t.memory.restored_original_database ≡ s.memory.restored_original_database)
  unfolding conclude
  conclude-IsVerified s t u some_check h =
      let (v, s1, h1, h2) = bind-Returns (modify judge) _ s t u h in
      let (state, s2, h3, h4) = bind-Returns (environment world tools) _ s1 t u h2 in
      let (x, s2', hx, h4') =
        bind-Returns (ask world (Action.save_environment "environment-end" state)) _ s2 t u h4 in
      let (m, s3, h5, h6) = bind-Returns _ _ s2' t u h4' in
      let (w, s4, h7, h8) =
        bind-Returns (ask world (Action.save_checks m.checks m.completed)) _ s3 t u h6 in
      let (holds, e4) = check_memory (all_hold m.checks) _ s4 t u h8 in
      let e1 : s1.memory ≡ judge s.memory = modify_memory judge s s1 v h1 in
      let e2 : s2.memory ≡ s1.memory =
        same_memory (environment world tools) s1 s2 state environment_keeps h3 in
      let ex : s2'.memory ≡ s2.memory =
        same_memory (ask world (Action.save_environment "environment-end" state)) s2 s2' x
          (λ Q. ask-Keeps world Q (Action.save_environment "environment-end" state)) hx in
      let (em, e3) = gets-Returns _ s2' s3 m h5 in
      let e5 : s4.memory ≡ s3.memory =
        same_memory (ask world (Action.save_checks m.checks m.completed)) s3 s4 w
          (λ Q. ask-Keeps world Q (Action.save_checks m.checks m.completed)) h7 in
      let final : t.memory ≡ judge s.memory = e4 ∙ e5 ∙ e3 ∙ ex ∙ e2 ∙ e1 in
      let all_checks : all_hold s.memory.checks ≡ true =
        subst (λ x. all_hold x.checks ≡ true) (em ∙ ex ∙ e2 ∙ e1) holds in
      (
        subst IsVerified (sym final) (record {
          checked = all_checks;
          some_check = some_check;
          verdict = judge_verdict s.memory some_check all_checks;
        }),
        ap (λ x. x.checks) final,
        ap (λ x. x.restored_original_database) final,
      )

  -- What is shown of the variables at the end.
  abbrev pub Restored : Memory → Type 0
  Restored m = IsVerified m × (m.restored_original_database ≡ true)

  -- What was to be noted last is true, and so is every other note.
  pub finish-lem :
      (restored : Bool) (s t : Machine Action Memory) (u : Unit {0})
      → Returns (finish world tools named restored) s u t
      → Restored t.memory
        × (restored ≡ true)
        × ((name : String) (b : Bool)
            → "original_app_restored" ≢ name
            → lookup name s.memory.checks ≡ some b
            → b ≡ true)
  unfolding finish
  finish-lem restored s t u h =
      let (v, s1, h1, h2) = bind-Returns _ _ s t u h in
      let e = modify_memory _ s s1 v h1 in
      let (verified, same, flag) =
        conclude-IsVerified s1 t u
          (subst (λ x. not (length x.checks == 0) ≡ true) (sym e)
            (insert_some "original_app_restored" restored s.memory.checks))
          h2 in
      let noted : t.memory.checks ≡ insert "original_app_restored" restored s.memory.checks =
        same ∙ ap (λ x. x.checks) e in
      let yes : restored ≡ true =
        holds_lookup "original_app_restored" restored t.memory.checks verified.checked (
          ap (lookup "original_app_restored") noted
          ∙ lookup-insert_self "original_app_restored" restored s.memory.checks) in
      (
        (verified, flag ∙ ap (λ x. x.restored_original_database) e ∙ yes),
        yes,
        λ name b other k. holds_lookup name b t.memory.checks verified.checked (
            ap (lookup name) noted
            ∙ lookup-insert_ne "original_app_restored" name restored s.memory.checks other
            ∙ k),
      )
