-- ===== src/AblationRunner/Profile/Restored.antt =====
-- The consumers of the statement history after `profile` of load/review-index-ablation.py.
use receipt_expense_review.Prelude.{ℕ, String, ◌≡◌, subst, some, List, ◌∷◌, nat_eq, string_eq}
use receipt_expense_review.Program.{Machine, World}
use receipt_expense_review.Program.Outcomes.{Returns, bind-Returns, finally-Returns}
use receipt_expense_review.Program.Calls.{called, call-Returns, each-called}
use receipt_expense_review.Ablation.{Variant}
use receipt_expense_review.Runner.{Error, Action, Reply}
use receipt_expense_review.Runner.Setup.{ask}
use receipt_expense_review.OptimizedRunner.{Tools}
use receipt_expense_review.AblationRunner.{Memory}
use receipt_expense_review.AblationRunner.Profile.{profile}

abbrev pub set_back : String × String → Action
set_back consumer = Action.set_consumer consumer.0 consumer.1

-- The consumers that were read after the calls of `first` are those of the last calls of `last`.
pub HasRestored : World Action Reply → String → List Action → List Action → Type 0
HasRestored world directory first last =
    (consumers : List (String × String)) × (world (Action.make_directory directory ∷ first)
        Action.read_consumers
      ≡ some consumers)
    × (before : List Action) × (last ≡ called set_back consumers before)

module _ (world : World Action Reply) (tools : Tools) where
  -- When profile of the index ablation returns, its last calls have set every consumer that was read
  -- at its start back to the value it had then, in the order they were read.
  pub profile-HasRestored :
      (variant : Variant) (database : String) (count : ℕ) (directory : String)
      (s t : Machine Action Memory) (u : Unit {0})
      → Returns (profile world tools variant database count directory) s u t
      → HasRestored world directory s.trace t.trace
  unfolding profile HasRestored
  profile-HasRestored variant database count directory s t u h =
      let (x, s1, h1, h2) = bind-Returns (ask world (Action.make_directory directory)) _ s t u h in
      let (consumers, s2, h3, h4) = bind-Returns (ask world Action.read_consumers) _ s1 t u h2 in
      let (y, s3, h5, h6) = bind-Returns (ask world Action.enable_consumers) _ s2 t u h4 in
      let (s4, v, _, h7) = finally-Returns _ _ s3 t u h6 in
      let made = (call-Returns world Error.outside (Action.make_directory directory) s s1 x h1).1 in
      let read = (call-Returns world Error.outside Action.read_consumers s1 s2 consumers h3).0 in
      (
        consumers,
        subst (λ l. world l Action.read_consumers ≡ some consumers) made read,
        s4.trace,
        each-called set_back (λ c. ask world (set_back c))
            (λ c a b w k. (call-Returns world Error.outside (set_back c) a b w k).1) consumers s4 t
            v h7,
      )
