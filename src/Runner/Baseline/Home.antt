-- ===== src/Runner/Baseline/Home.antt =====
-- However `main` of load/review-baseline.py ends, the app is back on the original database.
use receipt_expense_review.Prelude.{
  ℕ, ◌≡◌, refl, ◌∙◌, Bool, true, false, Option, none, some, List, [], ◌∷◌, nat_eq, string_eq,
}
use receipt_expense_review.Program.{Machine, World, Program, ◌>>=◌, ◌>>◌, check}
use receipt_expense_review.Program.Keeps.{
  Keeps, Establishes, Keeps-pure, Keeps-lift, Keeps-gets, Keeps-if, Keeps-bind, Keeps-check,
  Keeps-call, Keeps-modify, Establishes-Keeps, Establishes-bind, Establishes-finally_do,
  Establishes-call,
}
use receipt_expense_review.Runner.{Experiment, Error, Action, Reply}
use receipt_expense_review.Runner.Setup.{ask}
use receipt_expense_review.Runner.Resume.{Arguments}
use receipt_expense_review.Runner.Baseline.{
  Library, save, restore, run_all, old_experiment, begun, begin, first_save, main,
}

-- The last command that started the app anew started it on the original database.
unfoldable pub at_home : List Action → Bool
at_home [] = true
at_home (Action.recreate_app ∷ trace) = true
at_home (Action.recreate_app_on database ∷ trace) = false
at_home (_ ∷ trace) = at_home trace

abbrev pub Home : {S : Type 0} → Machine Action S → Type 0
Home s = at_home s.trace ≡ true

module _ (world : World Action Reply) (library : Library) where
  -- A call that starts no app.
  stays :
      {B : Type 0} (a : Action) (f : Reply a → Program Action Experiment Error B)
      → ((trace : List Action) → at_home (a ∷ trace) ≡ at_home trace)
      → ((r : Reply a) → Keeps Home (f r))
      → Keeps Home (ask world a >>= f)
  stays a f e k =
      Keeps-bind (ask world a) f (Keeps-call world Error.outside a λ s h. e s.trace ∙ h) k

  checks :
      {B : Type 0} (c : Bool) (e : Error) (m : Program Action Experiment Error B)
      → Keeps Home m
      → Keeps Home (check c e >> m)
  checks c e m k = Keeps-bind (check c e) (λ _. m) (Keeps-check c e) λ _. k

  save-Home : Keeps Home (save world library)
  unfolding save at_home
  save-Home =
      Keeps-bind _ _ (Keeps-gets _)
        λ metadata. Keeps-call world _ (Action.save_experiment metadata) λ s h. h

  restore-Home : Establishes Home (restore world library)
  unfolding restore at_home
  restore-Home = Establishes-bind _ _ (Establishes-call world _ Action.recreate_app λ s. refl) λ _.
      stays Action.app_ready _ (λ t. refl)
        λ _.
          stays (Action.count_receipts _) _ (λ t. refl)
            λ _. Keeps-bind _ _ (Keeps-modify _ λ s h. h) λ _. save-Home

  old_experiment-Home : (named : Bool) → Keeps Home (old_experiment world library named)
  unfolding at_home
  old_experiment-Home true = stays Action.read_experiment _ (λ t. refl) λ _. Keeps-pure _
  old_experiment-Home false = Keeps-pure _

  begun-Home :
      (args : Arguments) (count : ℕ) (old : Option Experiment)
      → Keeps Home (begun world library args count old)
  unfolding at_home
  begun-Home args count none = Keeps-pure _
  begun-Home args count (some old) =
      Keeps-if _ _ _ (stays Action.saved_results _ (λ t. refl) λ _. Keeps-lift _) (Keeps-pure _)

  begin-Home : (args : Arguments) → Keeps Home (begin world library args)
  unfolding begin at_home
  begin-Home args = checks _ _ _ (
      stays (Action.make_experiment _) _ (λ t. refl)
        λ _.
          stays Action.note_experiment _ (λ t. refl)
            λ _.
              stays Action.read_users _ (λ t. refl)
                λ _.
                  stays (Action.count_receipts _) _ (λ t. refl)
                    λ count. Keeps-bind _ _ (old_experiment-Home args.experiment) λ old.
                      checks _ _ _ (
                        checks _ _ _ (
                          stays Action.describe_environment _ (λ t. refl)
                            λ _. Keeps-bind _ _ (begun-Home args count old) λ _. Keeps-pure _)))

  first_save-Home : (metadata : Experiment) → Keeps Home (first_save world library metadata)
  unfolding first_save at_home
  first_save-Home metadata =
      Keeps-bind _ _ (Keeps-modify _ λ s h. h)
        λ _. stays Action.describe_server _ (λ t. refl) λ _. save-Home

  -- Whether main returns or raises, and wherever it does, the last command that started the app
  -- anew started it on the original database, if that was so before.
  pub main-Home :
      (args : Arguments) (s : Machine Action Experiment)
      → at_home s.trace ≡ true
      → at_home (main world library args s).1.trace ≡ true
  unfolding main run_all
  main-Home args =
      (Keeps-bind _ _ (begin-Home args) λ begun_.
        Keeps-bind _ _ (first_save-Home begun_.1)
          λ _. Establishes-Keeps _ (Establishes-finally_do _ _ restore-Home)).after
