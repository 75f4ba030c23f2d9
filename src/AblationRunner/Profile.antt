-- ===== src/AblationRunner/Profile.antt =====
-- `fixture`, `profile` and the last loop of `run` in load/review-index-ablation.py: after the loads,
-- the statements of both variants on every data set are captured and explained.
pub mod Restored
use receipt_expense_review.Prelude.{
  ◌+str◌, decimal, ℕ, ◌*◌, String, Bool, true, false, not, ◌&&◌, Option, none, some, List, [], ◌∷◌,
  if◌then◌else◌, ◌==◌, nat_eq, string_eq, length, all, lookup, insert, or_raise,
}
use receipt_expense_review.Program.{
  World, pure, lift, gets, modify, ◌>>=◌, ◌>>◌, check, each, finally_do,
}
use receipt_expense_review.Sql.{Kind}
use receipt_expense_review.Sql.Delta.{optimized_delta}
use receipt_expense_review.Ablation.{Variant}
use receipt_expense_review.Runner.{Public, Page, Dataset, Environment, Error, Action, Reply}
use receipt_expense_review.Runner.Text.{case_name}
use receipt_expense_review.Runner.Setup.{ask, snapshot, fixture}
use receipt_expense_review.Runner.Measure.{Hooks}
use receipt_expense_review.Runner.Profile.{
  profiled_pages, hundred_times, sequential_requests, joined,
}
use receipt_expense_review.Runner.Baseline.{delta_result}
use receipt_expense_review.OptimizedRunner.Classify.{classify}
use receipt_expense_review.OptimizedRunner.Profile.{same_kinds, capture, kinds_of, explain_kinds}
use receipt_expense_review.OptimizedRunner.State.{fingerprint_of, environment}
use receipt_expense_review.OptimizedRunner.Improved.{same_machine}
use receipt_expense_review.OptimizedRunner.{Tools, same_fingerprint, same_public}
use receipt_expense_review.AblationRunner.{Memory, Script, tables, check_dataset, connect}

-- `KINDS`
abbrev pub variant_kinds : Variant → List Kind
variant_kinds Variant.index_only = Kind.employee ∷ Kind.list ∷ Kind.count ∷ Kind.jobs ∷ []
variant_kinds Variant.id_first =
    Kind.employee ∷ Kind.ids ∷ Kind.entities ∷ Kind.count ∷ Kind.jobs ∷ []

-- `expected`
abbrev pub receipt_kinds : Variant → List Kind
receipt_kinds Variant.index_only = Kind.list ∷ Kind.count ∷ []
receipt_kinds Variant.id_first = Kind.ids ∷ Kind.entities ∷ Kind.count ∷ []

abbrev pub variant_name : Variant → String
variant_name Variant.index_only = "index_only"
variant_name Variant.id_first = "id_first"

abbrev pub fixture_name : Variant → Page → String
fixture_name variant page =
    variant_name variant
    +str ("/"
        +str (decimal page.dataset
            +str ("/" +str (case_name page.scenario +str ("/" +str decimal page.page)))))

-- The assignments after the loop.
abbrev pub judge_profiles : Memory → Memory
judge_profiles s =
    let completed = length s.fixtures == 12 in
    record s {
      profile_completed = completed;
      checks =
          insert "all_response_fixtures_match" (completed && all (λ entry. entry.1.0) s.fixtures)
            s.checks;
    }

-- `ACTIVE` is the argument `variant`; `connect` has set it.
module _ (world : World Action Reply) (tools : Tools) where
  unfoldable pub variant_fixture : Variant → String → Page → Script (String × Public)
  variant_fixture variant directory page = do
    (session, public) ← fixture world directory page
    baseline ← ask world (Action.read_fixture page)
    if same_public public baseline
        then modify (λ s. record s {
          fixtures = insert (fixture_name variant page) (true, public) s.fixtures;
        })
          >> pure (session, public)
        else ask world (Action.unlink session)
          >> (check false Error.content_mismatch >> pure (session, public))

  -- `snapshot` and `delta` are those of load/review-optimized.py.
  abbrev pub hooks : Variant → Hooks Memory
  hooks variant = record {
    fixture = variant_fixture variant;
    snapshot = snapshot world (classify tools);
    delta =
        λ before after. lift (delta_result (optimized_delta (variant_kinds variant) before after));
  }

  unfoldable pub new_profile : Variant → String → ℕ → Page → Public → Script (Unit {0})
  new_profile variant database max_text page public = do
    marker ← ask world Action.last_timer
    before ← (hooks variant).snapshot database
    sequential_requests world (hooks variant) tools.lower_strip tools.size public
    after ← (hooks variant).snapshot database
    totals ← (hooks variant).delta before after
    ask world (Action.save_serial page totals)
    check (all hundred_times totals) Error.sequential_sql_counts
    raw ← ask world (Action.captured_statements database marker)
    captured ← lift (capture (receipt_kinds variant) (classify tools) tools.size max_text raw [])
    check (same_kinds (kinds_of captured) (receipt_kinds variant)) Error.statements_missing
    plans ← explain_kinds world tools (receipt_kinds variant) database captured
    ask world (Action.save_plans page (joined plans))

  -- What is on the disk decides.
  abbrev pub profile_saved :
      Option (List Kind) → Option ℕ → Variant → String → ℕ → Page → Public → Script (Unit {0})
  profile_saved (some kinds) (some plans) variant database max_text page public =
      check
        (same_kinds kinds (variant_kinds variant) && plans == 3 * length (receipt_kinds variant))
        Error.wrong_profile
  profile_saved none none variant database max_text page public =
      new_profile variant database max_text page public
  profile_saved _ _ variant database max_text page public = check false Error.partial_profile

  unfoldable pub profile_target : Variant → String → String → ℕ → Page → Script (Unit {0})
  profile_target variant database directory max_text page = do
    (session, public) ← (hooks variant).fixture directory page
    finally_do
        (do
          serial ← ask world (Action.saved_serial page)
          plans ← ask world (Action.saved_plans page)
          profile_saved serial plans variant database max_text page public)
        (ask world (Action.unlink session))

  -- The files of a page are in the directory that was made last.
  unfoldable pub profile : Variant → String → ℕ → String → Script (Unit {0})
  profile variant database count directory = do
    ask world (Action.make_directory directory)
    consumers ← ask world Action.read_consumers
    ask world Action.enable_consumers
    finally_do
        (do
          max_text ← ask world (Action.longest_text database)
          each profiled_pages λ target.
              profile_target variant database directory max_text
                (record { dataset = count; scenario = target.0; page = target.1 }))
        (each consumers λ consumer. ask world (Action.set_consumer consumer.0 consumer.1))

  unfoldable pub check_stop : Script (Unit {0})
  check_stop = do stop ← ask world Action.stop_file_exists; check (not stop) Error.requested_stop

  -- `save`
  unfoldable pub save : Script (Unit {0})
  save = do s ← gets (λ s. s); ask world (Action.save_checks s.checks s.completed)

-- Before the loads the machine and every data set are checked; after them come the profiles.
module _ (world : World Action Reply) (tools : Tools) (named : ℕ → String → Bool) where
  unfoldable pub check_unchanged :
      (String → Option String) → String × Dataset → ℕ → Script (Unit {0})
  check_unchanged recorded (name, dataset) count = do
    check_dataset world tools named (recorded name) dataset.database count
    found ← fingerprint_of world tools tables dataset.database
    first ← ask world (Action.read_fingerprint (name +str "/fingerprint-before"))
    check (same_fingerprint found first) Error.data_changed

  -- `int` of a name is an argument.
  unfoldable pub check_environment :
      Environment → (String → ℕ) → (String → Option String) → Script (Unit {0})
  check_environment first number recorded = do
    env ← environment world tools
    check (same_machine env first) Error.environment_refused
    s ← gets (λ s. s)
    each s.datasets λ entry. check_unchanged recorded entry (number entry.0)

  unfoldable pub profile_variant : (Variant → String) → ℕ → Variant → Script (Unit {0})
  profile_variant images count variant = do
    s ← gets (λ s. s)
    dataset ← lift (or_raise (lookup (decimal count) s.datasets) Error.key_error)
    check_stop world tools
    connect world tools named images dataset.database variant
    profile world tools variant dataset.database count
        (decimal count +str ("/" +str variant_name variant))
    save world tools

  -- Every data set with both variants, and then the verdict on the profiles.
  unfoldable pub profiles : (Variant → String) → Script (Unit {0})
  profiles images = do
    each (10000 ∷ 100000 ∷ [])
        λ count. each (Variant.index_only ∷ Variant.id_first ∷ []) (profile_variant images count)
    modify judge_profiles
