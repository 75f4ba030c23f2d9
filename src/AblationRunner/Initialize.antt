-- ===== src/AblationRunner/Initialize.antt =====
-- `initialize` of load/review-index-ablation.py: the finished experiments it stands on are checked,
-- and what is compared at the end is written down.
use receipt_expense_review.Prelude.{
  ◌+str◌, decimal, ℕ, String, Bool, true, false, none, some, [], ◌∷◌, ◌==◌, nat_eq, string_eq, Dict,
  lookup, insert, Result, ok, err, or_raise,
}
use receipt_expense_review.Program.{World, lift, gets, modify, ◌>>=◌, ◌>>◌, check, each}
use receipt_expense_review.Ablation.{Variant}
use receipt_expense_review.Ablation.Schedule.{schedule}
use receipt_expense_review.Runner.{Dataset, Experiment, Fingerprint, Error, Action, Reply}
use receipt_expense_review.Runner.Text.{occurs_in}
use receipt_expense_review.Runner.Setup.{ask}
use receipt_expense_review.OptimizedRunner.Controls.{check_baseline, script}
use receipt_expense_review.OptimizedRunner.State.{fingerprint_of, environment}
use receipt_expense_review.OptimizedRunner.{Tools, same_fingerprint}
use receipt_expense_review.AblationRunner.{Memory, Script, tables, note, check_dataset}

-- What is read of the `experiment.json` of --source-experiment.
pub record Source : Type 0 where
  pub completed : Bool
  pub datasets : Dict String Dataset

abbrev add_found :
    String
    → Result Error Fingerprint
    → Result Error (Dict String Fingerprint)
    → Result Error (Dict String Fingerprint)
add_found name (ok found) (ok rest) = ok ((name, found) ∷ rest)
add_found name (ok found) (err e) = err e
add_found name (err e) rest = err e

-- `{name: actual[name] for name in previous}`
unfoldable pub selected :
    Dict String Fingerprint → Dict String Fingerprint → Result Error (Dict String Fingerprint)
selected actual [] = ok []
selected actual ((name, old) ∷ previous) =
    add_found name (or_raise (lookup name actual) Error.key_error) (selected actual previous)

-- The new `metadata`; `PROOF` is as the script starts.
unfoldable pub new_memory : String → Memory
new_memory image = record {
  original_image_id = image;
  active = none;
  datasets = [];
  runs = [];
  schedule = schedule (10000 ∷ 100000 ∷ []);
  profile_completed = false;
  completed = false;
  restored_original_database = false;
  fixtures = [];
  checks = [];
  passed = false;
}

-- `with_indexes` adds the field `indexes` to the other fields of a data set.
module _ (world : World Action Reply) (tools : Tools) (named : ℕ → String → Bool)
    (with_indexes : String → String → String) where
  unfoldable pub initialize_dataset : Source → ℕ → Script (Unit {0})
  initialize_dataset source count = do
    dataset ← lift (or_raise (lookup (decimal count) source.datasets) Error.key_error)
    check_dataset world tools named (some dataset.database) dataset.database count
    ask world (Action.make_directory (decimal count))
    actual ← fingerprint_of world tools tables dataset.database
    previous ←
        ask world
          (Action.read_fingerprint ("source/" +str (decimal count +str "/fingerprint-after")))
    same ← lift (selected actual previous)
    check (same_fingerprint same previous) Error.data_changed
    ask world (Action.save_fingerprint (decimal count +str "/fingerprint-before") actual)
    indexes ← ask world (Action.describe_dataset dataset.database)
    modify λ s. record s {
      datasets =
          insert (decimal count) (record dataset { rest = with_indexes dataset.rest indexes })
            s.datasets;
      checks =
          insert (decimal count +str "_same_v7_index") true
            (insert (decimal count +str "_matches_previous_data") true s.checks);
    }

  -- `O.image_id(image) != image`
  unfoldable pub check_image : (Variant → String) → Variant → Script (Unit {0})
  check_image images variant = do
    found ← ask world (Action.find_image (images variant))
    check (found == images variant) Error.image_missing

  unfoldable pub initialize :
      Experiment → Dict String String → String → Source → (Variant → String) → Script (Unit {0})
  initialize baseline scripts current source images = do
    check_baseline baseline scripts current
    check source.completed Error.no_experiment
    env ← environment world tools
    check (occurs_in "/receipt_loadtest?" env.app.database_url) Error.environment_refused
    each (Variant.index_only ∷ Variant.id_first ∷ []) (check_image images)
    ask world (Action.make_directory "")
    ask world (Action.save_environment "environment-start" env)
    first ← fingerprint_of world tools tables "receipt_loadtest"
    ask world (Action.save_fingerprint "original-fingerprint-before" first)
    hashes ← ask world Action.source_hashes
    modify λ s. new_memory env.app.image_id
    each ("index_only" ∷ "id_first" ∷ []) λ name. ask world (Action.make_directory name)
    each (10000 ∷ 100000 ∷ []) (initialize_dataset source)
    hash ← lift (or_raise (lookup script hashes) Error.key_error)
    recorded ← lift (or_raise (lookup script scripts) Error.key_error)
    note "k6_matches_baseline" (hash == recorded)
    s ← gets (λ s. s)
    ask world (Action.save_checks s.checks s.completed)
