-- ===== src/OptimizedRunner/State.antt =====
-- The state of the app and of the databases in load/review-optimized.py: `fixture`, `columns`,
-- `fingerprint`, `app_state`, `image_id`, `use_image`, `environment` and `restore`.
use receipt_expense_review.Prelude.{
  String, Bool, false, ◌&&◌, Option, none, some, List, [], ◌∷◌, if◌then◌else◌, ◌==◌, nat_eq,
  string_eq, length, all, Dict, lookup, insert, or_raise,
}
use receipt_expense_review.Program.{World, Program, pure, lift, modify, ◌>>=◌, ◌>>◌, check, gather}
use receipt_expense_review.Sql.{Kind}
use receipt_expense_review.Sql.Delta.{optimized_delta}
use receipt_expense_review.Runner.{
  Public, Page, Fingerprint, AppState, Environment, Error, Action, Reply,
}
use receipt_expense_review.Runner.Text.{occurs_in}
use receipt_expense_review.Runner.Setup.{ask, fixture, snapshot}
use receipt_expense_review.Runner.Measure.{Hooks}
use receipt_expense_review.Runner.Baseline.{delta_result}
use receipt_expense_review.OptimizedRunner.Classify.{classify}
use receipt_expense_review.OptimizedRunner.{
  page_eq, Memory, Tools, Script, same_public, same_fingerprint, persist, update,
}

-- The settings that `app_state` demands.
abbrev pub required : List (String × String)
required =
    ("SPRING_PROFILES_ACTIVE", "prod,loadtest")
    ∷ ("RECEIPT_EXTRACTOR_PROVIDER", "fake")
    ∷ ("RECEIPT_S3_ENDPOINT", "http://s3mock:9090")
    ∷ ("RECEIPT_FAKE_DELAY", "2s")
    ∷ ("RECEIPT_WORKER_CONCURRENCY", "4")
    ∷ ("RECEIPT_WORKER_BATCH_SIZE", "4")
    ∷ []

abbrev has_value : Option String → String → Bool
has_value none value = false
has_value (some found) value = found == value

abbrev has_setting : Dict String String → String × String → Bool
has_setting env setting = has_value (lookup setting.0 env) setting.1

abbrev pub app_tag : String
app_tag = "receipt-expense-review:loadtest"

abbrev pub is_home : AppState → Bool
is_home state = occurs_in "/receipt_loadtest?" state.database_url

abbrev pub original : String
original = "receipt_loadtest"

module _ (world : World Action Reply) (tools : Tools) where
  unfoldable pub fingerprint_table :
      {S : Type 0} → String → String → Program Action S Error (String × Fingerprint)
  fingerprint_table database table = do
    names ← ask world (Action.table_columns table database)
    hashes ← ask world (Action.row_hashes table database)
    check (all tools.is_hash hashes) Error.bad_hash
    pure (table, record { columns = names; rows = length hashes; sha256 = tools.sha256 hashes })

  abbrev pub fingerprint_of :
      {S : Type 0} → List String → String → Program Action S Error (Dict String Fingerprint)
  fingerprint_of tables database = gather tables (fingerprint_table database)

  -- The default of the argument `tables`.
  abbrev pub fingerprint : {S : Type 0} → String → Program Action S Error (Dict String Fingerprint)
  fingerprint = fingerprint_of ("receipts" ∷ "receipt_extraction_jobs" ∷ [])

  unfoldable pub app_state : {S : Type 0} → Program Action S Error AppState
  app_state = do
    (env, info) ← ask world Action.inspect_container
    check (all (has_setting env) required) Error.environment_refused
    url ← lift (or_raise (lookup "DB_URL" env) Error.key_error)
    pure (record info { database_url = url })

  unfoldable pub environment : {S : Type 0} → Program Action S Error Environment
  environment = do
    info ← ask world Action.docker_info
    app ← app_state
    pure (record info { app = app })

  -- The pages of the original script, held against the recorded ones.
  unfoldable pub compared_fixture : String → Page → Script (String × Public)
  compared_fixture directory page = do
    (session, public) ← fixture world directory page
    baseline ← ask world (Action.read_fixture page)
    if same_public public baseline
        then modify (λ s. record s {
          proof = record s.proof { fixtures = insert page public s.proof.fixtures };
        })
          >> pure (session, public)
        else ask world (Action.unlink session)
          >> (check false Error.content_mismatch >> pure (session, public))

  -- What takes the place of the functions of load/review-baseline.py; `active` is `ACTIVE_KINDS`.
  abbrev pub hooks : List Kind → Hooks Memory
  hooks active = record {
    fixture = compared_fixture;
    snapshot = snapshot world (classify tools);
    delta = λ before after. lift (delta_result (optimized_delta active before after));
  }

  -- The file is read only where the other two conditions hold.
  abbrev pub data_restored : AppState → String → Dict String Fingerprint → Script Bool
  data_restored state image actual =
      if is_home state && state.image_id == image
      then (ask world (Action.read_fingerprint "original-fingerprint-before") >>= λ before.
          pure (same_fingerprint actual before))
      else pure false

  unfoldable pub note_restored : Bool → Script (Unit {0})
  note_restored restored = do
    update λ m. record m { restored_original_database = restored }
    persist world
    check restored Error.restore_failed

  unfoldable pub restore : String → Script (Unit {0})
  restore image = do
    ask world (Action.tag_image image app_tag)
    ask world Action.recreate_app
    ask world Action.app_ready
    state ← app_state
    actual ← fingerprint original
    ask world (Action.save_fingerprint "original-fingerprint-after" actual)
    receipts ← lift (or_raise (lookup "receipts" actual) Error.key_error)
    update λ m. record m {
      original_receipt_count_after = some receipts.rows;
      restored_image_id = some state.image_id;
    }
    restored ← data_restored state image actual
    note_restored restored
