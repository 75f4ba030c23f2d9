-- ===== src/AblationRunner/Tests.antt =====
-- A restoration and a kept profile in a world that answers every call.
use receipt_expense_review.Prelude.{
  decimal, ℕ, String, refl, Bool, true, false, Option, none, some, List, [], ◌∷◌, if◌then◌else◌,
  nat_eq, string_eq, Dict,
}
use receipt_expense_review.Program.{
  Machine, World, pure, lift, gets, modify, ◌>>=◌, check, call, each, finally_do,
}
use receipt_expense_review.Runner.{Public, Page, Response, Fingerprint, AppState, Action, Reply}
use receipt_expense_review.Runner.Text.{occurs_in, queue_path}
use receipt_expense_review.OptimizedRunner.{Tools}
use receipt_expense_review.OptimizedRunner.State.{required}
use receipt_expense_review.AblationRunner.{Memory, tables}
use receipt_expense_review.Ablation.{Variant}
use receipt_expense_review.Fixture.{expected, mismatch, sorted_rows, sort_rows, collect_rows}
use receipt_expense_review.Runner.Setup.{fixture}
use receipt_expense_review.AblationRunner.Profile.{
  variant_kinds, variant_fixture, profile_target, profile,
}
use receipt_expense_review.AblationRunner.Profile.Restored.{HasRestored, profile-HasRestored}

abbrev state : AppState
state = record {
  image_id = "image";
  database_url = "";
  memory_bytes = 1;
  nano_cpus = 1;
  rest = "{}";
}

abbrev fingerprints : List String → Dict String Fingerprint
fingerprints [] = []
fingerprints (table ∷ names) =
    (table, record { columns = "id" ∷ []; rows = 1; sha256 = "ff" }) ∷ fingerprints names

-- An empty queue.
abbrev answer_of : ℕ → Response
answer_of page = record {
  actual = record {
    content = [];
    total_elements = 0;
    total_pages = 0;
    page_number = page;
    has_next = false;
  };
  sha256 = "00";
  size = 2;
}

abbrev seen : Page → Public
seen page = record {
  path = queue_path page.scenario page.page;
  expected = expected page.dataset page.scenario page.page;
  sha256 = "00";
  response_bytes = 2;
}

abbrev answers : (a : Action) → Option (Reply a)
answers (Action.tag_image image tag) = some tt
answers Action.recreate_app = some tt
answers Action.app_ready = some tt
answers (Action.save_fingerprint name found) = some tt
answers (Action.read_fingerprint name) = some (fingerprints tables)
answers Action.inspect_container =
    some (("DB_URL", "jdbc:mysql://mysql:3306/receipt_loadtest?x") ∷ required, state)
answers Action.docker_info = some (record {
  cpu_count = 8;
  memory_bytes = 1;
  buffer_pool_bytes = 1;
  mysql_version = "8";
  app = state;
})
answers (Action.table_columns table database) = some ("id" ∷ [])
answers (Action.row_hashes table database) = some ("a" ∷ [])
answers (Action.save_environment name env) = some tt
answers (Action.save_checks checks completed) = some tt
answers (Action.make_directory path) = some tt
answers Action.read_consumers = some (("history", "YES") ∷ ("history_long", "NO") ∷ [])
answers Action.enable_consumers = some tt
answers (Action.set_consumer name value) = some tt
answers (Action.longest_text database) = some 1024
answers Action.login = some tt
answers Action.fresh_name = some "session.json"
answers (Action.request path) = some (answer_of (if occurs_in "page=50" path then 50 else 0))
answers (Action.save_fixture directory page public) = some tt
answers (Action.write_session target public) = some tt
answers (Action.unlink path) = some tt
answers (Action.read_fixture page) = some (seen page)
answers (Action.saved_serial page) = some (some (variant_kinds Variant.id_first))
answers (Action.saved_plans page) = some (some 9)
answers _ = none

abbrev answering : World Action Reply
answering trace a = answers a

abbrev tools : Tools
tools = record {
  search = λ pattern text. false;
  substitute = λ pattern by text. text;
  lower_strip = λ text. text;
  starts = λ pattern text. false;
  is_hash = λ text. true;
  sha256 = λ hashes. "ff";
  size = λ text. 40;
  image_of = λ row. "image";
  is_alphanumeric = λ text. true;
}

abbrev named : ℕ → String → Bool
named count database = true

abbrev start : Machine Action Memory
start = record {
  trace = [];
  memory = record {
    original_image_id = "image";
    active = none;
    datasets = ("10000", record { database = "receipt_opt_10000_x"; rest = "{}" }) ∷ [];
    runs = [];
    schedule = [];
    profile_completed = true;
    completed = false;
    restored_original_database = false;
    fixtures = [];
    checks = [];
    passed = false;
  };
}

profile-HasRestored_example :
    HasRestored answering "d" [] (profile answering tools Variant.id_first "db" 0 "d" start).1.trace
unfolding profile profile_target variant_fixture fixture occurs_in decimal expected mismatch
    sorted_rows sort_rows collect_rows ◌>>=◌ call each finally_do pure lift gets modify check
profile-HasRestored_example =
    profile-HasRestored answering tools Variant.id_first "db" 0 "d" start
      (profile answering tools Variant.id_first "db" 0 "d" start).1 tt refl
