-- ===== src/Duplicates.antt =====
-- The duplicate-submission test of load/run-duplicates.py: the four tables of a case at one moment,
-- the responses of one burst, and what they are checked for.
pub mod Responses
pub mod Verdict
mod Tests
use receipt_expense_review.Prelude.{
  ℕ, String, Bool, true, false, Option, List, [], ◌∷◌, ◌++◌, nat_eq, string_eq,
}

-- `--modes`
pub data Mode : Type 0 where
  same_key different_key no_key cross_owner : Mode

abbrev pub mode_beq : Mode → Mode → Bool
mode_beq Mode.same_key Mode.same_key = true
mode_beq Mode.different_key Mode.different_key = true
mode_beq Mode.no_key Mode.no_key = true
mode_beq Mode.cross_owner Mode.cross_owner = true
mode_beq _ _ = false

pub record Case : Type 0 where
  pub id : String
  pub vus : ℕ
  pub mode : Mode

-- `initial` or `after-completion`
pub data PhaseName : Type 0 where
  initial after_completion : PhaseName

-- One `DUPLICATE_SAMPLE` line of k6; `replay` is the header of the answer, if it had one.
pub record Sample : Type 0 where
  pub vu : ℕ
  pub employee_id : ℕ
  pub status : ℕ
  pub receipt_id : Option ℕ
  pub job_id : Option ℕ
  pub replay : Option String

-- What `run_phase` returns, as far as it is checked; `matches` lists the flags of
-- `grafanaVerification`.
pub record Phase : Type 0 where
  pub name : PhaseName
  pub exit_code : ℕ
  pub responses : List Sample
  pub matches : List Bool

pub record ReceiptRow : Type 0 where
  pub id : ℕ
  pub owner_id : ℕ
  pub status : Option String
  pub version : ℕ
  pub sha256 : String
  pub size : ℕ

pub record JobRow : Type 0 where
  pub id : ℕ
  pub receipt_id : ℕ
  pub status : String
  pub attempt_count : ℕ
  pub duplicate_detected : ℕ
  pub version : ℕ
  pub storage_key : String

pub record AuditRow : Type 0 where
  pub id : ℕ
  pub receipt_id : ℕ
  pub action : String
  pub previous_status : Option String
  pub new_status : Option String

pub record KeyRow : Type 0 where
  pub receipt_id : ℕ
  pub key : String

pub record Tables : Type 0 where
  pub receipts : List ReceiptRow
  pub jobs : List JobRow
  pub audit : List AuditRow
  pub keys : List KeyRow

-- One line of the query's output: the collection it names, and its row.
pub data Line : Type 0 where
  receipts : ReceiptRow → Line
  jobs : JobRow → Line
  audit : AuditRow → Line
  keys : KeyRow → Line

abbrev pub no_tables : Tables
no_tables = record { receipts = []; jobs = []; audit = []; keys = [] }

-- `tables[item['collection']].append(item['row'])`
pub add_line : Line → Tables → Tables
add_line (Line.receipts r) t = record t { receipts = t.receipts ++ r ∷ [] }
add_line (Line.jobs r) t = record t { jobs = t.jobs ++ r ∷ [] }
add_line (Line.audit r) t = record t { audit = t.audit ++ r ∷ [] }
add_line (Line.keys r) t = record t { keys = t.keys ++ r ∷ [] }

read_lines : List Line → Tables → Tables
unfolding add_line
read_lines [] t = t
read_lines (line ∷ lines) t = read_lines lines (add_line line t)

-- The loop of `snapshot` over the lines of one consistent read.
pub snapshot : List Line → Tables
unfolding read_lines
snapshot lines = read_lines lines no_tables
