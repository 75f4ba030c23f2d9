-- ===== src/Monitor.antt =====
-- `ResourceMonitor` of load/resource_monitor.py: the two watching threads and how they are stopped.
pub mod Spacing
pub mod Stopping
mod Tests
use receipt_expense_review.Prelude.{
  error_if, ℕ, suc, ◌-◌, String, Bool, true, false, ◌||◌, Option, none, some, List, [], ◌∷◌, ◌++◌,
  ltb, if◌then◌else◌, ◌==◌, nat_eq, string_eq, Dict, lookup, insert,
}

-- What one line of `docker stats` gives: nothing after the escapes are removed; no JSON object; or a
-- name at the monotonic time `observed`, with the numbers if they can be parsed.
pub data Content : Type 0 where
  blank broken : Content
  sample : String → ℕ → Option ℕ → Content

-- `stopped` is `stop_event.is_set()` when the line is read, `sent` whether `send` returns.
pub record Line : Type 0 where
  pub stopped : Bool
  pub content : Content
  pub sent : Bool

pub data Problem : Type 0 where
  container_resources invalid_address database_resources thread_stop_timeout missing_samples :
      Problem

-- A line of `resources.jsonl`: the service and the time that the throttle saw.
pub record Sample : Type 0 where
  pub service : String
  pub observed : ℕ
  pub memory : ℕ

-- `written` is newest first.
pub record Watch : Type 0 where
  pub last_sample : Dict String ℕ
  pub written : List Sample
  pub count : ℕ

-- How the loop is left: by `break`, at the end of the stream, or by an exception.
pub data Exit : Type 0 where
  broke ended raised : Exit

-- Times are in microseconds.
abbrev pub two_seconds : ℕ
two_seconds = 2000000

abbrev pub last_of : String → Dict String ℕ → ℕ
last_of service times = elim (lookup service times) [ none ↦ 0 | some t ↦ t ]

abbrev pub write_sample : Sample → Watch → Watch
write_sample s w = record w { written = s ∷ w.written; count = suc w.count }

-- `last_sample[service] = observed`, set before the numbers are parsed.
abbrev pub note_time : String → ℕ → Watch → Watch
note_time service observed w = record w { last_sample = insert service observed w.last_sample }

-- One round of a loop: it goes on, or is left.
pub data Step : Type 0 where
  go_on : Watch → Step
  leave : Exit → Watch → Step

abbrev pub send_sample : Bool → Watch → Step
send_sample true w = go_on w
send_sample false w = leave raised w

-- A sample that passed the throttle: `last_sample[service] = observed` stands before the parsing.
abbrev pub take_sample : String → ℕ → Option ℕ → Bool → Watch → Step
take_sample service observed none sent w = leave raised (note_time service observed w)
take_sample service observed (some memory) sent w = send_sample sent (
    write_sample (record { service = service; observed = observed; memory = memory })
      (note_time service observed w))

-- `if observed - last_sample.get(service, 0) < 2: continue`
abbrev pub throttle : Option String → ℕ → Option ℕ → Bool → Watch → Step
throttle none observed parsed sent w = leave raised w
throttle (some service) observed parsed sent w =
    if ltb (observed - last_of service w.last_sample) two_seconds
    then go_on w
    else take_sample service observed parsed sent w

abbrev pub read_content : Dict String String → Content → Bool → Watch → Step
read_content containers blank sent w = go_on w
read_content containers broken sent w = leave raised w
read_content containers (sample name observed parsed) sent w =
    throttle (lookup name containers) observed parsed sent w

-- The body of the loop of `watch_containers`; `containers` maps names to services.
abbrev pub read_line : Dict String String → Line → Watch → Step
read_line containers line w =
    if line.stopped then leave broke w else read_content containers line.content line.sent w

pub watch_lines : Dict String String → List Line → Watch → Exit × Watch
watch_lines containers [] w = (ended, w)
watch_lines containers (line ∷ lines) w = elim (read_line containers line w) [
  | go_on t ↦ watch_lines containers lines t
  | leave exit t ↦ (exit, t)
]

abbrev pub no_watch : Watch
no_watch = record { last_sample = []; written = []; count = 0 }

-- `if not self.stop_event.is_set(): raise`, and the `except` clause.
abbrev pub watch_problems : Exit → Bool → List Problem
watch_problems broke stopped = []
watch_problems ended true = []
watch_problems ended false = container_resources ∷ []
watch_problems raised stopped = container_resources ∷ []

-- The thread: `stopped` is the event at the end of the stream.
unfoldable pub watch_containers : Dict String String → List Line → Bool → List Problem × Watch
unfolding watch_lines
watch_containers containers lines stopped =
    let result = watch_lines containers lines no_watch in
    (watch_problems result.0 stopped, result.1)

-- One round of `watch_db`: the query or its parsing fails, or a sample is written and then sent.
pub data Round : Type 0 where
  failed written_not_sent written_and_sent : Round

-- The rounds until the event is set: the problems, and `counts['db']`.
pub watch_rounds : List Round → List Problem × ℕ
watch_rounds [] = ([], 0)
watch_rounds (Round.failed ∷ rounds) =
    let rest = watch_rounds rounds in (database_resources ∷ rest.0, rest.1)
watch_rounds (Round.written_not_sent ∷ rounds) =
    let rest = watch_rounds rounds in (database_resources ∷ rest.0, suc rest.1)
watch_rounds (Round.written_and_sent ∷ rounds) =
    let rest = watch_rounds rounds in (rest.0, suc rest.1)

-- `valid` is the test of the address.
pub watch_db : Bool → List Round → List Problem × ℕ
unfolding watch_rounds
watch_db valid rounds = if valid then watch_rounds rounds else (invalid_address ∷ [], 0)

-- `thread.is_alive()` after `join`, for each thread.
pub alive_problems : List Bool → List Problem
alive_problems [] = []
alive_problems (alive ∷ threads) = error_if alive thread_stop_timeout ++ alive_problems threads

-- `stop`: what it adds to the problems.
pub stop : List Bool → ℕ → ℕ → List Problem
unfolding alive_problems
stop threads containers db =
    alive_problems threads ++ error_if (containers == 0 || db == 0) missing_samples

-- A monitored run, from the start of the threads to `stop`: the problems and the two counts. The
-- threads append to one list as they come; here those of each thread stand together.
unfoldable pub monitor :
    Dict String String → List Line → Bool → Bool → List Round → List Bool → List Problem × ℕ × ℕ
unfolding watch_containers watch_db stop
monitor containers lines stopped valid rounds threads =
    let c = watch_containers containers lines stopped in
    let d = watch_db valid rounds in (c.0 ++ (d.0 ++ stop threads c.1.count d.1), c.1.count, d.1)
