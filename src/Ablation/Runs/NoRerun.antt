-- ===== src/Ablation/Runs/NoRerun.antt =====
-- No combination is ever loaded twice, whatever happens to the process and however often the
-- experiment is resumed.
use receipt_expense_review.Prelude.{
  Result-cases, ℕ, ◌+◌, ◌≤◌, ◌≡◌, refl, sym, ap, ◌∙◌, subst, ◌⊎◌, inl, inr, true, false, ◌||◌,
  Option, none, some, List, [], ◌∷◌, arith, if◌then◌else◌, ◌==◌, nat_eq, string_eq, Bool-cases,
  Option-cases, contains, Result, ok, err,
}
use receipt_expense_review.Ablation.{variant_eq, Key, key_eq}
use receipt_expense_review.Ablation.Schedule.{Item}
use receipt_expense_review.Ablation.Schedule.Coverage.{keys, Once, Once-tail, Once-head}
use receipt_expense_review.Ablation.Runs.{
  Measured, Row, Setup, Error, annotate, after_annotate, find_item, collect_files, insert_by_start,
  sort_by_start, State, row_keys, check_active, collect, Outcome, completed, failed_after,
  killed_after, failed_before, killed_before, Ending, finished, stopped, raised, killed, row_of,
  start_load, write_file, attempt, measure_loop, recollect, finally_collect, invoke, or_unchanged,
  invoke_all, fresh,
}

annotate_lem :
    (setup : Setup) (item : Item) (row : Row) {r : Row} → annotate setup item row ≡ ok r → r ≡ row
unfolding annotate
annotate_lem setup item row h = ground arith

-- The rows that are collected are those of the files, in the order of the files.
collect_files-rows :
    (setup : Setup) (plan : List Item) (seen : List Key) (files : List Row) {rows : List Row}
    → collect_files setup plan seen files ≡ ok rows
    → rows ≡ files
unfolding collect_files
collect_files-rows setup plan seen [] h = ground arith
collect_files-rows setup plan seen (row ∷ files) h = elim (Option-cases (find_item row.key plan)) [
  | inl e ↦ cc (rw (e, collect_files) at h)
  | inr (item, e) ↦
      let later = collect_files setup plan (row.key ∷ seen) files in
      elim (Result-cases (annotate setup item row)) [
        | inr (f, e₂) ↦ ground arith
        | inl (r, e₂) ↦ elim (Result-cases later) [
          | inr (f, e₃) ↦ ground arith
          | inl (rs, e₃) ↦ ground (
            arith,
            annotate_lem setup item row e₂,
            collect_files-rows setup plan (row.key ∷ seen) files e₃,
          )
        ]
      ]
]

contains-insert_by_start :
    (k : Key) (x : Row) (ys : List Row)
    → contains (row_keys (insert_by_start x ys)) k ≡ (x.key == k || contains (row_keys ys) k)
unfolding insert_by_start
contains-insert_by_start k x [] = refl
contains-insert_by_start k x (y ∷ ys) = ground (arith, contains-insert_by_start k x ys)

contains-sort_by_start :
    (k : Key) (xs : List Row) → contains (row_keys (sort_by_start xs)) k ≡ contains (row_keys xs) k
unfolding sort_by_start
contains-sort_by_start k [] = refl
contains-sort_by_start k (x ∷ xs) =
    contains-insert_by_start k x (sort_by_start xs)
    ∙ ap (◌||◌ (x.key == k)) (contains-sort_by_start k xs)

collect-rows :
    (setup : Setup) (plan : List Item) (s : State) (found : List Row) {rows : List Row}
    → collect_files setup plan [] s.files ≡ ok found
    → collect setup plan s ≡ ok rows
    → (rows ≡ sort_by_start found) × (check_active s.active_run rows ≡ ok tt)
unfolding collect
collect-rows setup plan s found e h = ground arith

active_has_row :
    (o : Option Key) (k : Key) (rows : List Row)
    → check_active o rows ≡ ok tt
    → o ≡ some k
    → contains (row_keys rows) k ≡ true
active_has_row none k rows h e = cc
active_has_row (some j) k rows h e = ground arith

-- What a successful `collect` shows: it has the keys of the files, and the load that the metadata
-- calls active has a file.
pub collect_shows :
    (setup : Setup) (plan : List Item) (s : State) {rows : List Row}
    → collect setup plan s ≡ ok rows
    → ((k : Key) → contains (row_keys rows) k ≡ contains (row_keys s.files) k)
      × ((k : Key) → s.active_run ≡ some k → contains (row_keys s.files) k ≡ true)
unfolding collect
collect_shows setup plan s {rows} h = elim (Result-cases (collect_files setup plan [] s.files)) [
  | inr (e, bad) ↦ cc (rw (bad, collect) at h)
  | inl (found, e) ↦
      let (sorted, active) = collect-rows setup plan s found e h in
      let keys_same = λ (k : Key).
        subst (λ rs. contains (row_keys rs) k ≡ contains (row_keys s.files) k)
          (ap sort_by_start (sym (collect_files-rows setup plan [] s.files e)) ∙ sym sorted)
          (contains-sort_by_start k s.files) in
      (
        keys_same,
        λ k is_active. sym (keys_same k) ∙ active_has_row s.active_run k rows active is_active,
      )
]

-- How often a load of the combination was started.
pub load_times : Key → List Key → ℕ
load_times k [] = 0
load_times k (j ∷ loads) = (if j == k then 1 else 0) + load_times k loads

-- One combination on disk: it was loaded once at most, and if it was, there is a result file or the
-- metadata calls it active.
abbrev pub IsAccounted : State → Key → Type 0
IsAccounted s k =
    (load_times k s.loads ≤ 1)
    × ((load_times k s.loads ≡ 0)
        ⊎ (contains (row_keys s.files) k ≡ true)
        ⊎ (s.active_run ≡ some k))

-- The same while the loop runs: no load is active, and what it may still load was not loaded.
abbrev IsReady : List Key → List Item → State → Key → Type 0
IsReady done items s k =
    IsAccounted s k
    × (s.active_run ≡ none)
    × (contains (keys items) k ≡ true → contains done k ≡ false → load_times k s.loads ≡ 0)

fresh-IsAccounted : (k : Key) → IsAccounted fresh k
unfolding load_times
fresh-IsAccounted k = (omega arith, inl refl)

-- After the load of `item` has ended the loop, however it ended.
started_IsAccounted :
    (item : Item) (s : State) (k : Key)
    → load_times item.key s.loads ≡ 0
    → s.active_run ≡ none
    → IsAccounted s k
    → IsAccounted (start_load item s) k
unfolding load_times
started_IsAccounted item s k new idle acc = ground (arith, key_eq.beq_iff item.key k)

write_file-IsAccounted :
    (row : Row) (s : State) (k : Key) → IsAccounted s k → IsAccounted (write_file row s) k
write_file-IsAccounted row s k acc = ground arith

settled :
    (r : Result Error Row) (item : Item) (m : Measured) (s : State) (k : Key)
    → s.active_run ≡ some item.key
    → IsAccounted s k
    → IsAccounted (after_annotate r (write_file (row_of item m) s)).1 k
settled (ok row) item m s k active acc = ground (arith, key_eq.beq_iff item.key k)
settled (err e) item m s k active acc = write_file-IsAccounted (row_of item m) s k acc

attempt-IsAccounted :
    (setup : Setup) (item : Item) (o : Outcome) (s : State) (k : Key)
    → load_times item.key s.loads ≡ 0
    → s.active_run ≡ none
    → IsAccounted s k
    → IsAccounted (attempt setup item o s).2 k
attempt-IsAccounted setup item (completed m) s k new idle acc =
    settled (annotate setup item (row_of item m)) item m (start_load item s) k refl
      (started_IsAccounted item s k new idle acc)
attempt-IsAccounted setup item (failed_after m) s k new idle acc =
    write_file-IsAccounted (row_of item m) (start_load item s) k
      (started_IsAccounted item s k new idle acc)
attempt-IsAccounted setup item (killed_after m) s k new idle acc =
    write_file-IsAccounted (row_of item m) (start_load item s) k
      (started_IsAccounted item s k new idle acc)
attempt-IsAccounted setup item failed_before s k new idle acc =
    started_IsAccounted item s k new idle acc
attempt-IsAccounted setup item killed_before s k new idle acc =
    started_IsAccounted item s k new idle acc

after_annotate_goes_on :
    (r : Result Error Row) (s : State)
    → (after_annotate r s).0 ≡ true
    → ((after_annotate r s).1.active_run ≡ none) × ((after_annotate r s).1.loads ≡ s.loads)
after_annotate_goes_on (ok row) s h = (refl, refl)
after_annotate_goes_on (err e) s h = cc

attempt_goes_on :
    (setup : Setup) (item : Item) (o : Outcome) (s : State)
    → (attempt setup item o s).0 ≡ true
    → ((attempt setup item o s).2.active_run ≡ none)
      × ((attempt setup item o s).2.loads ≡ item.key ∷ s.loads)
attempt_goes_on setup item (completed m) s h =
    after_annotate_goes_on (annotate setup item (row_of item m))
      (write_file (row_of item m) (start_load item s)) h
attempt_goes_on setup item (failed_after m) s h = cc
attempt_goes_on setup item (killed_after m) s h = cc
attempt_goes_on setup item failed_before s h = cc
attempt_goes_on setup item killed_before s h = cc

IsReady-tail :
    (done : List Key) (item : Item) (items : List Item) (s : State) (k : Key)
    → IsReady done (item ∷ items) s k
    → IsReady done items s k
IsReady-tail done item items s k r = (r.0, r.1, λ planned. r.2 (ground arith))

never_loaded :
    (done : List Key) (item : Item) (items : List Item) (s : State)
    → IsReady done (item ∷ items) s item.key
    → contains done item.key ≡ false
    → load_times item.key s.loads ≡ 0
never_loaded done item items s r new =
    r.2 (ground (arith, (key_eq.beq_iff item.key item.key).1 refl)) new

differs :
    (item : Item) (items : List Item) (k : Key)
    → contains (keys items) item.key ≡ false
    → contains (keys items) k ≡ true
    → (item.key == k) ≡ false
differs item items k absent planned = elim (Bool-cases (item.key == k)) [
  | inl same ↦
      cc (subst (λ j. contains (keys items) j ≡ false) ((key_eq.beq_iff item.key k).0 same) absent)
  | inr other ↦ other
]

later_planned :
    (item : Item) (items : List Item) (k : Key)
    → contains (keys items) k ≡ true
    → contains (keys (item ∷ items)) k ≡ true
later_planned item items k planned = ground arith

IsReady-next :
    (setup : Setup) (done : List Key) (item : Item) (items : List Item) (o : Outcome) (s : State)
    (k : Key)
    → Once (item ∷ items)
    → load_times item.key s.loads ≡ 0
    → (attempt setup item o s).0 ≡ true
    → IsReady done (item ∷ items) s k
    → IsReady done items (attempt setup item o s).2 k
unfolding load_times
IsReady-next setup done item items o s k once new on r =
    let (idle, loads) = attempt_goes_on setup item o s on in
    (
      attempt-IsAccounted setup item o s k new r.1 r.0,
      idle,
      λ planned undone.
          rw (loads, differs item items k (Once-head item items once) planned)
            (omega (arith, r.2 (later_planned item items k planned) undone)),
    )

measure_loop-IsAccounted :
    (setup : Setup) (done : List Key) (items : List Item) (outcomes : List Outcome) (s : State)
    → Once items
    → ((k : Key) → IsReady done items s k)
    → (k : Key) → IsAccounted (measure_loop setup done items outcomes s).1 k
unfolding measure_loop
measure_loop-IsAccounted setup done [] outcomes s once ready k = (ready k).0
measure_loop-IsAccounted setup done (item ∷ items) [] s once ready k =
    elim (Bool-cases (contains done item.key)) [
      | inl old ↦
          rw (old, measure_loop)
            (measure_loop-IsAccounted setup done items [] s (Once-tail item items once)
              (λ j. IsReady-tail done item items s j (ready j)) k)
      | inr new ↦ rw (new, measure_loop) (ready k).0
    ]
measure_loop-IsAccounted setup done (item ∷ items) (o ∷ rest) s once ready k =
    elim (Bool-cases (contains done item.key)) [
      | inl old ↦
          rw (old, measure_loop)
            (measure_loop-IsAccounted setup done items (o ∷ rest) s (Once-tail item items once)
              (λ j. IsReady-tail done item items s j (ready j)) k)
      | inr new ↦
          let unloaded = never_loaded done item items s (ready item.key) new in
          let idle = (ready item.key).1 in
          elim (Bool-cases (attempt setup item o s).0) [
            | inl on ↦
                rw (new, on, measure_loop)
                  (measure_loop-IsAccounted setup done items rest (attempt setup item o s).2
                    (Once-tail item items once)
                    (λ j. IsReady-next setup done item items o s j once unloaded on (ready j)) k)
            | inr off ↦
                rw (new, off, measure_loop)
                  (attempt-IsAccounted setup item o s k unloaded idle (ready k).0)
          ]
    ]

recollect-IsAccounted :
    (setup : Setup) (plan : List Item) (s : State) (k : Key)
    → IsAccounted s k
    → IsAccounted (recollect (collect setup plan s) s) k
recollect-IsAccounted setup plan s k acc = elim (Result-cases (collect setup plan s)) [
  | inr (e, bad) ↦ rw bad acc
  | inl (rows, found) ↦ rw found (ground (arith, (collect_shows setup plan s found).1 k))
]

finally-IsAccounted :
    (setup : Setup) (plan : List Item) (ending : Ending) (s : State) (k : Key)
    → IsAccounted s k
    → IsAccounted (finally_collect setup plan ending s) k
finally-IsAccounted setup plan killed s k acc = acc
finally-IsAccounted setup plan finished s k acc = recollect-IsAccounted setup plan s k acc
finally-IsAccounted setup plan stopped s k acc = recollect-IsAccounted setup plan s k acc
finally-IsAccounted setup plan raised s k acc = recollect-IsAccounted setup plan s k acc

-- After a successful `collect` every load has a result file, and those files are the done runs.
resumed-IsReady :
    (setup : Setup) (plan : List Item) (s : State) (rows : List Row) (k : Key)
    → collect setup plan s ≡ ok rows
    → IsAccounted s k
    → IsReady (row_keys rows) plan (record s { runs = rows; active_run = none }) k
resumed-IsReady setup plan s rows k found acc =
    let (same, active) = collect_shows setup plan s found in ground (arith, same k, active k)

invoke-IsAccounted :
    (setup : Setup) (plan : List Item) (s : State) (outcomes : List Outcome)
    → Once plan
    → ((k : Key) → IsAccounted s k)
    → (k : Key) → IsAccounted (or_unchanged s (invoke setup plan s outcomes)) k
unfolding invoke
invoke-IsAccounted setup plan s outcomes once acc k = elim (Result-cases (collect setup plan s)) [
  | inr (e, bad) ↦ rw (bad, invoke) (acc k)
  | inl (rows, found) ↦
      let resumed = record s { runs = rows; active_run = none } in
      rw (found, invoke)
        (finally-IsAccounted setup plan (measure_loop setup (row_keys rows) plan outcomes resumed).0
          (measure_loop setup (row_keys rows) plan outcomes resumed).1 k
          (measure_loop-IsAccounted setup (row_keys rows) plan outcomes resumed once
            (λ j. resumed-IsReady setup plan s rows j found (acc j)) k))
]

invoke_all-IsAccounted :
    (setup : Setup) (plan : List Item) (s : State) (history : List (List Outcome))
    → Once plan
    → ((k : Key) → IsAccounted s k)
    → (k : Key) → IsAccounted (invoke_all setup plan s history) k
unfolding invoke_all
invoke_all-IsAccounted setup plan s [] once acc = acc
invoke_all-IsAccounted setup plan s (outcomes ∷ later) once acc =
    invoke_all-IsAccounted setup plan (or_unchanged s (invoke setup plan s outcomes)) later once
      (invoke-IsAccounted setup plan s outcomes once acc)

-- Under a plan with no combination twice, in any history of invocations, each ended by success, by
-- an exception or by the death of the process at any load, before or after its result was saved, no
-- combination is loaded twice, and one that was loaded has a result file or is still recorded as the
-- active run.
pub no_rerun :
    (setup : Setup) (plan : List Item) (history : List (List Outcome)) (k : Key)
    → Once plan
    → let s = invoke_all setup plan fresh history in
      (load_times k s.loads ≤ 1)
      × ((load_times k s.loads ≡ 0)
          ⊎ (contains (row_keys s.files) k ≡ true)
          ⊎ (s.active_run ≡ some k))
no_rerun setup plan history k once =
    invoke_all-IsAccounted setup plan fresh history once fresh-IsAccounted k
