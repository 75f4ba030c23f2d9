-- ===== src/Monitor/Spacing.antt =====
-- The throttle of `watch_containers`.
use receipt_expense_review.Prelude.{
  ℕ, suc, ◌+◌, ◌-◌, ◌≤◌, String, ◌≡◌, refl, sym, ap, subst, ◌≢◌, ◌⊎◌, inl, inr, Bool, true, false,
  Option, none, some, List, [], ◌∷◌, arith, ltb, if◌then◌else◌, ◌==◌, nat_eq, string_eq, Bool-cases,
  length, All, Dict, lookup, insert, lookup-insert_self, lookup-insert_ne,
}
use receipt_expense_review.Monitor.{
  Content, Line, Sample, Watch, Exit, Step, go_on, leave, take_sample, throttle, read_content,
  read_line, broke, two_seconds, last_of, write_sample, note_time, watch_lines, no_watch,
  watch_containers, blank, broken, sample,
}

-- Earlier samples of the same service are at least two seconds older.
abbrev pub IsAfter : Sample → Sample → Type 0
IsAfter s earlier = earlier.service ≡ s.service → earlier.observed + two_seconds ≤ s.observed

pub IsSpaced : List Sample → Type 0
IsSpaced [] = Unit
IsSpaced (s ∷ earlier) = All (IsAfter s) earlier × IsSpaced earlier

-- The times noted are those of the newest samples, and every sample is counted.
record IsWatched (w : Watch) : Type 0 where
  spaced : IsSpaced w.written
  noted : All (λ s. s.observed ≤ last_of s.service w.last_sample) w.written
  counted : w.count ≡ length w.written

last_self :
    (service : String) (t : ℕ) (times : Dict String ℕ)
    → last_of service (insert service t times) ≡ t
last_self service t times = rw (last_of, lookup-insert_self service t times) refl

last_other :
    (service other : String) (t : ℕ) (times : Dict String ℕ)
    → service ≢ other
    → last_of other (insert service t times) ≡ last_of other times
last_other service other t times h = rw (last_of, lookup-insert_ne service other t times h) refl

noted_after :
    (service : String) (observed : ℕ) (times : Dict String ℕ) (written : List Sample)
    → last_of service times ≤ observed
    → All (λ s. s.observed ≤ last_of s.service times) written
    → All (λ s. s.observed ≤ last_of s.service (insert service observed times)) written
noted_after service observed times [] h k = tt
noted_after service observed times (s ∷ written) h k = (
  elim (Bool-cases (service == s.service)) [
    | inl same ↦
        let e : service ≡ s.service = (string_eq.beq_iff service s.service).0 same in
        omega (
          arith,
          h,
          subst (λ x. s.observed ≤ last_of x times) (sym e) k.0,
          subst (λ x. last_of x (insert service observed times) ≡ observed) e
              (last_self service observed times),
        )
    | inr differ ↦ omega (
      arith,
      k.0,
      last_other service s.service observed times
          (λ e. cc ((string_eq.beq_iff service s.service).1 e, differ)),
    )
  ],
  noted_after service observed times written h k.1,
)

IsAfter-All :
    (service : String) (observed memory : ℕ) (times : Dict String ℕ) (written : List Sample)
    → last_of service times + two_seconds ≤ observed
    → All (λ s. s.observed ≤ last_of s.service times) written
    → All (IsAfter (record { service = service; observed = observed; memory = memory })) written
IsAfter-All service observed memory times [] h k = tt
IsAfter-All service observed memory times (s ∷ written) h k = (
  λ same. omega (arith, h, subst (λ x. s.observed ≤ last_of x times) same k.0),
  IsAfter-All service observed memory times written h k.1,
)

no_watch-IsWatched : IsWatched no_watch
unfolding IsSpaced
no_watch-IsWatched = record { spaced = tt; noted = tt; counted = refl }

-- A sample that passes the throttle keeps the invariant.
taken-IsWatched :
    (service : String) (observed memory : ℕ) (w : Watch)
    → IsWatched w
    → ltb (observed - last_of service w.last_sample) two_seconds ≡ false
    → IsWatched (
        write_sample
          (record { service = service; observed = observed; memory = memory })
          (note_time service observed w))
unfolding IsSpaced
taken-IsWatched service observed memory w inv late =
    let apart : last_of service w.last_sample + two_seconds ≤ observed = late_enough _ _ late in
    record {
      spaced =
          (IsAfter-All service observed memory w.last_sample w.written apart inv.noted, inv.spaced);
      noted = (
        ≤_of (last_self service observed w.last_sample),
        noted_after service observed w.last_sample w.written (omega (arith, apart)) inv.noted,
      );
      counted = ap suc inv.counted;
    }
  where
    late_enough : (a b : ℕ) → ltb (a - b) two_seconds ≡ false → b + two_seconds ≤ a
    late_enough a b h = ground arith

    ≤_of : {a b : ℕ} → a ≡ b → b ≤ a
    ≤_of e = omega (arith, e)

noted-IsWatched :
    (service : String) (observed : ℕ) (w : Watch)
    → IsWatched w
    → ltb (observed - last_of service w.last_sample) two_seconds ≡ false
    → IsWatched (note_time service observed w)
noted-IsWatched service observed w inv late = record {
  spaced = inv.spaced;
  noted = noted_after service observed w.last_sample w.written (late_enough _ _ late) inv.noted;
  counted = inv.counted;
}
  where
    late_enough : (a b : ℕ) → ltb (a - b) two_seconds ≡ false → b ≤ a
    late_enough a b h = ground arith

-- The state that a round leaves.
abbrev after : Step → Watch
after (go_on w) = w
after (leave exit w) = w

throttle-IsWatched :
    (service : Option String) (observed : ℕ) (parsed : Option ℕ) (sent : Bool) (w : Watch)
    → IsWatched w
    → IsWatched (after (throttle service observed parsed sent w))
throttle-IsWatched none observed parsed sent w inv = inv
throttle-IsWatched (some service) observed parsed sent w inv =
    elim (Bool-cases (ltb (observed - last_of service w.last_sample) two_seconds)) [
      | inl early ↦ rw early inv
      | inr late ↦ rw late (taken parsed sent late)
    ]
  where
    taken :
        (parsed : Option ℕ) (sent : Bool)
        → ltb (observed - last_of service w.last_sample) two_seconds ≡ false
        → IsWatched (after (take_sample service observed parsed sent w))
    taken none sent late = noted-IsWatched service observed w inv late
    taken (some memory) true late = taken-IsWatched service observed memory w inv late
    taken (some memory) false late = taken-IsWatched service observed memory w inv late

read_content-IsWatched :
    (containers : Dict String String) (content : Content) (sent : Bool) (w : Watch)
    → IsWatched w
    → IsWatched (after (read_content containers content sent w))
read_content-IsWatched containers blank sent w inv = inv
read_content-IsWatched containers broken sent w inv = inv
read_content-IsWatched containers (sample name observed parsed) sent w inv =
    throttle-IsWatched (lookup name containers) observed parsed sent w inv

read_line-IsWatched :
    (containers : Dict String String) (line : Line) (w : Watch)
    → IsWatched w
    → IsWatched (after (read_line containers line w))
read_line-IsWatched containers line w inv = elim (Bool-cases line.stopped) [
  | inl stopped ↦
      subst
        (λ b.
          IsWatched
            (after (if b then leave broke w else read_content containers line.content line.sent w)))
        (sym stopped) inv
  | inr running ↦
      subst
        (λ b.
          IsWatched
            (after (if b then leave broke w else read_content containers line.content line.sent w)))
        (sym running) (read_content-IsWatched containers line.content line.sent w inv)
]

Step-cases :
    (s : Step) → ((w : Watch) × (s ≡ go_on w)) ⊎ ((exit : Exit) × (w : Watch) × (s ≡ leave exit w))
Step-cases (go_on w) = inl (w, refl)
Step-cases (leave exit w) = inr (exit, w, refl)

watch_lines-IsWatched :
    (containers : Dict String String) (lines : List Line) (w : Watch)
    → IsWatched w
    → IsWatched (watch_lines containers lines w).1
unfolding watch_lines
watch_lines-IsWatched containers [] w inv = inv
watch_lines-IsWatched containers (line ∷ lines) w inv =
    let kept = read_line-IsWatched containers line w inv in
    elim (Step-cases (read_line containers line w)) [
      | inl (t, e) ↦
          rw (watch_lines, e)
            (watch_lines-IsWatched containers lines t (subst (λ s. IsWatched (after s)) e kept))
      | inr (exit, t, e) ↦ rw (watch_lines, e) (subst (λ s. IsWatched (after s)) e kept)
    ]

-- However the lines of `docker stats` come in, any two samples of one service that the thread writes
-- are at least two seconds apart, newer ones first, and its counter is the number of samples.
pub watch_containers-IsSpaced :
    (containers : Dict String String) (lines : List Line) (stopped : Bool)
    → IsSpaced (watch_containers containers lines stopped).1.written
      × ((watch_containers containers lines stopped).1.count
          ≡ length (watch_containers containers lines stopped).1.written)
unfolding watch_containers
watch_containers-IsSpaced containers lines stopped =
    let inv = watch_lines-IsWatched containers lines no_watch no_watch-IsWatched in
    (inv.spaced, inv.counted)
