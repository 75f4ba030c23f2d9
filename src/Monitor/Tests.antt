-- ===== src/Monitor/Tests.antt =====
-- A short monitored run, and the theorems at it.
use receipt_expense_review.Prelude.{
  String, ◌≡◌, refl, true, false, some, List, [], ◌∷◌, nat_eq, string_eq, length, Dict,
}
use receipt_expense_review.Monitor.{Content, Line, Round, sample, blank, watch_containers}
use receipt_expense_review.Monitor.Spacing.{IsSpaced, watch_containers-IsSpaced}

abbrev containers : Dict String String
containers = ("receipt-app-1", "app") ∷ ("receipt-mysql-1", "mysql") ∷ []

abbrev line : Content → Line
line c = record { stopped = false; content = c; sent = true }

-- The second sample of the app comes one second after the first.
abbrev lines : List Line
lines =
    line (sample "receipt-app-1" 9000000 (some 700))
    ∷ line (sample "receipt-mysql-1" 9100000 (some 900))
    ∷ line blank
    ∷ line (sample "receipt-app-1" 10000000 (some 710))
    ∷ line (sample "receipt-app-1" 11000000 (some 720))
    ∷ record { stopped = true; content = blank; sent = true }
    ∷ []

abbrev rounds : List Round
rounds = Round.written_and_sent ∷ Round.written_and_sent ∷ []

three_samples : (watch_containers containers lines true).1.count ≡ 3
unfolding watch_containers
three_samples = refl

watch_containers-IsSpaced_example :
    IsSpaced (watch_containers containers lines true).1.written
    × ((watch_containers containers lines true).1.count
        ≡ length (watch_containers containers lines true).1.written)
watch_containers-IsSpaced_example = watch_containers-IsSpaced containers lines true
