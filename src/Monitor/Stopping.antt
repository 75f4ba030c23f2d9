-- ===== src/Monitor/Stopping.antt =====
-- What a monitored run without a problem has observed.
use receipt_expense_review.Prelude.{Bool, true, false, List, [], ◌∷◌, nat_eq, string_eq}
use receipt_expense_review.Monitor.{Round}

-- Every round wrote and sent its sample.
pub IsSent : List Round → Type 0
IsSent [] = Unit
IsSent (Round.failed ∷ rounds) = Path Bool true false
IsSent (Round.written_not_sent ∷ rounds) = Path Bool true false
IsSent (Round.written_and_sent ∷ rounds) = IsSent rounds
