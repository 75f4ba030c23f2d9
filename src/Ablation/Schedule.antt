-- ===== src/Ablation/Schedule.antt =====
-- `schedule` of load/review-index-ablation.py.
pub mod Coverage
mod Tests
use receipt_expense_review.Prelude.{
  ℕ, ◌+◌, ◌*◌, ◌%◌, Bool, not, List, [], ◌∷◌, ◌++◌, if◌then◌else◌, ◌==◌, nat_eq, string_eq,
}
use receipt_expense_review.Fixture.{Scenario}
use receipt_expense_review.Ablation.{Variant, Key}

-- `pair_order` is the position in the pair; the pair's name is made of the first three fields.
pub record Item : Type 0 where
  pub key : Key
  pub open key use *
  pub pair_order : ℕ

-- `if repeat % 2`
abbrev is_odd : ℕ → Bool
is_odd n = not (n % 2 == 0)

abbrev pub cases_of : ℕ → List Scenario
cases_of repeat =
    if is_odd repeat
    then Scenario.all_pending ∷ Scenario.status_period ∷ []
    else Scenario.status_period ∷ Scenario.all_pending ∷ []

abbrev pub order_of : ℕ → List Variant
order_of repeat =
    if is_odd repeat
    then Variant.index_only ∷ Variant.id_first ∷ []
    else Variant.id_first ∷ Variant.index_only ∷ []

-- `for position, variant in enumerate(order, 1)`
pub pair_items : ℕ → ℕ → Scenario → ℕ → List Variant → List Item
pair_items count repeat case position [] = []
pair_items count repeat case position (variant ∷ order) =
    record {
      key = record { dataset = count; scenario = case; repeat = repeat; variant = variant };
      pair_order = position;
    }
    ∷ pair_items count repeat case (position + 1) order

pub case_items : ℕ → ℕ → List Scenario → List Item
unfolding pair_items
case_items count repeat [] = []
case_items count repeat (case ∷ cases) =
    pair_items count repeat case 1 (order_of repeat) ++ case_items count repeat cases

-- `for repeat in range(1, 4)`
pub count_items : ℕ → List Item
unfolding case_items
count_items count =
    case_items count 1 (cases_of 1)
    ++ (case_items count 2 (cases_of 2) ++ case_items count 3 (cases_of 3))

-- `COUNTS` of load/review-optimized.py is the argument.
pub schedule : List ℕ → List Item
unfolding count_items
schedule [] = []
schedule (count ∷ counts) = count_items count ++ schedule counts
