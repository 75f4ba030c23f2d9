-- ===== src/Ablation/Schedule/Coverage.antt =====
-- What `schedule` plans: every combination once, in pairs of alternating order.
use receipt_expense_review.Prelude.{
  ℕ, ◌+◌, ◌%◌, ◌≤◌, ◌≡◌, refl, Bool, false, ◌&&◌, List, [], ◌∷◌, ◌++◌, map, arith, leb,
  if◌then◌else◌, ◌==◌, nat_eq, string_eq, All, contains,
}
use receipt_expense_review.Fixture.{Scenario, scenario_eq}
use receipt_expense_review.Ablation.{key_beq, Variant, variant_eq, Key, key_eq}
use receipt_expense_review.Ablation.Schedule.{Item, schedule, count_items}

abbrev pub keys : List Item → List Key
keys items = map (λ item. item.key) items

-- How often a combination is planned.
unfoldable pub times : Key → List Item → ℕ
times k [] = 0
times k (item ∷ items) = (if item.key == k then 1 else 0) + times k items

pub times-append : (k : Key) (xs ys : List Item) → times k (xs ++ ys) ≡ times k xs + times k ys
unfolding times
times-append k [] ys = omega arith
times-append k (x ∷ xs) ys = ground (arith, times-append k xs ys)

abbrev in_range : ℕ → Bool
in_range repeat = leb 1 repeat && leb repeat 3

times_planned :
    (count d r : ℕ) (s : Scenario) (v : Variant)
    → times (record { dataset = d; scenario = s; repeat = r; variant = v }) (count_items count)
      ≡ (if count == d && in_range r then 1 else 0)
unfolding times count_items key_beq
times_planned count d r Scenario.all_pending Variant.index_only = ground arith
times_planned count d r Scenario.all_pending Variant.id_first = ground arith
times_planned count d r Scenario.status_period Variant.index_only = ground arith
times_planned count d r Scenario.status_period Variant.id_first = ground arith

-- How often a dataset stands among the counts.
abbrev pub occurrences : ℕ → List ℕ → ℕ
occurrences d [] = 0
occurrences d (count ∷ counts) = (if count == d then 1 else 0) + occurrences d counts

schedule_nil : (k : Key) → times k (schedule []) ≡ 0
unfolding schedule times
schedule_nil k = refl

schedule_step :
    (k : Key) (count : ℕ) (counts : List ℕ)
    → times k (schedule (count ∷ counts)) ≡ times k (count_items count) + times k (schedule counts)
unfolding schedule
schedule_step k count counts = times-append k (count_items count) (schedule counts)

-- Over any list of dataset sizes, a combination of dataset, scenario, repeat and variant is planned
-- once for each time its dataset is listed when its repeat is 1, 2 or 3, and never otherwise.
pub schedule-times :
    (k : Key) (counts : List ℕ)
    → times k (schedule counts)
      ≡ (if leb 1 k.repeat && leb k.repeat 3 then occurrences k.dataset counts else 0)
schedule-times k [] = rw (schedule_nil k) (ground arith)
schedule-times k (count ∷ counts) =
    rw (schedule_step k count counts, schedule-times k counts)
      (rw (times_planned count k.dataset k.repeat k.scenario k.variant) (ground arith))

-- First in an odd repeat is `index_only`, first in an even one `id_first`.
abbrev pub planned_order : ℕ → Variant → ℕ
planned_order repeat Variant.index_only = 1 + (repeat + 1) % 2
planned_order repeat Variant.id_first = 1 + repeat % 2

abbrev pub IsBalanced : Item → Type 0
IsBalanced item = item.pair_order ≡ planned_order item.repeat item.variant

All-append {ℓ κ} :
    {A : Type ℓ} (P : A → Type κ) (xs ys : List A) → All P xs → All P ys → All P (xs ++ ys)
All-append P [] ys h k = k
All-append P (x ∷ xs) ys h k = (h.0, All-append P xs ys h.1 k)

-- Every planned run stands at the position in its pair that the parity of its repeat gives, so the
-- two variants of a pair take turns at going first.
pub schedule-IsBalanced : (counts : List ℕ) → All IsBalanced (schedule counts)
unfolding schedule count_items
schedule-IsBalanced [] = tt
schedule-IsBalanced (count ∷ counts) =
    All-append IsBalanced (count_items count) (schedule counts) (omega arith)
      (schedule-IsBalanced counts)

-- No combination is planned twice.
pub Once : List Item → Type 0
Once items = (k : Key) → times k items ≤ 1

pub Once-tail : (item : Item) (items : List Item) → Once (item ∷ items) → Once items
unfolding Once times
Once-tail item items h k = omega (arith, h k)

contains-times : (k : Key) (items : List Item) → times k items ≡ 0 → contains (keys items) k ≡ false
unfolding times
contains-times k [] h = refl
contains-times k (item ∷ items) h = ground (arith, contains-times k items)

-- The head of such a plan does not come again.
pub Once-head :
    (item : Item) (items : List Item) → Once (item ∷ items) → contains (keys items) item.key ≡ false
unfolding Once times
Once-head item items h =
    contains-times item.key items
      (ground (arith, h item.key, (key_eq.beq_iff item.key item.key).1 refl))

pub schedule-Once :
    (counts : List ℕ) → ((d : ℕ) → occurrences d counts ≤ 1) → Once (schedule counts)
unfolding Once
schedule-Once counts h k = ground (arith, schedule-times k counts, h k.dataset)
