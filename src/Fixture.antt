-- ===== src/Fixture.antt =====
-- The synthetic receipts of load/review-baseline.py: `seed` writes them to MySQL, `expected` names
-- the pages that the review queue has to answer with, `fixture` compares an answer with them.
pub mod Order
pub mod Pages
pub mod Queue
mod Tests
use receipt_expense_review.Prelude.{
  ℕ, zero, suc, ◌+◌, ◌*◌, ◌/◌, ◌%◌, ◌≡◌, ◌↔◌, Bool, true, false, not, ◌&&◌, ◌||◌, Option, none,
  some, List, [], ◌∷◌, map, arith, ltb, leb, if◌then◌else◌, Eq, ◌==◌, nat_eq, string_eq, length,
  take, drop, any,
}

pub data Scenario : Type 0 where
  all_pending status_period : Scenario

abbrev pub scenario_beq : Scenario → Scenario → Bool
scenario_beq Scenario.all_pending Scenario.all_pending = true
scenario_beq Scenario.status_period Scenario.status_period = true
scenario_beq _ _ = false

pub scenario_beq_iff : (a b : Scenario) → (scenario_beq a b ≡ true) ↔ (a ≡ b)
scenario_beq_iff a b = ground arith

instance abbrev pub scenario_eq : Eq Scenario
scenario_eq = record { beq = scenario_beq; beq_iff = scenario_beq_iff }

-- Times are seconds since `BASE_TIME`, 2025-10-01T00:00:00.
abbrev pub day : ℕ
day = 86400

-- `timedelta(days=n*97 % 365, seconds=n % 86400)`
abbrev pub created : ℕ → ℕ
created n = n * 97 % 365 * day + n % 86400

-- `dt.datetime(2026,8,31,15)` and `dt.datetime(2026,9,30,15)`
abbrev pub period_start : ℕ
period_start = 334 * day + 15 * 3600

abbrev pub period_end : ℕ
period_end = 364 * day + 15 * 3600

-- `None if n % 997 == 0 else 1 + (n // 100) % 101`
abbrev pub owner : ℕ → Option ℕ
owner n = if n % 997 == 0 then none else some (1 + n / 100 % 101)

-- `owner in (None,1)`
abbrev pub unlisted_owner : Option ℕ → Bool
unlisted_owner none = true
unlisted_owner (some o) = o == 1

-- The two `continue` tests of the loop, negated.
pub is_listed : Scenario → ℕ → Bool
is_listed case n =
    not (unlisted_owner (owner n) || leb 4 (n % 20))
    && not (
        case == Scenario.status_period
        && not (n % 20 == 0 && (leb period_start (created n) && ltb (created n) period_end)))

-- `range(first, first+left)`
abbrev pub range_from : ℕ → ℕ → List ℕ
range_from first zero = []
range_from first (suc left) = first ∷ range_from (suc first) left

-- The loop `for n in range(1, count+1)`, with `rows.append((created,n))`.
unfoldable pub collect_rows : Scenario → List ℕ → List (ℕ × ℕ)
unfolding is_listed
collect_rows case [] = []
collect_rows case (n ∷ ns) =
    if is_listed case n then (created n, n) ∷ collect_rows case ns else collect_rows case ns

-- Python's order of pairs, downwards: the test of `rows.sort(reverse=True)`.
abbrev pub after_or_same : ℕ × ℕ → ℕ × ℕ → Bool
after_or_same (s, n) (t, m) = ltb t s || (t == s && leb m n)

pub insert_row : ℕ × ℕ → List (ℕ × ℕ) → List (ℕ × ℕ)
insert_row x [] = x ∷ []
insert_row x (y ∷ ys) = if after_or_same x y then x ∷ y ∷ ys else y ∷ insert_row x ys

unfoldable pub sort_rows : List (ℕ × ℕ) → List (ℕ × ℕ)
unfolding insert_row
sort_rows [] = []
sort_rows (x ∷ xs) = insert_row x (sort_rows xs)

abbrev pub page_size : ℕ
page_size = 20

-- `xs[page*20:(page+1)*20]`
abbrev pub slice_page {ℓ} : {A : Type ℓ} → List A → ℕ → List A
slice_page xs page = take page_size (drop (page * page_size) xs)

-- The result of `expected`.
pub record Expected : Type 0 where
  pub ids : List ℕ
  pub total : ℕ
  pub page : ℕ

abbrev pub id_of : ℕ × ℕ → ℕ
id_of (_, n) = n

unfoldable pub sorted_rows : ℕ → Scenario → List (ℕ × ℕ)
unfolding sort_rows collect_rows
sorted_rows count case = sort_rows (collect_rows case (range_from 1 count))

unfoldable pub expected : ℕ → Scenario → ℕ → Expected
unfolding sorted_rows
expected count case page = record {
  ids = map id_of (slice_page (sorted_rows count case) page);
  total = length (sorted_rows count case);
  page = page;
}

-- The fields of an answer that `fixture` reads.
pub record Item : Type 0 where
  pub id : ℕ
  pub owner_employee_id : Option ℕ
  pub job_completed : Bool

pub record Answer : Type 0 where
  pub content : List Item
  pub total_elements : ℕ
  pub total_pages : ℕ
  pub page_number : ℕ
  pub has_next : Bool

-- `math.ceil(total/20)`
abbrev pub pages_of : ℕ → ℕ
pages_of total = (total + 19) / 20

abbrev ids_equal : List ℕ → List ℕ → Bool
ids_equal [] [] = true
ids_equal (x ∷ xs) (y ∷ ys) = x == y && ids_equal xs ys
ids_equal _ _ = false

abbrev bool_beq : Bool → Bool → Bool
bool_beq true b = b
bool_beq false b = not b

abbrev bad_item : Item → Bool
bad_item r = unlisted_owner r.owner_employee_id || not r.job_completed

-- The comparison in `fixture`: true where it raises `RuntimeError`.
unfoldable pub mismatch : Answer → Expected → ℕ → Bool
mismatch actual wanted page =
    not (ids_equal (map (λ r. r.id) actual.content) wanted.ids)
    || (not (actual.total_elements == wanted.total)
        || (not (actual.total_pages == pages_of wanted.total)
            || (not (actual.page_number == page)
                || (not (bool_beq actual.has_next (ltb ((page + 1) * 20) wanted.total))
                    || any bad_item actual.content))))
