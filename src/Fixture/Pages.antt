-- ===== src/Fixture/Pages.antt =====
-- The pages of `expected` and the answers that `fixture` accepts.
use receipt_expense_review.Prelude.{
  select, subst, inl, inr, Bool-cases, ℕ, zero, suc, ◌+◌, ◌-◌, ◌*◌, ◌≤◌, ◌<◌, min, ◌≡◌, refl, sym,
  ap, ◌∙◌, ◌≢◌, ◌↔◌, Bool, true, false, not, ◌||◌, Option, none, some, List, [], ◌∷◌, ◌++◌, map,
  arith, nat_eq, string_eq, length, take, drop, any, All, length-take, length-drop,
}
use receipt_expense_review.Fixture.{
  Scenario, page_size, slice_page, id_of, sorted_rows, sort_rows, collect_rows, range_from, created,
  is_listed, expected, Item, Answer, unlisted_owner, ids_equal, bad_item, mismatch,
}
use receipt_expense_review.Fixture.Order.{IsDescending, sort_rows-IsDescending, sort_rows-perm}
use mathlib.Core.List.{map-append, Perm}
use native.Mathlib.Nat.{zero-add}

-- Pages 0 to k-1, one after the other.
pub pages_up_to : ℕ → Scenario → ℕ → List ℕ
pages_up_to count case zero = []
pages_up_to count case (suc k) = pages_up_to count case k ++ (expected count case k).ids

drop_all {ℓ} : {A : Type ℓ} (n : ℕ) (xs : List A) → length xs ≤ n → drop n xs ≡ []
drop_all zero [] h = refl
drop_all zero (x ∷ xs) h = absurd (omega arith)
drop_all (suc n) [] h = refl
drop_all (suc n) (x ∷ xs) h = drop_all n xs (omega arith)

take_nil {ℓ} : {A : Type ℓ} (n : ℕ) → take {A = A} n [] ≡ []
take_nil zero = refl
take_nil (suc n) = refl

take-drop-step {ℓ} :
    {A : Type ℓ} (n m : ℕ) (xs : List A) → take n xs ++ take m (drop n xs) ≡ take (n + m) xs
take-drop-step zero m xs = rw zero-add refl
take-drop-step {A} (suc n) m [] = take_nil {A = A} m ∙ sym (take_nil {A = A} (suc n + m))
take-drop-step (suc n) m (x ∷ xs) =
    let e : suc n + m ≡ suc (n + m) = omega arith in rw e (ap (◌∷◌ x) (take-drop-step n m xs))

take_all {ℓ} : {A : Type ℓ} (n : ℕ) (xs : List A) → length xs ≤ n → take n xs ≡ xs
take_all zero [] h = refl
take_all zero (x ∷ xs) h = absurd (omega arith)
take_all (suc n) [] h = refl
take_all (suc n) (x ∷ xs) h = ap (◌∷◌ x) (take_all n xs (omega arith))

pages_up_to-take :
    (count : ℕ) (case : Scenario) (k : ℕ)
    → pages_up_to count case k ≡ map id_of (take (k * page_size) (sorted_rows count case))
unfolding pages_up_to expected
pages_up_to-take count case zero = refl
pages_up_to-take count case (suc k) =
    let xs = sorted_rows count case in
    rw (pages_up_to-take count case k) (
      sym (map-append id_of (take (k * page_size) xs) (slice_page xs k))
      ∙ ap (map id_of)
          (take-drop-step (k * page_size) page_size xs ∙ ap (λ n. take n xs) (omega arith)))

-- A receipt's row is what `created` and its number give.
row_at : ℕ → ℕ × ℕ
row_at n = (created n, n)

-- The loop keeps the listed numbers, each once and in their order.
collect_rows-select :
    (case : Scenario) (ns : List ℕ) → collect_rows case ns ≡ map row_at (select (is_listed case) ns)
unfolding collect_rows row_at
collect_rows-select case [] = refl
collect_rows-select case (n ∷ ns) = elim (Bool-cases (is_listed case n)) [
  | inl e ↦ rw e (ap (◌∷◌ (created n, n)) (collect_rows-select case ns))
  | inr e ↦ rw e (collect_rows-select case ns)
]

-- The numbers are those of rows in descending order, and the rows are those of the listed numbers up
-- to the count, each as often as the other.
pub AreListed : ℕ → Scenario → List ℕ → Type 0
AreListed count case ids =
    (rows : List (ℕ × ℕ)) × (ids ≡ map id_of rows)
    × IsDescending rows
    × Perm rows (map (λ n. (created n, n)) (select (is_listed case) (range_from 1 count)))

-- Read up to the last page, the pages of `expected` are, newest first, exactly the numbers from 1 to
-- the count that are listed: none is missing and none comes twice.
pub pages_tile :
    (count : ℕ) (case : Scenario) (k : ℕ)
    → (expected count case 0).total ≤ k * 20
    → AreListed count case (pages_up_to count case k)
unfolding expected sorted_rows AreListed row_at
pages_tile count case k h =
    let listed = collect_rows case (range_from 1 count) in
    (
      sort_rows listed,
      pages_up_to-take count case k
          ∙ ap (map id_of) (take_all (k * page_size) (sorted_rows count case) h),
      sort_rows-IsDescending listed,
      subst (Perm (sort_rows listed)) (collect_rows-select case (range_from 1 count))
          (sort_rows-perm listed),
    )

length-map {ℓ κ} :
    {A : Type ℓ} {B : Type κ} (xs : List A) (f : A → B) → length (map f xs) ≡ length xs
length-map [] f = refl
length-map (x ∷ xs) f = ap suc (length-map xs f)

-- A page holds twenty numbers, or what is left of the total.
expected_page_length :
    (count : ℕ) (case : Scenario) (page : ℕ)
    → length (expected count case page).ids ≡ min 20 ((expected count case page).total - page * 20)
unfolding expected
expected_page_length count case page =
    let xs = sorted_rows count case in
    length-map (slice_page xs page) id_of
    ∙ length-take page_size (drop (page * page_size) xs)
    ∙ ap (min 20) (length-drop (page * page_size) xs)

ids_equal_eq : (xs ys : List ℕ) → ids_equal xs ys ≡ true → xs ≡ ys
ids_equal_eq [] [] h = refl
ids_equal_eq [] (y ∷ ys) h = cc
ids_equal_eq (x ∷ xs) [] h = cc
ids_equal_eq (x ∷ xs) (y ∷ ys) h = ground (arith, ids_equal_eq xs ys)

-- An item of another employee whose extraction is done.
abbrev pub IsReviewable : Item → Type 0
IsReviewable r = (o : ℕ) × (r.owner_employee_id ≡ some o) × (o ≢ 1) × (r.job_completed ≡ true)

reviewable :
    (o : Option ℕ) (done : Bool)
    → (unlisted_owner o || not done) ≡ false
    → (x : ℕ) × (o ≡ some x) × (x ≢ 1) × (done ≡ true)
reviewable none done h = cc
reviewable (some x) done h = (x, refl, ground arith, ground arith)

IsReviewable-items : (items : List Item) → any bad_item items ≡ false → All IsReviewable items
IsReviewable-items [] h = tt
IsReviewable-items (r ∷ items) h = (
  reviewable r.owner_employee_id r.job_completed (ground arith),
  IsReviewable-items items (ground arith),
)

nonempty : (xs : List ℕ) → xs ≢ [] → 0 < length xs
nonempty [] h = absurd (h refl)
nonempty (x ∷ xs) h = omega arith

total_same :
    (count : ℕ) (case : Scenario) (page : ℕ)
    → (expected count case (page + 1)).total ≡ (expected count case page).total
unfolding expected
total_same count case page = refl

-- There is a next page exactly when the total reaches beyond this one.
next_page :
    (count : ℕ) (case : Scenario) (page : ℕ)
    → ((page + 1) * 20 < (expected count case page).total)
      ↔ ((expected count case (page + 1)).ids ≢ [])
next_page count case page = (
  λ more none_left. absurd (
      omega (
        arith,
        ap length none_left,
        expected_page_length count case (page + 1),
        total_same count case page,
      )),
  λ some_left. omega (
    arith,
    nonempty _ some_left,
    expected_page_length count case (page + 1),
    total_same count case page,
  ),
)

-- An answer that `fixture` accepts carries the numbers and the total of `expected`, says that there
-- is a next page exactly when the next page of `expected` has a number on it, and holds only
-- receipts of an owner other than reviewer 1 whose extraction is completed.
pub accepted_answer :
    (actual : Answer) (count : ℕ) (case : Scenario) (page : ℕ)
    → mismatch actual (expected count case page) page ≡ false
    → (map (λ r. r.id) actual.content ≡ (expected count case page).ids)
      × (actual.total_elements ≡ (expected count case page).total)
      × (actual.page_number ≡ page)
      × ((actual.has_next ≡ true) ↔ ((expected count case (page + 1)).ids ≢ []))
      × All IsReviewable actual.content
unfolding mismatch
accepted_answer actual count case page h =
    let wanted = expected count case page in
    let next = next_page count case page in
    (
      ids_equal_eq _ _ (ground arith),
      ground arith,
      ground arith,
      (λ more. next.0 (ground arith), λ more. ground (arith, next.1 more)),
      IsReviewable-items actual.content (ground arith),
    )
