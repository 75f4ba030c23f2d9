-- ===== src/Reports/Stats/Middle.antt =====
-- The middle values of `stats`, of which load/report-review.py makes the median.
use receipt_expense_review.Prelude.{
  ℕ, zero, suc, ◌+◌, ◌-◌, ◌/◌, ◌≤◌, ◌<◌, ◌≡◌, refl, ap, ◌∙◌, subst, ◌⊎◌, inl, inr, Bool, true, List,
  [], ◌∷◌, arith, nat_eq, string_eq, Bool-cases, length, get_or, select, All, Result, ok,
}
use receipt_expense_review.Reports.Stats.{Error, Stats, insert_value, sorted, stats}
use receipt_expense_review.Reports.Stats.Bounds.{stats-bounds}

module _ {A : Type 0} (le : A → A → Bool) where
  -- `a` is where the sorted values have their `i`-th one: more than `i` values are at most `a`, and
  -- at most `i` are not at least `a`.
  pub IsRanked : ℕ → A → List A → Type 0
  IsRanked i a values =
      (i + 1 ≤ length (select (λ x. le x a) values))
      × (length values ≤ length (select (λ x. le a x) values) + i)

  -- What `stats` promises of its four figures.
  pub record IsSummary (values : List A) (s : Stats A) : Type 0 where
    pub low : IsRanked ((length values - 1) / 2) s.low_middle values
    pub high : IsRanked (length values / 2) s.high_middle values
    pub bounds : All (λ x. (le s.minimum x ≡ true) × (le x s.maximum ≡ true)) values

  select-insert_value :
      (p : A → Bool) (a : A) (xs : List A)
      → length (select p (insert_value le a xs)) ≡ length (select p (a ∷ xs))
  unfolding insert_value
  select-insert_value p a [] = refl
  select-insert_value p a (x ∷ xs) = ground (arith, select-insert_value p a xs)

  select-sorted :
      (p : A → Bool) (xs : List A) → length (select p (sorted le xs)) ≡ length (select p xs)
  unfolding sorted
  select-sorted p [] = refl
  select-sorted p (x ∷ xs) =
      ground (arith, select-insert_value p x (sorted le xs), select-sorted p xs)

  length-insert_value : (a : A) (xs : List A) → length (insert_value le a xs) ≡ suc (length xs)
  unfolding insert_value
  length-insert_value a [] = refl
  length-insert_value a (x ∷ xs) = ground (arith, length-insert_value a xs)

  length-sorted : (xs : List A) → length (sorted le xs) ≡ length xs
  unfolding sorted
  length-sorted [] = refl
  length-sorted (x ∷ xs) = length-insert_value x (sorted le xs) ∙ ap suc (length-sorted xs)

  All-get_or :
      (P : A → Type 0) (xs : List A) (i : ℕ) (d : A) → All P xs → i < length xs → P (get_or xs i d)
  All-get_or P [] i d h k = absurd (omega arith)
  All-get_or P (x ∷ xs) zero d h k = h.0
  All-get_or P (x ∷ xs) (suc i) d h k = All-get_or P xs i d h.1 (omega arith)

  select-All :
      (p : A → Bool) (xs : List A) → All (λ x. p x ≡ true) xs → length (select p xs) ≡ length xs
  select-All p [] h = refl
  select-All p (x ∷ xs) h = rw h.0 (ap suc (select-All p xs h.1))

  select_more :
      (p : A → Bool) (x : A) (xs : List A) → length (select p xs) ≤ length (select p (x ∷ xs))
  select_more p x xs = ground arith

  module _ (total : (a b : A) → (le a b ≡ true) ⊎ (le b a ≡ true))
      (trans : (a b c : A) → le a b ≡ true → le b c ≡ true → le a c ≡ true) where
    le_same : (a : A) → le a a ≡ true
    le_same a = elim (total a a) [ inl h ↦ h | inr h ↦ h ]

    -- Every value is at most each later one.
    IsAscending : List A → Type 0
    IsAscending [] = Unit
    IsAscending (x ∷ xs) = All (λ y. le x y ≡ true) xs × IsAscending xs

    below_trans :
        (a b : A) (xs : List A)
        → le a b ≡ true
        → All (λ y. le b y ≡ true) xs
        → All (λ y. le a y ≡ true) xs
    below_trans a b [] h k = tt
    below_trans a b (x ∷ xs) h k = (trans a b x h k.0, below_trans a b xs h k.1)

    below-insert_value :
        (b a : A) (xs : List A)
        → le b a ≡ true
        → All (λ y. le b y ≡ true) xs
        → All (λ y. le b y ≡ true) (insert_value le a xs)
    unfolding insert_value
    below-insert_value b a [] h k = (h, tt)
    below-insert_value b a (x ∷ xs) h k = elim (Bool-cases (le a x)) [
      | inl e ↦ rw e (h, k)
      | inr e ↦ rw e (k.0, below-insert_value b a xs h k.1)
    ]

    insert_value-IsAscending :
        (a : A) (xs : List A) → IsAscending xs → IsAscending (insert_value le a xs)
    unfolding insert_value IsAscending
    insert_value-IsAscending a [] h = (tt, tt)
    insert_value-IsAscending a (x ∷ xs) h = elim (Bool-cases (le a x)) [
      | inl e ↦ rw e ((e, below_trans a x xs e h.0), h)
      | inr e ↦
          let other : le x a ≡ true = elim (total a x) [ inl k ↦ cc | inr k ↦ k ] in
          rw e (below-insert_value x a xs other h.0, insert_value-IsAscending a xs h.1)
    ]

    sorted-IsAscending : (xs : List A) → IsAscending (sorted le xs)
    unfolding sorted IsAscending
    sorted-IsAscending [] = tt
    sorted-IsAscending (x ∷ xs) = insert_value-IsAscending x (sorted le xs) (sorted-IsAscending xs)

    ascending-IsRanked :
        (xs : List A) (i : ℕ) (d : A)
        → IsAscending xs
        → i < length xs
        → IsRanked i (get_or xs i d) xs
    unfolding IsAscending IsRanked
    ascending-IsRanked [] i d h k = absurd (omega arith)
    ascending-IsRanked (x ∷ xs) zero d h k =
        let own = le_same x in
        let all_above = select-All (λ y. le x y) (x ∷ xs) (own, h.0) in
        (rw own (omega arith), omega (arith, all_above))
    ascending-IsRanked (x ∷ xs) (suc i) d h k =
        let a = get_or xs i d in
        let (low, high) = ascending-IsRanked xs i d h.1 (omega arith) in
        let first : le x a ≡ true = All-get_or (λ y. le x y ≡ true) xs i d h.0 (omega arith) in
        (rw first (omega (arith, low)), omega (arith, high, select_more (λ y. le a y) x xs))

    sorted-IsRanked :
        (xs : List A) (i : ℕ) (d : A) → i < length xs → IsRanked i (get_or (sorted le xs) i d) xs
    unfolding IsRanked
    sorted-IsRanked xs i d k =
        let n = length-sorted xs in
        let a = get_or (sorted le xs) i d in
        let (low, high) =
          ascending-IsRanked (sorted le xs) i d (sorted-IsAscending xs) (omega (arith, n)) in
        (
          omega (arith, low, select-sorted (λ x. le x a) xs),
          omega (arith, high, n, select-sorted (λ x. le a x) xs),
        )

    same_stats : {s t : Stats A} → Path (Result Error (Stats A)) (ok s) (ok t) → s ≡ t
    same_stats h = cc

    -- For a total and transitive order, the middle values of stats stand at the places (n-1)/2 and
    -- n/2 of its n values in order, counted from 0, and every value is between the minimum and the
    -- maximum.
    pub stats-IsSummary :
        (values : List A) (s : Stats A) → stats le values ≡ ok s → IsSummary values s
    unfolding stats
    stats-IsSummary [] s h = cc
    stats-IsSummary (x ∷ xs) s h =
        let e = same_stats h in
        let n = length (x ∷ xs) in
        let place : length xs ≡ n - 1 = omega arith in
        record {
          low =
              subst (λ a. IsRanked ((n - 1) / 2) a (x ∷ xs)) (ap (λ t. t.low_middle) e)
                (subst
                  (λ m. IsRanked (m / 2) (get_or (sorted le (x ∷ xs)) (length xs / 2) x) (x ∷ xs))
                  place (sorted-IsRanked (x ∷ xs) (length xs / 2) x (omega arith)));
          high =
              subst (λ a. IsRanked (n / 2) a (x ∷ xs)) (ap (λ t. t.high_middle) e)
                (sorted-IsRanked (x ∷ xs) (n / 2) x (omega arith));
          bounds = stats-bounds le total trans (x ∷ xs) s h;
        }
