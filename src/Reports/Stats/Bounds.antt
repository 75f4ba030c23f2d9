-- ===== src/Reports/Stats/Bounds.antt =====
-- The values of a group lie between its minimum and its maximum.
use receipt_expense_review.Prelude.{
  ◌≡◌, subst, ◌⊎◌, inl, inr, Bool, true, false, List, [], ◌∷◌, arith, if◌then◌else◌, nat_eq,
  string_eq, Bool-cases, All, Result, ok,
}
use receipt_expense_review.Reports.Stats.{Error, Stats, least, greatest, stats}

module _ {A : Type 0} (le : A → A → Bool) (total : (a b : A) → (le a b ≡ true) ⊎ (le b a ≡ true))
    (trans : (a b c : A) → le a b ≡ true → le b c ≡ true → le a c ≡ true) where
  le_refl : (a : A) → le a a ≡ true
  le_refl a = elim (total a a) [ inl h ↦ h | inr h ↦ h ]

  le_flip : (a b : A) → le a b ≡ false → le b a ≡ true
  le_flip a b h = elim (total a b) [ inl k ↦ cc | inr k ↦ k ]

  Below : A → List A → Type 0
  Below a xs = All (λ x. le a x ≡ true) xs

  Above : A → List A → Type 0
  Above a xs = All (λ x. le x a ≡ true) xs

  least-start : (a : A) (xs : List A) → le (least le a xs) a ≡ true
  unfolding least
  least-start a [] = le_refl a
  least-start a (x ∷ xs) = elim (Bool-cases (le a x)) [
    | inl h ↦ rw h (least-start a xs)
    | inr h ↦ rw h (trans (least le x xs) x a (least-start x xs) (le_flip a x h))
  ]

  lower : (a x : A) → le (if le a x then a else x) x ≡ true
  lower a x = ground (arith, le_refl x)

  upper : (a x : A) → le x (if le x a then a else x) ≡ true
  upper a x = ground (arith, le_refl x)

  least-Below : (a : A) (xs : List A) → Below (least le a xs) xs
  unfolding least Below
  least-Below a [] = tt
  least-Below a (x ∷ xs) =
      let first = if le a x then a else x in
      (trans (least le first xs) first x (least-start first xs) (lower a x), least-Below first xs)

  greatest-start : (a : A) (xs : List A) → le a (greatest le a xs) ≡ true
  unfolding greatest
  greatest-start a [] = le_refl a
  greatest-start a (x ∷ xs) = elim (Bool-cases (le x a)) [
    | inl h ↦ rw h (greatest-start a xs)
    | inr h ↦ rw h (trans a x (greatest le x xs) (le_flip x a h) (greatest-start x xs))
  ]

  greatest-Above : (a : A) (xs : List A) → Above (greatest le a xs) xs
  unfolding greatest Above
  greatest-Above a [] = tt
  greatest-Above a (x ∷ xs) =
      let first = if le x a then a else x in
      (
        trans x first (greatest le first xs) (upper a x) (greatest-start first xs),
        greatest-Above first xs,
      )

  between :
      (a b : A) (xs : List A)
      → Below a xs
      → Above b xs
      → All (λ x. (le a x ≡ true) × (le x b ≡ true)) xs
  unfolding Below Above
  between a b [] h k = tt
  between a b (x ∷ xs) h k = ((h.0, k.0), between a b xs h.1 k.1)

  -- What `stats` returns: the minimum and the maximum are those of its loops.
  ends : {s t : Stats A} → Path (Result Error (Stats A)) (ok s) (ok t) → s ≡ t
  ends h = cc

  -- Every value is between the minimum and the maximum of the statistics, in the order by which they
  -- were taken.
  pub stats-bounds :
      (values : List A) (s : Stats A)
      → stats le values ≡ ok s
      → All (λ x. (le s.minimum x ≡ true) × (le x s.maximum ≡ true)) values
  unfolding stats
  stats-bounds [] s h = cc
  stats-bounds (x ∷ xs) s h =
      subst (λ t. All (λ y. (le t.minimum y ≡ true) × (le y t.maximum ≡ true)) (x ∷ xs)) (ends h)
        (
          (least-start x xs, greatest-start x xs),
          between (least le x xs) (greatest le x xs) xs (least-Below x xs) (greatest-Above x xs),
        )
