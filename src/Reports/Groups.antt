-- ===== src/Reports/Groups.antt =====
-- Sums over groups: what is selected under each of some keys adds up to the whole.
use receipt_expense_review.Prelude.{
  ℕ, ◌+◌, ◌≡◌, refl, sym, ap, ◌∙◌, subst, inl, inr, true, false, List, [], ◌∷◌, arith, Eq, ◌==◌,
  nat_eq, string_eq, Bool-cases, select, All, contains,
}

module _ {A : Type 0} where
  -- `sum(w(x) for x in xs)`
  abbrev pub total : (A → ℕ) → List A → ℕ
  total w [] = 0
  total w (x ∷ xs) = w x + total w xs

module _ {K : Type 0} ⦃e : Eq K⦄ where
  -- No key occurs twice.
  unfoldable pub IsDistinct : List K → Type 0
  IsDistinct [] = Unit
  IsDistinct (k ∷ ks) = (contains ks k ≡ false) × IsDistinct ks

module _ {A K : Type 0} ⦃e : Eq K⦄ (key : A → K) (w : A → ℕ) where
  -- The sum of one group.
  abbrev pub group_total : List A → K → ℕ
  group_total xs k = total w (select (λ x. key x == k) xs)

  group-hit :
      (x : A) (xs : List A) (k : K)
      → (key x == k) ≡ true
      → group_total (x ∷ xs) k ≡ w x + group_total xs k
  group-hit x xs k h = rw h refl

  group-miss :
      (x : A) (xs : List A) (k : K)
      → (key x == k) ≡ false
      → group_total (x ∷ xs) k ≡ group_total xs k
  group-miss x xs k h = rw h refl

  absent :
      (x : A) (xs : List A) (ks : List K)
      → contains ks (key x) ≡ false
      → total (group_total (x ∷ xs)) ks ≡ total (group_total xs) ks
  absent x xs [] h = refl
  absent x xs (k ∷ ks) h = ground (arith, e.beq_iff k (key x), e.beq_iff (key x) k, absent x xs ks)

  present :
      (x : A) (xs : List A) (ks : List K)
      → IsDistinct ks
      → contains ks (key x) ≡ true
      → total (group_total (x ∷ xs)) ks ≡ w x + total (group_total xs) ks
  unfolding IsDistinct
  present x xs [] d h = cc
  present x xs (k ∷ ks) d h = elim (Bool-cases (k == key x)) [
    | inl here ↦
        let same : k ≡ key x = (e.beq_iff k (key x)).0 here in
        omega (
          arith,
          absent x xs ks (subst (λ j. contains ks j ≡ false) same d.0),
          group-hit x xs k ((e.beq_iff (key x) k).1 (sym same)),
        )
    | inr elsewhere ↦
        omega
          (arith, present x xs ks d.1 (rw elsewhere at h), group-miss x xs k (differs elsewhere))
  ]
    where
      differs : (k == key x) ≡ false → (key x == k) ≡ false
      differs h = ground (arith, e.beq_iff k (key x), e.beq_iff (key x) k)

  -- With distinct keys, among which every element has its own, the groups' sums add up to the sum
  -- of all elements.
  pub groups-total :
      (ks : List K) (xs : List A)
      → IsDistinct ks
      → All (λ x. contains ks (key x) ≡ true) xs
      → total (group_total xs) ks ≡ total w xs
  groups-total ks [] d h = empty ks
    where
      empty : (ks : List K) → total (group_total []) ks ≡ 0
      empty [] = refl
      empty (k ∷ ks) = omega (arith, empty ks)
  groups-total ks (x ∷ xs) d h =
      present x xs ks d h.0 ∙ ap (λ n. w x + n) (groups-total ks xs d h.1)
