-- ===== src/Prelude/Lists.antt =====
-- Lists measured by native numbers, comprehensions, `in`, and Python's `sorted`.
use Prim.Native.Nat.{ℕ, zero, suc, ◌+◌, ◌-◌, min}
use mathlib.Core.Path.{◌≡◌, refl, ap, subst}
use mathlib.Core.Logic.{inl, inr}
use mathlib.Core.Bool.{Bool, true, false, ◌&&◌, ◌||◌}
use mathlib.Core.List.{List, [], ◌∷◌, ◌++◌, Perm}
use mathlib.Core.List.Perm
use mathlib.Core.List.{Permᴰ}
use mathlib.Core.Logic.{∥∥₁_elim}
use mathlib.Core.Option.{Option, none, some}
use native.Mathlib.Omega.{arith}
use receipt_expense_review.Prelude.Tests.{Eq, ◌==◌, if◌then◌else◌, Bool-cases}

module _ {ℓ} {A : Type ℓ} where
  abbrev pub length : List A → ℕ
  length [] = 0
  length (x ∷ xs) = suc (length xs)

  abbrev pub get_elem? : List A → ℕ → Option A
  get_elem? [] i = none
  get_elem? (x ∷ xs) zero = some x
  get_elem? (x ∷ xs) (suc i) = get_elem? xs i

  abbrev pub get_or : List A → ℕ → A → A
  get_or [] i d = d
  get_or (x ∷ xs) zero d = x
  get_or (x ∷ xs) (suc i) d = get_or xs i d

  abbrev pub take : ℕ → List A → List A
  take zero xs = []
  take (suc n) [] = []
  take (suc n) (x ∷ xs) = x ∷ take n xs

  abbrev pub drop : ℕ → List A → List A
  drop zero xs = xs
  drop (suc n) [] = []
  drop (suc n) (x ∷ xs) = drop n xs

  -- `[x for x in xs if p(x)]`
  abbrev pub select : (A → Bool) → List A → List A
  select p [] = []
  select p (x ∷ xs) = if p x then x ∷ select p xs else select p xs

  abbrev pub all : (A → Bool) → List A → Bool
  all p [] = true
  all p (x ∷ xs) = p x && all p xs

  abbrev pub any : (A → Bool) → List A → Bool
  any p [] = false
  any p (x ∷ xs) = p x || any p xs

  abbrev pub All {κ} : (A → Type κ) → List A → Type κ
  All P [] = Unit
  All P (x ∷ xs) = P x × All P xs

  pub length-append : (xs ys : List A) → length (xs ++ ys) ≡ length xs + length ys
  length-append [] ys = omega arith
  length-append (x ∷ xs) ys = omega (arith, length-append xs ys)

  pub length-take : (n : ℕ) (xs : List A) → length (take n xs) ≡ min n (length xs)
  length-take zero xs = omega arith
  length-take (suc n) [] = omega arith
  length-take (suc n) (x ∷ xs) = omega (arith, length-take n xs)

  pub length-drop : (n : ℕ) (xs : List A) → length (drop n xs) ≡ length xs - n
  length-drop zero xs = omega arith
  length-drop (suc n) [] = omega arith
  length-drop (suc n) (x ∷ xs) = omega (arith, length-drop n xs)

  pub take-append-drop : (n : ℕ) (xs : List A) → take n xs ++ drop n xs ≡ xs
  take-append-drop zero xs = refl
  take-append-drop (suc n) [] = refl
  take-append-drop (suc n) (x ∷ xs) = ap (◌∷◌ x) (take-append-drop n xs)

  pub all-iff-All : (p : A → Bool) (xs : List A) → all p xs ≡ true → All (λ x. p x ≡ true) xs
  all-iff-All p [] h = tt
  all-iff-All p (x ∷ xs) h = ground (arith, all-iff-All p xs)

module _ {ℓ} {A : Type ℓ} ⦃e : Eq A⦄ where
  -- `a in xs`
  abbrev pub contains : List A → A → Bool
  contains [] a = false
  contains (x ∷ xs) a = x == a || contains xs a

  -- No two members are equal: `len(set(xs)) == len(xs)`.
  abbrev pub distinct : List A → Bool
  distinct [] = true
  distinct (x ∷ xs) = not_in (contains xs x) && distinct xs
    where
      not_in : Bool → Bool
      not_in true = false
      not_in false = true

module _ {ℓ} {A : Type ℓ} (p : A → Bool) where
  select-Permᴰ : {xs ys : List A} → Permᴰ xs ys → Perm (select p xs) (select p ys)
  select-Permᴰ Permᴰ.nil = Perm.refl []
  select-Permᴰ (Permᴰ.cons {a = x} {b = y} {l₁ = xs} {l₂ = ys} e d) =
      subst (λ z. Perm (select p (x ∷ xs)) (select p (z ∷ ys))) e
        (elim (Bool-cases (p x)) [
          | inl h ↦ rw h (Perm.cons x (select-Permᴰ d))
          | inr h ↦ rw h (select-Permᴰ d)
        ])
  select-Permᴰ (Permᴰ.swap {a = a} {b = b} {a' = c} {b' = d} {l = l} e f) =
      subst (λ z. Perm (select p (a ∷ b ∷ l)) (select p (c ∷ z ∷ l))) e
        (subst (λ z. Perm (select p (a ∷ b ∷ l)) (select p (z ∷ a ∷ l))) f (swapped a b l))
    where
      swapped : (x y : A) (zs : List A) → Perm (select p (x ∷ y ∷ zs)) (select p (y ∷ x ∷ zs))
      swapped x y zs = elim (Bool-cases (p x)) [
        | inl h ↦ elim (Bool-cases (p y)) [
          | inl k ↦ rw (h, k) (Perm.swap y x (select p zs))
          | inr k ↦ rw (h, k) (Perm.refl (x ∷ select p zs))
        ]
        | inr h ↦ elim (Bool-cases (p y)) [
          | inl k ↦ rw (h, k) (Perm.refl (y ∷ select p zs))
          | inr k ↦ rw (h, k) (Perm.refl (select p zs))
        ]
      ]
  select-Permᴰ (Permᴰ.trans d e) = Perm.trans (select-Permᴰ d) (select-Permᴰ e)

  pub select-perm : {xs ys : List A} → Perm xs ys → Perm (select p xs) (select p ys)
  select-perm h = ∥∥₁_elim h squash₁ select-Permᴰ
