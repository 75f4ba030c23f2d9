-- ===== src/Fixture/Order.antt =====
-- `rows.sort(reverse=True)`: what it returns, and that the order of its input does not matter.
use receipt_expense_review.Prelude.{
  ℕ, ◌≡◌, refl, ◌∙◌, inl, inr, true, List, [], ◌∷◌, arith, nat_eq, string_eq, Bool-cases,
}
use receipt_expense_review.Fixture.{after_or_same, insert_row, sort_rows}
use mathlib.Core.List.{Perm, Permᴰ}
use mathlib.Core.List.Perm
use mathlib.Core.Logic.{∥∥₁_elim}

-- Newest first, and of one time the higher number first; no pair comes before a later one.
abbrev pub IsDescending : List (ℕ × ℕ) → Type 0
IsDescending [] = Unit
IsDescending (x ∷ []) = Unit
IsDescending (x ∷ y ∷ ys) = (after_or_same x y ≡ true) × IsDescending (y ∷ ys)

insert_row-IsDescending :
    (x : ℕ × ℕ) (ys : List (ℕ × ℕ)) → IsDescending ys → IsDescending (insert_row x ys)
unfolding insert_row
insert_row-IsDescending x [] h = tt
insert_row-IsDescending x (y ∷ []) h = ground arith
insert_row-IsDescending x (y ∷ z ∷ zs) h = ground (arith, insert_row-IsDescending x (z ∷ zs) h.1)

-- The sorted rows are in descending order.
pub sort_rows-IsDescending : (xs : List (ℕ × ℕ)) → IsDescending (sort_rows xs)
unfolding sort_rows
sort_rows-IsDescending [] = tt
sort_rows-IsDescending (x ∷ xs) =
    insert_row-IsDescending x (sort_rows xs) (sort_rows-IsDescending xs)

insert_row-perm : (x : ℕ × ℕ) (ys : List (ℕ × ℕ)) → Perm (insert_row x ys) (x ∷ ys)
unfolding insert_row
insert_row-perm x [] = Perm.refl (x ∷ [])
insert_row-perm x (y ∷ ys) = elim (Bool-cases (after_or_same x y)) [
  | inl e ↦ rw e (Perm.refl (x ∷ y ∷ ys))
  | inr e ↦ rw e (Perm.trans (Perm.cons y (insert_row-perm x ys)) (Perm.swap x y ys))
]

-- Nothing is lost or made up by the sort.
pub sort_rows-perm : (xs : List (ℕ × ℕ)) → Perm (sort_rows xs) xs
unfolding sort_rows
sort_rows-perm [] = Perm.refl []
sort_rows-perm (x ∷ xs) =
    Perm.trans (insert_row-perm x (sort_rows xs)) (Perm.cons x (sort_rows-perm xs))

pair_eq : (x y : ℕ × ℕ) → after_or_same x y ≡ true → after_or_same y x ≡ true → x ≡ y
pair_eq (s, n) (t, m) h k = ground arith

insert_row_comm :
    (x y : ℕ × ℕ) (zs : List (ℕ × ℕ))
    → insert_row x (insert_row y zs) ≡ insert_row y (insert_row x zs)
unfolding insert_row
insert_row_comm x y [] = ground (arith, pair_eq x y)
insert_row_comm x y (z ∷ zs) = ground (arith, pair_eq x y, insert_row_comm x y zs)

insert_row_cong :
    (x y : ℕ × ℕ) (xs ys : List (ℕ × ℕ)) → x ≡ y → xs ≡ ys → insert_row x xs ≡ insert_row y ys
insert_row_cong x y xs ys p q = cc

sort_rows-Permᴰ : {xs ys : List (ℕ × ℕ)} → Permᴰ xs ys → sort_rows xs ≡ sort_rows ys
unfolding sort_rows
sort_rows-Permᴰ Permᴰ.nil = refl
sort_rows-Permᴰ (Permᴰ.cons {a = x} {b = y} {l₁ = xs} {l₂ = ys} e p) =
    insert_row_cong x y (sort_rows xs) (sort_rows ys) e (sort_rows-Permᴰ p)
sort_rows-Permᴰ (Permᴰ.swap {a = a} {b = b} {a' = c} {b' = d} {l = l} e f) =
    insert_row_comm a b (sort_rows l) ∙ cc (e, f)
sort_rows-Permᴰ (Permᴰ.trans p q) = sort_rows-Permᴰ p ∙ sort_rows-Permᴰ q

rows_set : IsSet (List (ℕ × ℕ))
rows_set = hlevel

-- Two lists with the same rows, in any order, are sorted into one list.
pub sort_rows_unique : (xs ys : List (ℕ × ℕ)) → Perm xs ys → sort_rows xs ≡ sort_rows ys
sort_rows_unique xs ys p =
    ∥∥₁_elim p (rows_set (sort_rows xs) (sort_rows ys)) (λ d. sort_rows-Permᴰ d)
