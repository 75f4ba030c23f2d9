-- ===== src/Reports/Stats.antt =====
-- `stats` of load/report-review.py, on values compared by `le`: a measured number, or a quotient of two.
pub mod Bounds
pub mod Middle
use receipt_expense_review.Prelude.{
  ℕ, zero, suc, ◌*◌, ◌/◌, Bool, List, [], ◌∷◌, leb, if◌then◌else◌, nat_eq, string_eq, length,
  get_or, Result, ok, err,
}

pub data Error : Type 0 where
  no_samples zero_division key_error : Error

-- The median of the source is `low_middle` or, of an even number of values, the mean of both.
pub record Stats (A : Type 0) : Type 0 where
  pub low_middle : A
  pub high_middle : A
  pub minimum : A
  pub maximum : A

-- A quotient of floats, kept as the pair; the denominator is positive.
pub record Ratio : Type 0 where
  pub numerator : ℕ
  pub denominator : ℕ

abbrev pub ratio_le : Ratio → Ratio → Bool
ratio_le a b = leb (a.numerator * b.denominator) (b.numerator * a.denominator)

-- `a / b`
abbrev pub divide : ℕ → ℕ → Result Error Ratio
divide a zero = err zero_division
divide a (suc b) = ok (record { numerator = a; denominator = suc b })

module _ {A : Type 0} (le : A → A → Bool) where
  abbrev pub insert_value : A → List A → List A
  insert_value a [] = a ∷ []
  insert_value a (x ∷ xs) = if le a x then a ∷ x ∷ xs else x ∷ insert_value a xs

  -- `sorted(values)`
  pub sorted : List A → List A
  sorted [] = []
  sorted (x ∷ xs) = insert_value x (sorted xs)

  -- `min` and `max` of a first value and others
  pub least : A → List A → A
  least a [] = a
  least a (x ∷ xs) = least (if le a x then a else x) xs

  pub greatest : A → List A → A
  greatest a [] = a
  greatest a (x ∷ xs) = greatest (if le x a then a else x) xs

  unfoldable pub stats : List A → Result Error (Stats A)
  unfolding sorted least greatest
  stats [] = err no_samples
  stats (x ∷ xs) =
      let ordered = sorted (x ∷ xs) in
      ok (record {
        low_middle = get_or ordered (length xs / 2) x;
        high_middle = get_or ordered (length (x ∷ xs) / 2) x;
        minimum = least x xs;
        maximum = greatest x xs;
      })
