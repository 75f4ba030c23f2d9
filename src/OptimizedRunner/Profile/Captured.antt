-- ===== src/OptimizedRunner/Profile/Captured.antt =====
-- What the loop over the captured texts keeps.
use receipt_expense_review.Prelude.{
  ℕ, ◌-◌, String, ◌≡◌, refl, ap, ◌∙◌, subst, inl, inr, true, false, Option, none, some, List, [],
  ◌∷◌, leb, ◌==◌, nat_eq, string_eq, Bool-cases, All, contains, Dict, lookup, insert,
  lookup-insert_self, lookup-insert_ne, Result, ok, err,
}
use receipt_expense_review.Sql.{Kind, kind_eq}
use receipt_expense_review.Runner.{Error}
use receipt_expense_review.OptimizedRunner.Profile.{agrees, capture, capture_one, go_on}

module _ (wanted : List Kind) (kind_of : String → Option Kind) (size : String → ℕ)
    (max_text : ℕ) where
  -- The text stands under its kind, which is one of those to capture, and it is whole.
  pub IsCaptured : Dict Kind String → String → Type 0
  IsCaptured d sql =
      (kind : Kind) × (kind_of sql ≡ some kind)
      × (contains wanted kind ≡ true)
      × (leb (max_text - 1) (size sql) ≡ false)
      × (lookup kind d ≡ some sql)

  -- What one text has to be, and what it adds.
  capture_one-cases :
      (o : Option Kind) (sql : String) (d d' : Dict Kind String)
      → capture_one wanted kind_of size max_text o sql d ≡ ok d'
      → (kind : Kind) × (o ≡ some kind)
        × (contains wanted kind ≡ true)
        × (leb (max_text - 1) (size sql) ≡ false)
        × (agrees (lookup kind d) sql ≡ true)
        × (insert kind sql d ≡ d')
  capture_one-cases none sql d d' h = cc
  capture_one-cases (some kind) sql d d' h = elim (Bool-cases (contains wanted kind)) [
    | inr n ↦ absurd (refused (rw n at h))
    | inl c ↦ elim (Bool-cases (leb (max_text - 1) (size sql))) [
      | inl l ↦ absurd (refused (rw (c, l) at h))
      | inr l ↦ elim (Bool-cases (agrees (lookup kind d) sql)) [
        | inr n ↦ absurd (refused (rw (c, l, n) at h))
        | inl a ↦ (kind, refl, c, l, a, same (rw (c, l, a) at h))
      ]
    ]
  ]
    where
      refused : {e : Error} → Path (Result Error (Dict Kind String)) (err e) (ok d') → ⊥
      refused h = cc

      same : {x : Dict Kind String} → Path (Result Error (Dict Kind String)) (ok x) (ok d') → x ≡ d'
      same h = cc

  go_on-cases :
      (r : Result Error (Dict Kind String))
      (next : Dict Kind String → Result Error (Dict Kind String)) (d' : Dict Kind String)
      → go_on wanted kind_of size max_text r next ≡ ok d'
      → (x : Dict Kind String) × (r ≡ ok x) × (next x ≡ ok d')
  go_on-cases (ok x) next d' h = (x, refl, h)
  go_on-cases (err e) next d' h = cc

  -- Another text of a kind that is there is the same text.
  insert_keeps :
      (kind k : Kind) (sql old : String) (d : Dict Kind String)
      → agrees (lookup kind d) sql ≡ true
      → lookup k d ≡ some old
      → lookup k (insert kind sql d) ≡ some old
  insert_keeps kind k sql old d a h = elim (Bool-cases (kind == k)) [
    | inl b ↦
        let e : kind ≡ k = (kind_eq.beq_iff kind k).0 b in
        let f : old ≡ sql =
          (string_eq.beq_iff old sql).0
            (subst (λ o. agrees o sql ≡ true) (ap (λ x. lookup x d) e ∙ h) a) in
        rw (← e) (rw f (lookup-insert_self kind sql d))
    | inr b ↦ lookup-insert_ne kind k sql d (λ e. cc ((kind_eq.beq_iff kind k).1 e, b)) ∙ h
  ]

  IsCaptured-All :
      (raw : List String) (d d' : Dict Kind String)
      → capture wanted kind_of size max_text raw d ≡ ok d'
      → ((k : Kind) (sql : String) → lookup k d ≡ some sql → lookup k d' ≡ some sql)
        × All (IsCaptured d') raw
  unfolding capture IsCaptured
  IsCaptured-All [] d d' h = (λ k sql m. subst (λ x. lookup k x ≡ some sql) (same h) m, tt)
    where
      same : {x : Dict Kind String} → Path (Result Error (Dict Kind String)) (ok x) (ok d') → x ≡ d'
      same h = cc
  IsCaptured-All (sql ∷ raw) d d' h =
      let (x, h1, h2) =
        go_on-cases (capture_one wanted kind_of size max_text (kind_of sql) sql d) _ d' h in
      let (kind, e, c, l, a, i) = capture_one-cases (kind_of sql) sql d x h1 in
      let (grows, rest) = IsCaptured-All raw x d' h2 in
      let here : lookup kind x ≡ some sql =
        subst (λ y. lookup kind y ≡ some sql) i (lookup-insert_self kind sql d) in
      (
        λ k old m.
            grows k old (subst (λ y. lookup k y ≡ some old) i (insert_keeps kind k sql old d a m)),
        ((kind, e, c, l, grows kind sql here), rest),
      )

  -- When the texts were captured, each of them is whole, is a query of one of the kinds to capture,
  -- and stands under its kind: so no two different texts are of one kind.
  pub capture-IsCaptured :
      (raw : List String) (d : Dict Kind String)
      → capture wanted kind_of size max_text raw [] ≡ ok d
      → All (IsCaptured d) raw
  capture-IsCaptured raw d h = (IsCaptured-All raw [] d h).1
