-- ===== src/Program/Keeps.antt =====
-- What a program keeps true, and what it makes true, however it ends: one rule for each construct.
use receipt_expense_review.Prelude.{
  Bool, true, false, List, [], ◌∷◌, if◌then◌else◌, nat_eq, string_eq, Result, ok, err,
}
use receipt_expense_review.Program.{
  Machine, World, Program, pure, raise, lift, gets, ◌>>=◌, finally_do, modify, check, each, gather,
  call,
}

-- `m` keeps `P`, whether it returns or raises.
pub record Keeps {Action S E A : Type 0} (P : Machine Action S → Type 0) (m : Program Action S E A)
    : Type 0 where
  pub after : (s : Machine Action S) → P s → P (m s).1

-- After `m`, `Q` is true, whether it returns or raises, wherever it starts.
pub record Establishes {Action S E A : Type 0} (Q : Machine Action S → Type 0)
    (m : Program Action S E A) : Type 0 where
  pub after : (s : Machine Action S) → Q (m s).1

module _ {Action S E A : Type 0} {P : Machine Action S → Type 0} where
  pub Keeps-pure : (a : A) → Keeps P (pure {E = E} a)
  unfolding pure
  Keeps-pure a = record { after = λ s h. h }

  pub Keeps-raise : (e : E) → Keeps P (raise {A = A} e)
  unfolding raise
  Keeps-raise e = record { after = λ s h. h }

  pub Keeps-lift : (r : Result E A) → Keeps P (lift r)
  unfolding lift
  Keeps-lift r = record { after = λ s h. h }

  pub Keeps-gets : (f : S → A) → Keeps P (gets {E = E} f)
  unfolding gets
  Keeps-gets f = record { after = λ s h. h }

  pub Keeps-if :
      (b : Bool) (m n : Program Action S E A) → Keeps P m → Keeps P n → Keeps P (if b then m else n)
  Keeps-if true m n km kn = km
  Keeps-if false m n km kn = kn

  pub Establishes-Keeps : (m : Program Action S E A) → Establishes P m → Keeps P m
  Establishes-Keeps m em = record { after = λ s h. em.after s }

module _ {Action S E A B : Type 0} {P : Machine Action S → Type 0} where
  continue_Keeps :
      (r : Result E A) (f : A → Program Action S E B)
      → ((a : A) → Keeps P (f a))
      → Keeps P (lift r >>= f)
  unfolding ◌>>=◌
  continue_Keeps (ok a) f kf = record { after = λ s h. (kf a).after s h }
  continue_Keeps (err e) f kf = record { after = λ s h. h }

  pub Keeps-bind :
      (m : Program Action S E A) (f : A → Program Action S E B)
      → Keeps P m
      → ((a : A) → Keeps P (f a))
      → Keeps P (m >>= f)
  unfolding ◌>>=◌
  Keeps-bind m f km kf = record {
    after = λ s h. let (r, s') = m s in (continue_Keeps r f kf).after s' (km.after s h);
  }

  pub Establishes-bind :
      (m : Program Action S E A) (f : A → Program Action S E B)
      → Establishes P m
      → ((a : A) → Keeps P (f a))
      → Establishes P (m >>= f)
  unfolding ◌>>=◌
  Establishes-bind m f em kf = record {
    after = λ s. let (r, s') = m s in (continue_Keeps r f kf).after s' (em.after s);
  }

  pub Keeps-finally_do :
      (m : Program Action S E A) (cleanup : Program Action S E B)
      → Keeps P m
      → Keeps P cleanup
      → Keeps P (finally_do m cleanup)
  unfolding finally_do
  Keeps-finally_do m cleanup km kc = record { after = λ s h. kc.after (m s).1 (km.after s h) }

  -- Whatever the body does, the cleanup has the last word.
  pub Establishes-finally_do :
      (m : Program Action S E A) (cleanup : Program Action S E B)
      → Establishes P cleanup
      → Establishes P (finally_do m cleanup)
  unfolding finally_do
  Establishes-finally_do m cleanup ec = record { after = λ s. ec.after (m s).1 }

module _ {Action S E : Type 0} {P : Machine Action S → Type 0} where
  pub Keeps-modify :
      (f : S → S)
      → ((s : Machine Action S) → P s → P (record s { memory = f s.memory }))
      → Keeps P (modify {E = E} f)
  unfolding modify
  Keeps-modify f k = record { after = k }

  pub Keeps-check : (b : Bool) (e : E) → Keeps P (check b e)
  unfolding check
  Keeps-check true e = record { after = λ s h. h }
  Keeps-check false e = record { after = λ s h. h }

  pub Keeps-each :
      {A : Type 0} (xs : List A) (body : A → Program Action S E (Unit {0}))
      → ((a : A) → Keeps P (body a))
      → Keeps P (each xs body)
  unfolding each
  Keeps-each [] body k = Keeps-pure tt
  Keeps-each (x ∷ xs) body k = Keeps-bind (body x) _ (k x) λ _. Keeps-each xs body k

  pub Keeps-gather :
      {A B : Type 0} (xs : List A) (body : A → Program Action S E B)
      → ((a : A) → Keeps P (body a))
      → Keeps P (gather xs body)
  unfolding gather
  Keeps-gather [] body k = Keeps-pure []
  Keeps-gather (x ∷ xs) body k =
      Keeps-bind (body x) _ (k x)
        λ b. Keeps-bind (gather xs body) _ (Keeps-gather xs body k) λ bs. Keeps-pure (b ∷ bs)

module _ {Action S E : Type 0} {Answer : Action → Type 0} {P : Machine Action S → Type 0} where
  pub Keeps-call :
      (world : World Action Answer) (e : E) (a : Action)
      → ((s : Machine Action S) → P s → P (record s { trace = a ∷ s.trace }))
      → Keeps P (call world e a)
  unfolding call
  Keeps-call world e a k = record { after = k }

  pub Establishes-call :
      (world : World Action Answer) (e : E) (a : Action)
      → ((s : Machine Action S) → P (record s { trace = a ∷ s.trace }))
      → Establishes P (call world e a)
  unfolding call
  Establishes-call world e a k = record { after = k }

pub ruleset keeps_rules = (
  Keeps-pure, Keeps-raise, Keeps-lift, Keeps-gets, Keeps-if, Keeps-bind, Keeps-finally_do,
  Keeps-check, Keeps-each, Keeps-gather,
)
