-- ===== src/Program/Calls.antt =====
-- Which calls a loop of calls has made once it returned.
use receipt_expense_review.Prelude.{
  ◌≡◌, refl, sym, ap, ◌∙◌, Bool, true, false, Option, none, some, List, [], ◌∷◌, nat_eq, string_eq,
  Result, ok,
}
use receipt_expense_review.Program.{
  Machine, World, Program, pure, lift, gets, modify, check, call, each, answered,
}
use receipt_expense_review.Program.Outcomes.{Returns, bind-Returns}

-- The trace after one call for each element.
unfoldable pub called : {Action A : Type 0} → (A → Action) → List A → List Action → List Action
called f [] before = before
called f (x ∷ xs) before = called f xs (f x ∷ before)

module _ {Action S E : Type 0} {Answer : Action → Type 0} (world : World Action Answer)
    (e : E) where
  pub call-Returns :
      (a : Action) (s t : Machine Action S) (r : Answer a)
      → Returns (call {S = S} world e a) s r t
      → (world s.trace a ≡ some r) × (t.trace ≡ a ∷ s.trace)
  unfolding call
  call-Returns a s t r h = (value (world s.trace a) (ap (λ p. p.0) h), sym (ap (λ p. p.1.trace) h))
    where
      value :
          (o : Option (Answer a)) → Path (Result E (Answer a)) (answered o e) (ok r) → o ≡ some r
      value none h = cc
      value (some x) h = ap some (same h)
        where
          same : Path (Result E (Answer a)) (ok x) (ok r) → x ≡ r
          same h = cc

module _ {Action S E A : Type 0} (f : A → Action) (body : A → Program Action S E (Unit {0})) where
  -- Where the body makes one call, the loop makes one for each element, in their order.
  pub each-called :
      ((x : A) (s t : Machine Action S) (u : Unit {0})
        → Returns (body x) s u t
        → t.trace ≡ f x ∷ s.trace)
      → (xs : List A) (s t : Machine Action S) (u : Unit {0}) → Returns (each xs body) s u t
      → t.trace ≡ called f xs s.trace
  unfolding each called pure
  each-called one [] s t u h = sym (ap (λ p. p.1.trace) h)
  each-called one (x ∷ xs) s t u h =
      let (v, s1, h1, h2) = bind-Returns (body x) _ s t u h in
      each-called one xs s1 t u h2 ∙ ap (called f xs) (one x s s1 v h1)

module _ {Action S E : Type 0} where
  pub lift-Returns :
      {A : Type 0} (r : Result E A) (s t : Machine Action S) (a : A)
      → Returns (lift r) s a t
      → (r ≡ ok a) × (t ≡ s)
  unfolding lift
  lift-Returns r s t a h = (ap (λ p. p.0) h, sym (ap (λ p. p.1) h))

  pub modify_trace :
      (f : S → S) (s t : Machine Action S) (u : Unit {0})
      → Returns (modify {E = E} f) s u t
      → t.trace ≡ s.trace
  unfolding modify
  modify_trace f s t u h = sym (ap (λ p. p.1.trace) h)

  pub pure-Returns :
      {A : Type 0} (a b : A) (s t : Machine Action S)
      → Returns (pure {E = E} a) s b t
      → (a ≡ b) × (t ≡ s)
  unfolding pure
  pure-Returns {A} a b s t h = (value h, sym (ap (λ p. p.1) h))
    where
      value : Path (Result E A × Machine Action S) (ok a, s) (ok b, t) → a ≡ b
      value h = cc

  pub gets-same :
      {A : Type 0} (f : S → A) (s t : Machine Action S) (a : A)
      → Returns (gets {E = E} f) s a t
      → (a ≡ f s.memory) × (t ≡ s)
  unfolding gets
  gets-same {A} f s t a h = (value h, sym (ap (λ p. p.1) h))
    where
      value : Path (Result E A × Machine Action S) (ok (f s.memory), s) (ok a, t) → a ≡ f s.memory
      value h = cc

  pub check_trace :
      (c : Bool) (e : E) (s t : Machine Action S) (u : Unit {0})
      → Returns (check c e) s u t
      → (c ≡ true) × (t.trace ≡ s.trace)
  unfolding check
  check_trace true e s t u h = (refl, sym (ap (λ p. p.1.trace) h))
  check_trace false e s t u h = cc
