-- ===== src/Program/Outcomes.antt =====
-- What is known of a program that returned, taken apart construct by construct.
use receipt_expense_review.Prelude.{
  ◌≡◌, refl, sym, ap, subst, Bool, true, false, if◌then◌else◌, nat_eq, string_eq, Result, ok, err,
}
use receipt_expense_review.Program.Keeps.{Keeps}
use receipt_expense_review.Program.{
  Machine, Program, pure, raise, lift, gets, ◌>>=◌, ◌>>◌, finally_do, modify, check,
}

-- `m` returned `a` and left `t`.
abbrev pub Returns :
    {Action S E A : Type 0}
    → Program Action S E A
    → Machine Action S
    → A
    → Machine Action S
    → Type 0
Returns {Action} {S} {E} {A} m s a t = Path (Result E A × Machine Action S) (m s) (ok a, t)

module _ {Action S E A B : Type 0} where
  continue-Returns :
      (r : Result E A) (f : A → Program Action S E B) (s t : Machine Action S) (b : B)
      → Returns (lift r >>= f) s b t
      → (a : A) × (r ≡ ok a) × Returns (f a) s b t
  unfolding ◌>>=◌
  continue-Returns (ok a) f s t b h = (a, refl, h)
  continue-Returns (err e) f s t b h = cc

  pub bind-Returns :
      (m : Program Action S E A) (f : A → Program Action S E B) (s t : Machine Action S) (b : B)
      → Returns (m >>= f) s b t
      → (a : A) × (s' : Machine Action S) × Returns m s a s' × Returns (f a) s' b t
  unfolding ◌>>=◌
  bind-Returns m f s t b h =
      let found = continue-Returns (m s).0 f (m s).1 t b h in
      (found.0, (m s).1, ap (λ r. (r, (m s).1)) found.1, found.2)

  cleaned-Returns :
      (r : Result E A) (c : Result E B) (s t : Machine Action S) (a : A)
      → Returns (finally_do (λ x. (r, x)) (λ x. (c, x))) s a t
      → (r ≡ ok a) × (b : B) × (c ≡ ok b) × (s ≡ t)
  unfolding finally_do
  cleaned-Returns r (ok b) s t a h = (ap (λ p. p.0) h, b, refl, ap (λ p. p.1) h)
  cleaned-Returns r (err e) s t a h = cc

  pub finally-Returns :
      (m : Program Action S E A) (cleanup : Program Action S E B) (s t : Machine Action S) (a : A)
      → Returns (finally_do m cleanup) s a t
      → (s' : Machine Action S) × (b : B) × Returns m s a s' × Returns cleanup s' b t
  unfolding finally_do
  finally-Returns m cleanup s t a h =
      let found = cleaned-Returns (m s).0 (cleanup (m s).1).0 (cleanup (m s).1).1 t a h in
      ((m s).1, found.1, ap (λ r. (r, (m s).1)) found.0, λ i. (found.2 i, found.3 i))

module _ {Action S E : Type 0} where
  check_eq :
      (c : Bool) (e : E) (s t : Machine Action S) (u : Unit {0})
      → Returns (check c e) s u t
      → (c ≡ true) × (s ≡ t)
  unfolding check
  check_eq true e s t u h = (refl, ap (λ p. p.1) h)
  check_eq false e s t u h = cc

  pub check-Returns :
      {B : Type 0} (c : Bool) (e : E) (m : Program Action S E B) (s t : Machine Action S) (b : B)
      → Returns (check c e >> m) s b t
      → (c ≡ true) × Returns m s b t
  check-Returns c e m s t b h =
      let (u, s', h1, h2) = bind-Returns (check c e) (λ _. m) s t b h in
      let (hc, hs) = check_eq c e s s' u h1 in (hc, subst (λ x. Returns m x b t) (sym hs) h2)

-- Whatever `m` returns has `Q`.
pub record Yields {Action S E A : Type 0} (Q : A → Type 0) (m : Program Action S E A) : Type 0 where
  pub value : (s t : Machine Action S) (a : A) → Returns m s a t → Q a

module _ {Action S E A : Type 0} {Q : A → Type 0} where
  pub Yields-pure : (a : A) → Q a → Yields Q (pure {Action = Action} {S = S} {E = E} a)
  unfolding pure
  Yields-pure a q = record { value = λ s t b h. subst Q (same s t b h) q }
    where
      same :
          (s t : Machine Action S) (b : A)
          → Path (Result E A × Machine Action S) (ok a, s) (ok b, t)
          → a ≡ b
      same s t b h = cc

  pub Yields-raise : (e : E) → Yields Q (raise {Action = Action} {S = S} e)
  unfolding raise
  Yields-raise e = record { value = λ s t b h. absurd (differ s t b h) }
    where
      differ :
          (s t : Machine Action S) (b : A)
          → Path (Result E A × Machine Action S) (err e, s) (ok b, t)
          → ⊥
      differ s t b h = cc

  pub Yields-check :
      (c : Bool) (e : E) (m : Program Action S E A)
      → (c ≡ true → Yields Q m)
      → Yields Q (check c e >> m)
  Yields-check c e m k = record {
    value = λ s t a h. let (hc, hm) = check-Returns c e m s t a h in (k hc).value s t a hm;
  }

  pub Yields-if :
      (b : Bool) (m n : Program Action S E A)
      → (b ≡ true → Yields Q m)
      → (b ≡ false → Yields Q n)
      → Yields Q (if b then m else n)
  Yields-if true m n km kn = km refl
  Yields-if false m n km kn = kn refl

module _ {Action S E A B : Type 0} {Q : B → Type 0} where
  pub Yields-bind :
      (m : Program Action S E A) (f : A → Program Action S E B)
      → ((a : A) → Yields Q (f a))
      → Yields Q (m >>= f)
  Yields-bind m f k = record {
    value = λ s t b h. let (a, s', _, h2) = bind-Returns m f s t b h in (k a).value s' t b h2;
  }

  pub Yields-bind_use :
      {R : A → Type 0} (m : Program Action S E A) (f : A → Program Action S E B)
      → Yields R m
      → ((a : A) → R a → Yields Q (f a))
      → Yields Q (m >>= f)
  Yields-bind_use m f r k = record {
    value = λ s t b h.
        let (a, s', h1, h2) = bind-Returns m f s t b h in (k a (r.value s s' a h1)).value s' t b h2;
  }

  pub Yields-finally_do :
      (m : Program Action S E B) (cleanup : Program Action S E A)
      → Yields Q m
      → Yields Q (finally_do m cleanup)
  Yields-finally_do m cleanup k = record {
    value = λ s t b h. let (s', _, h1, _) = finally-Returns m cleanup s t b h in k.value s s' b h1;
  }

module _ {Action S E A : Type 0} {Q R : A → Type 0} where
  pub Yields-map : (m : Program Action S E A) → ((a : A) → R a → Q a) → Yields R m → Yields Q m
  Yields-map m k r = record { value = λ s t a h. k a (r.value s t a h) }

-- The variables after a step that returned.
module _ {Action S E : Type 0} where
  pub modify_memory :
      (f : S → S) (s t : Machine Action S) (u : Unit {0})
      → Returns (modify {E = E} f) s u t
      → t.memory ≡ f s.memory
  unfolding modify
  modify_memory f s t u h = sym (ap (λ p. p.1.memory) h)

  pub pure_memory :
      {A : Type 0} (a b : A) (s t : Machine Action S)
      → Returns (pure {E = E} a) s b t
      → t.memory ≡ s.memory
  unfolding pure
  pure_memory a b s t h = sym (ap (λ p. p.1.memory) h)

  -- What keeps every statement about the variables keeps the variables.
  pub same_memory :
      {A : Type 0} (m : Program Action S E A) (s t : Machine Action S) (a : A)
      → ((Q : S → Type 0) → Keeps (λ x. Q x.memory) m)
      → Returns m s a t
      → t.memory ≡ s.memory
  same_memory m s t a k h =
      subst (λ x. x.memory ≡ s.memory) (ap (λ p. p.1) h) ((k (λ e. e ≡ s.memory)).after s refl)

  pub gets-Returns :
      {A : Type 0} (f : S → A) (s t : Machine Action S) (a : A)
      → Returns (gets {E = E} f) s a t
      → (a ≡ f s.memory) × (t.memory ≡ s.memory)
  unfolding gets
  gets-Returns {A} f s t a h = (value h, sym (ap (λ p. p.1.memory) h))
    where
      value : Path (Result E A × Machine Action S) (ok (f s.memory), s) (ok a, t) → a ≡ f s.memory
      value h = cc

module _ {Action S E A : Type 0} {Q : A → Type 0} where
  pub Yields-lift :
      (r : Result E A) → ((a : A) → r ≡ ok a → Q a) → Yields Q (lift {Action = Action} {S = S} r)
  unfolding lift
  Yields-lift r k = record { value = λ s t a h. k a (ap (λ p. p.0) h) }

module _ {Action S E : Type 0} where
  pub check_ok : (e : E) (s : Machine Action S) → check true e s ≡ (ok tt, s)
  unfolding check
  check_ok e s = refl

  pub check_err : (e : E) (s : Machine Action S) → check false e s ≡ (err e, s)
  unfolding check
  check_err e s = refl

  pub check_memory :
      (c : Bool) (e : E) (s t : Machine Action S) (u : Unit {0})
      → Returns (check c e) s u t
      → (c ≡ true) × (t.memory ≡ s.memory)
  unfolding check
  check_memory true e s t u h = (refl, sym (ap (λ p. p.1.memory) h))
  check_memory false e s t u h = cc

-- Wherever `m` starts, if it returns, the variables have `Q`.
pub record Leaves {Action S E A : Type 0} (Q : S → Type 0) (m : Program Action S E A) : Type 0 where
  pub memory : (s t : Machine Action S) (a : A) → Returns m s a t → Q t.memory

module _ {Action S E A B : Type 0} {Q : S → Type 0} where
  pub Leaves-bind :
      (m : Program Action S E A) (f : A → Program Action S E B)
      → ((a : A) → Leaves Q (f a))
      → Leaves Q (m >>= f)
  Leaves-bind m f k = record {
    memory = λ s t b h. let (a, s', _, h2) = bind-Returns m f s t b h in (k a).memory s' t b h2;
  }

  pub Leaves-finally_do :
      (m : Program Action S E A) (cleanup : Program Action S E B)
      → Leaves Q cleanup
      → Leaves Q (finally_do m cleanup)
  Leaves-finally_do m cleanup k = record {
    memory =
        λ s t a h. let (s', b, _, h2) = finally-Returns m cleanup s t a h in k.memory s' t b h2;
  }
