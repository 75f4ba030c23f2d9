-- ===== src/Program.antt =====
-- A script as a program: calls of the world outside (processes, files, the database), variables that
-- are changed, and exceptions. What was changed before a raise stays changed, as in Python.
pub mod Keeps
pub mod Outcomes
pub mod Calls
use receipt_expense_review.Prelude.{
  Bool, true, false, Option, none, some, List, [], ◌∷◌, nat_eq, string_eq, Result, ok, err,
}

-- What happened: the calls that were made, newest first, and the script's variables.
pub record Machine (Action S : Type 0) : Type 0 where
  pub trace : List Action
  pub memory : S

-- The outside. What it answers may depend on every call made before; `none` is an exception.
abbrev pub World : (Action : Type 0) → (Action → Type 0) → Type 0
World Action Answer = List Action → (a : Action) → Option (Answer a)

abbrev pub Program : Type 0 → Type 0 → Type 0 → Type 0 → Type 0
Program Action S E A = Machine Action S → Result E A × Machine Action S

module _ {E A B : Type 0} where
  abbrev pub cleaned : Result E A → Result E B → Result E A
  cleaned r (ok b) = r
  cleaned r (err e) = err e

module _ {Action S E A : Type 0} where
  unfoldable pub pure : A → Program Action S E A
  pure a s = (ok a, s)

  unfoldable pub raise : E → Program Action S E A
  raise e s = (err e, s)

  -- Code that neither calls the outside nor changes a variable.
  unfoldable pub lift : Result E A → Program Action S E A
  lift r s = (r, s)

  unfoldable pub gets : (S → A) → Program Action S E A
  gets f s = (ok (f s.memory), s)

module _ {Action S E A B : Type 0} where
  abbrev continue : Result E A → (A → Program Action S E B) → Program Action S E B
  continue (ok a) f s = f a s
  continue (err e) f s = (err e, s)

  infixl 5 ◌>>=◌ ◌>>◌
  unfoldable pub ◌>>=◌ : Program Action S E A → (A → Program Action S E B) → Program Action S E B
  unfolding pure raise lift gets
  ◌>>=◌ m f s = let (r, s') = m s in continue r f s'

  abbrev pub ◌>>◌ : Program Action S E A → Program Action S E B → Program Action S E B
  m >> n = m >>= λ _. n

  -- `try: m finally: cleanup`. An exception of the cleanup takes the place of the first one.
  unfoldable pub finally_do : Program Action S E A → Program Action S E B → Program Action S E A
  finally_do m cleanup s = let (r, s') = m s in let (c, s'') = cleanup s' in (cleaned r c, s'')

module _ {Action S E : Type 0} where
  unfoldable pub modify : (S → S) → Program Action S E (Unit {0})
  modify f s = (ok tt, record s { memory = f s.memory })

  -- `if not condition: raise e`
  unfoldable pub check : Bool → E → Program Action S E (Unit {0})
  check true e s = (ok tt, s)
  check false e s = (err e, s)

  -- `for a in list: body(a)`
  unfoldable pub each :
      {A : Type 0} → List A → (A → Program Action S E (Unit {0})) → Program Action S E (Unit {0})
  unfolding pure
  each [] body = pure tt
  each (a ∷ rest) body = body a >>= λ _. each rest body

  -- `[body(a) for a in list]`
  unfoldable pub gather :
      {A B : Type 0} → List A → (A → Program Action S E B) → Program Action S E (List B)
  unfolding pure
  gather [] body = pure []
  gather (a ∷ rest) body = body a >>= λ b. gather rest body >>= λ bs. pure (b ∷ bs)

abbrev pub answered : {E A : Type 0} → Option A → E → Result E A
answered none e = err e
answered (some r) e = ok r

module _ {Action S E : Type 0} {Answer : Action → Type 0} (world : World Action Answer) where
  -- A call of the outside is noted, whether it raises or not.
  unfoldable pub call : E → (a : Action) → Program Action S E (Answer a)
  call e a s = (answered (world s.trace a) e, record s { trace = a ∷ s.trace })
