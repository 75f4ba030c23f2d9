-- ===== src/Duplicates/Verdict/ExactlyOnce/Same.antt =====
-- The comparison of two snapshots decides their equality.
use receipt_expense_review.Prelude.{
  both, ℕ, String, ◌≡◌, refl, ap, Bool, true, Option, none, some, List, [], ◌∷◌, Eq, ◌==◌, nat_eq,
  string_eq,
}
use receipt_expense_review.Duplicates.{ReceiptRow, JobRow, AuditRow, KeyRow, Tables}
use receipt_expense_review.Duplicates.Responses.{option_eq}
use receipt_expense_review.Duplicates.Verdict.{
  list_beq, receipt_beq, job_beq, audit_beq, key_row_beq, tables_beq,
}

pub same : {A : Type 0} ⦃e : Eq A⦄ (a b : A) → (a == b) ≡ true → a ≡ b
same ⦃e⦄ a b h = (e.beq_iff a b).0 h

pub option_same : {A : Type 0} ⦃e : Eq A⦄ (a b : Option A) → option_eq a b ≡ true → a ≡ b
option_same none none h = refl
option_same (some a) (some b) h = ap some (same a b h)
option_same none (some b) h = cc
option_same (some a) none h = cc

list_same :
    {A : Type 0} (f : A → A → Bool)
    → ((a b : A) → f a b ≡ true → a ≡ b)
    → (xs ys : List A) → list_beq f xs ys ≡ true
    → xs ≡ ys
list_same f sound [] [] h = refl
list_same f sound (x ∷ xs) (y ∷ ys) h =
    let parts = both _ _ h in
    let head = sound x y parts.0 in let tail = list_same f sound xs ys parts.1 in cc
list_same f sound [] (y ∷ ys) h = cc
list_same f sound (x ∷ xs) [] h = cc

pub string_list_same : (xs ys : List String) → list_beq (λ a b. a == b) xs ys ≡ true → xs ≡ ys
string_list_same = list_same (λ a b. a == b) (λ a b h. same a b h)

abbrev receipt_row : ℕ → ℕ → Option String → ℕ → String → ℕ → ReceiptRow
receipt_row i o st v sh sz = record {
  id = i;
  owner_id = o;
  status = st;
  version = v;
  sha256 = sh;
  size = sz;
}

receipt_same : (a b : ReceiptRow) → receipt_beq a b ≡ true → a ≡ b
receipt_same a b h =
    let p = both _ _ h in
    let q = both _ _ p.1 in
    let r = both _ _ q.1 in
    let s = both _ _ r.1 in
    let t = both _ _ s.1 in
    rows (same _ _ p.0) (same _ _ q.0) (option_same _ _ r.0) (same _ _ s.0) (same _ _ t.0)
      (same _ _ t.1)
  where
    rows :
        {i i' o o' v v' z z' : ℕ} {st st' : Option String} {sh sh' : String}
        → i ≡ i'
        → o ≡ o'
        → st ≡ st'
        → v ≡ v'
        → sh ≡ sh'
        → z ≡ z'
        → receipt_row i o st v sh z ≡ receipt_row i' o' st' v' sh' z'
    rows e f g h i j = rw (e, f, g, h, i, j) refl

abbrev job_row : ℕ → ℕ → String → ℕ → ℕ → ℕ → String → JobRow
job_row i r st n d v k = record {
  id = i;
  receipt_id = r;
  status = st;
  attempt_count = n;
  duplicate_detected = d;
  version = v;
  storage_key = k;
}

job_same : (a b : JobRow) → job_beq a b ≡ true → a ≡ b
job_same a b h =
    let p = both _ _ h in
    let q = both _ _ p.1 in
    let r = both _ _ q.1 in
    let s = both _ _ r.1 in
    let t = both _ _ s.1 in
    let u = both _ _ t.1 in
    rows (same _ _ p.0) (same _ _ q.0) (same _ _ r.0) (same _ _ s.0) (same _ _ t.0) (same _ _ u.0)
      (same _ _ u.1)
  where
    rows :
        {i i' o o' n n' d d' v v' : ℕ} {st st' k k' : String}
        → i ≡ i'
        → o ≡ o'
        → st ≡ st'
        → n ≡ n'
        → d ≡ d'
        → v ≡ v'
        → k ≡ k'
        → job_row i o st n d v k ≡ job_row i' o' st' n' d' v' k'
    rows e f g h i j k = rw (e, f, g, h, i, j, k) refl

abbrev audit_row : ℕ → ℕ → String → Option String → Option String → AuditRow
audit_row i r a p n = record {
  id = i;
  receipt_id = r;
  action = a;
  previous_status = p;
  new_status = n;
}

audit_same : (a b : AuditRow) → audit_beq a b ≡ true → a ≡ b
audit_same a b h =
    let p = both _ _ h in
    let q = both _ _ p.1 in
    let r = both _ _ q.1 in
    let s = both _ _ r.1 in
    rows (same _ _ p.0) (same _ _ q.0) (same _ _ r.0) (option_same _ _ s.0) (option_same _ _ s.1)
  where
    rows :
        {i i' r r' : ℕ} {a a' : String} {p p' n n' : Option String}
        → i ≡ i'
        → r ≡ r'
        → a ≡ a'
        → p ≡ p'
        → n ≡ n'
        → audit_row i r a p n ≡ audit_row i' r' a' p' n'
    rows e f g h i = rw (e, f, g, h, i) refl

abbrev key_row : ℕ → String → KeyRow
key_row r k = record { receipt_id = r; key = k }

key_same : (a b : KeyRow) → key_row_beq a b ≡ true → a ≡ b
key_same a b h = let p = both _ _ h in rows (same _ _ p.0) (same _ _ p.1)
  where
    rows : {r r' : ℕ} {k k' : String} → r ≡ r' → k ≡ k' → key_row r k ≡ key_row r' k'
    rows e f = rw (e, f) refl

abbrev tables_of : List ReceiptRow → List JobRow → List AuditRow → List KeyRow → Tables
tables_of r j a k = record { receipts = r; jobs = j; audit = a; keys = k }

pub tables_same : (a b : Tables) → tables_beq a b ≡ true → a ≡ b
unfolding tables_beq
tables_same a b h =
    let p = both _ _ h in
    let q = both _ _ p.1 in
    let r = both _ _ q.1 in
    tables (list_same receipt_beq receipt_same _ _ p.0) (list_same job_beq job_same _ _ q.0)
      (list_same audit_beq audit_same _ _ r.0) (list_same key_row_beq key_same _ _ r.1)
  where
    tables :
        {r r' : List ReceiptRow} {j j' : List JobRow} {a a' : List AuditRow} {k k' : List KeyRow}
        → r ≡ r'
        → j ≡ j'
        → a ≡ a'
        → k ≡ k'
        → tables_of r j a k ≡ tables_of r' j' a' k'
    tables e f g h = rw (e, f, g, h) refl
