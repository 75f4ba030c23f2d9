-- ===== src/Sql.antt =====
-- The SQL evidence of a load test: what performance_schema counted for each kind of statement
-- between two snapshots (load/run-reads.py, load/review-baseline.py, load/review-optimized.py).
pub mod Delta
pub mod Assess
use receipt_expense_review.Prelude.{
  ℕ, ◌*◌, String, ◌≡◌, ◌↔◌, Bool, true, Option, none, some, arith, nat_beq, Eq, nat_eq, string_eq,
  Dict, lookup,
}
use receipt_expense_review.Prelude.Int.{ℤ, pos, sub_ℕ, ◌+ℤ◌, +ℤ_assoc, zero-+ℤ, +ℤ-zero}

-- The values of `row['kind']` in the three scripts.
pub data Kind : Type 0 where
  employee receipt job list count jobs ids entities : Kind

abbrev code : Kind → ℕ
code Kind.employee = 0
code Kind.receipt = 1
code Kind.job = 2
code Kind.list = 3
code Kind.count = 4
code Kind.jobs = 5
code Kind.ids = 6
code Kind.entities = 7

abbrev kind_beq : Kind → Kind → Bool
kind_beq a b = nat_beq (code a) (code b)

pub kind_beq_iff : (a b : Kind) → (kind_beq a b ≡ true) ↔ (a ≡ b)
kind_beq_iff a b = ground arith

instance abbrev pub kind_eq : Eq Kind
kind_eq = record { beq = kind_beq; beq_iff = kind_beq_iff }

-- What one digest has counted so far; `timer` is in picoseconds.
pub record Counters : Type 0 where
  pub count : ℕ
  pub timer : ℕ
  pub rows_examined : ℕ
  pub rows_sent : ℕ
  pub errors : ℕ

pub record Row : Type 0 where
  pub kind : Kind
  pub counters : Counters
  pub open counters use *

abbrev pub Snapshot : Type 0
Snapshot = Dict String Row

-- The value of one kind in the result; `timer` stays in picoseconds (the source divides by 1e9).
pub record Totals : Type 0 where
  pub count : ℤ
  pub timer : ℤ
  pub rows_examined : ℤ
  pub rows_sent : ℤ
  pub errors : ℤ

abbrev pub no_counters : Counters
no_counters = record { count = 0; timer = 0; rows_examined = 0; rows_sent = 0; errors = 0 }

abbrev pub no_totals : Totals
no_totals = record {
  count = pos 0;
  timer = pos 0;
  rows_examined = pos 0;
  rows_sent = pos 0;
  errors = pos 0;
}

-- `before.get(digest, {})`, read by `.get(field, 0)`
abbrev pub counters_of : Option Row → Counters
counters_of none = no_counters
counters_of (some row) = row.counters

abbrev pub previous : Snapshot → String → Counters
previous before digest = counters_of (lookup digest before)

abbrev pub difference : Counters → Counters → Totals
difference p n = record {
  count = sub_ℕ n.count p.count;
  timer = sub_ℕ n.timer p.timer;
  rows_examined = sub_ℕ n.rows_examined p.rows_examined;
  rows_sent = sub_ℕ n.rows_sent p.rows_sent;
  errors = sub_ℕ n.errors p.errors;
}

-- `target[field] += ...`, for every field
pub plus : Totals → Totals → Totals
plus s t = record {
  count = s.count +ℤ t.count;
  timer = s.timer +ℤ t.timer;
  rows_examined = s.rows_examined +ℤ t.rows_examined;
  rows_sent = s.rows_sent +ℤ t.rows_sent;
  errors = s.errors +ℤ t.errors;
}

pub plus_assoc : (s t u : Totals) → plus (plus s t) u ≡ plus s (plus t u)
unfolding plus
plus_assoc s t u = λ i. record {
  count = +ℤ_assoc s.count t.count u.count i;
  timer = +ℤ_assoc s.timer t.timer u.timer i;
  rows_examined = +ℤ_assoc s.rows_examined t.rows_examined u.rows_examined i;
  rows_sent = +ℤ_assoc s.rows_sent t.rows_sent u.rows_sent i;
  errors = +ℤ_assoc s.errors t.errors u.errors i;
}

pub plus-no_totals : (s : Totals) → plus s no_totals ≡ s
unfolding plus
plus-no_totals s = λ i. record {
  count = +ℤ-zero s.count i;
  timer = +ℤ-zero s.timer i;
  rows_examined = +ℤ-zero s.rows_examined i;
  rows_sent = +ℤ-zero s.rows_sent i;
  errors = +ℤ-zero s.errors i;
}

pub no_totals-plus : (s : Totals) → plus no_totals s ≡ s
unfolding plus
no_totals-plus s = λ i. record {
  count = zero-+ℤ s.count i;
  timer = zero-+ℤ s.timer i;
  rows_examined = zero-+ℤ s.rows_examined i;
  rows_sent = zero-+ℤ s.rows_sent i;
  errors = zero-+ℤ s.errors i;
}
