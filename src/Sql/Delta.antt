-- ===== src/Sql/Delta.antt =====
-- `sql_delta` of load/run-reads.py, and `delta` of load/review-baseline.py and
-- load/review-optimized.py.
pub mod Accounting
mod Tests
use receipt_expense_review.Prelude.{
  List, [], ◌∷◌, map, if◌then◌else◌, ◌==◌, nat_eq, string_eq, Dict, lookup, insert, Result, ok,
  ◌>>=◌, ◌>>◌, or_raise,
}
use receipt_expense_review.Sql.{
  Kind, kind_eq, Counters, Row, Snapshot, Totals, no_totals, previous, difference, plus,
}

-- `totals[row['kind']]` on a kind with no entry raises `KeyError`; the optimized script tests first
-- and raises its own error.
pub data Error : Type 0 where
  unknown_kind : Kind → Error

-- `{kind: dict(count=0, ...) for kind in kinds}`
pub zeros : List Kind → Dict Kind Totals
zeros kinds = map (λ kind. (kind, no_totals)) kinds

pub delta_loop : Snapshot → Snapshot → Dict Kind Totals → Result Error (Dict Kind Totals)
delta_loop before [] totals = ok totals
delta_loop before ((digest, row) ∷ after) totals = do
  target ← or_raise (lookup row.kind totals) (unknown_kind row.kind)
  delta_loop before after
      (insert row.kind (plus target (difference (previous before digest) row.counters)) totals)

abbrev pub read_kinds : List Kind
read_kinds = Kind.employee ∷ Kind.receipt ∷ Kind.job ∷ []

-- `run-reads.py`
pub sql_delta : Snapshot → Snapshot → Result Error (Dict Kind Totals)
unfolding delta_loop zeros
sql_delta before after = delta_loop before after (zeros read_kinds)

abbrev pub baseline_kinds : List Kind
baseline_kinds = Kind.employee ∷ Kind.list ∷ Kind.count ∷ Kind.jobs ∷ []

-- `delta` of `review-baseline.py`
pub delta : Snapshot → Snapshot → Result Error (Dict Kind Totals)
unfolding delta_loop zeros
delta before after = delta_loop before after (zeros baseline_kinds)

-- `KINDS` of `review-optimized.py`
abbrev pub optimized_kinds : List Kind
optimized_kinds = Kind.employee ∷ Kind.ids ∷ Kind.entities ∷ Kind.count ∷ Kind.jobs ∷ []

-- The loop of `review-optimized.py` leaves out a digest that was not called in between.
pub changed_loop : Snapshot → Snapshot → Dict Kind Totals → Result Error (Dict Kind Totals)
changed_loop before [] totals = ok totals
changed_loop before ((digest, row) ∷ after) totals =
    let skipped = changed_loop before after totals in
    let counted = or_raise (lookup row.kind totals) (unknown_kind row.kind) >>= λ target.
    changed_loop before after
      (insert row.kind (plus target (difference (previous before digest) row.counters)) totals) in
    if row.count == (previous before digest).count then skipped else counted

-- `delta` of `review-optimized.py`, for the kinds in `ACTIVE_KINDS`
pub optimized_delta : List Kind → Snapshot → Snapshot → Result Error (Dict Kind Totals)
unfolding changed_loop zeros
optimized_delta active before after = changed_loop before after (zeros active)
