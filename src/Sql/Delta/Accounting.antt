-- ===== src/Sql/Delta/Accounting.antt =====
-- What the three delta functions report for each kind, against a plain sum over the digests.
use receipt_expense_review.Prelude.{
  ◌≡◌, refl, ap, ◌∙◌, subst, inl, inr, Bool, true, false, not, none, some, List, [], ◌∷◌, arith,
  if◌then◌else◌, ◌==◌, nat_eq, string_eq, Bool-cases, Option-cases, select, any, contains, Dict,
  lookup, insert, lookup-insert_self, lookup-insert_ne, ok, err,
}
use receipt_expense_review.Sql.{
  Kind, kind_eq, Snapshot, Totals, no_totals, previous, difference, plus, plus_assoc,
  plus-no_totals, no_totals-plus,
}
use receipt_expense_review.Sql.Delta.{
  unknown_kind, zeros, delta_loop, read_kinds, sql_delta, changed_loop, optimized_delta,
}

-- The growth of every digest of the kind, added up from the right.
unfoldable pub spent : Kind → Snapshot → Snapshot → Totals
spent kind before [] = no_totals
spent kind before ((digest, row) ∷ after) =
    let rest = spent kind before after in
    if row.kind == kind then plus (difference (previous before digest) row.counters) rest else rest

-- Every row is of a kind that is counted.
abbrev pub Known : List Kind → Snapshot → Type 0
Known kinds [] = Unit
Known kinds ((digest, row) ∷ after) = (contains kinds row.kind ≡ true) × Known kinds after

-- The dict holds `g k` under every counted kind.
abbrev Holds : List Kind → (Kind → Totals) → Dict Kind Totals → Type 0
Holds kinds g totals = (k : Kind) → contains kinds k ≡ true → lookup k totals ≡ some (g k)

zeros-Holds : (kinds : List Kind) → Holds kinds (λ _. no_totals) (zeros kinds)
unfolding zeros
zeros-Holds [] k h = cc
zeros-Holds (j ∷ kinds) k h = ground (arith, zeros-Holds kinds k)

-- The totals after one row has been added.
add_at : Kind → Totals → (Kind → Totals) → Kind → Totals
add_at j d g k = if j == k then plus (g k) d else g k

insert-Holds :
    (kinds : List Kind) (j : Kind) (d : Totals) (g : Kind → Totals) (totals : Dict Kind Totals)
    → Holds kinds g totals
    → Holds kinds (add_at j d g) (insert j (plus (g j) d) totals)
unfolding add_at
insert-Holds kinds j d g totals holds k h = elim (Bool-cases (j == k)) [
  | inl same ↦
      let e = (kind_eq.beq_iff j k).0 same in
      rw same (
        subst (λ i. lookup i (insert j (plus (g j) d) totals) ≡ some (plus (g i) d)) e
          (lookup-insert_self j (plus (g j) d) totals))
  | inr other ↦ rw other (
      lookup-insert_ne j k (plus (g j) d) totals (λ e. cc (other, (kind_eq.beq_iff j k).1 e))
      ∙ holds k h)
]

spent_step :
    (j k : Kind) (d rest : Totals) (g : Kind → Totals)
    → plus (add_at j d g k) rest ≡ plus (g k) (if j == k then plus d rest else rest)
unfolding add_at
spent_step j k d rest g = elim (Bool-cases (j == k)) [
  | inl same ↦ rw same (plus_assoc (g k) d rest)
  | inr other ↦ rw other refl
]

delta_loop-Holds :
    (kinds : List Kind) (before after : Snapshot) (g : Kind → Totals) (totals : Dict Kind Totals)
    → Known kinds after
    → Holds kinds g totals
    → (t : Dict Kind Totals) × (delta_loop before after totals ≡ ok t)
      × Holds kinds (λ k. plus (g k) (spent k before after)) t
unfolding delta_loop spent
delta_loop-Holds kinds before [] g totals known holds =
    (totals, refl, λ k h. rw (plus-no_totals (g k)) (holds k h))
delta_loop-Holds kinds before ((digest, row) ∷ after) g totals known holds =
    let d = difference (previous before digest) row.counters in
    let (t, e, rest) =
      delta_loop-Holds kinds before after (add_at row.kind d g)
        (insert row.kind (plus (g row.kind) d) totals) known.1
        (insert-Holds kinds row.kind d g totals holds) in
    (
      t,
      rw (holds row.kind known.0, delta_loop) e,
      λ k h. rest k h ∙ ap some (spent_step row.kind k d (spent k before after) g),
    )

-- When every new row is of one of the three kinds, `sql_delta` returns, and under each kind stands
-- the growth of the digests of that kind: no digest is missed, counted twice or put under another.
pub sql_delta-counts :
    (before after : Snapshot)
    → Known read_kinds after
    → (t : Dict Kind Totals) × (sql_delta before after ≡ ok t)
      × ((k : Kind) → contains read_kinds k ≡ true → lookup k t ≡ some (spent k before after))
unfolding sql_delta
sql_delta-counts before after known =
    let (t, e, rest) =
      delta_loop-Holds read_kinds before after (λ _. no_totals) (zeros read_kinds) known
        (zeros-Holds read_kinds) in
    (t, e, λ k h. rest k h ∙ ap some (no_totals-plus (spent k before after)))

-- The rows that `review-optimized.py` does not skip.
abbrev pub changed : Snapshot → Snapshot → Snapshot
changed before after =
    select (λ entry. not (entry.1.count == (previous before entry.0).count)) after

-- The optimized loop is the plain one on the rows whose call count has changed.
changed_loop-eq :
    (before after : Snapshot) (totals : Dict Kind Totals)
    → changed_loop before after totals ≡ delta_loop before (changed before after) totals
unfolding changed_loop delta_loop
changed_loop-eq before [] totals = refl
changed_loop-eq before ((digest, row) ∷ after) totals =
    elim (Bool-cases (row.count == (previous before digest).count)) [
      | inl same ↦ rw same (changed_loop-eq before after totals)
      | inr other ↦ rw other (elim (Option-cases (lookup row.kind totals)) [
        | inl e ↦ rw (e, delta_loop) refl
        | inr (s, e) ↦ rw (e, delta_loop) (changed_loop-eq before after _)
      ])
    ]

-- When every row whose call count has changed is of an active kind, `delta` of the optimized runner
-- returns, and under each active kind stands the growth of the changed digests of that kind.
pub optimized_delta-counts :
    (active : List Kind) (before after : Snapshot)
    → Known active (changed before after)
    → (t : Dict Kind Totals) × (optimized_delta active before after ≡ ok t)
      × ((k : Kind)
          → contains active k ≡ true
          → lookup k t ≡ some (spent k before (changed before after)))
unfolding optimized_delta
optimized_delta-counts active before after known =
    let (t, e, rest) =
      delta_loop-Holds active before (changed before after) (λ _. no_totals) (zeros active) known
        (zeros-Holds active) in
    (
      t,
      changed_loop-eq before after (zeros active) ∙ e,
      λ k h. rest k h ∙ ap some (no_totals-plus (spent k before (changed before after))),
    )

-- A lookup for a kind that is not counted fails.
Covers : List Kind → Dict Kind Totals → Type 0
Covers kinds totals = (k : Kind) → contains kinds k ≡ false → lookup k totals ≡ none

zeros-Covers : (kinds : List Kind) → Covers kinds (zeros kinds)
unfolding zeros Covers
zeros-Covers [] k h = refl
zeros-Covers (j ∷ kinds) k h = ground (arith, zeros-Covers kinds k)

insert-Covers :
    (kinds : List Kind) (j : Kind) (s : Totals) (totals : Dict Kind Totals)
    → contains kinds j ≡ true
    → Covers kinds totals
    → Covers kinds (insert j s totals)
unfolding Covers
insert-Covers kinds j s totals known covers k h =
    lookup-insert_ne j k s totals (λ e. cc (subst (λ i. contains kinds i ≡ true) e known, h))
    ∙ covers k h

stray : List Kind → Snapshot → Bool
stray kinds after = any (λ entry. not (contains kinds entry.1.kind)) after

delta_loop-raises :
    (kinds : List Kind) (before after : Snapshot) (g : Kind → Totals) (totals : Dict Kind Totals)
    → Holds kinds g totals
    → Covers kinds totals
    → stray kinds after ≡ true
    → (k : Kind) × (contains kinds k ≡ false)
      × (delta_loop before after totals ≡ err (unknown_kind k))
unfolding delta_loop stray Covers
delta_loop-raises kinds before [] g totals holds covers h = cc
delta_loop-raises kinds before ((digest, row) ∷ after) g totals holds covers h =
    elim (Bool-cases (contains kinds row.kind)) [
      | inl known ↦
          let d = difference (previous before digest) row.counters in
          let (k, out, e) =
            delta_loop-raises kinds before after (add_at row.kind d g)
              (insert row.kind (plus (g row.kind) d) totals)
              (insert-Holds kinds row.kind d g totals holds)
              (insert-Covers kinds row.kind (plus (g row.kind) d) totals known covers)
              (ground arith) in
          (k, out, rw (holds row.kind known, delta_loop) e)
      | inr out ↦ (row.kind, out, rw (covers row.kind out, delta_loop) refl)
    ]

-- When some row whose call count has changed is of a kind that is not active, the optimized `delta`
-- raises, and the error names an inactive kind: such a statement is never left out of the evidence.
pub optimized_delta-raises :
    (active : List Kind) (before after : Snapshot)
    → any (λ entry. not (contains active entry.1.kind)) (changed before after) ≡ true
    → (k : Kind) × (contains active k ≡ false)
      × (optimized_delta active before after ≡ err (unknown_kind k))
unfolding optimized_delta stray
optimized_delta-raises active before after h =
    let (k, out, e) =
      delta_loop-raises active before (changed before after) (λ _. no_totals) (zeros active)
        (zeros-Holds active) (zeros-Covers active) h in
    (k, out, changed_loop-eq before after (zeros active) ∙ e)
