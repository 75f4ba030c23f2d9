-- ===== src/Ablation.antt =====
-- The index ablation experiment of load/review-index-ablation.py: what is measured and in which
-- order, the results on disk, and the loop that measures and resumes.
pub mod Schedule
pub mod Runs
use receipt_expense_review.Prelude.{
  ℕ, ◌≡◌, ◌↔◌, Bool, true, false, ◌&&◌, arith, Eq, ◌==◌, nat_eq, string_eq,
}
use receipt_expense_review.Fixture.{Scenario, scenario_eq}

pub data Variant : Type 0 where
  index_only id_first : Variant

abbrev pub variant_beq : Variant → Variant → Bool
variant_beq Variant.index_only Variant.index_only = true
variant_beq Variant.id_first Variant.id_first = true
variant_beq _ _ = false

pub variant_beq_iff : (a b : Variant) → (variant_beq a b ≡ true) ↔ (a ≡ b)
variant_beq_iff a b = ground arith

instance abbrev pub variant_eq : Eq Variant
variant_eq = record { beq = variant_beq; beq_iff = variant_beq_iff }

-- `(item['dataset'], item['scenario'], item['repeat'], item['variant'])`
pub record Key : Type 0 where
  pub dataset : ℕ
  pub scenario : Scenario
  pub repeat : ℕ
  pub variant : Variant

unfoldable pub key_beq : Key → Key → Bool
key_beq a b =
    a.dataset == b.dataset
    && (a.scenario == b.scenario && (a.repeat == b.repeat && a.variant == b.variant))

pub key_beq_iff : (a b : Key) → (key_beq a b ≡ true) ↔ (a ≡ b)
unfolding key_beq
key_beq_iff a b =
    ground (arith, scenario_eq.beq_iff a.scenario b.scenario, variant_beq_iff a.variant b.variant)

instance abbrev pub key_eq : Eq Key
key_eq = record { beq = key_beq; beq_iff = key_beq_iff }
