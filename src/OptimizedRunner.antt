-- ===== src/OptimizedRunner.antt =====
-- load/review-optimized.py on top of load/review-baseline.py: the improved service on copies of the
-- data sets, compared with what the baseline recorded. Here is what its parts share.
pub mod Classify
pub mod State
pub mod Found
pub mod Copy
pub mod Profile
pub mod Controls
pub mod Improved
mod Tests
use receipt_expense_review.Prelude.{
  ℕ, String, ◌≡◌, ◌↔◌, Bool, true, false, ◌&&◌, List, [], ◌∷◌, arith, Eq, ◌==◌, nat_eq, string_eq,
  Dict,
}
use receipt_expense_review.Program.{World, Program, pure, lift, gets, modify, ◌>>=◌, ◌>>◌, check}
use receipt_expense_review.Fixture.{Scenario, scenario_eq, Expected}
use receipt_expense_review.Optimized.{Row}
use receipt_expense_review.Runner.{
  Public, Page, Fingerprint, Comparison, Proof, Error, Action, Reply,
}
use receipt_expense_review.Runner.Setup.{ask}

abbrev pub page_beq : Page → Page → Bool
page_beq a b = a.dataset == b.dataset && (a.scenario == b.scenario && a.page == b.page)

pub page_beq_iff : (a b : Page) → (page_beq a b ≡ true) ↔ (a ≡ b)
page_beq_iff a b = ground (arith, scenario_eq.beq_iff a.scenario b.scenario)

instance abbrev pub page_eq : Eq Page
page_eq = record { beq = page_beq; beq_iff = page_beq_iff }

-- The script's variables: `metadata` and `PROOF`.
pub record Memory : Type 0 where
  pub metadata : Comparison
  pub proof : Proof

-- Code outside the repository: what `re` and `hashlib` answer, `str.lower` and the size of a text in
-- bytes, the field `imageId` of a row, and whether a text without its underscores `isalnum`.
pub record Tools : Type 0 where
  pub search : String → String → Bool
  pub substitute : String → String → String → String
  pub lower_strip : String → String
  pub starts : String → String → Bool
  pub is_hash : String → Bool
  pub sha256 : List String → String
  pub size : String → ℕ
  pub image_of : Row → String
  pub is_alphanumeric : String → Bool

abbrev pub Script : Type 0 → Type 0
Script A = Program Action Memory Error A

abbrev pub same_list {ℓ} : {A : Type ℓ} → (A → A → Bool) → List A → List A → Bool
same_list eq [] [] = true
same_list eq (x ∷ xs) (y ∷ ys) = eq x y && same_list eq xs ys
same_list eq _ _ = false

abbrev pub same_nat : ℕ → ℕ → Bool
same_nat a b = a == b

abbrev pub same_text : String → String → Bool
same_text a b = a == b

-- `public == baseline`
abbrev pub same_public : Public → Public → Bool
same_public a b =
    a.path == b.path
    && (same_list same_nat a.expected.ids b.expected.ids
        && (a.expected.total == b.expected.total
            && (a.expected.page == b.expected.page
                && (a.sha256 == b.sha256 && a.response_bytes == b.response_bytes))))

abbrev pub same_entry : String × Fingerprint → String × Fingerprint → Bool
same_entry (t, a) (u, b) =
    t == u
    && (same_list same_text a.columns b.columns && (a.rows == b.rows && a.sha256 == b.sha256))

-- `==` of two fingerprints, whose tables are in one order.
abbrev pub same_fingerprint : Dict String Fingerprint → Dict String Fingerprint → Bool
same_fingerprint a b = same_list same_entry a b

module _ (world : World Action Reply) where
  unfoldable pub persist : Script (Unit {0})
  persist = do s ← gets (λ s. s); ask world (Action.save_comparison s.metadata s.proof)

abbrev pub update : (Comparison → Comparison) → Script (Unit {0})
update f = modify λ s. record s { metadata = f s.metadata }
