-- ===== src/OptimizedRunner/Found.antt =====
-- What a restoration finds: the state of the app directly after its restart, and a fingerprint that
-- is the recorded one (`restore` of load/review-optimized.py and load/review-index-ablation.py).
use receipt_expense_review.Prelude.{
  String, ◌≡◌, refl, Bool, true, some, List, [], ◌∷◌, nat_eq, string_eq, Dict, both,
}
use receipt_expense_review.Program.{Machine, World}
use receipt_expense_review.Program.Outcomes.{Returns}
use receipt_expense_review.Runner.{Fingerprint, AppState, Action, Reply}
use receipt_expense_review.Runner.Text.{occurs_in}
use receipt_expense_review.OptimizedRunner.{
  Tools, same_list, same_text, same_entry, same_fingerprint,
}
use receipt_expense_review.OptimizedRunner.State.{app_state, fingerprint_of, app_tag}

same_list-eq :
    {A : Type 0} (same : A → A → Bool)
    → ((x y : A) → same x y ≡ true → x ≡ y)
    → (xs ys : List A) → same_list same xs ys ≡ true
    → xs ≡ ys
same_list-eq same one [] [] h = refl
same_list-eq same one [] (y ∷ ys) h = cc
same_list-eq same one (x ∷ xs) [] h = cc
same_list-eq same one (x ∷ xs) (y ∷ ys) h =
    let (h1, h2) = both (same x y) (same_list same xs ys) h in
    let e = one x y h1 in let f = same_list-eq same one xs ys h2 in cc

pub same_text-eq : (xs ys : List String) → same_list same_text xs ys ≡ true → xs ≡ ys
same_text-eq = same_list-eq same_text (λ x y. (string_eq.beq_iff x y).0)

same_entry_eq : (a b : String × Fingerprint) → same_entry a b ≡ true → a ≡ b
same_entry_eq (t, a) (u, b) h =
    let (h1, h2) = both _ _ h in
    let (h3, h4) = both _ _ h2 in
    let (h5, h6) = both _ _ h4 in
    let e1 = (string_eq.beq_iff t u).0 h1 in
    let e3 = same_text-eq a.columns b.columns h3 in
    let e5 = (nat_eq.beq_iff a.rows b.rows).0 h5 in
    let e6 = (string_eq.beq_iff a.sha256 b.sha256).0 h6 in
    λ i. (e1 i, record { columns = e3 i; rows = e5 i; sha256 = e6 i })

-- Fingerprints that the scripts take for equal are equal.
pub same_fingerprint-eq : (a b : Dict String Fingerprint) → same_fingerprint a b ≡ true → a ≡ b
same_fingerprint-eq a b h = same_list-eq same_entry same_entry_eq a b h

module _ {S : Type 0} (world : World Action Reply) (tools : Tools) where
  -- After the calls of `before`, the image was put under the app's tag and the app was started anew
  -- from the compose file alone; what was read of it then, up to `after`, shows that image and the
  -- original database.
  pub record IsHome (image : String) (before : List Action) (after : Machine Action S)
      : Type 0 where
    pub start : Machine Action S
    pub state : AppState
    pub restarted :
        start.trace
        ≡ Action.app_ready ∷ Action.recreate_app ∷ Action.tag_image image app_tag ∷ before
    pub read : Returns (app_state world tools) start state after
    pub same_image : state.image_id ≡ image
    pub same_database : occurs_in "/receipt_loadtest?" state.database_url ≡ true

  -- The fingerprint of the tables, taken from `start` on, was saved, and the file that was read next
  -- holds the same fingerprint.
  pub record IsUnchanged (tables : List String) (database saved recorded : String)
      (start : Machine Action S) : Type 0 where
    pub found : Dict String Fingerprint
    pub after : Machine Action S
    pub taken : Returns (fingerprint_of world tools tables database) start found after
    pub same :
        world (Action.save_fingerprint saved found ∷ after.trace) (Action.read_fingerprint recorded)
        ≡ some found
