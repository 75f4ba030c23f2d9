-- ===== src/OptimizedRunner/Improved/Home.antt =====
-- `restore` of load/review-optimized.py: what was found of the app and of the original database.
use receipt_expense_review.Prelude.{
  String, ◌≡◌, sym, ap, ◌∙◌, subst, inl, inr, Bool, true, false, ◌&&◌, some, List, [], ◌∷◌, ◌==◌,
  nat_eq, string_eq, Bool-cases, Dict, lookup, or_raise, both,
}
use receipt_expense_review.Program.{Machine, World, lift}
use receipt_expense_review.Program.Outcomes.{Returns, bind-Returns, check_memory}
use receipt_expense_review.Program.Calls.{call-Returns, lift-Returns, modify_trace, pure-Returns}
use receipt_expense_review.Runner.{Fingerprint, AppState, Error, Action, Reply}
use receipt_expense_review.Runner.Setup.{ask}
use receipt_expense_review.Runner.Text.{occurs_in}
use receipt_expense_review.OptimizedRunner.{Memory, Tools, same_fingerprint, persist}
use receipt_expense_review.OptimizedRunner.State.{
  restore, is_home, data_restored, note_restored, fingerprint, app_state, original, app_tag,
}
use receipt_expense_review.OptimizedRunner.Found.{IsHome, IsUnchanged, same_fingerprint-eq}

-- The tables of the fingerprint that `restore` takes.
abbrev pub restored_tables : List String
restored_tables = "receipts" ∷ "receipt_extraction_jobs" ∷ []

-- The app is at home with the image, and the original database is unchanged.
pub record IsRestored (world : World Action Reply) (tools : Tools) (image : String)
    (before : List Action) : Type 0 where
  pub after : Machine Action Memory
  pub home : IsHome world tools image before after
  pub unchanged :
      IsUnchanged world tools restored_tables "receipt_loadtest" "original-fingerprint-after"
        "original-fingerprint-before" after

module _ (world : World Action Reply) (tools : Tools) where
  note_restored-true :
      (restored : Bool) (s t : Machine Action Memory) (u : Unit {0})
      → Returns (note_restored world tools restored) s u t
      → restored ≡ true
  unfolding note_restored
  note_restored-true restored s t u h =
      let (v, s1, h1, h2) = bind-Returns _ _ s t u h in
      let (w, s2, h3, h4) = bind-Returns (persist world) _ s1 t u h2 in
      (check_memory restored _ s2 t u h4).0

  data_restored-lem :
      (state : AppState) (image : String) (actual : Dict String Fingerprint)
      (s t : Machine Action Memory)
      → Returns (data_restored world tools state image actual) s true t
      → (occurs_in "/receipt_loadtest?" state.database_url ≡ true)
        × (state.image_id ≡ image)
        × (world s.trace (Action.read_fingerprint "original-fingerprint-before") ≡ some actual)
  data_restored-lem state image actual s t h =
      elim (Bool-cases (is_home state && state.image_id == image)) [
        | inl e ↦
            let (a, b) = both (is_home state) (state.image_id == image) e in
            let (recorded, s1, h1, h2) =
              bind-Returns (ask world (Action.read_fingerprint "original-fingerprint-before")) _ s t
                true (rw e at h) in
            let (same, _) = pure-Returns (same_fingerprint actual recorded) true s1 t h2 in
            let (read, _) =
              call-Returns world Error.outside
                (Action.read_fingerprint "original-fingerprint-before") s s1 recorded h1 in
            (
              a,
              (string_eq.beq_iff state.image_id image).0 b,
              read ∙ ap some (sym (same_fingerprint-eq actual recorded same)),
            )
        | inr e ↦ let (f, _) = pure-Returns false true s t (rw e at h) in absurd (differ f)
      ]
    where
      differ : false ≡ true → ⊥
      differ h = cc

  pub restore-IsRestored :
      (image : String) (s t : Machine Action Memory) (u : Unit {0})
      → Returns (restore world tools image) s u t
      → IsRestored world tools image s.trace
  unfolding restore
  restore-IsRestored image s t u h =
      let (v1, s1, h1, k1) = bind-Returns (ask world (Action.tag_image image app_tag)) _ s t u h in
      let (v2, s2, h2, k2) = bind-Returns (ask world Action.recreate_app) _ s1 t u k1 in
      let (v3, s3, h3, k3) = bind-Returns (ask world Action.app_ready) _ s2 t u k2 in
      let (state, s4, h4, k4) = bind-Returns (app_state world tools) _ s3 t u k3 in
      let (actual, s5, h5, k5) = bind-Returns (fingerprint world tools original) _ s4 t u k4 in
      let (v6, s6, h6, k6) =
        bind-Returns (ask world (Action.save_fingerprint "original-fingerprint-after" actual)) _ s5
          t u k5 in
      let (receipts, s7, h7, k7) =
        bind-Returns (lift (or_raise (lookup "receipts" actual) Error.key_error)) _ s6 t u k6 in
      let (v8, s8, h8, k8) = bind-Returns _ _ s7 t u k7 in
      let (restored, s9, h9, k9) =
        bind-Returns (data_restored world tools state image actual) _ s8 t u k8 in
      let yes = note_restored-true restored s9 t u k9 in
      let (database, same_image, read) =
        data_restored-lem state image actual s8 s9
          (subst (λ b. Returns (data_restored world tools state image actual) s8 b s9) yes h9) in
      let e1 = (call-Returns world Error.outside (Action.tag_image image app_tag) s s1 v1 h1).1 in
      let e2 = (call-Returns world Error.outside Action.recreate_app s1 s2 v2 h2).1 in
      let e3 = (call-Returns world Error.outside Action.app_ready s2 s3 v3 h3).1 in
      let e6 =
        (call-Returns world Error.outside
          (Action.save_fingerprint "original-fingerprint-after" actual) s5 s6 v6 h6).1 in
      let e7 : s7.trace ≡ s6.trace =
        ap (λ x. x.trace)
          (lift-Returns (or_raise (lookup "receipts" actual) Error.key_error) s6 s7 receipts
            h7).1 in
      let e8 : s8.trace ≡ s7.trace = modify_trace _ s7 s8 v8 h8 in
      record {
        after = s4;
        home = record {
          start = s3;
          state = state;
          restarted =
              e3 ∙ ap (λ l. Action.app_ready ∷ l) (e2 ∙ ap (λ l. Action.recreate_app ∷ l) e1);
          read = h4;
          same_image = same_image;
          same_database = database;
        };
        unchanged = record {
          found = actual;
          after = s5;
          taken = h5;
          same =
              subst
                (λ l. world l (Action.read_fingerprint "original-fingerprint-before") ≡ some actual)
                (e8 ∙ e7 ∙ e6) read;
        };
      }
