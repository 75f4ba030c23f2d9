-- ===== src/Runner/Frame.antt =====
-- The steps of load/review-baseline.py that change none of the script's variables.
use receipt_expense_review.Prelude.{ℕ, String, Bool, Option, nat_eq, string_eq}
use receipt_expense_review.Program.{Machine, World, Program, ◌>>=◌, ◌>>◌, check}
use receipt_expense_review.Program.Keeps.{
  Keeps, Keeps-pure, Keeps-bind, Keeps-finally_do, Keeps-check, Keeps-each, Keeps-gather,
  Keeps-call,
}
use receipt_expense_review.Sql.{Kind, Snapshot}
use receipt_expense_review.Reports.{Combination}
use receipt_expense_review.Runner.{Public, Load, Measurement, Page, Error, Action, Reply}
use receipt_expense_review.Runner.Setup.{ask, configure_database, seed, fixture, snapshot}
use receipt_expense_review.Runner.Measure.{
  Hooks, measure, measured, started, warm_up, loaded, send_all, kept,
}
use receipt_expense_review.Runner.Profile.{profile, profile_page, sequential_requests, explain_all}

-- A statement about the variables only.
abbrev pub Of : {S : Type 0} → (S → Type 0) → Machine Action S → Type 0
Of Q s = Q s.memory

module _ {S : Type 0} (world : World Action Reply) (Q : S → Type 0) where
  pub ask-Keeps : (a : Action) → Keeps (Of Q) (ask {S = S} world a)
  ask-Keeps a = Keeps-call world Error.outside a λ s h. h

  pub asks :
      {B : Type 0} (a : Action) (f : Reply a → Program Action S Error B)
      → ((r : Reply a) → Keeps (Of Q) (f r))
      → Keeps (Of Q) (ask {S = S} world a >>= f)
  asks a f k = Keeps-bind (ask {S = S} world a) f (ask-Keeps a) k

  pub checks :
      {B : Type 0} (c : Bool) (e : Error) (m : Program Action S Error B)
      → Keeps (Of Q) m
      → Keeps (Of Q) (check c e >> m)
  checks c e m k = Keeps-bind (check c e) (λ _. m) (Keeps-check c e) λ _. k

  pub configure_database-Keeps :
      (database : String) → Keeps (Of Q) (configure_database {S = S} world database)
  unfolding configure_database
  configure_database-Keeps database = asks (Action.create_database _) _ λ _.
      asks (Action.write_override _) _
        λ _. asks (Action.recreate_app_on _) _ λ _. ask-Keeps Action.app_ready

  pub seed-Keeps : (database : String) → Keeps (Of Q) (seed {S = S} world database)
  unfolding seed
  seed-Keeps database =
      asks (Action.count_receipts _) _ λ _. checks _ _ _ (ask-Keeps (Action.insert_dataset _))

  pub fixture-Keeps :
      (directory : String) (page : Page) → Keeps (Of Q) (fixture {S = S} world directory page)
  unfolding fixture
  fixture-Keeps directory page = asks Action.login _ λ _. asks (Action.request _) _ λ _.
      checks _ _ _ (
        asks (Action.save_fixture _ _ _) _
          λ _. asks Action.fresh_name _ λ _. asks (Action.write_session _ _) _ λ _. Keeps-pure _)

  pub snapshot-Keeps :
      (kind_of : String → Option Kind) (database : String)
      → Keeps (Of Q) (snapshot {S = S} world kind_of database)
  unfolding snapshot
  snapshot-Keeps kind_of database = asks (Action.statement_digests _) _ λ _. Keeps-pure _

  -- The functions that the optimized runner replaces have to keep it too.
  module _ (hooks : Hooks S)
      (fixture_keeps : (d : String) (p : Page) → Keeps (Of Q) (hooks.fixture d p))
      (snapshot_keeps : (d : String) → Keeps (Of Q) (hooks.snapshot d))
      (delta_keeps : (x y : Snapshot) → Keeps (Of Q) (hooks.delta x y)) where
    loaded-Keeps :
        (session run_id : String) (combination : Combination) (load : Load) (database : String)
        → Keeps (Of Q) (loaded world hooks session run_id combination load database)
    unfolding loaded
    loaded-Keeps session run_id combination load database = Keeps-bind _ _ (snapshot_keeps _) λ _.
        asks (Action.start_monitor _) _ λ _. asks Action.now _ λ _.
          Keeps-bind _ _
            (Keeps-finally_do _ _
              (asks (Action.run_k6 _ _ _ _ _ _) _
                λ _. asks Action.now _ λ _. Keeps-bind _ _ (snapshot_keeps _) λ _. Keeps-pure _)
              (ask-Keeps Action.stop_monitor))
            λ _. Keeps-pure _

    kept-Keeps : (m : Measurement) → Keeps (Of Q) (kept world hooks m)
    unfolding kept send_all
    kept-Keeps m =
        Keeps-bind _ _
          (asks (Action.send_summary _) _
            λ _. Keeps-each _ _ λ _. ask-Keeps (Action.send_sql _ _ _))
          λ _. asks (Action.save_result _) _ λ _. checks _ _ _ (Keeps-pure _)

    measured-Keeps :
        (session run_id database : String) (combination : Combination) (load : Load)
        → Keeps (Of Q) (measured world hooks session run_id database combination load)
    unfolding measured warm_up
    measured-Keeps session run_id database combination load =
        Keeps-bind _ _
          (asks (Action.run_k6 _ _ _ _ _ _) _
            λ _. asks (Action.read_summary _) _ λ _. checks _ _ _ (Keeps-pure _))
          λ _. asks Action.inspect_app _ λ _.
            Keeps-bind _ _ (loaded-Keeps session run_id combination load database) λ _.
              asks (Action.save_snapshots _ _) _ λ _. asks (Action.read_summary _) _ λ _.
                Keeps-bind _ _ (delta_keeps _ _) λ _. asks (Action.read_metrics _) _ λ _.
                  asks (Action.stored_samples _) _ λ _.
                    asks Action.monitor_errors _
                      λ _. asks (Action.summarize_resources _ _) _ λ _. checks _ _ _ (kept-Keeps _)

    pub measure-Keeps :
        (database : String) (combination : Combination) (load : Load)
        → Keeps (Of Q) (measure world hooks database combination load)
    unfolding measure started
    measure-Keeps database combination load =
        Keeps-bind _ _
          (asks Action.restart_app _ λ _. asks Action.app_ready _ λ _. asks Action.fresh_name _ λ _.
            asks (Action.make_directory _) _ λ _.
              asks (Action.make_directory _) _
                λ _. Keeps-bind _ _ (fixture_keeps _ _) λ _. Keeps-pure _)
          λ _.
            Keeps-finally_do _ _ (measured-Keeps _ _ database combination load)
              (ask-Keeps (Action.unlink _))

    profile_page-Keeps :
        (lower : String → String) (chars : String → ℕ) (database : String) (page : Page)
        (public : Public)
        → Keeps (Of Q) (profile_page world hooks lower chars database page public)
    unfolding profile_page sequential_requests explain_all
    profile_page-Keeps lower chars database page public = asks Action.last_timer _ λ _.
        Keeps-bind _ _ (snapshot_keeps _) λ _.
          Keeps-bind _ _ (Keeps-each _ _ λ _. asks (Action.request _) _ λ _. Keeps-check _ _) λ _.
            Keeps-bind _ _ (snapshot_keeps _) λ _. Keeps-bind _ _ (delta_keeps _ _) λ _.
              asks (Action.save_serial _ _) _ λ _. checks _ _ _ (
                asks (Action.captured_statements _ _) _ λ _. checks _ _ _ (
                  Keeps-bind _ _
                    (Keeps-gather _ _ λ _.
                      checks _ _ _
                        (Keeps-gather _ _ λ _. asks (Action.explain _ _) _ λ _. Keeps-pure _))
                    λ _. ask-Keeps (Action.save_plans _ _)))

    pub profile-Keeps :
        (lower : String → String) (chars : String → ℕ) (database : String) (count : ℕ)
        → Keeps (Of Q) (profile world hooks lower chars database count)
    unfolding profile
    profile-Keeps lower chars database count = asks Action.read_consumers _ λ _.
        asks Action.enable_consumers _ λ _.
          Keeps-finally_do _ _
            (Keeps-each _ _ λ _. Keeps-bind _ _ (fixture_keeps _ _) λ _.
              Keeps-finally_do _ _ (profile_page-Keeps lower chars database _ _)
                (ask-Keeps (Action.unlink _)))
            (Keeps-each _ _ λ _. ask-Keeps (Action.set_consumer _ _))
