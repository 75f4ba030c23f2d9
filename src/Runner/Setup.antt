-- ===== src/Runner/Setup.antt =====
-- The parts of load/review-baseline.py that prepare a database and a session: `wait_app`,
-- `configure_database`, `seed`, `fixture` and `snapshot`.
use receipt_expense_review.Prelude.{
  String, not, Option, none, some, List, [], ◌∷◌, ◌==◌, nat_eq, string_eq, insert,
}
use receipt_expense_review.Program.{World, Program, pure, ◌>>=◌, ◌>>◌, check, call}
use receipt_expense_review.Sql.{Kind, Snapshot}
use receipt_expense_review.Fixture.{expected, mismatch}
use receipt_expense_review.Runner.{Public, Digest, Page, Error, Action, Reply}
use receipt_expense_review.Runner.Text.{queue_path}

-- The loop over the lines of `snapshot`: digests of other statements are left out.
abbrev add_digest : Option Kind → Digest → Snapshot → Snapshot
add_digest none row result = result
add_digest (some kind) row result =
    insert row.digest (record { kind = kind; counters = row.counters }) result

pub kept_digests : (String → Option Kind) → List Digest → Snapshot → Snapshot
kept_digests kind_of [] result = result
kept_digests kind_of (row ∷ rows) result =
    kept_digests kind_of rows (add_digest (kind_of row.sql) row result)

module _ {S : Type 0} (world : World Action Reply) where
  abbrev pub ask : (a : Action) → Program Action S Error (Reply a)
  ask a = call world Error.outside a

  -- `wait_app` gives up after 90 tries: `app_ready` is all of them.
  unfoldable pub configure_database : String → Program Action S Error (Unit {0})
  configure_database database = do
    ask (Action.create_database database)
    ask (Action.write_override database)
    ask (Action.recreate_app_on database)
    ask Action.app_ready

  -- The rows that the two INSERTs make are in `Fixture`.
  unfoldable pub seed : String → Program Action S Error (Unit {0})
  seed database = do
    count ← ask (Action.count_receipts database)
    check (count == 0) Error.not_empty
    ask (Action.insert_dataset database)

  unfoldable pub fixture : String → Page → Program Action S Error (String × Public)
  fixture directory page = do
    ask Action.login
    let path = queue_path page.scenario page.page
    raw ← ask (Action.request path)
    let wanted = expected page.dataset page.scenario page.page
    check (not (mismatch raw.actual wanted page.page)) Error.content_mismatch
    let public : Public = record {
      path = path;
      expected = wanted;
      sha256 = raw.sha256;
      response_bytes = raw.size;
    }
    ask (Action.save_fixture directory page public)
    target ← ask Action.fresh_name
    ask (Action.write_session target public)
    pure (target, public)

  unfoldable pub snapshot : (String → Option Kind) → String → Program Action S Error Snapshot
  unfolding kept_digests
  snapshot kind_of database = do
    raw ← ask (Action.statement_digests database)
    pure (kept_digests kind_of raw [])
