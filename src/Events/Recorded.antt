-- ===== src/Events/Recorded.antt =====
-- events/event_listener.go: what `RecordPurgeRun` leaves in the table of the runs.
use Prim.Native.Nat.{ℕ}
use mathlib.Core.Path.{◌≡◌, refl, ap, subst, ◌∙◌}
use mathlib.Core.Logic.{inl, inr}
use mathlib.Core.Bool.{true, false, not}
use mathlib.Core.Option.{Option, none, some}
use mathlib.Core.List.{List, [], ◌∷◌, ◌++◌}
use registry_ui.Base.Tests.{Bool-cases, Option-cases}
use registry_ui.Base.Lists.{filter_by}
use registry_ui.Base.Int.{ℤ, pos, lez}
use registry_ui.Base.Text.{Text}
use registry_ui.Purge.{PurgeRunResult}
use registry_ui.Purge.Summary.{Json}
use registry_ui.Events.{EventListener, PurgeRunRow, Value, Database, Format}
use registry_ui.Events.Statements.{insert_purge_run, delete_old, days_value, purge_runs_table}
use registry_ui.Events.Handler.{get_database_handler}
use registry_ui.Events.Log.{run_values, prepare_exec, expire_runs, record_purge_run}
use registry_ui.Events.Table.{Tables, View, run_row, IsSql}
use registry_ui.Events.Opening.{get_database_handler_keeps}

module _ {D J : Type 0} (db : Database D) (f : Format J) (e : EventListener) (v : View D)
    (json : Json) where
  abbrev pub unexpired : D → ℤ → List PurgeRunRow → List PurgeRunRow
  unexpired t days = filter_by (λ r. not (v.is_expired t days r.created))

  -- The tables with a run behind the runs that are given.
  abbrev pub with_run : ℕ → Text → PurgeRunResult → List PurgeRunRow → Tables → Tables
  with_run id created run runs old = record old {
    purge_runs = runs ++ run_row f json id created run ∷ [];
  }

  -- How the recording of a run ends, by its error and its last state: with an error nothing is stored,
  -- or the run is stored and the removal of old runs has failed; without an error the run is stored
  -- behind the old ones where there is no retention, and behind those of them that are not expired
  -- in the state of the removal otherwise.
  pub data Recorded (days : ℤ) (run : PurgeRunResult) (old : Tables)
      : Option Text → D → Type 0 where
    not_stored : (x : Text) (s' : D) → v.tables s' ≡ old → Recorded days run old (some x) s'
    stored_not_removed :
        (x : Text) (id : ℕ) (created : Text) (s' : D)
        → lez days (pos 0) ≡ false
        → v.tables s' ≡ with_run id created run old.purge_runs old
        → Recorded days run old (some x) s'
    stored :
        (id : ℕ) (created : Text) (s' : D)
        → lez days (pos 0) ≡ true
        → v.tables s' ≡ with_run id created run old.purge_runs old
        → Recorded days run old none s'
    stored_removed :
        (t : D) (id : ℕ) (created : Text) (s' : D)
        → lez days (pos 0) ≡ false
        → s' ≡ (db.exec (delete_old e purge_runs_table) (days_value f e days ∷ []) t).1
        → v.tables s' ≡ with_run id created run (unexpired t days old.purge_runs) old
        → Recorded days run old none s'

  unexpired_append :
      (t : D) (days : ℤ) (old : List PurgeRunRow) (row : PurgeRunRow)
      → v.is_expired t days row.created ≡ false
      → unexpired t days (old ++ row ∷ []) ≡ unexpired t days old ++ row ∷ []
  unfolding filter_by
  unexpired_append t days [] row fresh = rw fresh refl
  unexpired_append t days (r ∷ old) row fresh = elim (Bool-cases (v.is_expired t days r.created)) [
    | inl x ↦ rw x (unexpired_append t days old row fresh)
    | inr x ↦ rw x (ap (λ l. r ∷ l) (unexpired_append t days old row fresh))
  ]

  prepare_exec_prepared :
      (statement : Text) (values : List Value) (s : D)
      → db.prepare statement s ≡ none
      → prepare_exec db f e statement values s ≡ db.exec statement values s
  unfolding prepare_exec
  prepare_exec_prepared statement values s p = rw (p, prepare_exec) refl

  prepare_exec_refused :
      (statement : Text) (values : List Value) (s : D) (y : Text)
      → db.prepare statement s ≡ some y
      → prepare_exec db f e statement values s ≡ (some y, s)
  unfolding prepare_exec
  prepare_exec_refused statement values s y p = rw (p, prepare_exec) refl

  module _ (sql : IsSql db f e v json) (days : ℤ) (run : PurgeRunResult) where
    -- The removal of old runs, behind the insertion of a run in the state `s`.
    expire_runs-Recorded :
        (s : D)
        → (db.exec (insert_purge_run e) (run_values f json run) s).0 ≡ none
        → Recorded days run
            (v.tables s)
            (expire_runs db f e days (db.exec (insert_purge_run e) (run_values f json run) s).1).0
            (expire_runs db f e days (db.exec (insert_purge_run e) (run_values f json run) s).1).1
    unfolding expire_runs
    expire_runs-Recorded s x =
        let old = v.tables s in
        let t = (db.exec (insert_purge_run e) (run_values f json run) s).1 in
        let id = v.next_id s in
        let created = v.stamp s in
        let row = run_row f json id created run in
        let inserted = sql.inserting_run run s x in
        let statement = delete_old e purge_runs_table in
        let values = days_value f e days ∷ [] in
        elim (Bool-cases (lez days (pos 0))) [
          | inl off ↦ rw (off, expire_runs) (stored id created t off inserted)
          | inr on ↦ elim (Option-cases (db.prepare statement t)) [
            | inr (y, p) ↦
                rw (on, prepare_exec_refused statement values t y p)
                  (stored_not_removed y id created t on inserted)
            | inl p ↦ elim (Option-cases (db.exec statement values t).0) [
              | inr (y, d) ↦
                  rw (on, prepare_exec_prepared statement values t p, d)
                    (stored_not_removed y id created (db.exec statement values t).1 on
                      (sql.failing statement values t y d ∙ inserted))
              | inl d ↦
                  rw (on, prepare_exec_prepared statement values t p, d)
                    (stored_removed t id created (db.exec statement values t).1 on refl (
                      sql.deleting_runs days t d
                      ∙ ap
                          (λ (tables : Tables). record tables {
                            purge_runs = unexpired t days tables.purge_runs;
                          })
                          inserted
                      ∙ ap (λ l. record old { purge_runs = l })
                          (unexpired_append t days old.purge_runs row
                            (sql.fresh_run run days s on x))))
            ]
          ]
        ]

    -- Whatever the database refuses, the recording of a run ends in one of four ways: with an error and
    -- nothing stored; with an error and the run stored behind the old ones, when the removal of old
    -- runs has failed; without an error and the run stored behind the old ones, when no retention
    -- is set; or without an error and the run stored behind those that are not expired.
    pub record_purge_run-Recorded :
        (s : D)
        → Recorded days run
            (v.tables s)
            (record_purge_run db f e days json run s).0
            (record_purge_run db f e days json run s).1
    unfolding record_purge_run
    record_purge_run-Recorded s =
        let opened = get_database_handler db f e s in
        let kept = get_database_handler_keeps db f e v json sql s in
        let statement = insert_purge_run e in
        let values = run_values f json run in
        elim (Option-cases opened.0) [
          | inr (y, x) ↦ rw (x, record_purge_run) (not_stored y opened.1 kept)
          | inl x ↦ elim (Option-cases (db.prepare statement opened.1)) [
            | inr (y, p) ↦
                let refused = prepare_exec_refused statement values opened.1 y p in
                rw (x, record_purge_run, refused, refused) (not_stored y opened.1 kept)
            | inl p ↦
                let prepared = prepare_exec_prepared statement values opened.1 p in
                elim (Option-cases (db.exec statement values opened.1).0) [
                  | inr (y, i) ↦
                      rw (x, record_purge_run, prepared, i, prepared)
                        (not_stored y (db.exec statement values opened.1).1
                          (sql.failing statement values opened.1 y i ∙ kept))
                  | inl i ↦
                      let expired = expire_runs db f e days (db.exec statement values opened.1).1 in
                      rw (x, record_purge_run, prepared, i, prepared)
                        (subst (λ old. Recorded days run old expired.0 expired.1) kept
                          (expire_runs-Recorded opened.1 i))
                ]
          ]
        ]
