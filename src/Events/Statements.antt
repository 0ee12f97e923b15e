-- ===== src/Events/Statements.antt =====
-- events/event_listener.go: the texts of the statements.
use mathlib.Core.Bool.{Bool}
use mathlib.Core.List.{[], ◌∷◌, ◌++◌}
use registry_ui.Base.Tests.{if◌then◌else◌}
use registry_ui.Base.Lists.{length, drop}
use registry_ui.Base.Int.{ℤ}
use registry_ui.Base.Text.{Text, codes, text_eq, has_prefix, is_empty}
use registry_ui.Events.{EventListener, Value, text, int, Format}

-- `schemaSQLite`
unfoldable pub schema_sqlite : Text
schema_sqlite =
    codes "\n\tCREATE TABLE IF NOT EXISTS events (\n\t\tid INTEGER PRIMARY KEY AUTOINCREMENT,"
    ++ codes "\n\t\taction CHAR(5) NULL,\n\t\trepository VARCHAR(100) NULL,"
    ++ codes "\n\t\ttag VARCHAR(100) NULL,\n\t\tip VARCHAR(45) NULL,"
    ++ codes "\n\t\tuser VARCHAR(50) NULL,\n\t\tcreated DATETIME NULL\n\t);\n"

-- `schemaPurgeRunsSQLite`
unfoldable pub schema_purge_runs_sqlite : Text
schema_purge_runs_sqlite =
    codes "\n\tCREATE TABLE IF NOT EXISTS purge_runs (\n\t\tid INTEGER PRIMARY KEY AUTOINCREMENT,"
    ++ codes "\n\t\tstarted_at DATETIME NULL,\n\t\tfinished_at DATETIME NULL,"
    ++ codes "\n\t\tsuccess BOOLEAN NULL,\n\t\tdry_run BOOLEAN NULL,"
    ++ codes "\n\t\tcron_expr VARCHAR(100) NULL,\n\t\trepo_count INTEGER NULL,"
    ++ codes "\n\t\tcandidate_tag_count INTEGER NULL,\n\t\tdeleted_tag_count INTEGER NULL,"
    ++ codes "\n\t\testimated_freed_bytes BIGINT NULL,\n\t\tsummary TEXT NULL,"
    ++ codes "\n\t\terror_message TEXT NULL,\n\t\tcreated DATETIME NULL\n\t);\n"

-- `strings.Replace(s, old, new, 1)`, for an `old` that is not empty.
unfoldable pub replace_first : Text → Text → Text → Text
replace_first [] old new = []
replace_first (c ∷ s) old new =
    let rest = replace_first s old new in
    if has_prefix (c ∷ s) old then new ++ drop (length old) (c ∷ s) else c ∷ rest

unfoldable pub is_mysql : EventListener → Bool
is_mysql e = text_eq e.database_driver (codes "mysql")

-- A schema for the driver in use.
unfoldable pub schema_for : EventListener → Text → Text
schema_for e schema =
    if is_mysql e
    then replace_first schema (codes "AUTOINCREMENT") (codes "AUTO_INCREMENT")
    else schema

-- `now`
unfoldable pub now_for : EventListener → Text
now_for e = if is_mysql e then codes "NOW()" else codes "DateTime('now')"

unfoldable pub insert_event : EventListener → Text
insert_event e =
    codes "INSERT INTO events(action, repository, tag, ip, user, created) values(?,?,?,?,?,"
    ++ now_for e
    ++ codes ")"

-- The statement that removes old rows from a table.
unfoldable pub delete_old : EventListener → Text → Text
delete_old e table =
    if is_mysql e
    then codes "DELETE FROM " ++ table ++ codes " WHERE created < DATE_SUB(NOW(), INTERVAL ? DAY)"
    else codes "DELETE FROM " ++ table ++ codes " WHERE created < DateTime('now',?)"

-- What is bound to its place.
unfoldable pub days_value : {J : Type 0} → Format J → EventListener → ℤ → Value
days_value f e days =
    if is_mysql e then int days else text (codes "-" ++ f.print_int days ++ codes " day")

abbrev pub events_table : Text
events_table = codes "events"

abbrev pub purge_runs_table : Text
purge_runs_table = codes "purge_runs"

-- The query of `GetEvents`, with the repository written into its text.
unfoldable pub select_events : Text → Text
select_events repository =
    if is_empty repository
    then codes "SELECT * FROM events ORDER BY id DESC LIMIT 1000"
    else codes "SELECT * FROM events WHERE repository='"
      ++ repository
      ++ codes "' OR repository LIKE '"
      ++ repository
      ++ codes "/%' ORDER BY id DESC LIMIT 5"

unfoldable pub count_events : Text
count_events = codes "SELECT COUNT(*) FROM events"

unfoldable pub insert_purge_run : EventListener → Text
insert_purge_run e =
    codes "INSERT INTO purge_runs(started_at, finished_at, success, dry_run, cron_expr, repo_count,"
    ++ codes " candidate_tag_count, deleted_tag_count, estimated_freed_bytes, summary,"
    ++ codes " error_message, created) values(?,?,?,?,?,?,?,?,?,?,?,"
    ++ now_for e
    ++ codes ")"

-- The query of `GetPurgeRuns`.
unfoldable pub select_purge_runs : {J : Type 0} → Format J → ℤ → Text
select_purge_runs f limit =
    codes "SELECT id, started_at, finished_at, success, dry_run, cron_expr, repo_count,"
    ++ codes " candidate_tag_count, deleted_tag_count, estimated_freed_bytes, summary,"
    ++ codes " error_message, created FROM purge_runs ORDER BY id DESC LIMIT "
    ++ f.print_int limit
