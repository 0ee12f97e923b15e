-- ===== src/Lib.antt =====
-- Verification of registry-ui, a web interface to Docker registries with built-in tag purging.
--
-- The program has a registry client that caches the catalog and the tags (registry/client.go), a
-- purge run that works through that client (registry/tasks.go), a scheduler that starts purge runs
-- by a cron expression (registry/scheduler.go), an event listener that stores the registry's
-- notifications and the log of the purge runs in a database (events/event_listener.go), the login in
-- front of the web pages (auth.go), the pages themselves (web.go) with the functions of their
-- templates (template.go), and the middleware around them (middleware.go). The start-up (main.go)
-- puts them together. Helpers on slices and maps are in registry/common.go.
--
-- The files:
--   Base/       tests, lists, 64-bit integers, texts, sorting and maps, as the program uses them.
--   Common      registry/common.go: `SortedMapKeys`, `ItemInSlice`, `UniqueSortedSlice`,
--     and in Common/Size `PrettySize` over any float64, and its unit for a whole number of bytes.
--   Image       `ImageInfo` of registry/client.go.
--   Purge       registry/tasks.go: the data, the environment and the interface `PurgeClient`.
--     Select, Scan, Plan, Delete and Run are the stages of `RunPurgeOldTags` in the order in which it
--     calls them: `run_purge_old_tags` reads the file of tags to keep, `catalog_of` chooses the
--     repositories, `scan_catalog` reads their tags, `plan` selects by `select_tags`, and
--     `delete_planned` deletes. Summary has the duration and the summary of a result. Interrupted is
--     a client between whose calls other things happen, and Calls a client that notes its
--     deletions. The other files of the folder are lemmas and theorems.
--   Scheduler   registry/scheduler.go: `parse_cron_schedule` and its parts; Scheduler/Next has
--     `matches` and `next` for `cronSchedule.matches` and `Next`, and Scheduler/Timer the goroutine
--     of `StartPurgeScheduler` as the step relation `Step`.
--   Client      registry/client.go: the state `Client`, and the library it works through, `Remote`.
--     Cache has `refresh_catalog`, `list_tags` and the background round `refresh_tags`; Inspect has
--     `get_image_info` and `get_image_created`; Delete has `delete_tag`, and `purge_client`, the client
--     as the `PurgeClient` of a run; Counts has the numbers of tags on the pages, and Start the
--     credentials and the loop of the background jobs. Digest is on what a deletion by digest takes
--     away, and `Move` of History is any one of these steps.
--   Auth        auth.go: `check_rate_limit`, `record_failure`, `get_session_username`,
--     `auth_middleware`, `login_handler` and `logout_handler`.
--   Events      events/event_listener.go: the rows and the database that the listener works through.
--     Statements has the texts of the statements, Handler `get_database_handler`, Receive
--     `process_events` and the queries for events, Log `record_purge_run` and the queries for runs.
--     Table has the tables and what the statements are assumed to do to them; Opening, Stored,
--     Storing, Recorded and Latest are proofs, and Memory is a database for which the assumptions hold.
--   Web         web.go: the user's permissions, the catalog page and the deletion of a tag; Options has
--     the page of the configuration, and Site the pages over the event listener.
--   Middleware  middleware.go: functions on handlers, and their order in main.go.
--   Template    template.go: `Render` and the functions that the templates call; Template/Renderer is
--     `setupRenderer`, with the constant of version.go.
--   Main        main.go: the start-up, the table of routes, and a purge together with its record;
--     Main/Flags has the flags and the name of the configuration, Main/Deletion is the route of a
--     deletion behind the login, Main/Logged a recorded purge. Main/Requests puts the handlers
--     behind the login and the token: `serve` answers a request and changes the state `Server` of
--     the whole program. Main/Serving is the running program: `happen` is one activity (a request, a
--     round of a background job, a change of the registry by others) or one scheduled purge with
--     the activities between its calls, and `history` a sequence of these; its child modules are
--     the theorems on them.
--
-- State is passed explicitly. A purge run is written over any `PurgeClient S`, whose calls take and
-- return the state `S` of the client and of the registry behind it; the registry client itself has
-- the state `Client × R`, where `R` is that of the registry. `none` as the result of
-- `refresh_catalog` is the call of `os.Exit`, and `none` as that of `get_image_info` a panic: in a
-- purge run it ends the process, in a page it is recovered.
--
-- Not under this repository, and therefore parameters (`App` of Main/Requests collects them): the
-- registry library (`Remote`), `gjson`, `regexp` and the file system (`Env` of Purge), the calendar
-- fields of a time (`Calendar` of Scheduler/Next), the HMAC (`hmac` of Auth), `database/sql` with
-- its drivers (`Database` of Events, whose queries come with the scanning of their rows; what is
-- assumed of it is `IsSql` of Events/Table), JSON and addresses (`Format` of Events), the template
-- engine (`Engine` of Template), the framework's handler of errors, and every reading of the clock.
-- The manifest of an image is taken as parsed where its configuration is read, since the library
-- reads it for that; the manifest of an index may not parse, and its use is then a panic.
--
-- Bounds and fuel. `values_loop` of Scheduler counts with the wrap-around of int64; its fuel is twice
-- the largest end plus four, one unit for each number up to the end and as many again behind a
-- wrap-around, and `diverged` is its value where the fuel would run out. `next_loop` looks
-- 366 * 24 * 60 minutes ahead, which is the program's own bound. Sizes are added modulo 2 ^ 64.
--
-- What is simplified. A time is a number of nanoseconds since Go's zero time; `days_old` divides
-- exactly, where the program divides in float64, which can differ in the last millisecond of a day.
-- A text is the list of its code points, since the texts here are valid UTF-8. Sorting is by
-- insertion; where the order is total, the result does not depend on the algorithm. Maps are
-- association lists, and where the program iterates in a map's random order the results do not
-- depend on it, but for equal counts in `GetTopReposByTagCount` and for the section `general` of
-- `viewOptions`. The lockout is a product that wraps in int64. A cookie is what `SetCookie` leaves
-- of its value, and comes back unchanged. Each call of the client, each request and each round of a
-- background job is one step: the program's locks make the writes to the cache whole, but let the
-- call of the registry and the write behind it come apart, and this is left out. What happens
-- during a scheduled purge happens behind its calls, and the background jobs may have a round at
-- any time. Where a refresh of the catalog or a panic of the scan ends the process, the model stays
-- in the state before it. A statement of the database is one step too, and a handle that is `nil`
-- is a panic at its use. The clock of the scheduler does not go back. Messages to the log are left
-- out, and so is the copy of a request's body for them.
--
-- Not modelled: the parsing of the flags and of the configuration by their libraries, the choice of a
-- route by the framework, the pages as the templates render them, and the printing of numbers by
-- `fmt`.
pub mod Auth
pub mod Base
pub mod Client
pub mod Common
pub mod Events
pub mod Image
pub mod Purge
pub mod Scheduler
pub mod Main
pub mod Middleware
pub mod Template
pub mod Web
