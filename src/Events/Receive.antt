-- ===== src/Events/Receive.antt =====
-- events/event_listener.go: `ProcessEvents`, `GetEvents` and `GetEventCount`.
use Prim.Native.Nat.{ℕ}
use mathlib.Core.Bool.{Bool, true, false}
use mathlib.Core.Option.{Option, none, some}
use mathlib.Core.List.{List, [], ◌∷◌}
use registry_ui.Base.Tests.{if◌then◌else◌}
use registry_ui.Base.Text.{Text, codes, has_prefix}
use registry_ui.Image.{Result, ok, err}
use registry_ui.Events.{EventListener, EventRow, Value, text, Database, Format}
use registry_ui.Events.Statements.{
  insert_event, delete_old, days_value, events_table, select_events, count_events,
}
use registry_ui.Events.Handler.{get_database_handler}

-- How a call ends: it returns, or it panics at a handle that is `nil`.
pub data Ending : Type 0 where
  returned : Ending
  panicked : Ending

-- What is stored of an event.
pub record EventData : Type 0 where
  pub action : Text
  pub repository : Text
  pub tag : Text
  pub ip : Text
  pub user : Text

abbrev pub user_agent : Text
user_agent = codes "registry-ui"

module _ {J : Type 0} (f : Format J) where
  -- Whether the event comes from a call of registry-ui itself.
  unfoldable pub is_own : J → Bool
  is_own i = has_prefix (f.get i (codes "request.useragent")) user_agent

  or_else_text : Text → Text → Text
  or_else_text [] other = other
  or_else_text (c ∷ s) other = c ∷ s

  -- The fields that are read from an event.
  unfoldable pub event_data : J → EventData
  unfolding or_else_text
  event_data i =
      let addr = f.get i (codes "request.addr") in
      record {
        action = f.get i (codes "action");
        repository = f.get i (codes "target.repository");
        tag = or_else_text (f.get i (codes "target.tag")) (f.get i (codes "target.digest"));
        ip = or_else_text (f.split_host addr) addr;
        user = f.get i (codes "actor.name");
      }

-- The values of the statement that inserts an event.
unfoldable pub event_values : EventData → List Value
event_values d = text d.action ∷ text d.repository ∷ text d.tag ∷ text d.ip ∷ text d.user ∷ []

unfoldable pub is_prepared : Option Text → Bool
is_prepared none = true
is_prepared (some y) = false

module _ {D J : Type 0} (db : Database D) (f : Format J) (e : EventListener) where
  -- "Purge old records.": a statement that cannot be prepared is `nil`, and so is the result of one
  -- that fails, which is then asked for its rows.
  unfoldable pub purge_old : D → Ending × D
  purge_old s =
      let (x, s') = db.exec (delete_old e events_table) (days_value f e e.retention ∷ []) s in
      elim (db.prepare (delete_old e events_table) s) [
        | some y ↦ (panicked, s)
        | none ↦ elim x [ none ↦ (returned, s') | some y ↦ (panicked, s') ]
      ]

  unfoldable pub after_events : D → Ending × D
  unfolding purge_old
  after_events s = if e.event_deletion then purge_old s else (returned, s)

  -- The loop over the events; `stmt` is whether the insertion could be prepared.
  unfoldable pub store_events : Bool → List J → D → Ending × D
  unfolding after_events
  store_events stmt [] s = after_events s
  store_events stmt (i ∷ events) s = elim (is_own f i) [
    | true ↦ store_events stmt events s
    | false ↦ elim stmt [
      | false ↦ (panicked, s)
      | true ↦
          let (x, s') = db.exec (insert_event e) (event_values (event_data f i)) s in
          elim x [ some y ↦ (returned, s') | none ↦ store_events stmt events s' ]
    ]
  ]

  -- `ProcessEvents`, for the body of a request.
  unfoldable pub process_events : Text → D → Ending × D
  unfolding is_prepared
  process_events body s = elim (f.decode body) [
    | none ↦ (returned, s)
    | some events ↦
        let (x, s') = get_database_handler db f e s in
        elim x [
          | some y ↦ (returned, s')
          | none ↦ store_events (is_prepared (db.prepare (insert_event e) s')) events s'
        ]
  ]

  rows_or_none : Result (List EventRow) → List EventRow
  rows_or_none (err x) = []
  rows_or_none (ok rows) = rows

  -- `GetEvents`
  unfoldable pub get_events : Text → D → List EventRow × D
  unfolding rows_or_none
  get_events repository s =
      let (x, s') = get_database_handler db f e s in
      elim x [
        | some y ↦ ([], s')
        | none ↦ (rows_or_none (db.query_events (select_events repository) s'), s')
      ]

  count_or_zero : Result ℕ → ℕ
  count_or_zero (err x) = 0
  count_or_zero (ok n) = n

  -- `GetEventCount`
  unfoldable pub get_event_count : D → ℕ × D
  unfolding count_or_zero
  get_event_count s =
      let (x, s') = get_database_handler db f e s in
      elim x [ some y ↦ (0, s') | none ↦ (count_or_zero (db.query_count count_events s'), s') ]
