-- ===== src/Events/Storing.antt =====
-- events/event_listener.go: what `ProcessEvents` leaves in the tables, also where the database fails.
use mathlib.Core.Path.{◌≡◌, refl, ap, subst}
use mathlib.Core.Logic.{◌⊎◌, inl, inr}
use mathlib.Core.Bool.{Bool, true, false}
use mathlib.Core.Option.{some}
use mathlib.Core.List.{List, [], ◌∷◌}
use native.Mathlib.Omega.{arith}
use registry_ui.Base.Tests.{Bool-cases, Option-cases}
use registry_ui.Base.Text.{Text}
use registry_ui.Purge.Summary.{Json}
use registry_ui.Events.{EventListener, Database, Format}
use registry_ui.Events.Statements.{insert_event}
use registry_ui.Events.Handler.{get_database_handler}
use registry_ui.Events.Receive.{
  is_own, event_data, event_values, store_events, is_prepared, process_events,
}
use registry_ui.Events.Table.{View, event_row, IsSql}
use registry_ui.Events.Opening.{get_database_handler_keeps}
use registry_ui.Events.Stored.{
  received, refused_open, refused_prepare, refused_insert, IsStored, after_events-IsStored, refused,
  IsStored-more, IsStored-own,
}

module _ {D J : Type 0} (db : Database D) (f : Format J) (e : EventListener) (v : View D)
    (json : Json) (sql : IsSql db f e v json) where
  -- Whether the insertion is prepared, in the state in which that is decided.
  abbrev IsPrepared : Bool → D → Type 0
  IsPrepared stmt s = (stmt ≡ true) ⊎ ((x : Text) × (db.prepare (insert_event e) s ≡ some x))

  store_other :
      (stmt : Bool) (i : J) (events : List J) (s : D)
      → IsPrepared stmt s
      → is_own f i ≡ false
      → ((t : D)
          → stmt ≡ true
          → IsStored db f e v (v.tables t) events (store_events db f e stmt events t).1)
      → IsStored db f e v (v.tables s) (i ∷ events) (store_events db f e stmt (i ∷ events) s).1
  unfolding store_events received
  store_other false i events s (inl h) other ih = absurd (ground arith)
  store_other false i events s (inr (x, p)) other ih =
      rw (other, store_events)
        (refused db f e v json sql (v.tables s) s (i ∷ events)
          (refused_prepare x (received f (i ∷ events)) p) refl)
  store_other true i events s p other ih =
      let d = event_data f i in
      let statement = insert_event e in
      let t = (db.exec statement (event_values d) s).1 in
      elim (Option-cases (db.exec statement (event_values d) s).0) [
        | inr (y, x) ↦
            rw (other, x, store_events)
              (refused db f e v json sql (v.tables s) t (i ∷ events)
                (rw other (refused_insert s d y (received f events) (ap (λ o. (o, t)) x)))
                (sql.failing statement (event_values d) s y x))
        | inl x ↦
            rw (other, x, store_events)
              (IsStored-more db f e v json sql (v.tables s) (store_events db f e true events t).1 i
                events (event_row (v.next_id s) (v.stamp s) d) other refl
                (subst (λ old. IsStored db f e v old events (store_events db f e true events t).1)
                  (sql.inserting_event d s x) (ih t refl)))
      ]

  store_events-IsStored :
      (stmt : Bool) (events : List J) (s : D)
      → IsPrepared stmt s
      → IsStored db f e v (v.tables s) events (store_events db f e stmt events s).1
  unfolding store_events
  store_events-IsStored stmt [] s p = after_events-IsStored db f e v json sql s
  store_events-IsStored stmt (i ∷ events) s p = elim (Bool-cases (is_own f i)) [
    | inl own ↦
        rw (own, store_events)
          (IsStored-own db f e v json sql (v.tables s) (store_events db f e stmt events s).1 i
            events own (store_events-IsStored stmt events s p))
    | inr other ↦
        store_other stmt i events s p other (λ t h. store_events-IsStored stmt events t (inl h))
  ]

  is_prepared-IsPrepared : (s : D) → IsPrepared (is_prepared (db.prepare (insert_event e) s)) s
  unfolding is_prepared
  is_prepared-IsPrepared s = elim (Option-cases (db.prepare (insert_event e) s)) [
    | inl p ↦ inl (rw p refl)
    | inr (y, p) ↦ inr (y, p)
  ]

  -- A request with events stores those that do not come from registry-ui itself, each once and in
  -- their order, behind the rows that are there. It loses the last ones only where the database cannot
  -- be opened, does not prepare the insertion or refuses the first of them, and it removes only rows
  -- that are older than the retention, when that is enabled and nothing is lost.
  pub process_events-IsStored :
      (body : Text) (events : List J) (s : D)
      → f.decode body ≡ some events
      → IsStored db f e v (v.tables s) events (process_events db f e body s).1
  unfolding process_events
  process_events-IsStored body events s h =
      let opened = get_database_handler db f e s in
      let kept = get_database_handler_keeps db f e v json sql s in
      elim (Option-cases opened.0) [
        | inr (y, x) ↦
            rw (h, x, process_events)
              (refused db f e v json sql (v.tables s) opened.1 events
                (refused_open s y (received f events) (ap (λ o. (o, opened.1)) x)) kept)
        | inl x ↦
            let stmt = is_prepared (db.prepare (insert_event e) opened.1) in
            rw (h, x, process_events)
              (subst
                (λ old. IsStored db f e v old events (store_events db f e stmt events opened.1).1)
                kept (store_events-IsStored stmt events opened.1 (is_prepared-IsPrepared opened.1)))
      ]
