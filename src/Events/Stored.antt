-- ===== src/Events/Stored.antt =====
-- events/event_listener.go: what it means that a request's events are stored, and its single cases.
use mathlib.Core.Path.{◌≡◌, refl, ap, ap₂, subst, ◌∙◌}
use mathlib.Core.Logic.{◌⊎◌, inl, inr}
use mathlib.Core.Bool.{true, false, not}
use mathlib.Core.Option.{some}
use mathlib.Core.List.{List, [], ◌∷◌, ◌++◌, map, append_assoc, append-nil}
use registry_ui.Base.Tests.{if◌then◌else◌, Bool-cases, Option-cases}
use registry_ui.Base.Lists.{filter_by}
use registry_ui.Base.Text.{Text}
use registry_ui.Purge.Summary.{Json}
use registry_ui.Events.{EventListener, EventRow, Database, Format}
use registry_ui.Events.Statements.{insert_event, delete_old, days_value, events_table}
use registry_ui.Events.Handler.{get_database_handler}
use registry_ui.Events.Receive.{
  returned, EventData, is_own, event_data, event_values, purge_old, after_events,
}
use registry_ui.Events.Table.{Tables, View, row_data, IsSql}

-- The events that do not come from registry-ui itself, as they are to be stored.
unfoldable pub received : {J : Type 0} → Format J → List J → List EventData
received f [] = []
received f (i ∷ events) =
    let rest = received f events in if is_own f i then rest else event_data f i ∷ rest

module _ {D J : Type 0} (db : Database D) (f : Format J) (e : EventListener) (v : View D) where
  -- Why the data of events is lost in a request that ends in the state `s'`: the database could not be
  -- opened, or has not prepared the insertion, or has refused the first that is lost.
  pub data Refusal (s' : D) : List EventData → Type 0 where
    refused_open :
        (s : D) (x : Text) (rest : List EventData)
        → get_database_handler db f e s ≡ (some x, s')
        → Refusal s' rest
    refused_prepare :
        (x : Text) (rest : List EventData)
        → db.prepare (insert_event e) s' ≡ some x
        → Refusal s' rest
    refused_insert :
        (s : D) (d : EventData) (x : Text) (rest : List EventData)
        → db.exec (insert_event e) (event_values d) s ≡ (some x, s')
        → Refusal s' (d ∷ rest)

  -- The rows that are not older than the retention, as the database sees it in the state `t`.
  abbrev pub retained : D → List EventRow → List EventRow
  retained t = filter_by (λ r. not (v.is_expired t e.retention r.created))

  -- The state behind the deletion of old rows in the state `t`.
  abbrev pub after_deletion : D → D
  after_deletion t = (db.exec (delete_old e events_table) (days_value f e e.retention ∷ []) t).1

  -- `rows` are stored of the events, in their order and behind the old rows, and `rest` is lost.
  pub record IsStored (old : Tables) (events : List J) (s' : D) : Type 0 where
    pub rows : List EventRow
    pub rest : List EventData
    pub in_order : map row_data rows ++ rest ≡ received f events
    pub stored :
        (v.tables s' ≡ record old { events = old.events ++ rows })
        ⊎ ((rest ≡ [])
            × (e.event_deletion ≡ true)
            × ((t : D) × (s' ≡ after_deletion t)
                × (v.tables s' ≡ record old { events = retained t (old.events ++ rows) })))
    pub lost : (rest ≡ []) ⊎ Refusal s' rest

  module _ (json : Json) (sql : IsSql db f e v json) where
    -- The removal of old rows does nothing or removes them.
    -- What the end of a request does with the rows.
    abbrev Deleted : D → D → Type 0
    Deleted s s' =
        (s' ≡ after_deletion s)
        × (v.tables s' ≡ record (v.tables s) { events = retained s (v.tables s).events })

    purge_old_tables :
        (s : D) → (v.tables (purge_old db f e s).1 ≡ v.tables s) ⊎ Deleted s (purge_old db f e s).1
    unfolding purge_old
    purge_old_tables s =
        let statement = delete_old e events_table in
        let values = days_value f e e.retention ∷ [] in
        elim (Option-cases (db.prepare statement s)) [
          | inr (y, p) ↦ inl (rw (p, purge_old) refl)
          | inl p ↦ elim (Option-cases (db.exec statement values s).0) [
            | inr (y, x) ↦ inl (rw (p, x, purge_old) (sql.failing statement values s y x))
            | inl x ↦ inr (rw (p, x, purge_old) (refl, sql.deleting_events e.retention s x))
          ]
        ]

    after_events_tables :
        (s : D)
        → (v.tables (after_events db f e s).1 ≡ v.tables s)
          ⊎ ((e.event_deletion ≡ true) × Deleted s (after_events db f e s).1)
    unfolding after_events
    after_events_tables s = elim (Bool-cases e.event_deletion) [
      | inr off ↦ inl (ap (λ b. v.tables (if b then purge_old db f e s else (returned, s)).1) off)
      | inl on ↦
          let same : (after_events db f e s).1 ≡ (purge_old db f e s).1 =
            ap (λ b. (if b then purge_old db f e s else (returned, s)).1) on in
          elim (purge_old_tables s) [
            | inl h ↦ inl (ap v.tables same ∙ h)
            | inr (h, k) ↦ inr (on, (same ∙ h, ap v.tables same ∙ k))
          ]
    ]

    pub after_events-IsStored : (s : D) → IsStored (v.tables s) [] (after_events db f e s).1
    unfolding received
    after_events-IsStored s = elim (after_events_tables s) [
      | inl h ↦ record {
        rows = [];
        rest = [];
        in_order = refl;
        stored = inl (rw append-nil h);
        lost = inl refl;
      }
      | inr (on, (h, k)) ↦ record {
        rows = [];
        rest = [];
        in_order = refl;
        stored = inr (refl, on, (s, h, rw append-nil k));
        lost = inl refl;
      }
    ]

    -- Nothing more is stored where the database refuses.
    pub refused :
        (old : Tables) (s' : D) (events : List J)
        → Refusal s' (received f events)
        → v.tables s' ≡ old
        → IsStored old events s'
    refused old s' events r h = record {
      rows = [];
      rest = received f events;
      in_order = refl;
      stored = inl (rw append-nil h);
      lost = inr r;
    }

    -- One more event in front of those that are stored.
    pub IsStored-more :
        (old : Tables) (s' : D) (i : J) (events : List J) (row : EventRow)
        → is_own f i ≡ false
        → row_data row ≡ event_data f i
        → IsStored (record old { events = old.events ++ row ∷ [] }) events s'
        → IsStored old (i ∷ events) s'
    unfolding received
    IsStored-more old s' i events row h same st = record {
      rows = row ∷ st.rows;
      rest = st.rest;
      in_order = rw h (ap₂ ◌∷◌ same st.in_order);
      stored =
          subst
            (λ l.
              (v.tables s' ≡ record old { events = l })
              ⊎ ((st.rest ≡ [])
                  × (e.event_deletion ≡ true)
                  × ((t : D) × (s' ≡ after_deletion t)
                      × (v.tables s' ≡ record old { events = retained t l }))))
            (append_assoc old.events (row ∷ []) st.rows) st.stored;
      lost = st.lost;
    }

    -- An event of registry-ui itself is passed over.
    pub IsStored-own :
        (old : Tables) (s' : D) (i : J) (events : List J)
        → is_own f i ≡ true
        → IsStored old events s'
        → IsStored old (i ∷ events) s'
    unfolding received
    IsStored-own old s' i events h st = record {
      rows = st.rows;
      rest = st.rest;
      in_order = rw h st.in_order;
      stored = st.stored;
      lost = st.lost;
    }
