-- ===== src/Webhook.antt =====
-- The inbox of the marketing platform's events, `recordInboundEvent` and `finishInboundEvent`
-- (src/lib/ghl-webhook.ts). The database refuses a second row with one `ghlEventId`. Payloads, which only
-- the handlers read, are left out.
pub mod Records
pub mod Deliveries
pub mod Outcomes
use crm_mcd.Prelude.{
  ℕ, Bool, true, false, ◌&&◌, Option, none, some, List, ◌∷◌, String, Date, ◌==◌, if◌then◌else◌,
  find, update, update_where, count_where,
}

pub data EventStatus : Type 0 where
  received processed failed : EventStatus

pub record Event : Type 0 where
  pub ghl_event_id : ℕ
  pub location_id : ℕ
  pub type : String
  pub status : EventStatus
  pub processed_at : Option Date

abbrev pub event_key : Event → ℕ
event_key e = e.ghl_event_id

pub record Inbound : Type 0 where
  pub ghl_event_id : ℕ
  pub location_id : ℕ
  pub type : String

abbrev pub new_event : Inbound → Event
new_event x = record {
  ghl_event_id = x.ghl_event_id;
  location_id = x.location_id;
  type = x.type;
  status = EventStatus.received;
  processed_at = none;
}

abbrev pub is_failed : EventStatus → Bool
is_failed EventStatus.failed = true
is_failed _ = false

-- The `where` and the `data` of the conditional update.
abbrev pub reopenable : ℕ → Event → Bool
reopenable i e = e.ghl_event_id == i && is_failed e.status

abbrev pub reopen_row : Inbound → Event → Event
reopen_row x e = record e {
  status = EventStatus.received;
  processed_at = none;
  location_id = x.location_id;
  type = x.type;
}

pub record Receipt : Type 0 where
  pub first_time : Bool
  pub retry : Bool

unfoldable pub reopen_event : Inbound → List Event → Receipt × List Event
reopen_event x events =
    let events' = update_where (reopenable x.ghl_event_id) (reopen_row x) events in
    if count_where (reopenable x.ghl_event_id) events == 1
    then (record { first_time = true; retry = true }, events')
    else (record { first_time = false; retry = false }, events')

-- `create`, and what is done where the database refuses the row.
unfoldable pub record_inbound_event : Inbound → List Event → Receipt × List Event
unfolding reopen_event
record_inbound_event x events = elim (find event_key x.ghl_event_id events) [
  | none ↦ (record { first_time = true; retry = false }, new_event x ∷ events)
  | some old ↦ reopen_event x events
]

-- How a handler ends.
pub data Ending : Type 0 where
  as_processed as_error : Ending

abbrev pub ending_status : Ending → EventStatus
ending_status Ending.as_processed = EventStatus.processed
ending_status Ending.as_error = EventStatus.failed

abbrev pub finish : Date → Ending → Event → Event
finish now ending e = record e { status = ending_status ending; processed_at = some now }

unfoldable pub finish_inbound_event : Date → ℕ → Ending → List Event → List Event
finish_inbound_event now i ending events = update event_key i (finish now ending) events
