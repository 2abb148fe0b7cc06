-- ===== src/Webhook/Deliveries.antt =====
-- Deliveries and handlers that overlap. The routes of src/app/api/ghl record an event, work on it where it is
-- opened, and finish it; a handler that dies does not finish. `working` counts the handlers on an event.
use crm_mcd.Prelude.{
  ℕ, ◌≡◌, ◌+◌, ◌-◌, ◌≤◌, ◌<◌, some, List, Date, ◌==◌, if◌then◌else◌, arith, UniqueKeys,
}
use crm_mcd.Webhook.{
  Event, EventStatus, Inbound, Ending, event_key, record_inbound_event, finish_inbound_event,
}
use crm_mcd.Webhook.Records.{
  status_of, record_inbound_event-Delivered, finish-status, finish-UniqueKeys,
}

pub record Inbox : Type 0 where
  pub events : List Event
  pub working : ℕ → ℕ

abbrev pub one_more : ℕ → (ℕ → ℕ) → ℕ → ℕ
one_more i working j = if i == j then working j + 1 else working j

abbrev pub one_less : ℕ → (ℕ → ℕ) → ℕ → ℕ
one_less i working j = if i == j then working j - 1 else working j

-- A delivery: `if (!event.firstTime) return` before any work.
unfoldable pub deliver : Inbound → Inbox → Inbox
deliver x s =
    let (receipt, events') = record_inbound_event x s.events in
    record s {
      events = events';
      working = if receipt.first_time then one_more x.ghl_event_id s.working else s.working;
    }

unfoldable pub conclude : Date → ℕ → Ending → Inbox → Inbox
conclude now i ending s = record s {
  events = finish_inbound_event now i ending s.events;
  working = one_less i s.working;
}

unfoldable pub crash : ℕ → Inbox → Inbox
crash i s = record s { working = one_less i s.working }

-- One step of the inbox: any delivery at any time, and the end of a handler that is at work. A handler ends an event
-- once here; the `catch` of src/app/api/ghl/documents/route.ts and its like, which may write ERROR over the ending
-- when the log after it throws, is not a step.
pub data Step (s t : Inbox) : Type 0 where
  delivery : (x : Inbound) → t ≡ deliver x s → Step s t
  ending :
      (now : Date) (i : ℕ) (how : Ending) → 0 < s.working i → t ≡ conclude now i how s → Step s t
  death : (i : ℕ) → 0 < s.working i → t ≡ crash i s → Step s t

pub data Reach (s : Inbox) : Inbox → Type 0 where
  here : Reach s s
  next : {t u : Inbox} → Reach s t → Step t u → Reach s u

-- An event has at most one handler, and then it reads RECEIVED.
pub record IsExclusive (s : Inbox) : Type 0 where
  pub unique : UniqueKeys event_key s.events
  pub single : (i : ℕ) → s.working i ≤ 1
  pub busy : (i : ℕ) → 0 < s.working i → status_of i s.events ≡ some EventStatus.received

deliver-IsExclusive : (x : Inbound) (s : Inbox) → IsExclusive s → IsExclusive (deliver x s)
unfolding deliver
deliver-IsExclusive x s h =
    let d = record_inbound_event-Delivered x s.events h.unique in
    record {
      unique = d.unique;
      single = λ i. ground (arith, h.single i, h.busy x.ghl_event_id, d.opens);
      busy = λ i w. ground (arith, h.single i, h.busy i, d.opens, d.statuses i);
    }

conclude-IsExclusive :
    (now : Date) (i : ℕ) (how : Ending) (s : Inbox)
    → 0 < s.working i
    → IsExclusive s
    → IsExclusive (conclude now i how s)
unfolding conclude
conclude-IsExclusive now i how s w h = record {
  unique = finish-UniqueKeys now i how s.events h.unique;
  single = λ j. ground (arith, h.single j);
  busy =
      λ j b. ground (arith, h.single j, h.busy j, finish-status now i j how s.events (h.busy i w));
}

crash-IsExclusive : (i : ℕ) (s : Inbox) → IsExclusive s → IsExclusive (crash i s)
unfolding crash
crash-IsExclusive i s h = record {
  unique = h.unique;
  single = λ j. ground (arith, h.single j);
  busy = λ j b. ground (arith, h.busy j);
}

pub Step-IsExclusive : {s t : Inbox} → Step s t → IsExclusive s → IsExclusive t
Step-IsExclusive {s} (delivery x e) h = rw e (deliver-IsExclusive x s h)
Step-IsExclusive {s} (ending now i how w e) h = rw e (conclude-IsExclusive now i how s w h)
Step-IsExclusive {s} (death i w e) h = rw e (crash-IsExclusive i s h)
