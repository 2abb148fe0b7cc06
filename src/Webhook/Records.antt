-- ===== src/Webhook/Records.antt =====
-- What a delivery and a finish do to the status of every event (src/lib/ghl-webhook.ts).
use crm_mcd.Prelude.{
  ℕ, ◌≡◌, refl, Bool, true, false, ◌&&◌, Option, none, some, List, ◌∷◌, Date, ◌==◌, ==_iff,
  if◌then◌else◌, arith, find, find-key, update_where, UniqueKeys, update_where-UniqueKeys,
  update-UniqueKeys, find-update_where_self, find-update_where_ne, find-update_where-none,
  find-update_self, find-update_ne, count_where-one, Option-cases, Bool-cases, inl, inr, ap, sym,
  subst, count_where-none, update_where-unmatched,
}
use crm_mcd.Webhook.{
  Event, EventStatus, Inbound, Receipt, Ending, event_key, new_event, is_failed, reopenable,
  reopen_row, reopen_event, record_inbound_event, ending_status, finish, finish_inbound_event,
}

abbrev pub status_in : Option Event → Option EventStatus
status_in none = none
status_in (some e) = some e.status

-- The status of an event, if there is a row of it.
unfoldable pub status_of : ℕ → List Event → Option EventStatus
status_of i events = status_in (find event_key i events)

-- A delivery is worked on if the event is new or had failed.
abbrev pub is_open : Option EventStatus → Bool
is_open none = true
is_open (some s) = is_failed s

reopenable-id : (i : ℕ) (e : Event) → reopenable i e ≡ true → event_key e ≡ i
reopenable-id i e h = ground arith

-- The conditional update, by the row that it finds.
reopen_event-failed :
    (x : Inbound) (events : List Event) {e : Event}
    → UniqueKeys event_key events
    → find event_key x.ghl_event_id events ≡ some e
    → is_failed e.status ≡ true
    → reopen_event x events ≡ (
      record { first_time = true; retry = true },
      update_where (reopenable x.ghl_event_id) (reopen_row x) events,
    )
unfolding reopen_event
reopen_event-failed x events {e} u row f =
    let this = find-key event_key x.ghl_event_id events row in
    let passes : reopenable x.ghl_event_id e ≡ true = ground arith in
    let one =
      count_where-one event_key x.ghl_event_id (reopenable x.ghl_event_id) events
        (reopenable-id x.ghl_event_id) u row passes in
    rw one refl

reopen_event-kept :
    (x : Inbound) (events : List Event) {e : Event}
    → UniqueKeys event_key events
    → find event_key x.ghl_event_id events ≡ some e
    → is_failed e.status ≡ false
    → reopen_event x events ≡ (record { first_time = false; retry = false }, events)
unfolding reopen_event
reopen_event-kept x events {e} u row f =
    let fails : reopenable x.ghl_event_id e ≡ false = ground arith in
    let no_row =
      count_where-none event_key x.ghl_event_id (reopenable x.ghl_event_id) events
        (reopenable-id x.ghl_event_id) u row fails in
    rw no_row (
      ap (λ t. (record { first_time = false; retry = false }, t))
        (update_where-unmatched (reopenable x.ghl_event_id) (reopen_row x) events no_row))

-- The update reopens the row of the event and leaves the others.
reopened-status :
    (x : Inbound) (j : ℕ) (events : List Event) {e : Event}
    → find event_key x.ghl_event_id events ≡ some e
    → is_failed e.status ≡ true
    → status_of j (update_where (reopenable x.ghl_event_id) (reopen_row x) events)
      ≡ (if x.ghl_event_id == j then some EventStatus.received else status_of j events)
unfolding status_of
reopened-status x j events {e} row f = elim (Bool-cases (x.ghl_event_id == j)) [
  | inl t ↦
      let this = find-key event_key x.ghl_event_id events row in
      let passes : reopenable x.ghl_event_id e ≡ true = ground arith in
      let same : x.ghl_event_id ≡ j = (==_iff x.ghl_event_id j).0 t in
      let written =
        find-update_where_self event_key x.ghl_event_id (reopenable x.ghl_event_id) (reopen_row x)
          events (λ y. refl) row passes in
      rw t (
        ap status_in (
          subst
            (λ k.
              find event_key k (update_where (reopenable x.ghl_event_id) (reopen_row x) events)
              ≡ some (reopen_row x e))
            same written))
  | inr t ↦ elim (Option-cases (find event_key j events)) [
    | inl h ↦ rw t (
        rw h (
          ap status_in (
            find-update_where-none event_key j (reopenable x.ghl_event_id) (reopen_row x) events
              (λ y. refl) h)))
    | inr (y, h) ↦
        let that = find-key event_key j events h in
        let fails : reopenable x.ghl_event_id y ≡ false = ground arith in
        rw t (
          rw h (
            ap status_in (
              find-update_where_ne event_key j (reopenable x.ghl_event_id) (reopen_row x) events
                (λ z. refl) h fails)))
  ]
]

-- A delivery is worked on exactly when the event is new or had failed; then it reads RECEIVED, and no other
-- event changes.
pub record Delivered (x : Inbound) (events : List Event) (out : Receipt × List Event) : Type 0 where
  pub opens : out.0.first_time ≡ is_open (status_of x.ghl_event_id events)
  pub statuses :
      (j : ℕ)
      → status_of j out.1 ≡ (
          if is_open (status_of x.ghl_event_id events) && x.ghl_event_id == j
          then some EventStatus.received
          else status_of j events)
  pub unique : UniqueKeys event_key out.1

new-Delivered :
    (x : Inbound) (events : List Event)
    → UniqueKeys event_key events
    → find event_key x.ghl_event_id events ≡ none
    → Delivered x events (record { first_time = true; retry = false }, new_event x ∷ events)
unfolding status_of find UniqueKeys
new-Delivered x events u e = record {
  opens = rw e refl;
  statuses = λ j. rw e (ground arith);
  unique = (e, u);
}

failed-Delivered :
    (x : Inbound) (events : List Event) {old : Event}
    → UniqueKeys event_key events
    → find event_key x.ghl_event_id events ≡ some old
    → is_failed old.status ≡ true
    → Delivered x events (
      record { first_time = true; retry = true },
      update_where (reopenable x.ghl_event_id) (reopen_row x) events,
    )
unfolding status_of
failed-Delivered x events {old} u e f = record {
  opens = rw e (sym f);
  statuses = λ j. rw e (rw f (reopened-status x j events e f));
  unique =
      update_where-UniqueKeys event_key (reopenable x.ghl_event_id) (reopen_row x) events
        (λ y. refl) u;
}

kept-Delivered :
    (x : Inbound) (events : List Event) {old : Event}
    → UniqueKeys event_key events
    → find event_key x.ghl_event_id events ≡ some old
    → is_failed old.status ≡ false
    → Delivered x events (record { first_time = false; retry = false }, events)
unfolding status_of
kept-Delivered x events {old} u e f = record {
  opens = rw e (sym f);
  statuses = λ j. rw e (rw f refl);
  unique = u;
}

pub record_inbound_event-Delivered :
    (x : Inbound) (events : List Event)
    → UniqueKeys event_key events
    → Delivered x events (record_inbound_event x events)
unfolding record_inbound_event
record_inbound_event-Delivered x events u =
    elim (Option-cases (find event_key x.ghl_event_id events)) [
      | inl e ↦ rw (e, record_inbound_event) (new-Delivered x events u e)
      | inr (old, e) ↦ elim (Bool-cases (is_failed old.status)) [
        | inl f ↦
            rw (e, record_inbound_event)
              (rw (reopen_event-failed x events u e f) (failed-Delivered x events u e f))
        | inr f ↦
            rw (e, record_inbound_event)
              (rw (reopen_event-kept x events u e f) (kept-Delivered x events u e f))
      ]
    ]

-- A finish of an event that has a row sets its status, and no other.
pub finish-status :
    (now : Date) (i j : ℕ) (ending : Ending) (events : List Event) {s : EventStatus}
    → status_of i events ≡ some s
    → status_of j (finish_inbound_event now i ending events)
      ≡ (if i == j then some (ending_status ending) else status_of j events)
unfolding status_of finish_inbound_event
finish-status now i j ending events {s} h = elim (Option-cases (find event_key i events)) [
  | inl e ↦ cc (rw e at h)
  | inr (old, e) ↦ elim (Bool-cases (i == j)) [
    | inl t ↦
        let same : i ≡ j = (==_iff i j).0 t in
        rw t (
          rw (← same)
            (ap status_in (find-update_self event_key i (finish now ending) events (λ y. refl) e)))
    | inr t ↦ rw t (
        ap status_in
          (find-update_ne event_key j i (finish now ending) events (λ y. refl) (λ q. ground arith)))
  ]
]

pub finish-UniqueKeys :
    (now : Date) (i : ℕ) (ending : Ending) (events : List Event)
    → UniqueKeys event_key events
    → UniqueKeys event_key (finish_inbound_event now i ending events)
unfolding finish_inbound_event
finish-UniqueKeys now i ending events u =
    update-UniqueKeys event_key i (finish now ending) events (λ y. refl) u
