-- ===== src/Ghl/Appointment.antt =====
-- `attributeAppointmentToLead` (src/lib/lead-appointment-attribution.ts).
use crm_mcd.Prelude.{
  ℕ, Bool, true, false, not, ◌&&◌, ◌||◌, Option, none, some, ◌∷◌, String, Date, is_some, is_none,
  get_or, or_else, if◌then◌else◌,
}
use crm_mcd.Lead.{Lifecycle, Disposition, ActivityType, Lead, Callback, Crm, Env}
use crm_mcd.Lead.Table.{find_lead, update_lead}
use crm_mcd.Ghl.Lookup.{
  choose, newest_with_contact, owner_callback, due_later, create_for_owner, expedite, is_closed_won,
  relay_audit, owner_activity, ignore_event,
}

pub data AppointmentEvent : Type 0 where
  appointment_booked appointment_confirmed appointment_rescheduled : AppointmentEvent
  appointment_cancelled appointment_no_show appointment_completed : AppointmentEvent

pub record AppointmentInput : Type 0 where
  pub event_type : AppointmentEvent
  pub ghl_event_id : String
  pub ghl_appointment_id : String
  pub ghl_contact_id : Option String
  pub mini_crm_lead_id : Option ℕ

pub record AppointmentResult : Type 0 where
  pub matched : Bool
  pub gated : Bool
  pub ignored : Bool
  pub callback_created : Bool
  pub callback_expedited : Bool
  pub preserved_closed_won : Bool

abbrev pub is_booking : AppointmentEvent → Bool
is_booking AppointmentEvent.appointment_booked = true
is_booking AppointmentEvent.appointment_confirmed = true
is_booking AppointmentEvent.appointment_rescheduled = true
is_booking _ = false

abbrev pub is_recovery : AppointmentEvent → Bool
is_recovery AppointmentEvent.appointment_cancelled = true
is_recovery AppointmentEvent.appointment_no_show = true
is_recovery _ = false

-- An id of this CRM decides alone; else the newest Lead of the contact.
unfoldable pub appointment_lead : AppointmentInput → Crm → Option Lead
unfolding choose newest_with_contact
appointment_lead input s =
    choose input.mini_crm_lead_id (λ i. find_lead i s.leads)
      (newest_with_contact input.ghl_contact_id s)

abbrev pub preserves_closed_won : AppointmentEvent → Lead → Bool
preserves_closed_won e lead = (is_booking e || is_recovery e) && is_closed_won lead.lifecycle

abbrev pub appointment_lifecycle : AppointmentEvent → Lead → Lifecycle
appointment_lifecycle e lead =
    if preserves_closed_won e lead
    then lead.lifecycle
    else if is_booking e
    then Lifecycle.demo_booked
    else if is_recovery e
    then Lifecycle.contacted
    else lead.lifecycle

abbrev pub appointment_touch : Date → AppointmentInput → Lead → Lead → Lead
appointment_touch now input lead l =
    let e = input.event_type in
    record l {
      lifecycle = appointment_lifecycle e lead;
      ghl_contact_id = or_else input.ghl_contact_id lead.ghl_contact_id;
      ghl_appointment_id = some input.ghl_appointment_id;
      two_way_contact_at =
          if is_booking e
          then some (get_or lead.two_way_contact_at now)
          else lead.two_way_contact_at;
      last_action_at = some now;
      next_action_at =
          if is_recovery e && not (preserves_closed_won e lead)
          then some now
          else lead.next_action_at;
      updated_at = now;
    }

abbrev pub appointment_activity_type : AppointmentEvent → Lead → ActivityType
appointment_activity_type e lead =
    let kept = preserves_closed_won e lead in
    if is_booking e && not kept
    then ActivityType.demo_booked
    else if is_recovery e || kept
    then ActivityType.disposition_set
    else ActivityType.call_completed

-- The callback that a recovery event finds, and what becomes of it.
unfoldable pub recovery_callback : AppointmentEvent → Lead → Crm → Option Callback
unfolding owner_callback
recovery_callback e lead s = if is_recovery e then owner_callback lead s else none

abbrev pub creates_callback : AppointmentEvent → Lead → Option Callback → Bool
creates_callback e lead existing =
    is_recovery e
    && (is_some lead.owner_agent_id && (is_none existing && not (preserves_closed_won e lead)))

abbrev pub expedites_callback : AppointmentEvent → Date → Lead → Option Callback → Bool
expedites_callback e now lead existing =
    is_recovery e && (due_later now existing && not (preserves_closed_won e lead))

abbrev pub appointment_reason : AppointmentEvent → Lead → Option String
appointment_reason e lead =
    if preserves_closed_won e lead
    then (if is_booking e
        then some "Ignored appointment booking event because the Lead was already Closed Won."
        else some "Ignored appointment recovery event because the Lead was already Closed Won.")
    else none

unfoldable pub appointment_write : Env → AppointmentInput → Lead → Option Callback → Crm → Crm
appointment_write env input lead existing s =
    let e = input.event_type in
    let disposition : Option Disposition =
      if is_recovery e then some Disposition.follow_up else none in
    let action : String =
      if preserves_closed_won e lead
      then "GHL_APPOINTMENT_RECOVERY_PRESERVED"
      else "GHL_APPOINTMENT_ATTRIBUTED" in
    record s {
      leads = update_lead lead.id (appointment_touch env.now input lead) s.leads;
      activities =
          owner_activity lead (appointment_activity_type e lead) disposition ∷ s.activities;
      callbacks =
          expedite (expedites_callback e env.now lead existing) env.now existing
            (create_for_owner (creates_callback e lead existing) env lead s.callbacks);
      audits = relay_audit action lead (appointment_reason e lead) ∷ s.audits;
    }

abbrev pub unmatched : Bool → AppointmentResult
unmatched gated = record {
  matched = false;
  gated = gated;
  ignored = false;
  callback_created = false;
  callback_expedited = false;
  preserved_closed_won = false;
}

abbrev pub ignored_appointment : AppointmentResult
ignored_appointment = record {
  matched = true;
  gated = false;
  ignored = true;
  callback_created = false;
  callback_expedited = false;
  preserved_closed_won = false;
}

unfoldable pub attribute_to : Env → AppointmentInput → Lead → Crm → AppointmentResult × Crm
unfolding appointment_write recovery_callback
attribute_to env input lead s =
    let e = input.event_type in
    let existing = recovery_callback e lead s in
    if lead.dnc || lead.suppressed
    then (
      ignored_appointment,
      ignore_event "GHL_APPOINTMENT_IGNORED"
          "Suppressed Lead was not changed by a GHL appointment event." lead s,
    )
    else (
      record {
        matched = true;
        gated = false;
        ignored = false;
        callback_created = creates_callback e lead existing;
        callback_expedited = expedites_callback e env.now lead existing;
        preserved_closed_won = preserves_closed_won e lead;
      },
      appointment_write env input lead existing s,
    )

unfoldable pub attribute_appointment_to_lead :
    Env → AppointmentInput → Crm → AppointmentResult × Crm
unfolding appointment_lead attribute_to
attribute_appointment_to_lead env input s =
    if not env.features.leads then (unmatched true, s) else elim (appointment_lead input s) [
      | none ↦ (unmatched false, s)
      | some lead ↦ attribute_to env input lead s
    ]
