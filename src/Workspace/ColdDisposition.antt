-- ===== src/Workspace/ColdDisposition.antt =====
-- `logColdLeadDisposition` (src/lib/lead-workspace.ts). The checks and the transaction are two
-- functions, as they are two accesses to the database: another request may be served between them.
use crm_mcd.Prelude.{
  ℕ, Bool, true, false, ◌&&◌, Option, none, some, List, ◌∷◌, String, Date, Result, ok, err, ◌>>=◌,
  ◌>>◌, refuse_if, is_none, get_or, filled, trimmed, update_where, if◌then◌else◌,
}
use crm_mcd.Lead.{
  Lifecycle, CallbackStatus, ActivityType, SuppressionType, Lead, Callback, Suppression, Note,
  Activity, Crm, Env, Error, User, Agent, Actor, Disposition,
}
use crm_mcd.Lead.Table.{update_lead, scheduled_with}
use crm_mcd.Lead.Handler.{Outcome, transact, with_agent}
use crm_mcd.Session.{active_agent}
use crm_mcd.Workspace.Rules.{
  InteractionInput, is_two_way_contact, is_invalid_contact, is_do_not_contact,
  is_callback_requested, cold_lifecycle_for, cold_pool_for, pacific_date_time, disposition_name,
}
use crm_mcd.Workspace.ColdCall.{find_cold_lead}

-- The Lead as the checks read it, and the follow-up time.
unfoldable pub cold_checked :
    Env → (String → Option Date) → InteractionInput → Crm → Result Error (Lead × Option Date)
unfolding find_cold_lead pacific_date_time
cold_checked env to_utc input s = do
  lead ← find_cold_lead input.lead_id s
  callback_at ← pacific_date_time to_utc env.now input.callback_at_pacific
  refuse_if (is_callback_requested input.disposition && is_none callback_at)
      Error.callback_time_required
  ok (lead, callback_at)

-- Without a follow-up: an invalid contact, or a Lead that is lost or booked.
abbrev pub no_follow_up : Disposition → Lifecycle → Bool
no_follow_up d Lifecycle.closed_lost = true
no_follow_up d Lifecycle.demo_booked = true
no_follow_up d _ = is_invalid_contact d

-- The `data` of the Lead's update; `lead` is the Lead as it was read.
abbrev pub cold_touch : Date → Disposition → Option Date → Lead → Lead → Lead
cold_touch now d callback_at lead l = record l {
  pool = cold_pool_for d;
  lifecycle = cold_lifecycle_for d;
  last_action_at = some now;
  next_action_at = if no_follow_up d (cold_lifecycle_for d) then none else callback_at;
  two_way_contact_at =
      if is_two_way_contact d
      then some (get_or lead.two_way_contact_at now)
      else lead.two_way_contact_at;
  suppressed = is_invalid_contact d;
  updated_at = now;
}

abbrev pub complete : Date → Callback → Callback
complete now c = record c { status = CallbackStatus.completed; completed_at = some now }

-- `leadCallback.create`, where one is due.
abbrev pub new_callback : Env → ℕ → Option ℕ → Date → Callback
new_callback env lead_id agent_id due = record {
  id = env.fresh;
  lead_id = lead_id;
  agent_id = agent_id;
  due_at = due;
  status = CallbackStatus.scheduled;
  completed_at = none;
}

abbrev pub add_callback : Bool → Env → ℕ → ℕ → Option Date → List Callback → List Callback
add_callback skip env lead_id agent_id none cs = cs
add_callback true env lead_id agent_id (some due) cs = cs
add_callback false env lead_id agent_id (some due) cs =
    new_callback env lead_id (some agent_id) due ∷ cs

abbrev pub activity : ℕ → ℕ → ActivityType → Option Disposition → Activity
activity lead_id agent_id type d = record {
  lead_id = lead_id;
  agent_id = some agent_id;
  type = type;
  disposition = d;
}

abbrev pub add_note : ℕ → ℕ → Option String → List Note → List Note
add_note lead_id agent_id none ns = ns
add_note lead_id agent_id (some body) ns =
    record { lead_id = lead_id; agent_id = some agent_id; body = body } ∷ ns

-- The activity rows that are written only for a note, and only for a callback.
abbrev pub note_activity : ℕ → ℕ → Option String → List Activity → List Activity
note_activity i a none rows = rows
note_activity i a (some body) rows = activity i a ActivityType.note_added none ∷ rows

abbrev pub callback_activity : Bool → ℕ → ℕ → Option Date → List Activity → List Activity
callback_activity skip i a none rows = rows
callback_activity true i a (some due) rows = rows
callback_activity false i a (some due) rows =
    activity i a ActivityType.callback_scheduled none ∷ rows

-- `if (invalidContact) leadSuppression.create`: the normalized phone, or else the business phone.
abbrev pub add_invalid_phone :
    Disposition → Option String → Lead → List Suppression → List Suppression
add_invalid_phone d note lead rows =
    if is_invalid_contact d
    then record {
      lead_id = some lead.id;
      identifier = get_or (filled lead.normalized_phone) lead.business_phone;
      type = SuppressionType.invalid_phone;
      reason = some (get_or note (disposition_name d));
      active = true;
    }
      ∷ rows
    else rows

-- The transaction, for the Lead and the follow-up time that the checks gave.
unfoldable pub cold_write : Env → InteractionInput → User → Agent → Lead × Option Date → Crm → Crm
cold_write env input user agent (lead, callback_at) s =
    let d = input.disposition in
    let note = trimmed input.note in
    let skip = no_follow_up d (cold_lifecycle_for d) in
    record s {
      leads = update_lead lead.id (cold_touch env.now d callback_at lead) s.leads;
      callbacks =
          add_callback skip env lead.id agent.id callback_at
            (update_where (scheduled_with lead.id agent.id) (complete env.now) s.callbacks);
      activities = callback_activity skip lead.id agent.id callback_at (
          note_activity lead.id agent.id note (
            activity lead.id agent.id ActivityType.disposition_set (some d)
            ∷ activity lead.id agent.id ActivityType.call_completed (some d)
            ∷ s.activities));
      notes = add_note lead.id agent.id note s.notes;
      suppressions = add_invalid_phone d note lead s.suppressions;
      audits =
          record {
            actor = Actor.user_actor user.id user.role;
            action_type = "COLD_LEAD_DISPOSITION_RECORDED";
            entity_id = lead.id;
            reason = none;
          }
          ∷ s.audits;
    }

unfoldable pub log_cold_lead_disposition :
    Env → (String → Option Date) → InteractionInput → Crm → Outcome
log_cold_lead_disposition env to_utc input s =
    if is_do_not_contact input.disposition
    then (err Error.use_dnc_action, s)
    else with_agent (active_agent env (some input.lead_id) s)
        (λ user agent s'.
          transact (cold_checked env to_utc input s') (cold_write env input user agent) s')
        s
