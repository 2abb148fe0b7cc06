-- ===== src/Workspace/Interaction.antt =====
-- `logLeadInteraction` (src/lib/lead-workspace.ts): an agent records a call with a Lead that it owns.
use crm_mcd.Prelude.{
  Bool, not, ◌&&◌, Option, none, some, ◌∷◌, String, Date, Result, ok, err, ◌>>=◌, ◌>>◌, or_throw,
  require, holds, get_or, trimmed, update_where, if◌then◌else◌,
}
use crm_mcd.Lead.{ActivityType, Lead, Crm, Env, Error, User, Agent, Actor, Disposition}
use crm_mcd.Lead.Table.{find_lead, update_lead, scheduled_with}
use crm_mcd.Lead.Handler.{Outcome, transact, with_agent}
use crm_mcd.Session.{active_agent}
use crm_mcd.Workspace.Rules.{
  InteractionInput, is_two_way_contact, is_invalid_contact, is_do_not_contact, lifecycle_for,
  pacific_date_time, is_terminal,
}
use crm_mcd.Workspace.ColdDisposition.{
  complete, add_callback, activity, add_note, note_activity, callback_activity, add_invalid_phone,
}

-- The `where`, apart from the id: the agent's own Lead, and no block on it.
unfoldable pub is_own_lead : Agent → Lead → Bool
is_own_lead agent l = holds l.owner_agent_id agent.id && (not l.dnc && not l.suppressed)

unfoldable pub interaction_checked :
    Env
    → (String → Option Date)
    → InteractionInput
    → Agent
    → Crm
    → Result Error (Lead × Option Date)
unfolding is_own_lead pacific_date_time
interaction_checked env to_utc input agent s = do
  lead ← or_throw (find_lead input.lead_id s.leads) Error.record_unavailable
  require (is_own_lead agent lead) Error.record_unavailable
  callback_at ← pacific_date_time to_utc env.now input.callback_at_pacific
  ok (lead, callback_at)

abbrev pub interaction_touch : Date → Disposition → Option Date → Lead → Lead → Lead
interaction_touch now d callback_at lead l = record l {
  lifecycle = lifecycle_for d;
  last_action_at = some now;
  next_action_at = if is_terminal (lifecycle_for d) then none else callback_at;
  two_way_contact_at =
      if is_two_way_contact d
      then some (get_or lead.two_way_contact_at now)
      else lead.two_way_contact_at;
  suppressed = is_invalid_contact d;
  updated_at = now;
}

unfoldable pub interaction_write :
    Env → InteractionInput → User → Agent → Lead × Option Date → Crm → Crm
interaction_write env input user agent (lead, callback_at) s =
    let d = input.disposition in
    let note = trimmed input.note in
    let skip = is_terminal (lifecycle_for d) in
    record s {
      leads = update_lead lead.id (interaction_touch env.now d callback_at lead) s.leads;
      callbacks =
          add_callback skip env lead.id agent.id callback_at
            (update_where (scheduled_with lead.id agent.id) (complete env.now) s.callbacks);
      activities = callback_activity skip lead.id agent.id callback_at (
          note_activity lead.id agent.id note
            (activity lead.id agent.id ActivityType.call_completed (some d) ∷ s.activities));
      notes = add_note lead.id agent.id note s.notes;
      suppressions = add_invalid_phone d note lead s.suppressions;
      audits =
          record {
            actor = Actor.user_actor user.id user.role;
            action_type = "LEAD_INTERACTION_RECORDED";
            entity_id = lead.id;
            reason = none;
          }
          ∷ s.audits;
    }

-- `activeAgent()` is called with no Lead, so an admin does not get through.
unfoldable pub log_lead_interaction :
    Env → (String → Option Date) → InteractionInput → Crm → Outcome
log_lead_interaction env to_utc input s =
    if is_do_not_contact input.disposition
    then (err Error.use_dnc_action, s)
    else with_agent (active_agent env none s)
        (λ user agent s'.
          transact (interaction_checked env to_utc input agent s')
            (interaction_write env input user agent) s')
        s
