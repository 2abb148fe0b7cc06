-- ===== src/Workspace/Dnc.antt =====
-- `suppressLeadForDnc` (src/lib/lead-workspace.ts).
use crm_mcd.Prelude.{
  ℕ, Bool, true, not, ◌&&◌, ◌||◌, Option, none, some, ◌∷◌, String, Date, Result, ok, ◌>>=◌, ◌>>◌,
  or_throw, require, holds, is_none, get_or, trimmed, filled, update_where,
}
use crm_mcd.Lead.{
  Lifecycle, Disposition, ActivityType, SuppressionType, Lead, Crm, Env, Error, User, Agent, Actor,
}
use crm_mcd.Lead.Table.{find_lead, update_lead, scheduled_on, cancel}
use crm_mcd.Lead.Handler.{Outcome, transact, with_agent}
use crm_mcd.Session.{active_agent}

-- The `where`, apart from the id: no block yet, and the agent's own Lead or nobody's.
unfoldable pub may_suppress : Agent → Lead → Bool
may_suppress agent l =
    not l.dnc && (not l.suppressed && (holds l.owner_agent_id agent.id || is_none l.owner_agent_id))

unfoldable pub dnc_checked : ℕ → Agent → Crm → Result Error Lead
unfolding may_suppress
dnc_checked i agent s = do
  lead ← or_throw (find_lead i s.leads) Error.record_unavailable
  require (may_suppress agent lead) Error.record_unavailable
  ok lead

abbrev pub dnc_touch : Date → Lead → Lead
dnc_touch now l = record l {
  lifecycle = Lifecycle.suppressed;
  dnc = true;
  suppressed = true;
  last_action_at = some now;
  next_action_at = none;
  open_pool_release_at = none;
  updated_at = now;
}

unfoldable pub dnc_write : Env → Option String → User → Agent → Lead → Crm → Crm
dnc_write env reason user agent lead s =
    let why = get_or (trimmed reason) "Contact requested no further communication." in
    record s {
      leads = update_lead lead.id (dnc_touch env.now) s.leads;
      callbacks = update_where (scheduled_on lead.id) cancel s.callbacks;
      suppressions =
          record {
            lead_id = some lead.id;
            identifier = get_or (filled lead.normalized_phone) lead.business_phone;
            type = SuppressionType.dnc;
            reason = some why;
            active = true;
          }
          ∷ s.suppressions;
      activities =
          record {
            lead_id = lead.id;
            agent_id = some agent.id;
            type = ActivityType.dnc_requested;
            disposition = some Disposition.do_not_contact;
          }
          ∷ s.activities;
      audits =
          record {
            actor = Actor.user_actor user.id user.role;
            action_type = "LEAD_DNC_APPLIED";
            entity_id = lead.id;
            reason = some why;
          }
          ∷ s.audits;
    }

unfoldable pub suppress_lead_for_dnc : Env → ℕ → Option String → Crm → Outcome
suppress_lead_for_dnc env lead_id reason s =
    with_agent (active_agent env (some lead_id) s)
      (λ user agent s'.
        transact (dnc_checked lead_id agent s') (dnc_write env reason user agent) s')
      s
