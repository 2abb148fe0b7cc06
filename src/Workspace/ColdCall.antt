-- ===== src/Workspace/ColdCall.antt =====
-- `logColdLeadCallInitiated` (src/lib/lead-workspace.ts), and the query for a Lead of the Cold
-- workspace that it shares with the disposition handler.
use crm_mcd.Prelude.{
  ℕ, Bool, true, false, not, ◌&&◌, none, some, ◌∷◌, Result, ok, ◌>>=◌, ◌>>◌, or_throw, require,
  is_none, Date,
}
use crm_mcd.Lead.{Lifecycle, Pool, ActivityType, Lead, Crm, Env, Error, User, Agent, Actor}
use crm_mcd.Lead.Table.{find_lead, update_lead}
use crm_mcd.Lead.Handler.{Outcome, transact, with_agent}
use crm_mcd.Session.{active_agent}

abbrev pub in_cold_pools : Pool → Bool
in_cold_pools Pool.cold = true
in_cold_pools Pool.hot = true
in_cold_pools Pool.nurture = true
in_cold_pools _ = false

abbrev pub in_cold_lifecycles : Lifecycle → Bool
in_cold_lifecycles Lifecycle.available = true
in_cold_lifecycles Lifecycle.contacted = true
in_cold_lifecycles Lifecycle.nurturing = true
in_cold_lifecycles _ = false

-- The `where` of the two handlers, apart from the id.
unfoldable pub is_cold_lead : Lead → Bool
is_cold_lead l =
    is_none l.owner_agent_id
    && (in_cold_pools l.pool && (in_cold_lifecycles l.lifecycle && (not l.dnc && not l.suppressed)))

-- `findFirst({ where: { id, … } })` and the `throw` after it.
unfoldable pub find_cold_lead : ℕ → Crm → Result Error Lead
unfolding is_cold_lead
find_cold_lead i s = do
  lead ← or_throw (find_lead i s.leads) Error.cold_lead_unavailable
  require (is_cold_lead lead) Error.cold_lead_unavailable
  ok lead

abbrev pub call_touch : Date → Lead → Lead
call_touch now l = record l { last_action_at = some now; updated_at = now }

unfoldable pub call_write : Env → User → Agent → Lead → Crm → Crm
call_write env user agent lead s = record s {
  leads = update_lead lead.id (call_touch env.now) s.leads;
  activities =
      record {
        lead_id = lead.id;
        agent_id = some agent.id;
        type = ActivityType.call_initiated;
        disposition = none;
      }
      ∷ s.activities;
  audits =
      record {
        actor = Actor.user_actor user.id user.role;
        action_type = "COLD_LEAD_CALL_INITIATED";
        entity_id = lead.id;
        reason = none;
      }
      ∷ s.audits;
}

unfoldable pub log_cold_lead_call_initiated : Env → ℕ → Crm → Outcome
log_cold_lead_call_initiated env lead_id s =
    with_agent (active_agent env (some lead_id) s)
      (λ user agent s'. transact (find_cold_lead lead_id s') (call_write env user agent) s') s
