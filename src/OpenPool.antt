-- ===== src/OpenPool.antt =====
-- `releaseLeadToOpenPool` (src/lib/open-pool-release.ts).
pub mod Guard
use crm_mcd.Prelude.{
  ℕ, Bool, true, false, ◌||◌, none, some, ◌∷◌, String, Date, Result, ok, ◌>>=◌, ◌>>◌, require,
  refuse_if, or_throw, is_none,
}
use crm_mcd.Lead.{Lifecycle, Pool, ClaimAction, ActivityType, Lead, Crm, Env, Error, User, Actor}
use crm_mcd.Lead.Table.{find_lead, update_lead}
use crm_mcd.Lead.Handler.{Outcome, transact}
use crm_mcd.Session.{is_admin_role, require_feature, require_role}

-- `eligibleLifecycle`.
abbrev pub eligible_lifecycle : Lifecycle → Bool
eligible_lifecycle Lifecycle.claimed = true
eligible_lifecycle Lifecycle.contacted = true
eligible_lifecycle Lifecycle.nurturing = true
eligible_lifecycle _ = false

abbrev pub is_demo_booked : Lifecycle → Bool
is_demo_booked Lifecycle.demo_booked = true
is_demo_booked _ = false

abbrev pub is_referral_pool : Pool → Bool
is_referral_pool Pool.referral = true
is_referral_pool _ = false

unfoldable pub release_checked : Env → ℕ → Crm → Result Error (User × Lead)
unfolding require_feature require_role
release_checked env lead_id s = do
  require_feature env.features.leads
  actor ← require_role is_admin_role env.session
  lead ← or_throw (find_lead lead_id s.leads) Error.lead_not_found
  refuse_if (lead.dnc || lead.suppressed) Error.suppressed_record
  refuse_if (lead.is_referral || is_referral_pool lead.pool) Error.referral_protected
  refuse_if (is_demo_booked lead.lifecycle) Error.demo_booked_protected
  refuse_if (is_none lead.owner_agent_id || is_none lead.two_way_contact_at)
      Error.needs_two_way_contact
  require (eligible_lifecycle lead.lifecycle) Error.not_pool_eligible
  ok (actor, lead)

abbrev pub release_touch : Date → Lead → Lead
release_touch now l = record l {
  owner_agent_id = none;
  lifecycle = Lifecycle.available;
  pool = Pool.open_pool;
  open_pool_release_at = some now;
  next_action_at = none;
  last_action_at = some now;
  updated_at = now;
}

unfoldable pub release_write : Env → String → User × Lead → Crm → Crm
release_write env reason (actor, lead) s = record s {
  leads = update_lead lead.id (release_touch env.now) s.leads;
  claim_events =
      record {
        lead_id = lead.id;
        agent_id = lead.owner_agent_id;
        action = ClaimAction.returned_to_pool;
        reason = some reason;
      }
      ∷ s.claim_events;
  activities =
      record {
        lead_id = lead.id;
        agent_id = lead.owner_agent_id;
        type = ActivityType.lead_released;
        disposition = none;
      }
      ∷ s.activities;
  audits =
      record {
        actor = Actor.user_actor actor.id actor.role;
        action_type = "LEAD_RETURNED_TO_OPEN_POOL";
        entity_id = lead.id;
        reason = some reason;
      }
      ∷ s.audits;
}

unfoldable pub release_lead_to_open_pool : Env → ℕ → String → Crm → Outcome
release_lead_to_open_pool env lead_id reason s =
    transact (release_checked env lead_id s) (release_write env reason) s
