-- ===== src/Claims.antt =====
-- `claimAvailableLead` (src/lib/claims.ts). The checks read the database, and the write is one
-- conditional update: another request may be served between them, so they are two functions.
pub mod Exclusive
use crm_mcd.Prelude.{
  ℕ, ◌+◌, ◌*◌, Bool, true, false, not, ◌&&◌, Option, none, some, ◌∷◌, String, Date, day_ms, leb,
  ltb, ◌==◌, max, Result, ok, err, ◌>>=◌, ◌>>◌, require, refuse_if, or_throw, holds, is_none,
  is_some, if◌then◌else◌, count_where, update_where,
}
use crm_mcd.Lead.{
  Role, Lifecycle, Pool, ClaimAction, ActivityType, Lead, Crm, Env, Error, User, Agent, Actor,
}
use crm_mcd.Lead.Table.{find_lead, update_lead, find_agent}
use crm_mcd.Lead.Handler.{Outcome}
use crm_mcd.Session.{is_admin_role, require_feature, is_controlled_test, certified}

abbrev pub claim_release_days : ℕ
claim_release_days = 45

-- `CLAIM_ELIGIBLE_LIFECYCLES` and `CLAIM_ELIGIBLE_POOLS`.
abbrev pub is_claim_lifecycle : Lifecycle → Bool
is_claim_lifecycle Lifecycle.contacted = true
is_claim_lifecycle Lifecycle.nurturing = true
is_claim_lifecycle Lifecycle.demo_booked = true
is_claim_lifecycle _ = false

abbrev pub is_claim_pool : Pool → Bool
is_claim_pool Pool.hot = true
is_claim_pool Pool.nurture = true
is_claim_pool _ = false

abbrev pub is_active_lifecycle : Lifecycle → Bool
is_active_lifecycle Lifecycle.claimed = true
is_active_lifecycle Lifecycle.contacted = true
is_active_lifecycle Lifecycle.nurturing = true
is_active_lifecycle Lifecycle.demo_booked = true
is_active_lifecycle _ = false

-- The `where` of the count that is held against the capacity.
unfoldable pub is_active_with : ℕ → Lead → Bool
is_active_with agent_id l =
    holds l.owner_agent_id agent_id
    && (is_active_lifecycle l.lifecycle && (not l.dnc && not l.suppressed))

-- The `where` of the lookup, apart from the id.
unfoldable pub is_claim_eligible : Lead → Bool
is_claim_eligible l =
    is_none l.owner_agent_id
    && (is_claim_lifecycle l.lifecycle
        && (is_claim_pool l.pool
            && (is_some l.two_way_contact_at && (not l.dnc && not l.suppressed))))

-- `Math.max(1, parseInt(LEAD_CLAIM_CAPACITY) || 50)`: `setting` is the number that is read, if any.
unfoldable pub claim_capacity : Option ℕ → ℕ
claim_capacity none = 50
claim_capacity (some n) = if n == 0 then 50 else n

-- The actor is the signed-in user. The agent behind it is certified and has room for one more.
unfoldable pub claim_agent : Env → Option ℕ → User → ℕ → Crm → Result Error Agent
unfolding require_feature is_controlled_test certified is_active_with claim_capacity
claim_agent env setting actor lead_id s = do
  require_feature env.features.leads
  refuse_if (is_admin_role actor.role && not (is_controlled_test (find_lead lead_id s.leads)))
      Error.use_reassignment
  agent ← certified (find_agent actor.id s.agents)
  refuse_if (leb (claim_capacity setting) (count_where (is_active_with agent.id) s.leads))
      Error.capacity_reached
  ok agent

unfoldable pub claim_target : ℕ → Crm → Result Error Lead
unfolding is_claim_eligible
claim_target lead_id s = do
  lead ← or_throw (find_lead lead_id s.leads) Error.not_claim_eligible
  require (is_claim_eligible lead) Error.not_claim_eligible
  ok lead

-- The checks give the agent, and the Lead as it was read.
unfoldable pub claim_checked : Env → Option ℕ → User → ℕ → Crm → Result Error (Agent × Lead)
unfolding claim_agent claim_target
claim_checked env setting actor lead_id s = do
  agent ← claim_agent env setting actor lead_id s
  lead ← claim_target lead_id s
  ok (agent, lead)

abbrev lifecycle_code : Lifecycle → ℕ
lifecycle_code Lifecycle.raw = 0
lifecycle_code Lifecycle.pending_review = 1
lifecycle_code Lifecycle.available = 2
lifecycle_code Lifecycle.claimed = 3
lifecycle_code Lifecycle.contacted = 4
lifecycle_code Lifecycle.nurturing = 5
lifecycle_code Lifecycle.demo_booked = 6
lifecycle_code Lifecycle.closed_won = 7
lifecycle_code Lifecycle.closed_lost = 8
lifecycle_code Lifecycle.disqualified = 9
lifecycle_code Lifecycle.suppressed = 10

abbrev pool_code : Pool → ℕ
pool_code Pool.cold = 0
pool_code Pool.open_pool = 1
pool_code Pool.hot = 2
pool_code Pool.referral = 3
pool_code Pool.shark_tank = 4
pool_code Pool.house = 5
pool_code Pool.nurture = 6

-- `lifecycle: lead.lifecycle` and `pool: lead.pool` in a query.
unfoldable pub same_state : Lead → Lead → Bool
same_state l m =
    lifecycle_code l.lifecycle == lifecycle_code m.lifecycle && pool_code l.pool == pool_code m.pool

-- The `where` of the conditional update: nothing that the checks relied on has changed since.
unfoldable pub still_claimable : Lead → Lead → Bool
unfolding same_state
still_claimable lead l =
    l.id == lead.id
    && (is_none l.owner_agent_id
        && (same_state l lead && (is_some l.two_way_contact_at && (not l.dnc && not l.suppressed))))

abbrev pub claim_touch : Date → Agent → Lead → Lead
claim_touch now agent l = record l {
  owner_agent_id = some agent.id;
  lifecycle = Lifecycle.claimed;
  claimed_at = some now;
  last_action_at = some now;
  open_pool_release_at = some (now + claim_release_days * day_ms);
  updated_at = now;
}

-- `updateMany` with its count, and the rows that are written only when it is 1.
unfoldable pub claim_write : Env → User → Agent × Lead → Crm → Outcome
unfolding still_claimable
claim_write env actor (agent, lead) s =
    if count_where (still_claimable lead) s.leads == 1
    then (
      ok tt,
      record s {
        leads = update_where (still_claimable lead) (claim_touch env.now agent) s.leads;
        claim_events =
            record {
              lead_id = lead.id;
              agent_id = some agent.id;
              action = ClaimAction.claimed;
              reason = some "Two-way contact verified before claim.";
            }
            ∷ s.claim_events;
        activities =
            record {
              lead_id = lead.id;
              agent_id = some agent.id;
              type = ActivityType.lead_claimed;
              disposition = none;
            }
            ∷ s.activities;
        audits =
            record {
              actor = Actor.user_actor actor.id actor.role;
              action_type = "LEAD_CLAIMED";
              entity_id = lead.id;
              reason = none;
            }
            ∷ s.audits;
      },
    )
    else (
      err Error.claim_lost,
      record s { leads = update_where (still_claimable lead) (claim_touch env.now agent) s.leads },
    )

unfoldable pub claim_available_lead : Env → Option ℕ → User → ℕ → Crm → Outcome
claim_available_lead env setting actor lead_id s =
    elim (claim_checked env setting actor lead_id s) [
      | ok found ↦ claim_write env actor found s
      | err e ↦ (err e, s)
    ]
