-- ===== src/Aging/Sweep.antt =====
-- `runLeadAgingSweep` (src/lib/lead-aging-jobs.ts).
use crm_mcd.Prelude.{
  ℕ, ◌+◌, ◌-◌, ◌*◌, min, max, Bool, true, false, not, ◌&&◌, Option, none, some, List, [], ◌∷◌, map,
  Date, day_ms, at_most, get_or, is_none, is_some, filter, take, length, insertion_sort, ascending,
  ltb, Result, ok, err,
}
use crm_mcd.Lead.{Lifecycle, Pool, ClaimAction, ActivityType, Lead, Crm, Env, Error, Actor}
use crm_mcd.Lead.Table.{update_lead}
use crm_mcd.Session.{require_feature}
use crm_mcd.OpenPool.{eligible_lifecycle, is_referral_pool}

abbrev pub default_limit : ℕ
default_limit = 100

abbrev pub shark_tank_stall_days : ℕ
shark_tank_stall_days = 21

abbrev pub days_ago : Date → ℕ → Date
days_ago now days = now - days * day_ms

-- `Math.max(1, Math.min(limit ?? 100, 500))`.
unfoldable pub read_limit : Option ℕ → ℕ
read_limit limit = max 1 (min (get_or limit default_limit) 500)

pub record SweepOptions : Type 0 where
  pub now : Option Date
  pub limit : Option ℕ
  pub dry_run : Bool

-- The `where` of the expired claims.
unfoldable pub is_expired_claim : Date → Lead → Bool
is_expired_claim now l =
    is_some l.owner_agent_id
    && (at_most l.open_pool_release_at now
        && (eligible_lifecycle l.lifecycle
            && (not l.dnc
                && (not l.suppressed && (not l.is_referral && not (is_referral_pool l.pool))))))

abbrev pub is_open_pool : Pool → Bool
is_open_pool Pool.open_pool = true
is_open_pool _ = false

abbrev pub is_available : Lifecycle → Bool
is_available Lifecycle.available = true
is_available _ = false

-- The `where` of the Open Pool Leads that stalled.
unfoldable pub is_stalled : Date → Lead → Bool
is_stalled cutoff l =
    is_none l.owner_agent_id
    && (is_open_pool l.pool
        && (is_available l.lifecycle
            && (at_most l.open_pool_release_at cutoff
                && (not l.dnc && (not l.suppressed && not l.is_referral)))))

abbrev pub by_release_then_action : Lead → Lead → Bool
by_release_then_action l m =
    ascending l.open_pool_release_at m.open_pool_release_at
      (ascending l.last_action_at m.last_action_at false)

abbrev pub by_release_then_creation : Lead → Lead → Bool
by_release_then_creation l m =
    ascending l.open_pool_release_at m.open_pool_release_at (ltb l.created_at m.created_at)

unfoldable pub expired_claims : Date → ℕ → Crm → List Lead
unfolding is_expired_claim
expired_claims now limit s =
    take limit (insertion_sort by_release_then_action (filter (is_expired_claim now) s.leads))

-- With no capacity left `take 0` gives the empty list, as the source does without a query.
unfoldable pub stalled_leads : Date → ℕ → Crm → List Lead
unfolding is_stalled
stalled_leads cutoff capacity s =
    take capacity (insertion_sort by_release_then_creation (filter (is_stalled cutoff) s.leads))

abbrev pub return_touch : Date → Lead → Lead
return_touch now l = record l {
  owner_agent_id = none;
  lifecycle = Lifecycle.available;
  pool = Pool.open_pool;
  claimed_at = none;
  next_action_at = none;
  open_pool_release_at = some now;
  last_action_at = some now;
  updated_at = now;
}

unfoldable pub return_lead : Date → Lead → Crm → Crm
return_lead now lead s = record s {
  leads = update_lead lead.id (return_touch now) s.leads;
  claim_events =
      record {
        lead_id = lead.id;
        agent_id = lead.owner_agent_id;
        action = ClaimAction.returned_to_pool;
        reason = some "Automatic 45-day claim timer expiration.";
      }
      ∷ s.claim_events;
  activities =
      record {
        lead_id = lead.id;
        agent_id = lead.owner_agent_id;
        type = ActivityType.lead_released;
        disposition = none;
      }
      ∷ s.activities;
  audits =
      record {
        actor = Actor.system;
        action_type = "LEAD_AUTO_RETURNED_TO_OPEN_POOL";
        entity_id = lead.id;
        reason = some "Automatic 45-day claim timer expiration.";
      }
      ∷ s.audits;
}

abbrev pub promote_touch : Date → Lead → Lead
promote_touch now l = record l {
  pool = Pool.shark_tank;
  next_action_at = none;
  last_action_at = some now;
  updated_at = now;
}

unfoldable pub promote_lead : Date → Lead → Crm → Crm
promote_lead now lead s = record s {
  leads = update_lead lead.id (promote_touch now) s.leads;
  activities =
      record {
        lead_id = lead.id;
        agent_id = none;
        type = ActivityType.lead_released;
        disposition = none;
      }
      ∷ s.activities;
  audits =
      record {
        actor = Actor.system;
        action_type = "LEAD_PROMOTED_TO_SHARK_TANK";
        entity_id = lead.id;
        reason = some "Open Pool record remained unclaimed for 21 days.";
      }
      ∷ s.audits;
}

-- A `for … of` loop over the Leads that were read.
unfoldable pub each : (Lead → Crm → Crm) → List Lead → Crm → Crm
each step [] s = s
each step (l ∷ ls) s = each step ls (step l s)

pub record ReturnPreview : Type 0 where
  pub lead_id : ℕ
  pub current_owner_agent_id : Option ℕ
  pub current_pool : Pool
  pub current_lifecycle : Lifecycle
  pub current_open_pool_release_at : Option Date
  pub would_set_owner_agent_id : Option ℕ
  pub would_set_pool : Pool
  pub would_set_lifecycle : Lifecycle

unfoldable pub preview_returned_to_open_pool : Lead → ReturnPreview
preview_returned_to_open_pool l = record {
  lead_id = l.id;
  current_owner_agent_id = l.owner_agent_id;
  current_pool = l.pool;
  current_lifecycle = l.lifecycle;
  current_open_pool_release_at = l.open_pool_release_at;
  would_set_owner_agent_id = none;
  would_set_pool = Pool.open_pool;
  would_set_lifecycle = Lifecycle.available;
}

pub record PromotePreview : Type 0 where
  pub lead_id : ℕ
  pub current_pool : Pool
  pub current_lifecycle : Lifecycle
  pub current_open_pool_release_at : Option Date
  pub would_set_pool : Pool

unfoldable pub preview_promoted_to_shark_tank : Lead → PromotePreview
preview_promoted_to_shark_tank l = record {
  lead_id = l.id;
  current_pool = l.pool;
  current_lifecycle = l.lifecycle;
  current_open_pool_release_at = l.open_pool_release_at;
  would_set_pool = Pool.shark_tank;
}

pub record SweepReport : Type 0 where
  pub dry_run : Bool
  pub processed : ℕ
  pub would_process : ℕ
  pub returned_to_open_pool : ℕ
  pub promoted_to_shark_tank : ℕ
  pub would_return_to_open_pool : ℕ
  pub would_promote_to_shark_tank : ℕ
  pub limit : ℕ
  pub cutoff : Date
  pub preview_returned : List ReturnPreview
  pub preview_promoted : List PromotePreview

unfoldable pub sweep_report : Bool → ℕ → Date → List Lead → List Lead → SweepReport
unfolding preview_returned_to_open_pool preview_promoted_to_shark_tank
sweep_report true limit cutoff expired stalled = record {
  dry_run = true;
  processed = 0;
  would_process = length expired + length stalled;
  returned_to_open_pool = 0;
  promoted_to_shark_tank = 0;
  would_return_to_open_pool = length expired;
  would_promote_to_shark_tank = length stalled;
  limit = limit;
  cutoff = cutoff;
  preview_returned = map preview_returned_to_open_pool expired;
  preview_promoted = map preview_promoted_to_shark_tank stalled;
}
sweep_report false limit cutoff expired stalled = record {
  dry_run = false;
  processed = length expired + length stalled;
  would_process = 0;
  returned_to_open_pool = length expired;
  promoted_to_shark_tank = length stalled;
  would_return_to_open_pool = 0;
  would_promote_to_shark_tank = 0;
  limit = limit;
  cutoff = cutoff;
  preview_returned = [];
  preview_promoted = [];
}

-- The transaction of both loops; a dry run has none.
unfoldable pub sweep_write : Bool → Date → List Lead → List Lead → Crm → Crm
unfolding each return_lead promote_lead
sweep_write true now expired stalled s = s
sweep_write false now expired stalled s =
    each (promote_lead now) stalled (each (return_lead now) expired s)

unfoldable pub run_lead_aging_sweep : Env → SweepOptions → Crm → Result Error SweepReport × Crm
unfolding require_feature read_limit expired_claims stalled_leads sweep_report sweep_write
run_lead_aging_sweep env options s =
    let now = get_or options.now env.now in
    let limit = read_limit options.limit in
    let cutoff = days_ago now shark_tank_stall_days in
    let expired = expired_claims now limit s in
    let stalled = stalled_leads cutoff (limit - length expired) s in
    elim (require_feature env.features.leads) [
      | err e ↦ (err e, s)
      | ok _ ↦ (
        ok (sweep_report options.dry_run limit cutoff expired stalled),
        sweep_write options.dry_run now expired stalled s,
      )
    ]
