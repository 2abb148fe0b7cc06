-- ===== src/PortalRoutes.antt =====
-- The portal's own routes on Leads, apart from src/lib/lead-workspace.ts: `POST` of
-- src/app/api/portal/actions/route.ts and of src/app/api/portal/release/route.ts, from the session on. The bodies
-- are as their schemas let them through (a disposition is none of DO_NOT_CONTACT, texts are trimmed).
pub mod Owned
pub mod Blocked
use crm_mcd.Prelude.{
  ℕ, ◌+◌, ◌*◌, ltb, Bool, true, false, ◌||◌, not, Option, none, some, ◌∷◌, String, Date, Result, ok,
  err, ◌>>=◌, ◌>>◌, require, refuse_if, or_throw, holds, is_some, get_or, day_ms, if◌then◌else◌,
}
use crm_mcd.Lead.{
  Lifecycle, Disposition, CallbackStatus, ClaimAction, ActivityType, Lead, Crm, Env, Error, User,
  Agent, Actor, Callback,
}
use crm_mcd.Lead.Table.{find_lead, update_lead, find_agent}
use crm_mcd.Session.{is_admin_role, is_agent_role, require_role}

pub data PortalError : Type 0 where
  session : Error → PortalError
  not_found access_denied note_required suppressed_record : PortalError
  future_time_required disposition_required not_releasable : PortalError

abbrev pub Answer : Type 0
Answer = Result PortalError (Unit {0}) × Crm

-- The database that a request leaves: nothing is written when it is refused.
abbrev pub commit : Result PortalError Crm → Crm → Answer
commit (ok t) s = (ok tt, t)
commit (err e) s = (err e, s)

abbrev signed_in : Result Error User → Result PortalError User
signed_in (ok user) = ok user
signed_in (err e) = err (PortalError.session e)

-- `agent && lead.ownerAgentId === agent.id`.
abbrev pub owns : Option Agent → Lead → Bool
owns none lead = false
owns (some agent) lead = holds lead.owner_agent_id agent.id

-- `agent?.id`.
abbrev pub id_of : Option Agent → Option ℕ
id_of none = none
id_of (some agent) = some agent.id

-- What both routes check first: an administrator, or the agent whose Lead it is.
unfoldable pub portal_access : Env → ℕ → Crm → Result PortalError (User × Option Agent × Lead)
unfolding require_role
portal_access env lead_id s = do
  require env.features.leads PortalError.not_found
  actor ← signed_in (require_role (λ r. is_agent_role r || is_admin_role r) env.session)
  let agent = find_agent actor.id s.agents
  lead ← or_throw (find_lead lead_id s.leads) PortalError.access_denied
  require (is_admin_role actor.role || owns agent lead) PortalError.access_denied
  ok (actor, agent, lead)

-- `!note || note.length < 2`, of a text that is trimmed.
abbrev is_note : String → Bool
is_note (String.[]) = false
is_note (String.◌∷◌ a (String.[])) = false
is_note _ = true

abbrev pub portal_note : Option String → Result PortalError String
portal_note none = err PortalError.note_required
portal_note (some note) = if is_note note then ok note else err PortalError.note_required

abbrev pub acted : Date → Lead → Lead
acted now l = record l { last_action_at = some now; updated_at = now }

abbrev pub called_back : Date → Date → Lead → Lead
called_back now due l = record l {
  next_action_at = some due;
  last_action_at = some now;
  updated_at = now;
}

abbrev pub is_two_way : Disposition → Bool
is_two_way Disposition.qualified = true
is_two_way Disposition.callback_requested = true
is_two_way Disposition.demo_booked = true
is_two_way _ = false

abbrev pub is_demo : Disposition → Bool
is_demo Disposition.demo_booked = true
is_demo _ = false

-- `twoWayContactAt` and `openPoolReleaseAt`, by the Lead that was read.
abbrev pub contact_at : Date → Disposition → Lead → Option Date
contact_at now d lead =
    if is_two_way d then some (get_or lead.two_way_contact_at now) else lead.two_way_contact_at

abbrev pub release_at : Disposition → Option Date → Lead → Option Date
release_at d none lead = if is_demo d then none else lead.open_pool_release_at
release_at d (some at) lead = if is_demo d then none else some (at + 45 * day_ms)

abbrev pub disposed : Date → Disposition → Lead → Lead → Lead
disposed now d lead l = record l {
  lifecycle = if is_demo d then Lifecycle.demo_booked else Lifecycle.contacted;
  two_way_contact_at = contact_at now d lead;
  open_pool_release_at = release_at d (contact_at now d lead) lead;
  last_action_at = some now;
  updated_at = now;
}

-- A change of the Lead, with its activity and its audit row.
abbrev pub lead_write :
    ActivityType
    → Option Disposition
    → String
    → Option String
    → User × Option Agent × Lead
    → (Lead → Lead)
    → Crm
    → Crm
lead_write type d action reason (actor, agent, lead) touch s = record s {
  leads = update_lead lead.id touch s.leads;
  activities =
      record { lead_id = lead.id; agent_id = id_of agent; type = type; disposition = d }
      ∷ s.activities;
  audits =
      record {
        actor = Actor.user_actor actor.id actor.role;
        action_type = action;
        entity_id = lead.id;
        reason = reason;
      }
      ∷ s.audits;
}

abbrev pub with_note : User × Option Agent × Lead → String → Crm → Crm
with_note (actor, agent, lead) note s = record s {
  notes = record { lead_id = lead.id; agent_id = id_of agent; body = note } ∷ s.notes;
}

abbrev pub with_callback : Env → User × Option Agent × Lead → Date → Crm → Crm
with_callback env (actor, agent, lead) due s = record s {
  callbacks =
      record {
        id = env.fresh;
        lead_id = lead.id;
        agent_id = id_of agent;
        due_at = due;
        status = CallbackStatus.scheduled;
        completed_at = none;
      }
      ∷ s.callbacks;
}

unfoldable pub callback_write : Env → User × Option Agent × Lead → Date → String → Crm → Crm
callback_write env found due body s =
    lead_write ActivityType.callback_scheduled none "LEAD_CALLBACK_SCHEDULED" none found
      (called_back env.now due) (with_callback env found due (with_note found body s))

pub data PortalAction : Type 0 where
  call note : PortalAction
  callback : Option Date → PortalAction
  disposition : Option Disposition → PortalAction

-- `dueAt && dueAt > now`.
abbrev pub later_date : Date → Option Date → Result PortalError Date
later_date now none = err PortalError.future_time_required
later_date now (some due) = if ltb now due then ok due else err PortalError.future_time_required

-- The checks of an action past those of access, and what its transaction makes of the database.
unfoldable pub act_on :
    Env → PortalAction → Option String → User × Option Agent × Lead → Crm → Result PortalError Crm
unfolding callback_write
act_on env PortalAction.call text (actor, agent, lead) s = do
  refuse_if (lead.dnc || lead.suppressed) PortalError.suppressed_record
  ok (
      lead_write ActivityType.call_initiated none "LEAD_CALL_INITIATED" none (actor, agent, lead)
        (acted env.now) s)
act_on env PortalAction.note text found s = do
  body ← portal_note text
  ok (
      lead_write ActivityType.note_added none "LEAD_NOTE_ADDED" none found (acted env.now)
        (with_note found body s))
act_on env (PortalAction.callback due_at) text found s = do
  body ← portal_note text
  due ← later_date env.now due_at
  ok (callback_write env found due body s)
act_on env (PortalAction.disposition chosen) text (actor, agent, lead) s = do
  body ← portal_note text
  d ← or_throw chosen PortalError.disposition_required
  ok (
      lead_write ActivityType.disposition_set (some d) "LEAD_DISPOSITION_SET" none
        (actor, agent, lead) (disposed env.now d lead) (with_note (actor, agent, lead) body s))

unfoldable pub portal_action : Env → ℕ → PortalAction → Option String → Crm → Answer
unfolding portal_access act_on
portal_action env lead_id action text s =
    commit (do found ← portal_access env lead_id s; act_on env action text found s) s

abbrev pub is_booked_or_won : Lifecycle → Bool
is_booked_or_won Lifecycle.demo_booked = true
is_booked_or_won Lifecycle.closed_won = true
is_booked_or_won _ = false

abbrev pub let_go : Date → Lead → Lead
let_go now l = record l {
  owner_agent_id = none;
  lifecycle = Lifecycle.available;
  claimed_at = none;
  open_pool_release_at = none;
  last_action_at = some now;
  updated_at = now;
}

unfoldable pub let_go_of :
    Env → Option String → User × Option Agent × Lead → Crm → Result PortalError Crm
let_go_of env reason (actor, agent, lead) s = do
  refuse_if (is_booked_or_won lead.lifecycle) PortalError.not_releasable
  let t =
      lead_write ActivityType.lead_released none "LEAD_RELEASED" reason (actor, agent, lead)
        (let_go env.now) s
  ok (record t {
    claim_events =
        record {
          lead_id = lead.id;
          agent_id = id_of agent;
          action = ClaimAction.released;
          reason = reason;
        }
        ∷ t.claim_events;
  })

unfoldable pub portal_release : Env → ℕ → Option String → Crm → Answer
unfolding portal_access let_go_of
portal_release env lead_id reason s =
    commit (do found ← portal_access env lead_id s; let_go_of env reason found s) s
