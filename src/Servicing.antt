-- ===== src/Servicing.antt =====
-- Client servicing: the tables of database/migrations/20260702_002_client_servicing_health.sql that the
-- operations of src/lib/client-servicing-actions.ts, src/lib/client-servicing-resolution.ts,
-- src/lib/client-launch-actions.ts, src/lib/lead-client-account.ts and src/lib/service-cadence-jobs.ts
-- write, as one record. The database refuses a row whose primary key or whose location is taken. Ids are numbers, as with
-- the Leads; `nextRenewalAt`, which nothing here writes, and the metadata columns are left out.
pub mod Actors
pub mod Accounts
pub mod Launch
pub mod Cases
pub mod Standing
pub mod Cadence
pub mod Sweep
pub mod Scan
pub mod Runs
pub mod Keys
pub mod Payments
pub mod Closed
pub mod OneAccount
pub mod House
pub mod Gate
pub mod Access
pub mod Checkins
pub mod Bounds
use crm_mcd.Prelude.{
  ℕ, Bool, true, false, ◌&&◌, Option, List, ◌∷◌, String, Date, ◌==◌, Result, ok, err,
}
use crm_mcd.Lead.{Lifecycle, User, Agent, Actor, Audit, Error, Env}

pub data ClientStatus : Type 0 where
  pending_launch active payment_failed at_risk house offboarded : ClientStatus

pub data HealthStatus : Type 0 where
  healthy payment_failed needs_attention at_risk : HealthStatus

-- With the value that prisma/migrations/20260715120000_add_service_cadence_trigger adds.
pub data Trigger : Type 0 where
  client_request support_issue payment_problem renewal_event escalation manual_review : Trigger
  service_cadence : Trigger

pub data Priority : Type 0 where
  low normal high urgent : Priority

pub data CaseStatus : Type 0 where
  opened in_progress waiting_on_client resolved cancelled : CaseStatus

pub data ServiceActivityType : Type 0 where
  account_created launch_completed client_request support_response payment_issue :
      ServiceActivityType
  payment_resolved renewal_event escalation resolution health_confirmation : ServiceActivityType
  ownership_retained house_transfer : ServiceActivityType

pub data TransferReason : Type 0 where
  agent_continues_service agent_declines_service retired terminated : TransferReason
  manager_reassignment house_review : TransferReason

-- `SourceLeadRow`, with the name of the company.
pub record SourceLead : Type 0 where
  pub id : ℕ
  pub company : String
  pub lifecycle : Lifecycle
  pub dnc : Bool
  pub suppressed : Bool
  pub owner_agent_id : Option ℕ
  pub ghl_contact_id : Option String

pub record Account : Type 0 where
  pub id : ℕ
  pub lead_id : Option ℕ
  pub client_name : String
  pub ghl_location_id : Option String
  pub ghl_contact_id : Option String
  pub package_code : String
  pub account_owner_agent_id : Option ℕ
  pub originating_agent_id : Option ℕ
  pub status : ClientStatus
  pub health_status : HealthStatus
  pub current_on_payments : Bool
  pub last_successful_payment_at : Option Date
  pub last_payment_issue_at : Option Date
  pub last_client_request_at : Option Date
  pub last_support_response_at : Option Date
  pub last_escalation_at : Option Date
  pub last_resolved_at : Option Date
  pub needs_attention_at : Option Date
  pub launch_checklist_complete : Bool
  pub launch_completed_at : Option Date
  pub house_transferred_at : Option Date
  pub house_transfer_reason : Option String
  pub created_at : Date
  pub updated_at : Date

pub record ServiceCase : Type 0 where
  pub id : ℕ
  pub client_account_id : ℕ
  pub assigned_agent_id : Option ℕ
  pub trigger : Trigger
  pub priority : Priority
  pub status : CaseStatus
  pub summary : String
  pub opened_at : Date
  pub due_at : Option Date
  pub resolved_at : Option Date
  pub resolution_note : Option String
  pub updated_at : Date

pub record ServiceActivity : Type 0 where
  pub client_account_id : ℕ
  pub service_case_id : Option ℕ
  pub agent_id : Option ℕ
  pub type : ServiceActivityType
  pub notes : String
  pub occurred_at : Date

pub record AssignmentEvent : Type 0 where
  pub client_account_id : ℕ
  pub from_agent_id : Option ℕ
  pub to_agent_id : Option ℕ
  pub reason : TransferReason
  pub note : String
  pub created_by_id : ℕ

pub record Desk : Type 0 where
  pub leads : List SourceLead
  pub agents : List Agent
  pub accounts : List Account
  pub cases : List ServiceCase
  pub activities : List ServiceActivity
  pub assignments : List AssignmentEvent
  pub audits : List Audit

pub data DeskError : Type 0 where
  session : Error → DeskError
  agent_record_required account_not_found account_not_yours : DeskError
  case_not_of_account case_not_yours case_closed : DeskError
  lead_not_found lead_suppressed lead_not_won lead_has_account : DeskError
  not_pending_launch not_launchable servicing_agent_required id_taken location_taken : DeskError

abbrev pub lead_key : SourceLead → ℕ
lead_key l = l.id

abbrev pub account_key : Account → ℕ
account_key a = a.id

abbrev pub case_key : ServiceCase → ℕ
case_key c = c.id

-- `status IN ('OPEN','IN_PROGRESS','WAITING_ON_CLIENT')`.
abbrev pub is_open : CaseStatus → Bool
is_open CaseStatus.opened = true
is_open CaseStatus.in_progress = true
is_open CaseStatus.waiting_on_client = true
is_open _ = false

abbrev pub open_on : ℕ → ServiceCase → Bool
open_on account_id c = c.client_account_id == account_id && is_open c.status

-- What a request answers, and the tables after it: `throw` before the transaction writes nothing.
abbrev pub Outcome : Type 0 → Type 0
Outcome B = Result DeskError B × Desk

unfoldable pub transact :
    {A B : Type 0} → Result DeskError A → (A → Desk → B × Desk) → Desk → Outcome B
transact (ok a) write s = let (b, s') = write a s in (ok b, s')
transact (err e) write s = (err e, s)

abbrev pub audit_by : User → String → ℕ → Option String → Audit
audit_by user action entity reason = record {
  actor = Actor.user_actor user.id user.role;
  action_type = action;
  entity_id = entity;
  reason = reason;
}
