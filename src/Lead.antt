-- ===== src/Lead.antt =====
-- The data that the Lead operations share: the enumerations and models of prisma/schema.prisma that
-- they read and write, the signed-in user (src/lib/authz.ts), the errors that they throw, and the
-- database as one record. Ids (cuids and uuids, never empty) are only compared, so they are numbers.
-- The metadata columns of the activity and audit rows, which no code reads back, are left out.
pub mod Table
pub mod Handler
use crm_mcd.Prelude.{ℕ, Bool, Option, List, String, Date}

pub data Role : Type 0 where
  owner super_admin sales_manager compliance_manager finance_manager : Role
  agent former_servicing_agent read_only house_service : Role

pub data UserStatus : Type 0 where
  invited active suspended disabled : UserStatus

pub data Lifecycle : Type 0 where
  raw pending_review available claimed contacted nurturing demo_booked : Lifecycle
  closed_won closed_lost disqualified suppressed : Lifecycle

pub data Pool : Type 0 where
  cold open_pool hot referral shark_tank house nurture : Pool

pub data Disposition : Type 0 where
  no_answer voicemail callback_requested qualified not_interested do_not_contact : Disposition
  wrong_number out_of_business demo_booked follow_up : Disposition

pub data CallbackStatus : Type 0 where
  scheduled completed cancelled : CallbackStatus

pub data ClaimAction : Type 0 where
  claimed released reassigned returned_to_pool denied : ClaimAction

pub data ActivityType : Type 0 where
  lead_created lead_claimed lead_released call_initiated call_completed note_added : ActivityType
  disposition_set callback_scheduled callback_completed dnc_requested : ActivityType
  demo_booked reassigned : ActivityType

pub data SuppressionType : Type 0 where
  dnc opt_out invalid_phone duplicate compliance_hold legal_hold : SuppressionType

pub record User : Type 0 where
  pub id : ℕ
  pub role : Role
  pub status : UserStatus
  pub email : String

pub record Agent : Type 0 where
  pub id : ℕ
  pub user_id : ℕ
  pub personal_email : String
  pub can_claim_leads : Bool

pub record Lead : Type 0 where
  pub id : ℕ
  pub email : Option String
  pub business_phone : String
  pub normalized_phone : Option String
  pub source : Option String
  pub source_reference : Option String
  pub campaign_name : Option String
  pub campaign_external_id : Option String
  pub source_detail : Option String
  pub dedupe_key : Option String
  pub lifecycle : Lifecycle
  pub pool : Pool
  pub owner_agent_id : Option ℕ
  pub claimed_at : Option Date
  pub two_way_contact_at : Option Date
  pub last_action_at : Option Date
  pub next_action_at : Option Date
  pub open_pool_release_at : Option Date
  pub is_referral : Bool
  pub suppressed : Bool
  pub dnc : Bool
  pub ghl_contact_id : Option String
  pub ghl_opportunity_id : Option String
  pub ghl_appointment_id : Option String
  pub created_at : Date
  pub updated_at : Date

pub record Callback : Type 0 where
  pub id : ℕ
  pub lead_id : ℕ
  pub agent_id : Option ℕ
  pub due_at : Date
  pub status : CallbackStatus
  pub completed_at : Option Date

pub record Suppression : Type 0 where
  pub lead_id : Option ℕ
  pub identifier : String
  pub type : SuppressionType
  pub reason : Option String
  pub active : Bool

pub record Note : Type 0 where
  pub lead_id : ℕ
  pub agent_id : Option ℕ
  pub body : String

pub record Activity : Type 0 where
  pub lead_id : ℕ
  pub agent_id : Option ℕ
  pub type : ActivityType
  pub disposition : Option Disposition

pub record ClaimEvent : Type 0 where
  pub lead_id : ℕ
  pub agent_id : Option ℕ
  pub action : ClaimAction
  pub reason : Option String

-- Who an audit row names: nobody, a user with a role, or the role `SYSTEM` of a scheduled job.
pub data Actor : Type 0 where
  anonymous system : Actor
  user_actor : ℕ → Role → Actor

pub record Audit : Type 0 where
  pub actor : Actor
  pub action_type : String
  pub entity_id : ℕ
  pub reason : Option String

pub record Crm : Type 0 where
  pub leads : List Lead
  pub callbacks : List Callback
  pub suppressions : List Suppression
  pub notes : List Note
  pub activities : List Activity
  pub claim_events : List ClaimEvent
  pub audits : List Audit
  pub agents : List Agent

-- src/lib/features.ts.
pub record Features : Type 0 where
  pub leads : Bool
  pub commissions : Bool
  pub servicing : Bool
  pub finance : Bool

-- What a request brings: the gates, the user of its session, the time that `new Date()` reads, and
-- the id that the database gives to a row that the request creates.
pub record Env : Type 0 where
  pub features : Features
  pub session : Option User
  pub now : Date
  pub fresh : ℕ

pub data Error : Type 0 where
  feature_disabled login_required forbidden : Error
  lead_access_pending admins_need_lead_id test_lead_not_found not_controlled_test : Error
  use_dnc_action cold_lead_unavailable invalid_pacific_time past_pacific_time : Error
  callback_time_required record_unavailable use_reassignment capacity_reached : Error
  not_claim_eligible claim_lost lead_not_found suppressed_record referral_protected : Error
  demo_booked_protected needs_two_way_contact not_pool_eligible row_not_found : Error
