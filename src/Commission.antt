-- ===== src/Commission.antt =====
-- Commissions: the rows of the ledger, its holds and the eligibility decisions, the accounts and agents
-- they name (prisma/schema.prisma), and what an administrator's request brings. Whole cents are natural
-- numbers. The texts that zod trims and measures arrive as the schemas leave them.
pub mod Policy
pub mod Ledger
pub mod Review
pub mod Sound
pub mod Cycle
use crm_mcd.Prelude.{
  ℕ, Bool, Option, List, String, Date, Result, ok, err, ◌>>=◌, ◌>>◌, require, if◌then◌else◌,
}
use crm_mcd.Lead.{User, Actor}
use crm_mcd.Session.{is_admin_role}

pub data ProfileState : Type 0 where
  active retired terminated on_hold missing : ProfileState

pub data ServiceState : Type 0 where
  active house unassigned : ServiceState

pub data EligibilityState : Type 0 where
  pending eligible on_hold ineligible : EligibilityState

pub data EligibilityReason : Type 0 where
  active_service retired agent_declines_service house_transfer terminated : EligibilityReason
  payment_uncleared manual_hold missing_service_owner manual_review : EligibilityReason

pub data LedgerState : Type 0 where
  pending_verification on_hold eligible : LedgerState

pub data EntryType : Type 0 where
  recurring setup_fee refund_offset chargeback_hold manual_adjustment : EntryType

pub data HoldReason : Type 0 where
  payment_uncleared refund chargeback manual_review compliance_review service_ownership : HoldReason
  terminated : HoldReason

-- What a ledger entry says of its hold: the reason of the hold, or the remark of a clearance.
pub data HoldNote : Type 0 where
  reason : HoldReason → HoldNote
  review_required : HoldNote

pub data AccountStatus : Type 0 where
  active house offboarded other : AccountStatus

pub record ClientAccount : Type 0 where
  pub id : ℕ
  pub package_code : String
  pub account_owner_agent_id : Option ℕ
  pub originating_agent_id : Option ℕ
  pub current_on_payments : Bool
  pub status : AccountStatus

pub record Entry : Type 0 where
  pub id : ℕ
  pub client_account_id : Option ℕ
  pub payment_ref : String
  pub payment_occurred_at : Date
  pub entry_type : EntryType
  pub status : LedgerState
  pub package_code : String
  pub earning_agent_id : Option ℕ
  pub originating_agent_id : Option ℕ
  pub gross_collected_cents : ℕ
  pub refund_offset_cents : ℕ
  pub commissionable_cents : Option ℕ
  pub proposed_agent_share_cents : Option ℕ
  pub cleared_at : Option Date
  pub eligible_at : Option Date
  pub hold_reason : Option HoldNote
  pub updated_at : Date

pub record Hold : Type 0 where
  pub id : ℕ
  pub ledger_entry_id : Option ℕ
  pub client_account_id : Option ℕ
  pub agent_id : Option ℕ
  pub reason : HoldReason
  pub active : Bool
  pub released_at : Option Date

pub record Decision : Type 0 where
  pub id : ℕ
  pub client_account_id : ℕ
  pub agent_id : ℕ
  pub status : EligibilityState
  pub reason : EligibilityReason
  pub effective_at : Date
  pub superseded_at : Option Date

pub record Profile : Type 0 where
  pub agent_id : ℕ
  pub status : ProfileState
  pub effective_at : Date
  pub retired_at : Option Date
  pub terminated_at : Option Date
  pub hold_reason : Option String
  pub review_note : Option String

pub record AuditRow : Type 0 where
  pub actor : Actor
  pub action_type : String
  pub entity_id : ℕ

pub record Books : Type 0 where
  pub accounts : List ClientAccount
  pub entries : List Entry
  pub holds : List Hold
  pub decisions : List Decision
  pub profiles : List Profile
  pub agent_ids : List ℕ
  pub audits : List AuditRow

-- `new Date()` and `randomUUID()` of the request, the gate, and the signed-in user.
pub record Request : Type 0 where
  pub now : Date
  pub fresh : ℕ
  pub commissions_enabled : Bool
  pub actor : User

pub data BooksError : Type 0 where
  feature_disabled forbidden invalid_cents refund_above_collected : BooksError
  commissionable_above_net account_not_found entry_not_found entry_not_linked : BooksError
  hold_not_found agent_not_found : BooksError

-- `commissionAdmin`.
unfoldable pub commission_admin : Request → Result BooksError User
commission_admin req = do
  require req.commissions_enabled BooksError.feature_disabled
  require (is_admin_role req.actor.role) BooksError.forbidden
  ok req.actor

abbrev pub audit : Request → String → ℕ → AuditRow
audit req action entity = record {
  actor = Actor.user_actor req.actor.id req.actor.role;
  action_type = action;
  entity_id = entity;
}
